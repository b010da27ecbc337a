-- ===== src/Orders/Bill.antt =====
-- What an order costs, stated from the menu (the dish under each id), and the loops of
-- `createOrder` and `processOrderItem` against it.
use mathlib.Core.List.{append-nil, append_assoc}
use coupang_eats_backend_v.Base.{
  ℤ, pos, String, ◌+ℤ◌, ◌≡◌, refl, sym, ap, ◌∙◌, Option, none, some, List, [], ◌∷◌, ◌++◌, ◌<>◌, All,
  int_laws, Option-cases, Bool-cases, map, find, ◌==◌, if◌then◌else◌, inl, inr, Memᴰ,
}
use coupang_eats_backend_v.Http.{Exception, ok, err, not_found, ok-ne-err, err_inj}
use coupang_eats_backend_v.Entity.{Dish, DishOption, OrderItem, order_item_entity}
use coupang_eats_backend_v.Packages.{Packages, PackageLaws}
use coupang_eats_backend_v.Orders.Dto.{
  CreateOrderItemDto, or_empty, valid_option, add_options, process_order_item, process_items,
  dish_of, item_to_entity,
}

-- what the menu asks for an option of this name: the extra of the first one that is called so, and
-- nothing for a name that it does not have
abbrev pub listed_extra : List DishOption → String → ℤ
listed_extra [] name = pos 0
listed_extra (o ∷ os) name = if o.name == name then o.extra else listed_extra os name

abbrev pub menu_extra : Option (List DishOption) → String → ℤ
menu_extra none name = pos 0
menu_extra (some os) name = listed_extra os name

-- the extras of the options that the customer chose
abbrev pub extras : Dish → List DishOption → ℤ
extras d [] = pos 0
extras d (u ∷ us) = menu_extra d.options u.name +ℤ extras d us

abbrev pub chosen_extras : Dish → Option (List DishOption) → ℤ
chosen_extras d none = pos 0
chosen_extras d (some us) = extras d us

abbrev pub price_of : Option Dish → Option (List DishOption) → ℤ
price_of none us = pos 0
price_of (some d) us = d.price +ℤ chosen_extras d us

-- what an item records: the dish, its name, and the options that the customer chose
abbrev pub Content : Type 0
Content = Option Dish × Option String × Option (List DishOption)

abbrev pub content_of : OrderItem → Content
content_of i = (i.dish, i.dish_name, i.options)

abbrev pub recorded_of : CreateOrderItemDto → Option Dish → List Content
recorded_of dto none = []
recorded_of dto (some d) = (some d, some d.name, dto.options) ∷ []

-- what the code finds for a chosen option
abbrev extra_of : Option DishOption → ℤ
extra_of none = pos 0
extra_of (some o) = o.extra

find-listed_extra :
    (os : List DishOption) (name : String)
    → extra_of (find (λ o. o.name == name) os) ≡ listed_extra os name
find-listed_extra [] name = refl
find-listed_extra (o ∷ os) name = elim (Bool-cases (o.name == name)) [
  | inl hit ↦ rw hit refl
  | inr miss ↦ rw miss (find-listed_extra os name)
]

valid_option-menu_extra :
    (d : Dish) (u : DishOption) (os : Option (List DishOption))
    → d.options ≡ os
    → extra_of (valid_option d u) ≡ menu_extra os u.name
valid_option-menu_extra d u none h = rw h refl
valid_option-menu_extra d u (some os) h = rw h (find-listed_extra os u.name)

-- the snapshot that the order keeps of an item
abbrev pub snapshot_of : CreateOrderItemDto → Option Dish → List OrderItem
snapshot_of dto none = []
snapshot_of dto (some d) = item_to_entity dto d ∷ []

module _ (menu : String → Option Dish) where
  abbrev pub bill : List CreateOrderItemDto → ℤ
  bill [] = pos 0
  bill (i ∷ is) = price_of (menu i.dish_id) i.options +ℤ bill is

  abbrev pub snapshots : List CreateOrderItemDto → List OrderItem
  snapshots [] = []
  snapshots (i ∷ is) = snapshot_of i (menu i.dish_id) ++ snapshots is

  abbrev pub recorded : List CreateOrderItemDto → List Content
  recorded [] = []
  recorded (i ∷ is) = recorded_of i (menu i.dish_id) ++ recorded is

  pub snapshots-recorded :
      (is : List CreateOrderItemDto) → map content_of (snapshots is) ≡ recorded is
  unfolding item_to_entity
  snapshots-recorded [] = refl
  snapshots-recorded (i ∷ is) = elim (Option-cases (menu i.dish_id)) [
    | inl missing ↦ rw missing (snapshots-recorded is)
    | inr (d, at) ↦ rw at (ap (λ cs. (some d, some d.name, i.options) ∷ cs) (snapshots-recorded is))
  ]

  abbrev pub OnMenu : CreateOrderItemDto → Type 0
  OnMenu i = (d : Dish) × (menu i.dish_id ≡ some d)

add_options_lem :
    (d : Dish) (price : ℤ) (us : List DishOption) → add_options d price us ≡ price +ℤ extras d us
unfolding add_options
add_options_lem d price [] = omega int_laws
add_options_lem d price (u ∷ us) = elim (Option-cases (valid_option d u)) [
  | inl unknown ↦
      let e = ap extra_of (sym unknown) ∙ valid_option-menu_extra d u d.options refl in
      rw (unknown, ← e) (add_options_lem d price us ∙ omega int_laws)
  | inr (o, known) ↦
      let e = ap extra_of (sym known) ∙ valid_option-menu_extra d u d.options refl in
      rw (known, ← e) (add_options_lem d (price +ℤ o.extra) us ∙ omega int_laws)
]

or_empty-chosen_extras :
    (d : Dish) (us : Option (List DishOption)) → extras d (or_empty us) ≡ chosen_extras d us
or_empty-chosen_extras d none = refl
or_empty-chosen_extras d (some us) = refl

zero_right : (a : ℤ) → a ≡ a +ℤ pos 0
zero_right a = omega int_laws

-- the loop finds for an item exactly the dish of the menu
abbrev pub Agrees :
    (p : Packages) → List Dish → (String → Option Dish) → CreateOrderItemDto → Type 0
Agrees p dishes menu i = dish_of p dishes i ≡ menu i.dish_id

module _ (p : Packages) (items : PackageLaws p order_item_entity) (dishes : List Dish)
    (menu : String → Option Dish) where
  process_items-step :
      (i : CreateOrderItemDto) (is : List CreateOrderItemDto) (acc : List OrderItem) (total : ℤ)
      (d : Dish)
      → dish_of p dishes i ≡ some d
      → process_items p dishes (i ∷ is) acc total
        ≡ process_items p dishes is
            (acc ++ (item_to_entity i d ∷ []))
            (total +ℤ (d.price +ℤ chosen_extras d i.options))
  unfolding process_items process_order_item
  process_items-step i is acc total d found =
      rw (found, process_items)
        (rw (
          items.create-eq (item_to_entity i d),
          add_options_lem d d.price (or_empty i.options),
          or_empty-chosen_extras d i.options,
        ))

  process_items-stop :
      (i : CreateOrderItemDto) (is : List CreateOrderItemDto) (acc : List OrderItem) (total : ℤ)
      → dish_of p dishes i ≡ none
      → process_items p dishes (i ∷ is) acc total
        ≡ err (not_found ("Dish not found: " <> i.dish_id))
  unfolding process_items
  process_items-stop i is acc total missing = rw (missing, process_items)

  pub process_items-eq :
      (dtos : List CreateOrderItemDto) (acc : List OrderItem) (total : ℤ)
      → All (Agrees p dishes menu) dtos
      → All (OnMenu menu) dtos
      → process_items p dishes dtos acc total
        ≡ ok (acc ++ snapshots menu dtos, total +ℤ bill menu dtos)
  unfolding process_items
  process_items-eq [] acc total agrees known =
      ap ok (λ i. (sym (append-nil acc) i, zero_right total i))
  process_items-eq (i ∷ is) acc total (same, agrees) ((d, at), known) =
      process_items-step i is acc total d (same ∙ at)
      ∙ process_items-eq is _ _ agrees known
      ∙ rw at (
          ap ok
            (λ k. (append_assoc acc (item_to_entity i d ∷ []) (snapshots menu is) k, regroup k)))
    where
      regroup :
          total +ℤ (d.price +ℤ chosen_extras d i.options) +ℤ bill menu is
          ≡ total +ℤ ((d.price +ℤ chosen_extras d i.options) +ℤ bill menu is)
      regroup = omega int_laws

  pub process_items-OnMenu :
      (dtos : List CreateOrderItemDto) (acc : List OrderItem) (total : ℤ) (r : List OrderItem × ℤ)
      → All (Agrees p dishes menu) dtos
      → process_items p dishes dtos acc total ≡ ok r
      → All (OnMenu menu) dtos
  process_items-OnMenu [] acc total r agrees h = tt
  process_items-OnMenu (i ∷ is) acc total r (same, agrees) h =
      elim (Option-cases (menu i.dish_id)) [
        | inl missing ↦
            absurd (ok-ne-err (sym h ∙ process_items-stop i is acc total (same ∙ missing)))
        | inr (d, at) ↦ (
          (d, at),
          process_items-OnMenu is _ _ r agrees
              (sym (process_items-step i is acc total d (same ∙ at)) ∙ h),
        )
      ]

  pub process_items-missing :
      (dtos : List CreateOrderItemDto) (acc : List OrderItem) (total : ℤ) (e : Exception)
      → All (Agrees p dishes menu) dtos
      → process_items p dishes dtos acc total ≡ err e
      → (i : CreateOrderItemDto) × Memᴰ i dtos
        × (menu i.dish_id ≡ none)
        × (e ≡ not_found ("Dish not found: " <> i.dish_id))
  unfolding process_items
  process_items-missing [] acc total e agrees h = absurd (ok-ne-err h)
  process_items-missing (i ∷ is) acc total e (same, agrees) h =
      elim (Option-cases (menu i.dish_id)) [
        | inl missing ↦ (
          i,
          Memᴰ.head refl,
          missing,
          err_inj (sym h ∙ process_items-stop i is acc total (same ∙ missing)),
        )
        | inr (d, at) ↦
            let (j, m, gone, said) =
              process_items-missing is _ _ e agrees
                (sym (process_items-step i is acc total d (same ∙ at)) ∙ h) in
            (j, Memᴰ.tail m, gone, said)
      ]
