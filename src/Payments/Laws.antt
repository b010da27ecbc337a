-- ===== src/Payments/Laws.antt =====
-- `processPayment` and the payments of an order.
use coupang_eats_backend_v.Base.{
  String, ◌≡◌, ◌≢◌, refl, sym, ap, ◌∙◌, true, false, none, some, is_text, ◌==◌, Bool-cases, inl,
  inr, eq_iff, if◌then◌else◌, is_text_self, some_inj,
}
use mathlib.Core.Bool.{false≢true}
use coupang_eats_backend_v.Http.{Result, ok, err}
use coupang_eats_backend_v.Entity.{User, Order, Payment, order_entity, payment_entity}
use coupang_eats_backend_v.Packages.{Packages, PackageLaws, unsorted}
use coupang_eats_backend_v.Repository.Laws.{find_one_by_filters-none}
use coupang_eats_backend_v.World.{World, payment_table, save}
use coupang_eats_backend_v.World.Laws.{Saved, save-Saved, Saved-entity, Saved-row, save-err_db}
use coupang_eats_backend_v.Payments.Service.{
  CreatePaymentDto, payment_to_entity, pays_for, process_payment,
}
use coupang_eats_backend_v.Payments.Once.{
  existing, PayRun, pay-PayRun, no_order, not_mine, paid, tried,
}

module _ (p : Packages) where
  -- no two rows pay for one order
  abbrev pub IsUnique : p.Table Payment → Type 0
  IsUnique t =
      (i j k : String) (a b : Payment)
      → p.row i t ≡ some a
      → p.row j t ≡ some b
      → a.order_id ≡ some k
      → b.order_id ≡ some k
      → i ≡ j

  module _ (payments : PackageLaws p payment_entity) where
    module _ (user : User) (dto : CreatePaymentDto) (w w' : World p) (o : Order) (y : Payment)
        (s : Saved p payment_entity (payment_table p) (payment_to_entity dto user o) w y w') where
      pub paid_row :
          (i : String)
          → p.row i w'.payments
            ≡ (if y.id == i then some (payment_entity.stored y) else p.row i w.payments)
      paid_row i = Saved-row p payment_entity (payment_table p) payments _ y w w' s i

      pub paid_order : (payment_entity.stored y).order_id ≡ some o.id
      unfolding payment_to_entity
      paid_order =
          ap (λ x. (payment_entity.stored x).order_id)
            (Saved-entity p payment_entity (payment_table p) payments _ y w w' s)

      pub paid_user : (payment_entity.stored y).user_id ≡ some user.id
      unfolding payment_to_entity
      paid_user =
          ap (λ x. (payment_entity.stored x).user_id)
            (Saved-entity p payment_entity (payment_table p) payments _ y w w' s)

      -- an older row does not pay for the order
      older :
          (j k : String) (b : Payment)
          → existing p o.id w ≡ none
          → p.row j w.payments ≡ some b
          → b.order_id ≡ some k
          → o.id ≢ k
      older j k b unpaid at pays same = false≢true (
          sym (
            find_one_by_filters-none p payment_entity payments (pays_for p o.id) unsorted w.payments
              j b unpaid at)
          ∙ ap (λ x. is_text x o.id) (pays ∙ ap some (sym same))
          ∙ is_text_self o.id)

      saved-IsUnique : existing p o.id w ≡ none → IsUnique w.payments → IsUnique w'.payments
      saved-IsUnique unpaid unique i j k a b at_i at_j pays_a pays_b =
          elim (Bool-cases (y.id == i)) [
            | inl new_i ↦ elim (Bool-cases (y.id == j)) [
              | inl new_j ↦ sym ((eq_iff y.id i).0 new_i) ∙ (eq_iff y.id j).0 new_j
              | inr old_j ↦
                  absurd
                    (older j k b unpaid (old j b old_j at_j) pays_b (key i a new_i at_i pays_a))
            ]
            | inr old_i ↦ elim (Bool-cases (y.id == j)) [
              | inl new_j ↦
                  absurd
                    (older i k a unpaid (old i a old_i at_i) pays_a (key j b new_j at_j pays_b))
              | inr old_j ↦ unique i j k a b (old i a old_i at_i) (old j b old_j at_j) pays_a pays_b
            ]
          ]
        where
          old :
              (i : String) (a : Payment)
              → (y.id == i) ≡ false
              → p.row i w'.payments ≡ some a
              → p.row i w.payments ≡ some a
          old i a miss at =
              sym (
                paid_row i
                ∙ ap (λ b. if b then some (payment_entity.stored y) else p.row i w.payments) miss)
              ∙ at

          key :
              (i : String) (a : Payment)
              → (y.id == i) ≡ true
              → p.row i w'.payments ≡ some a
              → a.order_id ≡ some k
              → o.id ≡ k
          key i a hit at pays = some_inj (
              sym paid_order
              ∙ ap (λ x. x.order_id)
                  (some_inj (
                    sym (
                      paid_row i
                      ∙ ap (λ b. if b then some (payment_entity.stored y) else p.row i w.payments)
                          hit)
                    ∙ at))
              ∙ pays)

    module _ (orders : PackageLaws p order_entity) (user : User) (dto : CreatePaymentDto)
        (w : World p) where
      pay_keeps :
          (x : Result Payment × World p)
          → PayRun p user dto w x
          → IsUnique w.payments
          → IsUnique x.1.payments
      pay_keeps _ (no_order missing) u = u
      pay_keeps _ (not_mine o found other) u = u
      pay_keeps _ (paid o y found had) u = u
      pay_keeps _ (tried o found mine unpaid) u =
          go (save p (payment_table p) (payment_to_entity dto user o) w) refl
        where
          go :
              (x : Result Payment × World p)
              → save p (payment_table p) (payment_to_entity dto user o) w ≡ x
              → IsUnique x.1.payments
          go (ok y, w') e =
              saved-IsUnique user dto w w' o y
                (save-Saved p payment_entity (payment_table p) _ y w w' e) unpaid u
          go (err z, w') e =
              rw (ap (λ d. d.payments) (save-err_db p payment_entity (payment_table p) _ z w w' e))
                u

      -- If every order has at most one payment before `processPayment`, it has at most one after
      -- it, however the call ends.
      pub process_payment-IsUnique :
          IsUnique w.payments → IsUnique (process_payment p user dto w).1.payments
      process_payment-IsUnique u = pay_keeps _ (pay-PayRun p orders user dto w) u
