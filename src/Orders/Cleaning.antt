-- ===== src/Orders/Cleaning.antt =====
-- What the nightly job of src/modules/order/order-cron.service.ts leaves behind.
use Prim.Native.Nat.{◌≤◌}
use coupang_eats_backend_v.Base.{
  ℕ, ◌+◌, String, ◌≡◌, ◌≢◌, refl, sym, ap, ◌∙◌, ◌⊎◌, inl, inr, ◌↔◌, true, false, Option, none, some,
  arith, Bool-cases, Option-cases, if◌then◌else◌, some_inj, none-ne-some,
}
use coupang_eats_backend_v.Entity.{
  Order, OrderStatus, pending, cooking, cooked, picked_up, delivered, status_eq, order_entity,
}
use coupang_eats_backend_v.Http.{ok, err, query_failed}
use coupang_eats_backend_v.Packages.{Packages, PackageLaws, kept}
use coupang_eats_backend_v.World.{World, order_table}
use coupang_eats_backend_v.Orders.Service.{handle_cron, is_stale}
use coupang_eats_backend_v.Orders.Editing.{SameButOrders}

-- an order that the job keeps: it is under way, or it is not older than a day
abbrev pub IsCurrent : ℕ → Order → Type 0
IsCurrent now o = (o.status ≢ pending) ⊎ (now ≤ o.created_at + 86400000)

module _ (p : Packages) where
  is_pending : (s : OrderStatus) → status_eq s pending ≡ true → s ≡ pending
  is_pending pending h = refl
  is_pending cooking h = absurd (cc)
  is_pending cooked h = absurd (cc)
  is_pending picked_up h = absurd (cc)
  is_pending delivered h = absurd (cc)

  current : (now : ℕ) (o : Order) → is_stale p now o ≡ false → IsCurrent now o
  current now o h = elim (Bool-cases (status_eq o.status pending)) [
    | inl waiting ↦ inr (ground arith)
    | inr under_way ↦ inl (λ e. absurd (cc (ap (λ s. status_eq s pending) e)))
  ]

  stale : (now : ℕ) (o : Order) → is_stale p now o ≡ true → IsCurrent now o → ⊥
  stale now o h (inl under_way) = elim (Bool-cases (status_eq o.status pending)) [
    | inl waiting ↦ under_way (is_pending o.status waiting)
    | inr other ↦ ground arith
  ]
  stale now o h (inr young) = elim (Bool-cases (status_eq o.status pending)) [
    | inl waiting ↦ ground arith
    | inr other ↦ ground arith
  ]

  kept-IsCurrent :
      (now : ℕ) (r : Option Order) (o : Order)
      → kept (λ e. if is_stale p now e then false else true) r ≡ some o
      → (r ≡ some o) × IsCurrent now o
  kept-IsCurrent now none o h = absurd (none-ne-some h)
  kept-IsCurrent now (some e) o h = elim (Bool-cases (is_stale p now e)) [
    | inl old ↦ absurd (
        none-ne-some (sym (ap (λ b. if (if b then false else true) then some e else none) old) ∙ h))
    | inr young ↦
        let same =
          some_inj
            (sym (ap (λ b. if (if b then false else true) then some e else none) young) ∙ h) in
        (ap some same, rw (← same) (current now e young))
  ]

  current_kept :
      (now : ℕ) (o : Order)
      → IsCurrent now o
      → kept (λ e. if is_stale p now e then false else true) (some o) ≡ some o
  current_kept now o c = elim (Bool-cases (is_stale p now o)) [
    | inl old ↦ absurd (stale now o old c)
    | inr young ↦ ap (λ b. if (if b then false else true) then some o else none) young
  ]

  -- what the job leaves: the current orders, as they were, and every other table
  abbrev pub Cleaned : ℕ → World p → World p → Type 0
  Cleaned now w w' =
      ((i : String) (o : Order)
        → (p.row i w'.orders ≡ some o) ↔ ((p.row i w.orders ≡ some o) × IsCurrent now o))
      × SameButOrders p w.db w'.db

  module _ (orders : PackageLaws p order_entity) (now : ℕ) (w : World p) where
    deleted-Cleaned :
        (n : ℕ) (t : p.Table Order)
        → p.delete (is_stale p now) w.orders ≡ some (n, t)
        → Cleaned now w (record w { db = (order_table p).put t w.db })
    deleted-Cleaned n t done = (
      (λ i o. (
        (λ at.
            kept-IsCurrent now (p.row i w.orders) o
              (sym (orders.delete-row (is_stale p now) w.orders t n i done) ∙ at)),
        (λ h.
            orders.delete-row (is_stale p now) w.orders t n i done
            ∙ rw h.0 (current_kept now o h.1)),
      )),
      record {
        users = refl;
        categories = refl;
        restaurants = refl;
        dishes = refl;
        payments = refl;
        reviews = refl;
      },
    )

    pub handle_cron-Cleaned :
        ((n : ℕ) × ((handle_cron p now w).0 ≡ ok n) × Cleaned now w (handle_cron p now w).1)
        ⊎ ((p.delete (is_stale p now) w.orders ≡ none)
            × (handle_cron p now w ≡ (err query_failed, w)))
    unfolding handle_cron
    handle_cron-Cleaned = elim (Option-cases (p.delete (is_stale p now) w.orders)) [
      | inl refused ↦ inr (refused, rw (refused, handle_cron) refl)
      | inr ((n, t), done) ↦
          inl (n, rw (done, handle_cron) refl, rw (done, handle_cron) (deleted-Cleaned n t done))
    ]
