-- ===== src/Trading/Book.antt =====
-- The working limit orders: what a tick of the price leaves, their order, and the log.
use test_v.Shared.{
  Bool, false, not, ◌≡◌, refl, ap, sym, List, [], ◌∷◌, arith, if◌then◌else◌, inl, inr, ◌⊎◌,
  Bool-cases, filter, ◌||◌,
}
use test_v.Number.{Num}
use test_v.Trading.{LimitOrder, ActivePair, Simulator}
use test_v.Trading.Matching.{Fills, is_triggered, match_orders, fill, on_price}

module _ (n : Num) where
  open n use {Real, lt, eq}

  -- The fills that a list of orders asks for, one after the other.
  abbrev pub fills : ActivePair Real → Real → List (LimitOrder Real) → Fills n → Fills n
  fills pair prev [] f = f
  fills pair prev (o ∷ os) f =
      fills pair prev os (if is_triggered n pair prev o then fill n o.side pair o f else f)

  abbrev pub any_hit : ActivePair Real → Real → List (LimitOrder Real) → Bool
  any_hit pair prev [] = false
  any_hit pair prev (o ∷ os) = is_triggered n pair prev o || any_hit pair prev os

  abbrev pub spared : ActivePair Real → Real → LimitOrder Real → Bool
  spared pair prev o = not (is_triggered n pair prev o)

  match_orders_lem :
      (pair : ActivePair Real) (prev : Real) (os : List (LimitOrder Real)) (f : Fills n)
      → match_orders n pair prev os f
        ≡ (fills pair prev os f, filter (spared pair prev) os, any_hit pair prev os)
  unfolding match_orders
  match_orders_lem pair prev [] f = refl
  match_orders_lem pair prev (o ∷ os) f = elim (Bool-cases (is_triggered n pair prev o)) [
    | inl e ↦ rw e (rw (match_orders_lem pair prev os (fill n o.side pair o f)))
    | inr e ↦ rw e (rw (match_orders_lem pair prev os f))
  ]

  spared_all :
      (pair : ActivePair Real) (prev : Real) (os : List (LimitOrder Real))
      → any_hit pair prev os ≡ false
      → filter (spared pair prev) os ≡ os
  spared_all pair prev [] h = refl
  spared_all pair prev (o ∷ os) h = elim (Bool-cases (is_triggered n pair prev o)) [
    | inl e ↦ absurd (ground (arith, e, h))
    | inr e ↦ rw e (ap (◌∷◌ o) (spared_all pair prev os (ground (arith, e, h))))
  ]

  -- A price that stays changes nothing; another leaves the spared orders and the log of the fills.
  pub on_price_cases :
      (pair : ActivePair Real) (s : Simulator Real)
      → (on_price n pair s ≡ s)
        ⊎ (((on_price n pair s).limit_orders ≡ filter (spared pair s.prev_price) s.limit_orders)
            × ((on_price n pair s).trade_logs
                ≡ (fills pair s.prev_price s.limit_orders
                    (record { holding = s.holding; logs = s.trade_logs })).logs))
  unfolding on_price
  on_price_cases pair s = elim (Bool-cases (eq pair.price s.prev_price)) [
    | inl still ↦ inl (rw still)
    | inr moved ↦
        let start : Fills n = record { holding = s.holding; logs = s.trade_logs } in
        let m = match_orders_lem pair s.prev_price s.limit_orders start in
        elim (Bool-cases (any_hit pair s.prev_price s.limit_orders)) [
          | inl e ↦ inr (rw (moved, m, e), rw (moved, m, e))
          | inr e ↦ inr (
            rw (moved, m, e) (sym (spared_all pair s.prev_price s.limit_orders e)),
            rw (moved, m, e),
          )
        ]
  ]

  -- A move of the price keeps exactly the orders that it does not hit, in their order: those of
  -- other symbols and those out of reach. Hit buy orders without enough cash are gone too.
  pub on_price-filter :
      (pair : ActivePair Real) (s : Simulator Real)
      → eq pair.price s.prev_price ≡ false
      → ((on_price n pair s).limit_orders ≡ filter (spared pair s.prev_price) s.limit_orders)
        × ((on_price n pair s).prev_price ≡ pair.price)
  unfolding on_price
  on_price-filter pair s moved =
      let start : Fills n = record { holding = s.holding; logs = s.trade_logs } in
      let m = match_orders_lem pair s.prev_price s.limit_orders start in
      elim (Bool-cases (any_hit pair s.prev_price s.limit_orders)) [
        | inl e ↦ (rw (moved, m, e), rw (moved, m, e))
        | inr e ↦ (
          rw (moved, m, e) (sym (spared_all pair s.prev_price s.limit_orders e)),
          rw (moved, m, e),
        )
      ]
