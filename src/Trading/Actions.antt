-- ===== src/Trading/Actions.antt =====
-- A session of the simulator of frontend-chart/src/components/DOMSidebar.tsx: the buttons and the
-- moves of the price in any order, and what holds throughout.
use test_v.Shared.{
  ◌≤◌, Bool, true, false, not, ◌≡◌, refl, sym, subst, List, [], ◌∷◌, arith, if◌then◌else◌, inl, inr,
  Bool-cases, Option, Option-cases, length, length-take, filter, find?, All, ◌||◌,
}
use test_v.Shared.Sort.{sort-IsSorted, IsSorted}
use test_v.Shared.Text.{Text}
use test_v.Number.{Num, Laws, lit, le}
use test_v.Trading.{
  Side, buy, sell, all_cancelled, cancel_log, LimitOrder, ActivePair, Simulator, add_log, logged,
  Message, LogType, TradeLog,
}
use test_v.Trading.Orders.{
  market_buy, market_sell, place_limit, cancel_limit_order, cancel_all, close_position, by_price,
  has_id, target_price,
}
use test_v.Trading.Matching.{Fills, is_triggered, fill, fill_buy, fill_sell, on_price}
use test_v.Trading.Book.{fills, on_price_cases, spared}

pub data Action (R : Type 0) : Type 0 where
  buy_market sell_market : ActivePair R → R → Action R
  place : ActivePair R → R → R → Text → Side → Option R → Action R
  cancel : Text → Action R
  cancel_every : Action R
  close : ActivePair R → Action R
  tick : ActivePair R → Action R

module _ (n : Num) where
  open n use {Real, lt, eq}

  unfoldable pub act : Action Real → Simulator Real → Simulator Real
  act (buy_market pair size) s = market_buy n pair size s
  act (sell_market pair size) s = market_sell n pair size s
  act (place pair size limit id side custom) s = place_limit n pair size limit id side custom s
  act (cancel id) s = cancel_limit_order n id s
  act cancel_every s = cancel_all n s
  act (close pair) s = close_position n pair s
  act (tick pair) s = on_price n pair s

  unfoldable pub session : List (Action Real) → Simulator Real → Simulator Real
  unfolding act
  session [] s = s
  session (a ∷ rest) s = session rest (act a s)

  -- The ladder of orders falls in price, and the log holds at most 30 lines.
  pub record IsTidy (s : Simulator Real) : Type 0 where
    pub ladder : IsSorted (by_price n) s.limit_orders
    pub log_bound : length s.trade_logs ≤ 30

  filter-All {ℓ} :
      (P : LimitOrder Real → Type ℓ) (p : LimitOrder Real → Bool) (os : List (LimitOrder Real))
      → All P os
      → All P (filter p os)
  filter-All P p [] h = tt
  filter-All P p (o ∷ os) h = elim (Bool-cases (p o)) [
    | inl e ↦ rw e (h.0, filter-All P p os h.1)
    | inr e ↦ rw e (filter-All P p os h.1)
  ]

  filter-IsSorted :
      (p : LimitOrder Real → Bool) (os : List (LimitOrder Real))
      → IsSorted (by_price n) os
      → IsSorted (by_price n) (filter p os)
  filter-IsSorted p [] h = tt
  filter-IsSorted p (o ∷ os) h = elim (Bool-cases (p o)) [
    | inl e ↦ rw e (filter-All (λ q. by_price n q o ≡ false) p os h.0, filter-IsSorted p os h.1)
    | inr e ↦ rw e (filter-IsSorted p os h.1)
  ]

  logged-le :
      (m : Message Real) (k : LogType) (logs : List (TradeLog Real)) → length (logged m k logs) ≤ 30
  unfolding logged
  logged-le m k logs = omega (arith, length-take 30 (record { message = m; kind = k } ∷ logs))

  add_log-IsTidy :
      (m : Message Real) (k : LogType) (s : Simulator Real)
      → IsSorted (by_price n) s.limit_orders
      → IsTidy (add_log m k s)
  unfolding add_log
  add_log-IsTidy m k s h = record { ladder = h; log_bound = logged-le m k s.trade_logs }

  fill-log_le :
      (side : Side) (pair : ActivePair Real) (o : LimitOrder Real) (f : Fills n)
      → length (fill n side pair o f).logs ≤ 30
  unfolding fill fill_buy fill_sell
  fill-log_le buy pair o f = elim (Bool-cases (le n (n.mul o.price o.size) f.holding.balance)) [
    | inl e ↦ rw e (logged-le _ _ f.logs)
    | inr e ↦ rw e (logged-le _ _ f.logs)
  ]
  fill-log_le sell pair o f = logged-le _ _ f.logs

  either :
      (b : Bool) (f g : Fills n)
      → length f.logs ≤ 30
      → length g.logs ≤ 30
      → length (if b then f else g).logs ≤ 30
  either true f g h k = h
  either false f g h k = k

  fills-log_le :
      (pair : ActivePair Real) (prev : Real) (os : List (LimitOrder Real)) (f : Fills n)
      → length f.logs ≤ 30
      → length (fills n pair prev os f).logs ≤ 30
  fills-log_le pair prev [] f h = h
  fills-log_le pair prev (o ∷ os) f h =
      fills-log_le pair prev os (if is_triggered n pair prev o then fill n o.side pair o f else f)
        (either (is_triggered n pair prev o) _ _ (fill-log_le o.side pair o f) h)

  on_price-IsTidy :
      (pair : ActivePair Real) (s : Simulator Real) → IsTidy s → IsTidy (on_price n pair s)
  on_price-IsTidy pair s v = elim (on_price_cases n pair s) [
    | inl e ↦ subst IsTidy (sym e) v
    | inr (os, logs) ↦ record {
      ladder =
          subst (λ x. IsSorted (by_price n) x) (sym os)
            (filter-IsSorted (spared n pair s.prev_price) s.limit_orders v.ladder);
      log_bound =
          subst (λ x. length x ≤ 30) (sym logs)
            (fills-log_le pair s.prev_price s.limit_orders _ v.log_bound);
    }
  ]

  market_buy-IsTidy :
      (pair : ActivePair Real) (size : Real) (s : Simulator Real)
      → IsTidy s
      → IsTidy (market_buy n pair size s)
  unfolding market_buy
  market_buy-IsTidy pair size s v = elim (Bool-cases (lt (lit n 0) size)) [
    | inl e ↦ elim (Bool-cases (lt s.holding.balance (n.mul pair.price size))) [
      | inl p ↦ rw (e, p) (add_log-IsTidy _ _ _ v.ladder)
      | inr p ↦ elim (Bool-cases (lt s.holding.position (lit n 0))) [
        | inl q ↦ rw (e, p, q) (add_log-IsTidy _ _ _ v.ladder)
        | inr q ↦ rw (e, p, q) (add_log-IsTidy _ _ _ v.ladder)
      ]
    ]
    | inr e ↦ rw e v
  ]

  market_sell-IsTidy :
      (pair : ActivePair Real) (size : Real) (s : Simulator Real)
      → IsTidy s
      → IsTidy (market_sell n pair size s)
  unfolding market_sell
  market_sell-IsTidy pair size s v = elim (Bool-cases (lt (lit n 0) size)) [
    | inl e ↦ rw e (add_log-IsTidy _ _ _ v.ladder)
    | inr e ↦ rw e v
  ]

  cancel_limit_order-IsTidy :
      (id : Text) (s : Simulator Real) → IsTidy s → IsTidy (cancel_limit_order n id s)
  unfolding cancel_limit_order
  cancel_limit_order-IsTidy id s v = elim (Option-cases (find? (has_id n id) s.limit_orders)) [
    | inl e ↦ rw (e, cancel_limit_order) v
    | inr (o, e) ↦
        rw (e, cancel_limit_order)
          (add_log-IsTidy _ _ _
            (filter-IsSorted (λ q. not (has_id n id q)) s.limit_orders v.ladder))
  ]

  cancel_all-IsTidy : (s : Simulator Real) → IsTidy s → IsTidy (cancel_all n s)
  unfolding cancel_all
  cancel_all-IsTidy s v = go s.limit_orders refl
    where
      go : (os : List (LimitOrder Real)) → s.limit_orders ≡ os → IsTidy (cancel_all n s)
      go [] e = rw (e, cancel_all) v
      go (o ∷ os) e =
          rw (e, cancel_all)
            (add_log-IsTidy all_cancelled cancel_log (record s { limit_orders = [] }) tt)

  close_position-IsTidy :
      (pair : ActivePair Real) (s : Simulator Real) → IsTidy s → IsTidy (close_position n pair s)
  unfolding close_position
  close_position-IsTidy pair s v = elim (Bool-cases (eq s.holding.position (lit n 0))) [
    | inl e ↦ rw e v
    | inr e ↦ elim (Bool-cases (lt (lit n 0) s.holding.position)) [
      | inl p ↦ rw (e, p) (add_log-IsTidy _ _ _ v.ladder)
      | inr p ↦ rw (e, p) (add_log-IsTidy _ _ _ v.ladder)
    ]
  ]

  module _ (l : Laws n) where
    place_limit-IsTidy :
        (pair : ActivePair Real) (size limit : Real) (id : Text) (side : Side)
        (custom : Option Real) (s : Simulator Real)
        → IsTidy s
        → IsTidy (place_limit n pair size limit id side custom s)
    unfolding place_limit
    place_limit-IsTidy pair size limit id side custom s v =
        elim (Bool-cases (le n (target_price n custom limit) (lit n 0) || le n size (lit n 0))) [
          | inl e ↦ rw e (add_log-IsTidy _ _ _ v.ladder)
          | inr e ↦ rw e (
              add_log-IsTidy _ _ _ (
                sort-IsSorted (by_price n) (λ a b h. l.lt_asym b.price a.price h)
                  (λ a b c h k. l.le_trans c.price b.price a.price k h) _))
        ]

    act-IsTidy : (a : Action Real) (s : Simulator Real) → IsTidy s → IsTidy (act a s)
    unfolding act
    act-IsTidy (buy_market pair size) s v = market_buy-IsTidy pair size s v
    act-IsTidy (sell_market pair size) s v = market_sell-IsTidy pair size s v
    act-IsTidy (place pair size limit id side custom) s v =
        place_limit-IsTidy pair size limit id side custom s v
    act-IsTidy (cancel id) s v = cancel_limit_order-IsTidy id s v
    act-IsTidy cancel_every s v = cancel_all-IsTidy s v
    act-IsTidy (close pair) s v = close_position-IsTidy pair s v
    act-IsTidy (tick pair) s v = on_price-IsTidy pair s v

    -- Through every session the ladder of working orders falls in price,
    -- and the log holds at most 30 lines.
    pub session-IsTidy :
        (actions : List (Action Real)) (s : Simulator Real) → IsTidy s → IsTidy (session actions s)
    unfolding session
    session-IsTidy [] s v = v
    session-IsTidy (a ∷ actions) s v = session-IsTidy actions (act a s) (act-IsTidy a s v)
