-- ===== src/Workspace/Market.antt =====
-- What the effects do to the settings at the start and after a change of the market.
use test_v.Shared.{
  ℕ, Bool, true, false, not, ◌&&◌, ◌||◌, ◌≡◌, refl, sym, ap, ◌∙◌, inl, inr, Option, some,
  if◌then◌else◌, Bool-cases, ◌==◌,
}
use test_v.Shared.Text.{Text, codes, text_eq, text_eq→eq}
use test_v.Storage.{LocalStorage}
use test_v.Workspace.{ChartSettings, Workspace, Json, load_default_compression}
use test_v.Workspace.Effects.{
  active_chart, change_active, has_changed, a_symbol, a_interval, a_market, load_default,
  compression_effect, is_short, market_effect, effects, settle,
}
use test_v.Workspace.Settled.{
  load_default-SameDeps, compression_effect-SameDeps, active_chart-change_active, has_changed_same,
  market_effect_same, effects_same, effects_settle,
}

change_active-change_active :
    (f g : ChartSettings → ChartSettings) (w : Workspace)
    → change_active f (change_active g w) ≡ change_active (λ c. f (g c)) w
unfolding change_active
change_active-change_active f g w = elim (Bool-cases (w.active_chart_index == 0)) [
  | inl e ↦ rw (e, e) refl
  | inr e ↦ rw (e, e) refl
]

of_not : (b : Bool) → not b ≡ false → b ≡ true
of_not true h = refl
of_not false h = absurd (cc h)

or_true : (b : Bool) → (b || true) ≡ true
or_true true = refl
or_true false = refl

-- The interval that is left: SPOT has none below 15 minutes.
unfoldable pub allowed_interval : ChartSettings → Text
unfolding text_eq
allowed_interval c =
    if text_eq c.market_type (codes "SPOT") && is_short c.interval then codes "15m" else c.interval

-- The chart with its interval put right and the default compression for it.
unfoldable pub with_defaults : Option Json → ChartSettings → ChartSettings
unfolding allowed_interval load_default_compression
with_defaults parsed c = record c {
  interval = allowed_interval c;
  compression_multiplier =
      load_default_compression parsed c.symbol (allowed_interval c) c.market_type;
}

abbrev with_compression : ℕ → ChartSettings → ChartSettings
with_compression k c = record c { compression_multiplier = k }

abbrev with_interval : Text → ChartSettings → ChartSettings
with_interval t c = record c { interval = t }

abbrev default_of : Option Json → Workspace → ℕ
default_of parsed w = load_default_compression parsed (a_symbol w) (a_interval w) (a_market w)

-- A change counts only what it does to the active chart.
change_active_at :
    (f g : ChartSettings → ChartSettings) (w : Workspace)
    → f (active_chart w) ≡ g (active_chart w)
    → change_active f w ≡ change_active g w
unfolding change_active
change_active_at f g w h = elim (Bool-cases (w.active_chart_index == 0)) [
  | inl e ↦ rw e (ap (λ c. record w { chart0 = c }) (ap f (sym (rw e refl)) ∙ h ∙ ap g (rw e refl)))
  | inr e ↦ rw e (ap (λ c. record w { chart1 = c }) (ap f (sym (rw e refl)) ∙ h ∙ ap g (rw e refl)))
]

change_active_id : (w : Workspace) → change_active (λ c. c) w ≡ w
unfolding change_active
change_active_id w = elim (Bool-cases (w.active_chart_index == 0)) [
  | inl e ↦ rw e refl
  | inr e ↦ rw e refl
]

change_active_same :
    (f : ChartSettings → ChartSettings) (w : Workspace)
    → f (active_chart w) ≡ active_chart w
    → change_active f w ≡ w
change_active_same f w h = change_active_at f (λ c. c) w h ∙ change_active_id w

compression_effect_new :
    (parsed : Option Json) (prev : Option Workspace) (r w : Workspace)
    → has_changed a_market prev r ≡ true
    → compression_effect parsed prev r w ≡ load_default parsed r w
unfolding compression_effect
compression_effect_new parsed prev r w h =
    rw (h, or_true (has_changed a_symbol prev r || has_changed a_interval prev r)) refl

market_effect_new :
    (parsed : Option Json) (prev : Option Workspace) (r w : Workspace)
    → has_changed a_market prev r ≡ true
    → a_interval w ≡ a_interval r
    → market_effect parsed prev r w
      ≡ change_active (with_interval (allowed_interval (active_chart r))) (load_default parsed r w)
unfolding market_effect allowed_interval
market_effect_new parsed prev r w h same =
    elim (Bool-cases (text_eq (a_market r) (codes "SPOT") && is_short (a_interval r))) [
      | inl e ↦ rw (h, e) refl
      | inr e ↦
          let d = load_default-SameDeps parsed r w in
          rw (h, e)
            (sym (
              change_active_same (with_interval (a_interval r)) (load_default parsed r w) (
                ap (λ t. with_interval t (active_chart (load_default parsed r w)))
                  (sym (d.1 ∙ same)))))
    ]

-- The first render with a market that is new.
effects_new :
    (parsed : Option Json) (prev : Option Workspace) (w : Workspace)
    → has_changed a_market prev w ≡ true
    → effects parsed prev w
      ≡ change_active
          (λ c.
            with_interval
              (allowed_interval (active_chart w))
              (with_compression (default_of parsed w) c))
          w
unfolding effects load_default
effects_new parsed prev w h =
    let k = default_of parsed w in
    let v = compression_effect parsed prev w w in
    let i = allowed_interval (active_chart w) in
    market_effect_new parsed prev w v h (compression_effect-SameDeps parsed prev w w).1
    ∙ ap (λ x. change_active (with_interval i) (change_active (with_compression k) x))
        (compression_effect_new parsed prev w w h)
    ∙ ap (change_active (with_interval i))
        (change_active-change_active (with_compression k) (with_compression k) w)
    ∙ change_active-change_active (with_interval i) (with_compression k) w

-- A render with the market of the last one loads the default, if it has another interval.
effects_interval :
    (parsed : Option Json) (p w : Workspace)
    → a_symbol p ≡ a_symbol w
    → a_market p ≡ a_market w
    → (active_chart w).compression_multiplier ≡ default_of parsed p
    → effects parsed (some p) w ≡ change_active (with_compression (default_of parsed w)) w
unfolding effects compression_effect load_default
effects_interval parsed p w s m d = elim (Bool-cases (has_changed a_interval (some p) w)) [
  | inl e ↦
      market_effect_same parsed p w (compression_effect parsed (some p) w w) m
      ∙ rw (has_changed_same a_symbol p w s, e) refl
  | inr e ↦
      let q =
        text_eq→eq (a_interval p) (a_interval w)
          (of_not (text_eq (a_interval p) (a_interval w)) e) in
      let k : default_of parsed p ≡ default_of parsed w = rw (s, q, m) refl in
      effects_same parsed p w (s, q, m)
      ∙ sym (
          change_active_same (with_compression (default_of parsed w)) w
            (ap (λ x. with_compression x (active_chart w)) (sym (d ∙ k))))
]

-- At the start, and after a change of the market, three renders leave the active chart with an
-- interval that its market has (SPOT has none below 15 minutes, so that 15 minutes take the place
-- of 1 or 5) and with the default compression of its pair, this interval and its market, whatever
-- compression it had; the rest of it and the other chart stay as they are.
pub settle_market :
    (l : LocalStorage) (parsed : Option Json) (prev : Option Workspace) (w : Workspace)
    (s : l.Content)
    → has_changed a_market prev w ≡ true
    → (settle l parsed 3 prev (w, s)).0 ≡ change_active (with_defaults parsed) w
unfolding settle with_defaults
settle_market l parsed prev w s h =
    let i = allowed_interval (active_chart w) in
    let f : ChartSettings → ChartSettings =
      (λ c. with_interval i (with_compression (default_of parsed w) c)) in
    let w1 = effects parsed prev w in
    let w2 = effects parsed (some w) w1 in
    let e1 = effects_new parsed prev w h in
    let a1 = ap active_chart e1 ∙ active_chart-change_active f w in
    let sy = ap (λ c. c.symbol) a1 in
    let ma = ap (λ c. c.market_type) a1 in
    let e2 =
      effects_interval parsed w w1 (sym sy) (sym ma) (ap (λ c. c.compression_multiplier) a1) in
    let k : default_of parsed w1 ≡ load_default_compression parsed (a_symbol w) i (a_market w) =
      ap (λ c. load_default_compression parsed c.symbol c.interval c.market_type) a1 in
    effects_same parsed w1 w2 (effects_settle parsed prev w)
    ∙ e2
    ∙ ap (change_active (with_compression (default_of parsed w1))) e1
    ∙ change_active-change_active (with_compression (default_of parsed w1)) f w
    ∙ change_active_at (λ c. with_compression (default_of parsed w1) (f c)) (with_defaults parsed) w
        (ap (λ x. with_compression x (f (active_chart w))) k)
