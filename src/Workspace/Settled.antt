-- ===== src/Workspace/Settled.antt =====
-- How many renders the effects of the settings need.
use test_v.Shared.{
  false, not, ◌&&◌, ◌||◌, ◌≡◌, refl, sym, ap, ◌∙◌, inl, inr, Option, some, Bool-cases, ◌==◌,
}
use test_v.Shared.Text.{Text, codes, text_eq, text_eq_refl}
use test_v.Workspace.{ChartSettings, Workspace, Json, load_default_compression}
use test_v.Workspace.Effects.{
  active_chart, change_active, has_changed, a_symbol, a_interval, a_market, load_default,
  compression_effect, is_short, market_effect, effects,
}

pub active_chart-change_active :
    (f : ChartSettings → ChartSettings) (w : Workspace)
    → active_chart (change_active f w) ≡ f (active_chart w)
unfolding change_active
active_chart-change_active f w = elim (Bool-cases (w.active_chart_index == 0)) [
  | inl e ↦ rw (e, e) refl
  | inr e ↦ rw (e, e) refl
]

-- The three values that the effects depend on.
abbrev pub SameDeps : Workspace → Workspace → Type 0
SameDeps p w = (a_symbol p ≡ a_symbol w) × (a_interval p ≡ a_interval w) × (a_market p ≡ a_market w)

pub has_changed_same :
    (f : Workspace → Text) (p w : Workspace) → f p ≡ f w → has_changed f (some p) w ≡ false
has_changed_same f p w e = ap (λ t. not (text_eq t (f w))) e ∙ ap not (text_eq_refl (f w))

pub load_default-SameDeps :
    (parsed : Option Json) (r w : Workspace) → SameDeps (load_default parsed r w) w
unfolding load_default
load_default-SameDeps parsed r w =
    let k = load_default_compression parsed (a_symbol r) (a_interval r) (a_market r) in
    let e = active_chart-change_active (λ c. record c { compression_multiplier = k }) w in
    (ap (λ c. c.symbol) e, ap (λ c. c.interval) e, ap (λ c. c.market_type) e)

pub compression_effect-SameDeps :
    (parsed : Option Json) (prev : Option Workspace) (r w : Workspace)
    → SameDeps (compression_effect parsed prev r w) w
unfolding compression_effect
compression_effect-SameDeps parsed prev r w =
    elim (Bool-cases (
      has_changed a_symbol prev r
      || has_changed a_interval prev r
      || has_changed a_market prev r)) [
        | inl e ↦ rw e (load_default-SameDeps parsed r w)
        | inr e ↦ rw e (refl, refl, refl)
      ]

-- With the market of the last render, the effect on the market does nothing.
pub market_effect_same :
    (parsed : Option Json) (p r w : Workspace)
    → a_market p ≡ a_market r
    → market_effect parsed (some p) r w ≡ w
unfolding market_effect
market_effect_same parsed p r w e = rw (has_changed_same a_market p r e) refl

-- It keeps pair and market.
market_effect_keeps :
    (parsed : Option Json) (prev : Option Workspace) (r w : Workspace)
    → (a_symbol (market_effect parsed prev r w) ≡ a_symbol w)
      × (a_market (market_effect parsed prev r w) ≡ a_market w)
unfolding market_effect
market_effect_keeps parsed prev r w = elim (Bool-cases (has_changed a_market prev r)) [
  | inr e ↦ rw e (refl, refl)
  | inl e ↦
      let d = load_default-SameDeps parsed r w in
      elim (Bool-cases (text_eq (a_market r) (codes "SPOT") && is_short (a_interval r))) [
        | inr g ↦ rw (e, g) (d.0, d.2)
        | inl g ↦
            let q =
              active_chart-change_active (λ c. record c { interval = codes "15m" })
                (load_default parsed r w) in
            rw (e, g) (ap (λ c. c.symbol) q ∙ d.0, ap (λ c. c.market_type) q ∙ d.2)
      ]
]

effects_keep :
    (parsed : Option Json) (prev : Option Workspace) (w : Workspace)
    → (a_symbol (effects parsed prev w) ≡ a_symbol w)
      × (a_market (effects parsed prev w) ≡ a_market w)
unfolding effects
effects_keep parsed prev w =
    let (s, m) = market_effect_keeps parsed prev w (compression_effect parsed prev w w) in
    let d = compression_effect-SameDeps parsed prev w w in (s ∙ d.0, m ∙ d.2)

effects-SameDeps :
    (parsed : Option Json) (p w : Workspace)
    → a_market p ≡ a_market w
    → SameDeps (effects parsed (some p) w) w
unfolding effects
effects-SameDeps parsed p w e =
    rw (market_effect_same parsed p w (compression_effect parsed (some p) w w) e)
      (compression_effect-SameDeps parsed (some p) w w)

-- With the dependencies of the last render nothing happens.
pub effects_same :
    (parsed : Option Json) (p w : Workspace) → SameDeps p w → effects parsed (some p) w ≡ w
unfolding effects compression_effect
effects_same parsed p w d =
    market_effect_same parsed p w (compression_effect parsed (some p) w w) d.2
    ∙ rw
        (
          has_changed_same a_symbol p w d.0,
          has_changed_same a_interval p w d.1,
          has_changed_same a_market p w d.2,
        )
        refl

-- The third render changes nothing.
pub effects_settle :
    (parsed : Option Json) (prev : Option Workspace) (w : Workspace)
    → let w1 = effects parsed prev w in let w2 = effects parsed (some w) w1 in SameDeps w1 w2
effects_settle parsed prev w =
    let d =
      effects-SameDeps parsed w (effects parsed prev w) (sym ((effects_keep parsed prev w).1)) in
    (sym d.0, sym d.1, sym d.2)
