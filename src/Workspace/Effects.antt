-- ===== src/Workspace/Effects.antt =====
-- The setters and the effects of the settings in frontend-chart/src/App.tsx.
use test_v.Shared.{
  ℕ, zero, suc, Bool, true, not, ◌&&◌, ◌||◌, Option, none, some, List, [], ◌∷◌, ◌++◌, if◌then◌else◌,
  ◌==◌,
}
use test_v.Shared.Text.{Text, codes, text_eq, decimal}
use test_v.Storage.{LocalStorage, storage_set}
use test_v.Workspace.{ChartSettings, Workspace, Json, load_default_compression}

-- `activeChartIndex === 0 ? a : b`, and the setters that go the same way.
abbrev pub active_chart : Workspace → ChartSettings
active_chart w = if w.active_chart_index == 0 then w.chart0 else w.chart1

unfoldable pub change_active : (ChartSettings → ChartSettings) → Workspace → Workspace
change_active f w =
    if w.active_chart_index == 0
    then record w { chart0 = f w.chart0 }
    else record w { chart1 = f w.chart1 }

-- What the saving effects write, with their keys: for the charts, and for the active one.
unfoldable pub chart_entries : ChartSettings → ChartSettings → List (Text × Text)
unfolding decimal
chart_entries c d =
    (codes "procluster_compression_multiplier_0", decimal c.compression_multiplier)
    ∷ (codes "procluster_compression_multiplier_1", decimal d.compression_multiplier)
    ∷ (codes "procluster_interval_0", c.interval)
    ∷ (codes "procluster_interval_1", d.interval)
    ∷ (codes "procluster_market_type_0", c.market_type)
    ∷ (codes "procluster_market_type_1", d.market_type)
    ∷ (codes "procluster_candle_type_0", c.candle_type)
    ∷ (codes "procluster_candle_type_1", d.candle_type)
    ∷ (codes "procluster_candle_data_type_0", c.candle_data_type)
    ∷ (codes "procluster_candle_data_type_1", d.candle_data_type)
    ∷ (codes "procluster_candle_palette_0", c.candle_palette)
    ∷ (codes "procluster_candle_palette_1", d.candle_palette)
    ∷ (codes "procluster_active_symbol_0", c.symbol)
    ∷ (codes "procluster_active_symbol_1", d.symbol)
    ∷ []

unfoldable pub active_entries : ChartSettings → List (Text × Text)
active_entries a =
    (codes "procluster_active_symbol", a.symbol)
    ∷ (codes "procluster_interval", a.interval)
    ∷ (codes "procluster_market_type", a.market_type)
    ∷ (codes "procluster_candle_type", a.candle_type)
    ∷ (codes "procluster_candle_data_type", a.candle_data_type)
    ∷ (codes "procluster_candle_palette", a.candle_palette)
    ∷ []

unfoldable pub entries : Workspace → List (Text × Text)
unfolding chart_entries active_entries
entries w = chart_entries w.chart0 w.chart1 ++ active_entries (active_chart w)

-- A dependency of an effect differs from the last render, or there was none.
abbrev pub has_changed : (Workspace → Text) → Option Workspace → Workspace → Bool
has_changed f none w = true
has_changed f (some p) w = not (text_eq (f p) (f w))

abbrev pub a_symbol : Workspace → Text
a_symbol w = (active_chart w).symbol

abbrev pub a_interval : Workspace → Text
a_interval w = (active_chart w).interval

abbrev pub a_market : Workspace → Text
a_market w = (active_chart w).market_type

-- `setCompressionMultiplier(loadDefaultCompressionForPair(...))`, for what is rendered.
unfoldable pub load_default : Option Json → Workspace → Workspace → Workspace
unfolding change_active load_default_compression
load_default parsed rendered w =
    change_active
      (λ c. record c {
        compression_multiplier =
            load_default_compression parsed (a_symbol rendered) (a_interval rendered)
              (a_market rendered);
      })
      w

-- The effect on pair, interval and market.
unfoldable pub compression_effect :
    Option Json → Option Workspace → Workspace → Workspace → Workspace
unfolding load_default text_eq
compression_effect parsed prev rendered w =
    if has_changed a_symbol prev rendered
      || has_changed a_interval prev rendered
      || has_changed a_market prev rendered
    then load_default parsed rendered w
    else w

abbrev pub is_short : Text → Bool
is_short t = text_eq t (codes "1m") || text_eq t (codes "5m")

-- The effect on the market.
unfoldable pub market_effect : Option Json → Option Workspace → Workspace → Workspace → Workspace
unfolding load_default change_active text_eq
market_effect parsed prev rendered w =
    if has_changed a_market prev rendered
    then (let w' = load_default parsed rendered w in
        if text_eq (a_market rendered) (codes "SPOT") && is_short (a_interval rendered)
        then change_active (λ c. record c { interval = codes "15m" }) w'
        else w')
    else w

unfoldable pub effects : Option Json → Option Workspace → Workspace → Workspace
unfolding compression_effect market_effect
effects parsed prev w = market_effect parsed prev w (compression_effect parsed prev w w)

-- What the saving effects have seen in the last render.
unfoldable pub last_entries : Option Workspace → List (Text × Text)
unfolding entries
last_entries none = []
last_entries (some p) = entries p

module _ (l : LocalStorage) where
  open l use {Content}

  -- A saving effect runs where its value differs from that of the last render.
  unfoldable pub save_all : List (Text × Text) → List (Text × Text) → Content → Content
  unfolding storage_set text_eq
  save_all [] [] s = s
  save_all (o ∷ os) [] s = s
  save_all [] (e ∷ es) s = save_all [] es (storage_set l e.0 e.1 s)
  save_all (o ∷ os) (e ∷ es) s =
      save_all os es (if text_eq o.1 e.1 then s else storage_set l e.0 e.1 s)

  -- A number of renders, from what was rendered last.
  unfoldable pub settle :
      Option Json → ℕ → Option Workspace → Workspace × Content → Workspace × Content
  unfolding effects save_all entries last_entries
  settle parsed zero prev (w, s) = (w, s)
  settle parsed (suc k) prev (w, s) =
      settle parsed k (some w) (effects parsed prev w, save_all (last_entries prev) (entries w) s)

-- What the user does: the buttons set a value of the active chart, a click on a chart makes it the
-- active one, and the modal of the defaults tells that they have changed.
pub data SettingsAction : Type 0 where
  set_active_pair set_interval set_market_type set_candle_type set_candle_data_type
        set_candle_palette :
      Text → SettingsAction
  set_compression_multiplier : ℕ → SettingsAction
  set_active_chart_index : ℕ → SettingsAction
  default_comp_changed : SettingsAction

unfoldable pub act_on_settings : Option Json → SettingsAction → Workspace → Workspace
unfolding change_active load_default
act_on_settings parsed (set_active_pair t) w = change_active (λ c. record c { symbol = t }) w
act_on_settings parsed (set_interval t) w = change_active (λ c. record c { interval = t }) w
act_on_settings parsed (set_market_type t) w = change_active (λ c. record c { market_type = t }) w
act_on_settings parsed (set_candle_type t) w = change_active (λ c. record c { candle_type = t }) w
act_on_settings parsed (set_candle_data_type t) w =
    change_active (λ c. record c { candle_data_type = t }) w
act_on_settings parsed (set_candle_palette t) w =
    change_active (λ c. record c { candle_palette = t }) w
act_on_settings parsed (set_compression_multiplier k) w =
    change_active (λ c. record c { compression_multiplier = k }) w
act_on_settings parsed (set_active_chart_index i) w = record w { active_chart_index = i }
act_on_settings parsed default_comp_changed w = load_default parsed w w

module _ (l : LocalStorage) where
  -- The first render, and an action with the renders that follow; three of them settle.
  unfoldable pub first_render : Option Json → Workspace → l.Content → Workspace × l.Content
  unfolding settle
  first_render parsed w s = settle l parsed 3 none (w, s)

  -- Each action comes with the defaults of the compression that are stored by then.
  unfoldable pub act_all :
      List (Option Json × SettingsAction) → Workspace × l.Content → Workspace × l.Content
  unfolding act_on_settings settle
  act_all [] x = x
  act_all (a ∷ more) (w, s) = act_all more (settle l a.0 3 (some w) (act_on_settings a.0 a.1 w, s))
