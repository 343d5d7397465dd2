-- ===== src/Indicators/Load.antt =====
-- The list of indicators at the start of frontend-chart/src/App.tsx: the defaults of the modules
-- under what is saved. The saved list is what the App itself has saved.
use test_v.Shared.{Bool, true, false, Option, none, some, get_or, List, map, find?}
use test_v.Shared.Text.{Text, text_eq}
use test_v.Indicators.{Indicator, IndicatorSettings, spread}

pub record SavedIndicator (V : Type 0) : Type 0 where
  pub id : Text
  pub is_active : Bool
  pub is_favorite : Option Bool
  pub settings : Option (IndicatorSettings V)

-- An entry of `MODULAR_INDICATORS` (frontend-chart/src/indicators/index.ts).
pub record IndicatorModule (V : Type 0) : Type 0 where
  pub id : Text
  pub label : Text
  pub category : Text
  pub kind : Text
  pub is_active_default : Option Bool
  pub default_settings : IndicatorSettings V

module _ {V : Type 0} where
  unfoldable pub default_of : IndicatorModule V → Indicator V
  default_of m = record {
    id = m.id;
    label = m.label;
    category = m.category;
    kind = m.kind;
    is_favorite = true;
    is_active = get_or m.is_active_default false;
    is_visible = none;
    settings = m.default_settings;
  }

  unfoldable pub with_saved :
      IndicatorSettings V → Option (IndicatorSettings V) → IndicatorSettings V
  unfolding spread
  with_saved old none = old
  with_saved old (some saved) = spread old saved

  unfoldable pub restored : Option (SavedIndicator V) → Indicator V → Indicator V
  unfolding with_saved
  restored none d = d
  restored (some matched) d = record d {
    is_active = matched.is_active;
    is_favorite = get_or matched.is_favorite d.is_favorite;
    settings = with_saved d.settings matched.settings;
  }

  abbrev pub saved_id : Text → SavedIndicator V → Bool
  saved_id id item = text_eq item.id id

  unfoldable pub load_parsed :
      List (Indicator V) → Option (List (SavedIndicator V)) → List (Indicator V)
  unfolding restored
  load_parsed defaults none = defaults
  load_parsed defaults (some parsed) = map (λ d. restored (find? (saved_id d.id) parsed) d) defaults

  -- The initial state of `indicators`.
  unfoldable pub load_indicators :
      List (IndicatorModule V) → Option (List (SavedIndicator V)) → List (Indicator V)
  unfolding default_of load_parsed
  load_indicators modules parsed = load_parsed (map default_of modules) parsed

  -- What the effect that saves writes, as far as the load reads it.
  unfoldable pub saved_of : Indicator V → SavedIndicator V
  saved_of ind = record {
    id = ind.id;
    is_active = ind.is_active;
    is_favorite = some ind.is_favorite;
    settings = some ind.settings;
  }
