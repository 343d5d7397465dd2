-- ===== src/Indicators.antt =====
-- The indicators of the chart: the draft of frontend-chart/src/components/IndicatorsModal.tsx and
-- what frontend-chart/src/App.tsx saves and loads.
--
-- Settings are maps from the name of a field to its value, of a type `V` that the operations do not
-- look at; a field that is undefined is not there.
pub mod Draft
pub mod Load
pub mod Count
pub mod Limit
pub mod Saved
mod Tests
use test_v.Shared.{Bool, Option, some, none, List, [], ◌∷◌}
use test_v.Shared.Text.{Text}
use test_v.Shared.JsMap.{put}

abbrev pub IndicatorSettings : Type 0 → Type 0
IndicatorSettings V = List (Text × V)

pub record Indicator (V : Type 0) : Type 0 where
  pub id : Text
  pub label : Text
  pub category : Text
  pub kind : Text
  pub is_favorite : Bool
  pub is_active : Bool
  pub is_visible : Option Bool
  pub settings : IndicatorSettings V

-- `{ ...old, ...updates }`
unfoldable pub spread :
    {V : Type 0} → IndicatorSettings V → IndicatorSettings V → IndicatorSettings V
spread old [] = old
spread old ((k, v) ∷ updates) = spread (put k v old) updates
