-- ===== src/Workspace.antt =====
-- The settings of the two charts in frontend-chart/src/App.tsx: how they are read at the start, the
-- setters for the active chart, and the effects that save them.
--
-- `parseInt` is a parameter. The defaults of the compression are an object of JSON, with its own
-- members only; a number in it is a natural number.
pub mod Effects
pub mod Saved
pub mod Restored
pub mod Settled
pub mod Market
mod Tests
use test_v.Shared.{
  ℕ, zero, suc, Bool, true, false, ◌&&◌, Option, none, some, List, [], ◌∷◌, if◌then◌else◌, find?,
}
use test_v.Shared.Text.{Text, codes, text_eq}
use test_v.Storage.{LocalStorage, storage_get}

pub record ChartSettings : Type 0 where
  pub symbol : Text
  pub interval : Text
  pub market_type : Text
  pub candle_type : Text
  pub candle_data_type : Text
  pub candle_palette : Text
  pub compression_multiplier : ℕ

-- `activeChartIndex` is 0 or another number, which stands for the second chart.
pub record Workspace : Type 0 where
  pub chart0 : ChartSettings
  pub chart1 : ChartSettings
  pub active_chart_index : ℕ

-- What `JSON.parse` gives.
mutual
  pub data Json : Type 0 where
    null_json : Json
    bool_json : Bool → Json
    number_json : ℕ → Json
    text_json : Text → Json
    array_json : Fields → Json
    object_json : Fields → Json

  pub data Fields : Type 0 where
    no_fields : Fields
    field : Text → Json → Fields → Fields

-- `a[key]`, where `a` is not null.
unfoldable pub get_field : Text → Fields → Option Json
get_field key no_fields = none
get_field key (field k v fs) = let rest = get_field key fs in if text_eq k key then some v else rest

abbrev pub member : Option Json → Text → Option Json
member none key = none
member (some null_json) key = none
member (some (bool_json b)) key = none
member (some (number_json k)) key = none
member (some (text_json t)) key = none
member (some (array_json fs)) key = none
member (some (object_json fs)) key = get_field key fs

-- `typeof x === "number"`
abbrev pub as_number : Option Json → Option ℕ
as_number none = none
as_number (some null_json) = none
as_number (some (bool_json b)) = none
as_number (some (number_json k)) = some k
as_number (some (text_json t)) = none
as_number (some (array_json fs)) = none
as_number (some (object_json fs)) = none

-- `loadDefaultCompressionForPair`, from what is stored under `procluster_default_compressions`: the
-- setting of the market, else that of the pair, else a number for the market.
unfoldable pub load_default_compression : Option Json → Text → Text → Text → ℕ
load_default_compression parsed symbol interval market =
    let ticker_data = member parsed symbol in
    elim (as_number (member (member ticker_data market) interval)) [
      | some k ↦ k
      | none ↦ elim (as_number (member ticker_data interval)) [
        | some k ↦ k
        | none ↦ if text_eq market (codes "SPOT") then 1 else 5
      ]
    ]

-- `a || b` of two saved texts, and of a saved text and a default.
abbrev pub or_text : Option Text → Option Text → Option Text
or_text none other = other
or_text (some []) other = other
or_text (some (c ∷ cs)) other = some (c ∷ cs)

abbrev pub text_or : Option Text → Text → Text
text_or none d = d
text_or (some []) d = d
text_or (some (c ∷ cs)) d = c ∷ cs

-- The symbols of EMPTY_PAIRS.
abbrev pub btc_usdt : Text
btc_usdt = codes "BTCUSDT"

abbrev pub empty_symbols : List Text
empty_symbols = btc_usdt ∷ []

-- The saved symbol, if it is one of EMPTY_PAIRS, or the first of them.
unfoldable pub known_symbol : Option Text → Text
unfolding text_eq
known_symbol none = btc_usdt
known_symbol (some t) = elim (find? (text_eq t) empty_symbols) [ none ↦ btc_usdt | some u ↦ u ]

module _ (l : LocalStorage) (parse_int : Text → Option ℕ) where
  open l use {Content}

  -- `saved ? parseInt(saved, 10) || 1 : 1`
  abbrev pub number_or_one : Option ℕ → ℕ
  number_or_one none = 1
  number_or_one (some k) = elim k [ zero ↦ 1 | suc m ↦ suc m ]

  unfoldable pub parsed_compression : Option Text → ℕ
  parsed_compression none = 1
  parsed_compression (some []) = 1
  parsed_compression (some (c ∷ cs)) = number_or_one (parse_int (c ∷ cs))

  -- The settings at the start: those of the chart, for the first chart else those of the last active
  -- chart, else the defaults.
  unfoldable pub restore0 : Content → ChartSettings
  unfolding storage_get known_symbol parsed_compression
  restore0 s =
      let saved : (k legacy : Text) → Option Text =
        λ k legacy. or_text (storage_get l k s) (storage_get l legacy s) in
      record {
        symbol =
            known_symbol
              (saved (codes "procluster_active_symbol_0") (codes "procluster_active_symbol"));
        interval =
            text_or (saved (codes "procluster_interval_0") (codes "procluster_interval"))
              (codes "15m");
        market_type =
            text_or (saved (codes "procluster_market_type_0") (codes "procluster_market_type"))
              (codes "SPOT");
        candle_type =
            text_or (saved (codes "procluster_candle_type_0") (codes "procluster_candle_type"))
              (codes "auto");
        candle_data_type =
            text_or
              (saved (codes "procluster_candle_data_type_0") (codes "procluster_candle_data_type"))
              (codes "bid_ask");
        candle_palette =
            text_or
              (saved (codes "procluster_candle_palette_0") (codes "procluster_candle_palette"))
              (codes "default");
        compression_multiplier = parsed_compression (
            saved (codes "procluster_compression_multiplier_0")
              (codes "procluster_compression_multiplier"));
      }

  unfoldable pub restore1 : Content → ChartSettings
  unfolding storage_get known_symbol parsed_compression
  restore1 s =
      let saved : (k : Text) → Option Text = λ k. storage_get l k s in
      record {
        symbol = known_symbol (saved (codes "procluster_active_symbol_1"));
        interval = text_or (saved (codes "procluster_interval_1")) (codes "15m");
        market_type = text_or (saved (codes "procluster_market_type_1")) (codes "SPOT");
        candle_type = text_or (saved (codes "procluster_candle_type_1")) (codes "auto");
        candle_data_type =
            text_or (saved (codes "procluster_candle_data_type_1")) (codes "bid_ask");
        candle_palette = text_or (saved (codes "procluster_candle_palette_1")) (codes "default");
        compression_multiplier =
            parsed_compression (saved (codes "procluster_compression_multiplier_1"));
      }

  unfoldable pub read_workspace : Content → Workspace
  unfolding restore0 restore1
  read_workspace s = record { chart0 = restore0 s; chart1 = restore1 s; active_chart_index = 0 }
