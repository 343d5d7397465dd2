-- ===== src/Workspace/Restored.antt =====
-- The settings of the charts after a restart.
use test_v.Shared.{
  ℕ, zero, suc, ◌≤◌, ◌≡◌, ◌≢◌, refl, sym, ap, subst, ◌∙◌, Option, some, List, [], ◌∷◌, arith,
}
use test_v.Shared.Text.{Text, codes, text_eq, decimal, decimal_nonempty}
use test_v.Storage.{returned, LocalStorage, StorageLaws, storage_get}
use test_v.Workspace.{
  ChartSettings, Workspace, Json, or_text, text_or, btc_usdt, known_symbol, parsed_compression,
  restore0, restore1, read_workspace,
}
use test_v.Workspace.Effects.{entries, SettingsAction, first_render, act_all}
use test_v.Workspace.Saved.{Accepts, IsSaved, run-IsSaved}

-- A chart with a pair of EMPTY_PAIRS, texts that are not empty and a compression that is not zero.
pub record IsUsable (c : ChartSettings) : Type 0 where
  pub known : c.symbol ≡ btc_usdt
  pub interval_given : c.interval ≢ []
  pub market_given : c.market_type ≢ []
  pub type_given : c.candle_type ≢ []
  pub data_type_given : c.candle_data_type ≢ []
  pub palette_given : c.candle_palette ≢ []
  pub compressed : 1 ≤ c.compression_multiplier

or_text_given : (t : Text) (o : Option Text) → t ≢ [] → or_text (some t) o ≡ some t
or_text_given [] o h = absurd (h refl)
or_text_given (c ∷ cs) o h = refl

text_or_given : (t d : Text) → t ≢ [] → text_or (some t) d ≡ t
text_or_given [] d h = absurd (h refl)
text_or_given (c ∷ cs) d h = refl

module _ (l : LocalStorage) where
  open l use {Content, get_item}

  storage_get_held :
      (k t : Text) (s : Content) → get_item k s ≡ returned (some t) → storage_get l k s ≡ some t
  unfolding storage_get
  storage_get_held k t s e = rw e refl

  -- A text that is held is read, whatever an older key has.
  saved_given :
      (k t : Text) (o : Option Text) (s : Content)
      → t ≢ []
      → get_item k s ≡ returned (some t)
      → or_text (storage_get l k s) o ≡ some t
  saved_given k t o s h e = ap (λ x. or_text x o) (storage_get_held k t s e) ∙ or_text_given t o h

chart_ext :
    (c d : ChartSettings)
    → c.symbol ≡ d.symbol
    → c.interval ≡ d.interval
    → c.market_type ≡ d.market_type
    → c.candle_type ≡ d.candle_type
    → c.candle_data_type ≡ d.candle_data_type
    → c.candle_palette ≡ d.candle_palette
    → c.compression_multiplier ≡ d.compression_multiplier
    → c ≡ d
chart_ext c d e1 e2 e3 e4 e5 e6 e7 = λ i. record {
  symbol = e1 i;
  interval = e2 i;
  market_type = e3 i;
  candle_type = e4 i;
  candle_data_type = e5 i;
  candle_palette = e6 i;
  compression_multiplier = e7 i;
}

known_symbol_btc : (t : Text) → t ≡ btc_usdt → known_symbol (some t) ≡ t
unfolding known_symbol text_eq
known_symbol_btc t e = ap (λ u. known_symbol (some u)) e ∙ sym e

module _ (l : LocalStorage) (parse_int : Text → Option ℕ)
    (parse_int-decimal : (k : ℕ) → parse_int (decimal k) ≡ some k) (laws : StorageLaws l)
    (accepts : Accepts l) where
  open l use {Content, get_item}

  parsed_compression_given :
      (t : Text) (k : ℕ)
      → t ≢ []
      → parse_int t ≡ some k
      → 1 ≤ k
      → parsed_compression l parse_int (some t) ≡ k
  unfolding parsed_compression
  parsed_compression_given [] k h e p = absurd (h refl)
  parsed_compression_given (c ∷ cs) zero h e p = absurd (omega arith)
  parsed_compression_given (c ∷ cs) (suc m) h e p = rw e refl

  compression_held :
      (k : ℕ) (x : Option Text)
      → 1 ≤ k
      → x ≡ some (decimal k)
      → parsed_compression l parse_int x ≡ k
  compression_held k x h e =
      ap (parsed_compression l parse_int) e
      ∙ parsed_compression_given (decimal k) k (decimal_nonempty k h) (parse_int-decimal k) h

  text_held : (t d : Text) (x : Option Text) → t ≢ [] → x ≡ some t → text_or x d ≡ t
  text_held t d x h e = ap (λ y. text_or y d) e ∙ text_or_given t d h

  symbol_held : (t : Text) (x : Option Text) → t ≡ btc_usdt → x ≡ some t → known_symbol x ≡ t
  symbol_held t x h e = ap known_symbol e ∙ known_symbol_btc t h

  restore0_held :
      (w : Workspace) (s : Content)
      → IsSaved l laws accepts (w, s)
      → IsUsable w.chart0
      → restore0 l parse_int s ≡ w.chart0
  unfolding restore0 entries
  restore0_held w s h u =
      let c = w.chart0 in
      let symbol_given : c.symbol ≢ [] = λ p. cc (sym u.known ∙ p) in
      chart_ext (restore0 l parse_int s) c
        (symbol_held c.symbol _ u.known (
          saved_given l (codes "procluster_active_symbol_0") c.symbol _ s symbol_given
            h.1.1.1.1.1.1.1.1.1.1.1.1.0))
        (text_held c.interval (codes "15m") _ u.interval_given
          (saved_given l (codes "procluster_interval_0") c.interval _ s u.interval_given h.1.1.0))
        (text_held c.market_type (codes "SPOT") _ u.market_given (
          saved_given l (codes "procluster_market_type_0") c.market_type _ s u.market_given
            h.1.1.1.1.0))
        (text_held c.candle_type (codes "auto") _ u.type_given (
          saved_given l (codes "procluster_candle_type_0") c.candle_type _ s u.type_given
            h.1.1.1.1.1.1.0))
        (text_held c.candle_data_type (codes "bid_ask") _ u.data_type_given (
          saved_given l (codes "procluster_candle_data_type_0") c.candle_data_type _ s
            u.data_type_given h.1.1.1.1.1.1.1.1.0))
        (text_held c.candle_palette (codes "default") _ u.palette_given (
          saved_given l (codes "procluster_candle_palette_0") c.candle_palette _ s u.palette_given
            h.1.1.1.1.1.1.1.1.1.1.0))
        (compression_held c.compression_multiplier _ u.compressed (
          saved_given l (codes "procluster_compression_multiplier_0")
            (decimal c.compression_multiplier) _ s
            (decimal_nonempty c.compression_multiplier u.compressed) h.0))

  restore1_held :
      (w : Workspace) (s : Content)
      → IsSaved l laws accepts (w, s)
      → IsUsable w.chart1
      → restore1 l parse_int s ≡ w.chart1
  unfolding restore1 entries
  restore1_held w s h u =
      let c = w.chart1 in
      chart_ext (restore1 l parse_int s) c
        (symbol_held c.symbol _ u.known (
          storage_get_held l (codes "procluster_active_symbol_1") c.symbol s
            h.1.1.1.1.1.1.1.1.1.1.1.1.1.0))
        (text_held c.interval (codes "15m") _ u.interval_given
          (storage_get_held l (codes "procluster_interval_1") c.interval s h.1.1.1.0))
        (text_held c.market_type (codes "SPOT") _ u.market_given
          (storage_get_held l (codes "procluster_market_type_1") c.market_type s h.1.1.1.1.1.0))
        (text_held c.candle_type (codes "auto") _ u.type_given
          (storage_get_held l (codes "procluster_candle_type_1") c.candle_type s h.1.1.1.1.1.1.1.0))
        (text_held c.candle_data_type (codes "bid_ask") _ u.data_type_given (
          storage_get_held l (codes "procluster_candle_data_type_1") c.candle_data_type s
            h.1.1.1.1.1.1.1.1.1.0))
        (text_held c.candle_palette (codes "default") _ u.palette_given (
          storage_get_held l (codes "procluster_candle_palette_1") c.candle_palette s
            h.1.1.1.1.1.1.1.1.1.1.1.0))
        (compression_held c.compression_multiplier _ u.compressed (
          storage_get_held l (codes "procluster_compression_multiplier_1")
            (decimal c.compression_multiplier) s h.1.0))

  -- A restart finds both charts as they are, with the first one active, if they are usable: after
  -- the first render of any settings over any storage, and any actions, whatever the defaults of the
  -- compression are at each of them.
  pub act_all-read_workspace :
      (parsed : Option Json) (start : Workspace) (s : Content)
      (actions : List (Option Json × SettingsAction)) (x : Workspace × Content)
      → act_all l actions (first_render l parsed start s) ≡ x
      → IsUsable x.0.chart0
      → IsUsable x.0.chart1
      → read_workspace l parse_int x.1 ≡ record x.0 { active_chart_index = 0 }
  unfolding read_workspace
  act_all-read_workspace parsed start s actions x e u0 u1 =
      let h =
        subst (IsSaved l laws accepts) e (run-IsSaved l laws accepts parsed start s actions) in
      let e0 = restore0_held x.0 x.1 h u0 in
      let e1 = restore1_held x.0 x.1 h u1 in
      λ i. record { chart0 = e0 i; chart1 = e1 i; active_chart_index = 0 }
