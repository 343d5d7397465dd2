-- ===== src/Terminal.antt =====
-- The two charts of frontend-chart/src/App.tsx on their shared stream client: the effects that
-- connect, subscribe and clean up.
--
-- getOrCreateWsClient gives both charts one client, since they name one address. A chart's
-- callbacks put the candle into the buffer of that chart. The flag `has_client` says whether
-- `wsClientRef` holds the client. A cleanup of the subscribing effect exists if the effect has found
-- the client, and then `prevSubRef` is set; so the reference alone says what a cleanup does.
pub mod Effects
pub mod Slots
pub mod Synced
pub mod Delivered
mod Tests
use test_v.Shared.{Bool, true, false, Option, none, some, if◌then◌else◌, ◌*◌}
use test_v.Shared.Text.{Text, codes}
use test_v.Tiers.Capacity.{Interval, m1, m5, m15, m30, h1, h4, other_interval}
use test_v.History.Chart.{Settings, base_compression}
use test_v.Stream.{Sub, SubCallbacks, WsClient}

pub data ChartIndex : Type 0 where
  chart0 chart1 : ChartIndex

pub record Panel : Type 0 where
  pub settings : Settings
  pub has_client : Bool
  pub prev_sub : Option Sub

pub record Terminal (F : Type 0) : Type 0 where
  pub client : WsClient F
  pub panel0 : Panel
  pub panel1 : Panel
  pub is_ticking : Bool

-- The strings of the intervals; the buttons offer one besides the six.
abbrev pub interval_name : Interval → Text
interval_name m1 = codes "1m"
interval_name m5 = codes "5m"
interval_name m15 = codes "15m"
interval_name m30 = codes "30m"
interval_name h1 = codes "1h"
interval_name h4 = codes "4h"
interval_name other_interval = codes "50t"

-- What a chart subscribes to.
unfoldable pub sub_for : Settings → Sub
unfolding base_compression
sub_for s = record {
  symbol = s.symbol;
  market = if s.is_futures then codes "futures" else codes "spot";
  tf = interval_name s.interval;
  compression = base_compression s * s.compression_multiplier;
}

module _ {F : Type 0} where
  abbrev pub panel_of : ChartIndex → Terminal F → Panel
  panel_of chart0 t = t.panel0
  panel_of chart1 t = t.panel1

  abbrev pub with_panel : ChartIndex → Panel → Terminal F → Terminal F
  with_panel chart0 p t = record t { panel0 = p }
  with_panel chart1 p t = record t { panel1 = p }

  abbrev pub other_panel : ChartIndex → Terminal F → Panel
  other_panel chart0 t = t.panel1
  other_panel chart1 t = t.panel0
