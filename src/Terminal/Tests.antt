-- ===== src/Terminal/Tests.antt =====
-- Tests and witnesses for the two charts on their client.
use test_v.Shared.{true, false, ◌≡◌, refl, none, some, List, [], ◌∷◌, ℕ}
use test_v.Shared.Int.{ℤ}
use test_v.Shared.Text.{codes, text_eq, decimal}
use test_v.Shared.JsMap.{get}
use test_v.Number.Fixed.{fixed}
use test_v.Number.{lit}
use test_v.Candle.{BackendCandle, map_stream_candle}
use test_v.Tiers.Capacity.{m5, m15}
use test_v.History.Chart.{Settings, base_compression}
use test_v.Stream.{
  Sub, WsMessage, update_type, SubCallbacks, WsClientConfig, new_client, make_sub_key,
}
use test_v.Stream.Messages.{message_sub, handle_message, deliver_update}
use test_v.Stream.Events.{socket_open}
use test_v.Terminal.{ChartIndex, chart0, chart1, Terminal, sub_for}
use test_v.Terminal.Effects.{
  TerminalEvent, settings_changed, ticking_changed, stream_event, mount, act_all, act_on,
  change_settings, change_ticking, clean_up, subscribe_effect, subscribe_chart, connect_effect,
  unsubscribe_prev,
}
use test_v.Terminal.Synced
use test_v.Terminal.Synced.{IsInSync, Guards, at_start}
use test_v.Terminal.Delivered
use test_v.Terminal.Delivered.{receiver}

abbrev config : WsClientConfig ℕ
config = record { url = codes "/ws"; on_connect = some 1; on_disconnect = some 2; on_error = none }

abbrev callbacks : ChartIndex → SubCallbacks ℕ
callbacks chart0 = record { on_update = some 10; on_close = some 10; on_open = none }
callbacks chart1 = record { on_update = some 20; on_close = some 20; on_open = none }

abbrev btc : Settings
btc = record {
  symbol = codes "BTCUSDT";
  is_futures = false;
  interval = m15;
  compression_multiplier = 1;
}

abbrev eth : Settings
eth = record btc { symbol = codes "ETHUSDT"; is_futures = true }

unfoldable started : Terminal ℕ
unfolding new_client mount
started =
    (mount fixed config callbacks
      (at_start fixed config callbacks (new_client config) btc eth true)).0

started-IsInSync : IsInSync fixed config callbacks started
unfolding new_client text_eq make_sub_key sub_for base_compression get started mount
started-IsInSync =
    Synced.mount-IsInSync fixed config callbacks (new_client config) btc eth true
      (record { apart = tt; subs = λ k. refl; calls = λ k. refl }) refl

abbrev events : List (TerminalEvent ℤ ℕ)
events =
    stream_event socket_open
    ∷ settings_changed chart0 (record btc { interval = m5 })
    ∷ ticking_changed false
    ∷ ticking_changed true
    ∷ []

events-Guards : Guards fixed config callbacks events started
unfolding started mount act_on change_settings change_ticking clean_up subscribe_effect
    subscribe_chart connect_effect unsubscribe_prev new_client text_eq make_sub_key sub_for
    base_compression decimal
events-Guards = (tt, (refl, (tt, (tt, tt))))

-- Settings that change while the switch is off are not subscribed to when it is on again.
paused_change :
    (act_all fixed config callbacks
      (ticking_changed false ∷ settings_changed chart0 eth ∷ ticking_changed true ∷ [])
      started).0.panel0
    ≡ record { settings = eth; has_client = true; prev_sub = none }
unfolding started mount act_all act_on change_settings change_ticking clean_up subscribe_effect
    subscribe_chart connect_effect unsubscribe_prev new_client
paused_change = refl

act_all-IsInSync_example :
    IsInSync fixed config callbacks (act_all fixed config callbacks events started).0
act_all-IsInSync_example =
    Synced.act_all-IsInSync fixed config callbacks events started events-Guards started-IsInSync

abbrev backend_candle : BackendCandle ℤ
backend_candle = record {
  time = 60;
  open_price = lit fixed 1;
  high = lit fixed 2;
  low = lit fixed 1;
  close = lit fixed 2;
  volume = lit fixed 3;
  delta = lit fixed 1;
  cells = [];
}

abbrev update : WsMessage ℤ
update = record {
  kind = update_type;
  symbol = some (codes "BTCUSDT");
  market = some (codes "spot");
  tf = some (codes "5m");
  compression = some 500;
  candle = some backend_candle;
}

abbrev btc_sub : Sub
btc_sub = record {
  symbol = codes "BTCUSDT";
  market = codes "spot";
  tf = codes "5m";
  compression = 500;
}

handle_message-act_all_example :
    handle_message fixed update (act_all fixed config callbacks events started).0.client
    ≡ deliver_update fixed update
        (map_stream_candle fixed backend_candle)
        (receiver fixed config callbacks btc_sub (act_all fixed config callbacks events started).0)
unfolding message_sub
handle_message-act_all_example =
    Delivered.handle_message-act_all fixed config callbacks events started update backend_candle
      btc_sub started-IsInSync events-Guards refl refl refl

-- It reaches the first chart.
first_chart :
    receiver fixed config callbacks btc_sub (act_all fixed config callbacks events started).0
    ≡ some (callbacks chart0)
unfolding started mount act_all act_on change_settings change_ticking clean_up subscribe_effect
    subscribe_chart connect_effect unsubscribe_prev new_client text_eq make_sub_key sub_for
    base_compression decimal
first_chart = refl
