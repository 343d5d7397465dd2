-- ===== src/Stream/Tests.antt =====
-- Tests and witnesses for the WebSocket client.
use test_v.Shared.{
  ℕ, ◌*◌, ◌^◌, min, true, false, ◌≡◌, refl, none, some, List, [], ◌∷◌, ◌++◌, arith, map,
  if◌then◌else◌,
}
use test_v.Shared.Int.{ℤ}
use test_v.Shared.Text.{codes, text_eq, decimal}
use test_v.Shared.JsMap.{put, values}
use test_v.Number.Fixed.{fixed}
use test_v.Number.{lit}
use test_v.Candle.{BackendCandle, map_stream_candle}
use test_v.Stream.{
  Sub, make_sub_key, WsMessage, update_type, SubCallbacks, WsClient, new_client, subscribe_msg,
  is_connecting, call_candle, optional, call, send, new_socket, WsClientConfig,
}
use test_v.Stream.Socket.{subscribe, destroy, on_open_event, on_close_event, on_timer, connect}
use test_v.Stream.Messages.{message_sub, handle_message}
use test_v.Stream.Events.{
  Event, run, call_connect, call_subscribe, socket_open, socket_close, timeout,
}
use test_v.Stream.Invariant
use test_v.Stream.Invariant.{IsValid}
use test_v.Stream.Reconnect
use test_v.Stream.Reconnect.{sent}
use test_v.Stream.Delivery
use test_v.Stream.Recovery
use test_v.Stream.Recovery.{attempts, IsRecovered}

abbrev btc : Sub
btc = record {
  symbol = codes "BTCUSDT";
  market = codes "spot";
  tf = codes "15m";
  compression = 500;
}

key_of_btc : make_sub_key btc ≡ codes "BTCUSDT:spot:15m:500"
unfolding make_sub_key decimal
key_of_btc = refl

abbrev config : WsClientConfig ℕ
config = record { url = codes "/ws"; on_connect = some 1; on_disconnect = some 2; on_error = none }

abbrev first : SubCallbacks ℕ
first = record { on_update = some 10; on_close = some 11; on_open = none }

abbrev second : SubCallbacks ℕ
second = record { on_update = some 20; on_close = some 21; on_open = none }

abbrev start : WsClient ℕ
unfolding new_client
start = new_client config

abbrev history : List (Event ℤ ℕ)
history =
    call_subscribe btc first
    ∷ call_connect
    ∷ socket_open
    ∷ socket_close
    ∷ timeout
    ∷ socket_close
    ∷ []

-- A connection that opens sends the subscription; after its loss the delay doubles.
session :
    ((run fixed history start).1
      ≡ new_socket ∷ call 1 ∷ send (subscribe_msg btc) ∷ call 2 ∷ new_socket ∷ call 2 ∷ [])
    × ((run fixed history start).0.pending ≡ some 2000)
unfolding run new_client subscribe connect on_open_event on_close_event on_timer put
session = (refl, refl)

run-IsValid_example : IsValid (run fixed history (new_client config)).0
run-IsValid_example =
    Invariant.run-IsValid fixed history (new_client config) (Invariant.new_client-IsValid config)

run-destroy_example :
    ((run fixed history (destroy {R = ℤ} start).0).1 ≡ [])
    × ((run fixed history (destroy {R = ℤ} start).0).0.ws ≡ none)
run-destroy_example = Invariant.run-destroy fixed history start

pending-fail_example :
    (Reconnect.fail 4 start).pending ≡ some (min (2 ^ 4 * start.reconnect_delay) 10000)
unfolding new_client
pending-fail_example = Reconnect.pending-fail 3 start refl refl (omega arith)

abbrev one : WsClient ℕ
one = record {
  ws = some is_connecting;
  config = config;
  reconnect_timer = true;
  pending = none;
  reconnect_delay = 4000;
  destroyed = false;
  active_subs = (make_sub_key btc, btc) ∷ [];
  sub_callbacks = (make_sub_key btc, first) ∷ [];
}

sent-on_open_event_example :
    (sent (on_open_event {R = ℤ} one).1 ≡ map subscribe_msg (values one.active_subs))
    × ((on_open_event {R = ℤ} one).0.reconnect_delay ≡ 1000)
sent-on_open_event_example = Reconnect.sent-on_open_event ℤ one refl

abbrev bc : BackendCandle ℤ
bc = record {
  time = 1;
  open_price = lit fixed 5;
  high = lit fixed 6;
  low = lit fixed 4;
  close = lit fixed 5;
  volume = lit fixed 0;
  delta = lit fixed 0;
  cells = [];
}

abbrev update : WsMessage ℤ
update = record {
  kind = update_type;
  symbol = some btc.symbol;
  market = some btc.market;
  tf = some btc.tf;
  compression = some 500;
  candle = some bc;
}

update-btc : message_sub update ≡ some btc
unfolding message_sub
update-btc = refl

-- A second subscriber with the same key.
handle_message-subscribe_example :
    handle_message fixed update (subscribe {R = ℤ} btc second one).0 ≡ (
      if text_eq (make_sub_key btc) (make_sub_key btc)
      then optional (λ f. call_candle f update (map_stream_candle fixed bc)) second.on_update
      else handle_message fixed update one)
handle_message-subscribe_example =
    Delivery.handle_message-subscribe fixed update bc btc refl refl update-btc btc second one

abbrev waiting : WsClient ℕ
waiting = record one { ws = none; pending = some 4000 }

run-attempts_example :
    IsRecovered fixed waiting.active_subs
      (run fixed (attempts 3 ++ timeout ∷ socket_open ∷ []) waiting)
run-attempts_example =
    Recovery.run-attempts fixed 3 waiting
      (record { alive = refl; no_socket = refl; delay = 4000; waits = refl })
