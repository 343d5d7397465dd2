-- ===== src/Stream.antt =====
-- The WebSocket client: frontend-chart/src/lib/wsClient.ts.
--
-- The client is a record of the fields of the class `WsClient`. What it does to the outside (calls
-- of the socket, of timers and of callbacks) is a list of effects beside the new state, and what the
-- browser does to it is a list of events. Callbacks are values of a type `F`, which the effects
-- name. `JSON.parse` and `JSON.stringify` are left out: a message is a value.
--
-- `pending` is the browser's part of `reconnectTimer`: the delay of the timeout that waits. The
-- source's field keeps the number of a timeout that has fired, which `clearTimeout` ignores.
-- A socket whose handlers are taken off sends no event any more, so only events of the socket in the
-- field `ws` matter.
pub mod Socket
pub mod Messages
pub mod Events
pub mod Registry
pub mod Keys
pub mod Invariant
pub mod Reconnect
pub mod Recovery
pub mod Delivery
mod Tests
use test_v.Shared.{
  ℕ, ◌*◌, min, Bool, true, false, ◌&&◌, Option, none, some, List, [], ◌∷◌, ◌++◌, map, if◌then◌else◌,
  ◌==◌, ltb, not,
}
use test_v.Shared.Text.{Text, codes, text_eq, decimal}
use test_v.Shared.JsMap.{get, put, delete, values}
use test_v.Number.{Num}
use test_v.Candle.{BackendCandle, ClusterCandle, map_stream_candle}

pub record Sub : Type 0 where
  pub symbol : Text
  pub market : Text
  pub tf : Text
  pub compression : ℕ

-- `${s.symbol}:${s.market}:${s.tf}:${s.compression}`
unfoldable pub make_sub_key : Sub → Text
make_sub_key s = s.symbol ++ (58 ∷ (s.market ++ (58 ∷ (s.tf ++ (58 ∷ decimal s.compression)))))

pub data WsMessageType : Type 0 where
  update_type close_type open_type ok_type error_type : WsMessageType

pub record WsMessage (R : Type 0) : Type 0 where
  pub kind : WsMessageType
  pub symbol : Option Text
  pub market : Option Text
  pub tf : Option Text
  pub compression : Option ℕ
  pub candle : Option (BackendCandle R)

pub record SubCallbacks (F : Type 0) : Type 0 where
  pub on_update : Option F
  pub on_close : Option F
  pub on_open : Option F

pub record WsClientConfig (F : Type 0) : Type 0 where
  pub url : Text
  pub on_connect : Option F
  pub on_disconnect : Option F
  pub on_error : Option F

pub data ReadyState : Type 0 where
  is_connecting is_open is_closing is_closed : ReadyState

pub record WsClient (F : Type 0) : Type 0 where
  pub ws : Option ReadyState
  pub config : WsClientConfig F
  pub reconnect_timer : Bool
  pub pending : Option ℕ
  pub reconnect_delay : ℕ
  pub destroyed : Bool
  pub active_subs : List (Text × Sub)
  pub sub_callbacks : List (Text × SubCallbacks F)

-- What the server is sent.
pub data ClientMsg : Type 0 where
  subscribe_msg : Sub → ClientMsg
  unsubscribe_msg : Sub → ClientMsg

pub data Effect (R F : Type 0) : Type 0 where
  new_socket : Effect R F
  close_socket : Effect R F
  send : ClientMsg → Effect R F
  call : F → Effect R F
  call_msg : F → WsMessage R → Effect R F
  call_candle : F → WsMessage R → ClusterCandle R → Effect R F

abbrev pub max_reconnect_delay : ℕ
max_reconnect_delay = 10000

unfoldable pub new_client : {F : Type 0} → WsClientConfig F → WsClient F
new_client config = record {
  ws = none;
  config = config;
  reconnect_timer = false;
  pending = none;
  reconnect_delay = 1000;
  destroyed = false;
  active_subs = [];
  sub_callbacks = [];
}

-- An optional callback, `f?.(…)`.
abbrev pub optional : {F E : Type 0} → (F → E) → Option F → List E
optional f none = []
optional f (some g) = f g ∷ []
