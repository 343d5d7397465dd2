-- ===== src/Stream/Messages.antt =====
-- The messages of the server and their delivery to callbacks: `handleMessage` of
-- frontend-chart/src/lib/wsClient.ts.
use test_v.Shared.{ℕ, Option, none, some, List, [], ◌∷◌, ◌++◌, if◌then◌else◌, ◌==◌}
use test_v.Shared.Text.{Text}
use test_v.Shared.JsMap.{get, values}
use test_v.Number.{Num}
use test_v.Candle.{BackendCandle, ClusterCandle, map_stream_candle}
use test_v.Stream.{
  Sub, make_sub_key, WsMessageType, update_type, close_type, open_type, ok_type, error_type,
  WsMessage, SubCallbacks, WsClient, Effect, call_msg, call_candle, optional,
}

-- `msg.symbol && msg.market && msg.tf && msg.compression`: present, not empty, not 0.
abbrev pub filled : Option Text → Option Text
filled (some (x ∷ xs)) = some (x ∷ xs)
filled _ = none

abbrev pub nonzero : Option ℕ → Option ℕ
nonzero none = none
nonzero (some k) = if k == 0 then none else some k

abbrev pub sub_of : Option Text → Option Text → Option Text → Option ℕ → Option Sub
sub_of (some s) (some m) (some t) (some k) =
    some (record { symbol = s; market = m; tf = t; compression = k })
sub_of _ _ _ _ = none

unfoldable pub message_sub : {R : Type 0} → WsMessage R → Option Sub
message_sub msg =
    sub_of (filled msg.symbol) (filled msg.market) (filled msg.tf) (nonzero msg.compression)

module _ (n : Num) {F : Type 0} where
  -- `key ? this.subCallbacks.get(key) : null`
  abbrev pub callbacks_for : Option Sub → WsClient F → Option (SubCallbacks F)
  callbacks_for none c = none
  callbacks_for (some s) c = get (make_sub_key s) c.sub_callbacks

  abbrev pub deliver_update :
      WsMessage n.Real → ClusterCandle n.Real → Option (SubCallbacks F) → List (Effect n.Real F)
  deliver_update msg candle none = []
  deliver_update msg candle (some cb) = optional (λ f. call_candle f msg candle) cb.on_update

  abbrev pub deliver_close :
      WsMessage n.Real → ClusterCandle n.Real → Option (SubCallbacks F) → List (Effect n.Real F)
  deliver_close msg candle none = []
  deliver_close msg candle (some cb) = optional (λ f. call_candle f msg candle) cb.on_close

  abbrev pub deliver_open : WsMessage n.Real → List (SubCallbacks F) → List (Effect n.Real F)
  deliver_open msg [] = []
  deliver_open msg (cb ∷ cbs) = optional (λ f. call_msg f msg) cb.on_open ++ deliver_open msg cbs

  abbrev pub handle_kind :
      WsMessageType
      → Option (BackendCandle n.Real)
      → WsMessage n.Real
      → WsClient F
      → List (Effect n.Real F)
  handle_kind update_type none msg c = []
  handle_kind update_type (some bc) msg c =
      deliver_update msg (map_stream_candle n bc) (callbacks_for (message_sub msg) c)
  handle_kind close_type none msg c = []
  handle_kind close_type (some bc) msg c =
      deliver_close msg (map_stream_candle n bc) (callbacks_for (message_sub msg) c)
  handle_kind open_type _ msg c = deliver_open msg (values c.sub_callbacks)
  handle_kind ok_type _ msg c = []
  handle_kind error_type _ msg c = []

  -- `handleMessage`; the client does not change.
  unfoldable pub handle_message : WsMessage n.Real → WsClient F → List (Effect n.Real F)
  handle_message msg c = handle_kind msg.kind msg.candle msg c

  unfoldable pub on_message_event : WsMessage n.Real → WsClient F → List (Effect n.Real F)
  unfolding handle_message
  on_message_event msg c = if c.destroyed then [] else handle_message msg c
