-- ===== src/Stream/Socket.antt =====
-- The socket, its events and the reconnect timer of `WsClient`
-- (frontend-chart/src/lib/wsClient.ts).
use test_v.Shared.{
  ◌*◌, min, Bool, true, false, Option, none, some, List, [], ◌∷◌, ◌++◌, if◌then◌else◌,
}
use test_v.Shared.JsMap.{put, delete, values}
use test_v.Stream.{
  Sub, make_sub_key, SubCallbacks, WsClientConfig, ReadyState, is_connecting, is_open, is_closing,
  WsClient, subscribe_msg, unsubscribe_msg, Effect, new_socket, close_socket, send, call,
  max_reconnect_delay, optional,
}

unfoldable pub update_config : {F : Type 0} → WsClientConfig F → WsClient F → WsClient F
update_config config c = record c { config = config }

-- `this.ws?.readyState === WebSocket.OPEN`
abbrev pub ready : Option ReadyState → Bool
ready (some is_open) = true
ready _ = false

unfoldable pub is_connected : {F : Type 0} → WsClient F → Bool
is_connected c = ready c.ws

abbrev pub alive : Option ReadyState → Bool
alive (some is_open) = true
alive (some is_connecting) = true
alive _ = false

-- The new state, and what the outside sees.
abbrev pub Outcome : Type 0 → Type 0 → Type 0
Outcome R F = WsClient F × List (Effect R F)

unfoldable pub schedule_reconnect : {F : Type 0} → WsClient F → WsClient F
schedule_reconnect c =
    if c.destroyed then c else record c { reconnect_timer = true; pending = some c.reconnect_delay }

module _ {R F : Type 0} where
  -- The old socket, if there is one, loses its handlers and is closed.
  abbrev pub close_old : Option ReadyState → List (Effect R F)
  close_old none = []
  close_old (some _) = close_socket ∷ []

  unfoldable pub connect : WsClient F → Outcome R F
  connect c =
      if c.destroyed
      then (c, [])
      else if alive c.ws
      then (c, [])
      else (record c { ws = some is_connecting }, close_old c.ws ++ new_socket ∷ [])

  -- `sendSubscribe`
  unfoldable pub send_subscribe : Option ReadyState → Sub → List (Effect R F)
  send_subscribe ws s = if ready ws then send (subscribe_msg s) ∷ [] else []

  unfoldable pub resubscribe : Option ReadyState → List Sub → List (Effect R F)
  unfolding send_subscribe
  resubscribe ws [] = []
  resubscribe ws (s ∷ ss) = send_subscribe ws s ++ resubscribe ws ss

  -- `ws.onopen`: the browser has set the socket to OPEN.
  unfoldable pub on_open_event : WsClient F → Outcome R F
  unfolding resubscribe
  on_open_event c =
      if c.destroyed then (record c { ws = some is_closing }, close_socket ∷ []) else (
        record c { ws = some is_open; reconnect_delay = 1000 },
        optional call c.config.on_connect ++ resubscribe (some is_open) (values c.active_subs),
      )

  unfoldable pub on_error_event : WsClient F → Outcome R F
  on_error_event c = if c.destroyed then (c, []) else (c, optional call c.config.on_error)

  -- `ws.onclose`
  unfoldable pub on_close_event : WsClient F → Outcome R F
  unfolding schedule_reconnect
  on_close_event c =
      if c.destroyed
      then (c, [])
      else (schedule_reconnect (record c { ws = none }), optional call c.config.on_disconnect)

  -- The timeout of `scheduleReconnect`.
  unfoldable pub on_timer : WsClient F → Outcome R F
  unfolding connect
  on_timer c =
      if c.destroyed
      then (record c { pending = none }, [])
      else let (c', out) = connect (record c { pending = none }) in
        (record c' { reconnect_delay = min (c'.reconnect_delay * 2) max_reconnect_delay }, out)

  unfoldable pub subscribe : Sub → SubCallbacks F → WsClient F → Outcome R F
  unfolding send_subscribe
  subscribe s callbacks c = (
    record c {
      active_subs = put (make_sub_key s) s c.active_subs;
      sub_callbacks = put (make_sub_key s) callbacks c.sub_callbacks;
    },
    send_subscribe c.ws s,
  )

  unfoldable pub unsubscribe : Sub → WsClient F → Outcome R F
  unsubscribe s c = (
    record c {
      active_subs = delete (make_sub_key s) c.active_subs;
      sub_callbacks = delete (make_sub_key s) c.sub_callbacks;
    },
    if ready c.ws then send (unsubscribe_msg s) ∷ [] else [],
  )

  unfoldable pub destroy : WsClient F → Outcome R F
  destroy c = (
    record c { destroyed = true; reconnect_timer = false; pending = none; ws = none },
    close_old c.ws,
  )
