-- ===== src/Stream/Events.antt =====
-- What can happen to a `WsClient` of frontend-chart/src/lib/wsClient.ts: calls of its methods, and
-- events of the socket and of the timer. An event of a socket or a timer that is not there does not
-- occur; it changes nothing.
use test_v.Shared.{Option, none, some, List, [], ◌∷◌, ◌++◌}
use test_v.Number.{Num}
use test_v.Stream.{Sub, WsMessage, SubCallbacks, WsClientConfig, ReadyState, is_closing, WsClient}
use test_v.Stream.Socket.{
  Outcome, connect, on_open_event, on_error_event, on_close_event, on_timer, subscribe, unsubscribe,
  destroy, update_config,
}
use test_v.Stream.Messages.{on_message_event}

pub data Event (R F : Type 0) : Type 0 where
  call_connect : Event R F
  call_update_config : WsClientConfig F → Event R F
  call_subscribe : Sub → SubCallbacks F → Event R F
  call_unsubscribe : Sub → Event R F
  call_destroy : Event R F
  socket_open socket_error socket_closing socket_close : Event R F
  socket_message : WsMessage R → Event R F
  timeout : Event R F

module _ (n : Num) {F : Type 0} where
  -- An event of the socket.
  abbrev pub with_socket : Option ReadyState → Outcome n.Real F → WsClient F → Outcome n.Real F
  with_socket none next c = (c, [])
  with_socket (some r) next c = next

  unfoldable pub step : Event n.Real F → WsClient F → Outcome n.Real F
  step call_connect c = connect c
  step (call_update_config config) c = (update_config config c, [])
  step (call_subscribe s cb) c = subscribe s cb c
  step (call_unsubscribe s) c = unsubscribe s c
  step call_destroy c = destroy c
  step socket_open c = with_socket c.ws (on_open_event c) c
  step socket_error c = with_socket c.ws (on_error_event c) c
  step socket_closing c = with_socket c.ws (record c { ws = some is_closing }, []) c
  step socket_close c = with_socket c.ws (on_close_event c) c
  step (socket_message msg) c = with_socket c.ws (c, on_message_event n msg c) c
  step timeout c = elim c.pending [ none ↦ (c, []) | some d ↦ on_timer c ]

  unfoldable pub run : List (Event n.Real F) → WsClient F → Outcome n.Real F
  unfolding step
  run [] c = (c, [])
  run (e ∷ es) c = let (c', out) = step e c in let (c'', more) = run es c' in (c'', out ++ more)
