-- ===== src/Terminal/Delivered.antt =====
-- Where the candles of the stream go.
use test_v.Shared.{◌≡◌, ap, ◌∙◌, Option, none, some, List}
use test_v.Number.{Num}
use test_v.Candle.{BackendCandle, map_stream_candle}
use test_v.Stream.{Sub, make_sub_key, WsMessage, update_type, SubCallbacks, WsClientConfig}
use test_v.Stream.Messages.{message_sub, handle_message, deliver_update}
use test_v.Stream.Delivery.{routed}
use test_v.Terminal.{ChartIndex, chart0, chart1, Terminal}
use test_v.Terminal.Effects.{TerminalEvent, act_all}
use test_v.Terminal.Slots.{slot}
use test_v.Terminal.Synced.{IsInSync, Guards, act_all-IsInSync}

module _ (n : Num) {F : Type 0} (config : WsClientConfig F)
    (callbacks : ChartIndex → SubCallbacks F) where
  -- The callbacks of the chart that has subscribed to `s`, if one of them has.
  abbrev pub receiver : Sub → Terminal F → Option (SubCallbacks F)
  receiver s t =
      slot (make_sub_key s) t.panel0.prev_sub (λ _. callbacks chart0)
        (slot (make_sub_key s) t.panel1.prev_sub (λ _. callbacks chart1) none)

  -- From charts in sync, after any events in which they never show the same: an update that names a
  -- subscription and carries a candle reaches the chart that has this subscription, with the mapped
  -- candle, and nobody else.
  pub handle_message-act_all :
      (es : List (TerminalEvent n.Real F)) (t : Terminal F) (msg : WsMessage n.Real)
      (bc : BackendCandle n.Real) (s : Sub)
      → IsInSync n config callbacks t
      → Guards n config callbacks es t
      → msg.kind ≡ update_type
      → msg.candle ≡ some bc
      → message_sub msg ≡ some s
      → let t' = (act_all n config callbacks es t).0 in
        handle_message n msg t'.client
        ≡ deliver_update n msg (map_stream_candle n bc) (receiver s t')
  handle_message-act_all es t msg bc s h g is_update has_candle names_sub =
      let synced = act_all-IsInSync n config callbacks es t g h in
      routed n msg bc s is_update has_candle names_sub (act_all n config callbacks es t).0.client
      ∙ ap (deliver_update n msg (map_stream_candle n bc)) (synced.calls (make_sub_key s))
