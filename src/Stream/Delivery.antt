-- ===== src/Stream/Delivery.antt =====
-- Which callbacks a candle of the stream reaches.
use test_v.Shared.{◌≡◌, ap, ◌∙◌, some, [], Bool-cases, inl, inr, if◌then◌else◌}
use test_v.Shared.Text.{text_eq, text_eq_iff}
use test_v.Shared.JsMap.{get, get-put_self, get-put_ne, get-delete_self, get-delete_ne}
use test_v.Number.{Num}
use test_v.Candle.{BackendCandle, map_stream_candle}
use test_v.Stream.{
  Sub, make_sub_key, WsMessage, update_type, SubCallbacks, WsClient, call_candle, optional,
}
use test_v.Stream.Socket.{subscribe, unsubscribe}
use test_v.Stream.Messages.{message_sub, handle_message, handle_kind, deliver_update, callbacks_for}

module _ (n : Num) {F : Type 0} (msg : WsMessage n.Real) (bc : BackendCandle n.Real) (s : Sub)
    (is_update : msg.kind ≡ update_type) (has_candle : msg.candle ≡ some bc)
    (names_sub : message_sub msg ≡ some s) where
  pub routed :
      (c : WsClient F)
      → handle_message n msg c
        ≡ deliver_update n msg (map_stream_candle n bc) (get (make_sub_key s) c.sub_callbacks)
  unfolding handle_message
  routed c =
      ap (λ k. handle_kind n k msg.candle msg c) is_update
      ∙ (ap (λ b. handle_kind n update_type b msg c) has_candle
          ∙ ap (λ o. deliver_update n msg (map_stream_candle n bc) (callbacks_for n o c)) names_sub)

  -- An update that carries a candle, after `subscribe`: the new callbacks get the mapped candle if
  -- the update has the key of the new subscription, and otherwise all is as before. So of two
  -- subscribers with one key the later takes the place of the earlier.
  pub handle_message-subscribe :
      (t : Sub) (cb : SubCallbacks F) (c : WsClient F)
      → handle_message n msg (subscribe {R = n.Real} t cb c).0 ≡ (
          if text_eq (make_sub_key t) (make_sub_key s)
          then optional (λ f. call_candle f msg (map_stream_candle n bc)) cb.on_update
          else handle_message n msg c)
  unfolding subscribe
  handle_message-subscribe t cb c = elim (Bool-cases (text_eq (make_sub_key t) (make_sub_key s))) [
    | inl e ↦
        let p = (text_eq_iff (make_sub_key t) (make_sub_key s)).0 e in
        rw e (routed _ ∙ rw (← p, get-put_self))
    | inr e ↦
        rw (e, routed c)
          (routed _ ∙ rw (get-put_ne (make_sub_key t) (make_sub_key s) cb c.sub_callbacks e))
  ]

  -- The same after `unsubscribe`: nobody gets an update with the key, also not another subscriber
  -- with that key, and the other updates go where they went.
  pub handle_message-unsubscribe :
      (t : Sub) (c : WsClient F)
      → handle_message n msg (unsubscribe {R = n.Real} t c).0
        ≡ (if text_eq (make_sub_key t) (make_sub_key s) then [] else handle_message n msg c)
  unfolding unsubscribe
  handle_message-unsubscribe t c = elim (Bool-cases (text_eq (make_sub_key t) (make_sub_key s))) [
    | inl e ↦
        let p = (text_eq_iff (make_sub_key t) (make_sub_key s)).0 e in
        rw e (routed _ ∙ rw (← p, get-delete_self))
    | inr e ↦
        rw (e, routed c)
          (routed _ ∙ rw (get-delete_ne (make_sub_key t) (make_sub_key s) c.sub_callbacks e))
  ]
