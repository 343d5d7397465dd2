-- ===== src/Stream/Recovery.antt =====
-- A client that has lost its connection, over attempts that fail and the one that opens.
use test_v.Shared.{
  ℕ, zero, suc, false, ◌≡◌, refl, ap, subst, ◌∙◌, none, some, List, [], ◌∷◌, ◌++◌, map, arith,
}
use test_v.Number.{Num}
use mathlib.Core.List.{append-nil}
use test_v.Shared.Text.{Text}
use test_v.Shared.JsMap.{values}
use test_v.Stream.{
  Sub, WsClient, is_open, is_connecting, subscribe_msg, Effect, new_socket, close_socket, send,
  call, call_msg, call_candle,
}
use test_v.Stream.Socket.{
  connect, on_open_event, on_close_event, on_timer, schedule_reconnect, Outcome,
}
use test_v.Stream.Events.{Event, socket_open, socket_close, timeout, step, run}
use test_v.Stream.Reconnect.{sent, sent-on_open_event}

-- The timer fires and the new socket closes without having opened, `k` times.
abbrev pub attempts : {R F : Type 0} → ℕ → List (Event R F)
attempts zero = []
attempts (suc k) = timeout ∷ socket_close ∷ attempts k

module _ (n : Num) {F : Type 0} where
  -- A client that waits for its timer.
  pub record IsWaiting (c : WsClient F) : Type 0 where
    pub alive : c.destroyed ≡ false
    pub no_socket : c.ws ≡ none
    pub delay : ℕ
    pub waits : c.pending ≡ some delay

  sent-append : (out more : List (Effect n.Real F)) → sent (out ++ more) ≡ sent out ++ sent more
  sent-append [] more = refl
  sent-append (send m ∷ out) more = ap (◌∷◌ m) (sent-append out more)
  sent-append (new_socket ∷ out) more = sent-append out more
  sent-append (close_socket ∷ out) more = sent-append out more
  sent-append (call f ∷ out) more = sent-append out more
  sent-append (call_msg f m ∷ out) more = sent-append out more
  sent-append (call_candle f m c ∷ out) more = sent-append out more

  timeout_lem :
      (c : WsClient F)
      → IsWaiting c
      → ((step n timeout c).0.destroyed ≡ false)
        × ((step n timeout c).0.ws ≡ some is_connecting)
        × ((step n timeout c).0.active_subs ≡ c.active_subs)
        × (sent (step n timeout c).1 ≡ [])
  unfolding step on_timer connect
  timeout_lem c w = ground (arith, w.alive, w.no_socket, w.waits)

  close_lem :
      (c : WsClient F)
      → c.destroyed ≡ false
      → c.ws ≡ some is_connecting
      → ((step n socket_close c).0.destroyed ≡ false)
        × ((step n socket_close c).0.ws ≡ none)
        × ((step n socket_close c).0.pending ≡ some c.reconnect_delay)
        × ((step n socket_close c).0.active_subs ≡ c.active_subs)
        × (sent (step n socket_close c).1 ≡ [])
  unfolding step on_close_event schedule_reconnect
  close_lem c d w = ground (arith, d, w)

  open_lem :
      (c : WsClient F)
      → c.destroyed ≡ false
      → c.ws ≡ some is_connecting
      → ((step n socket_open c).0.ws ≡ some is_open)
        × ((step n socket_open c).0.active_subs ≡ c.active_subs)
        × (step n socket_open c ≡ on_open_event c)
  unfolding step on_open_event
  open_lem c d w = ground (arith, d, w)

  run-cons :
      (e : Event n.Real F) (es : List (Event n.Real F)) (c : WsClient F)
      → ((run n (e ∷ es) c).0 ≡ (run n es (step n e c).0).0)
        × (sent (run n (e ∷ es) c).1 ≡ sent (step n e c).1 ++ sent (run n es (step n e c).0).1)
  unfolding run
  run-cons e es c = (refl, sent-append (step n e c).1 (run n es (step n e c).0).1)

  -- The connection stands again and the subscriptions `subs` have been sent, nothing else.
  pub record IsRecovered (subs : List (Text × Sub)) (r : Outcome n.Real F) : Type 0 where
    pub is_connected : r.0.ws ≡ some is_open
    pub delay_reset : r.0.reconnect_delay ≡ 1000
    pub same_subs : r.0.active_subs ≡ subs
    pub sent_subs : sent r.1 ≡ map subscribe_msg (values subs)

  -- An event that sends nothing.
  quietly :
      (e : Event n.Real F) (es : List (Event n.Real F)) (c : WsClient F) (subs : List (Text × Sub))
      → sent (step n e c).1 ≡ []
      → IsRecovered subs (run n es (step n e c).0)
      → IsRecovered subs (run n (e ∷ es) c)
  quietly e es c subs q h =
      let (p, s) = run-cons e es c in
      record {
        is_connected = ap (λ (d : WsClient F). d.ws) p ∙ h.is_connected;
        delay_reset = ap (λ (d : WsClient F). d.reconnect_delay) p ∙ h.delay_reset;
        same_subs = ap (λ (d : WsClient F). d.active_subs) p ∙ h.same_subs;
        sent_subs = s ∙ ap (λ t. t ++ sent (run n es (step n e c).0).1) q ∙ h.sent_subs;
      }

  opened :
      (c : WsClient F)
      → c.destroyed ≡ false
      → c.ws ≡ some is_connecting
      → IsRecovered c.active_subs (run n (socket_open ∷ []) c)
  unfolding run
  opened c d w =
      let (o, a, p) = open_lem c d w in
      let (s, r) = sent-on_open_event n.Real c d in
      let (q, t) = run-cons socket_open [] c in
      record {
        is_connected = o;
        delay_reset = ap (λ (x : Outcome n.Real F). x.0.reconnect_delay) p ∙ r;
        same_subs = a;
        sent_subs =
            t
            ∙ append-nil (sent (step n socket_open c).1)
            ∙ ap (λ (x : Outcome n.Real F). sent x.1) p
            ∙ s;
      }

  -- A client that is not destroyed, has lost its socket and waits for its timer: after any number of
  -- attempts that fail, the next one that opens leaves it connected, with its subscriptions as they
  -- were, each of which has been sent once and in order, with nothing else, and with a delay of one
  -- second.
  pub run-attempts :
      (k : ℕ) (c : WsClient F)
      → IsWaiting c
      → IsRecovered c.active_subs (run n (attempts k ++ timeout ∷ socket_open ∷ []) c)
  run-attempts zero c w =
      let (d, o, a, s) = timeout_lem c w in
      quietly timeout (socket_open ∷ []) c c.active_subs s (
        subst (λ subs. IsRecovered subs (run n (socket_open ∷ []) (step n timeout c).0)) a
          (opened (step n timeout c).0 d o))
  run-attempts (suc k) c w =
      let (d, o, a, s) = timeout_lem c w in
      let c1 = (step n timeout c).0 in
      let (d', o', p, a', s') = close_lem c1 d o in
      let c2 = (step n socket_close c1).0 in
      let es = attempts k ++ timeout ∷ socket_open ∷ [] in
      let w' : IsWaiting c2 = record {
        alive = d';
        no_socket = o';
        delay = c1.reconnect_delay;
        waits = p;
      } in
      quietly timeout (socket_close ∷ es) c c.active_subs s (
        quietly socket_close es c1 c.active_subs s'
          (subst (λ subs. IsRecovered subs (run n es c2)) (a' ∙ a) (run-attempts k c2 w')))
