-- ===== src/Stream/Reconnect.antt =====
-- Reconnection: how the delay grows, and what a new connection sends.
use test_v.Shared.{
  ℕ, zero, suc, ◌*◌, ◌^◌, ◌≤◌, min, false, ◌≡◌, refl, ap, ◌∙◌, Option, none, some, List, [], ◌∷◌,
  ◌++◌, arith, map,
}
use native.Mathlib.Nat.{pow-suc}
use test_v.Shared.JsMap.{values}
use test_v.Stream.{
  Sub, WsClient, is_open, ClientMsg, subscribe_msg, Effect, new_socket, close_socket, send, call,
  call_msg, call_candle, optional,
}
use test_v.Stream.Socket.{connect, on_open_event, on_close_event, on_timer, resubscribe}

-- A timeout fires, and the new socket closes without having opened.
unfoldable pub fail_once : {F : Type 0} → WsClient F → WsClient F
fail_once c = (on_close_event {R = ℕ} (on_timer {R = ℕ} c).0).0

unfoldable pub fail : {F : Type 0} → ℕ → WsClient F → WsClient F
unfolding fail_once
fail zero c = c
fail (suc k) c = fail_once (fail k c)

fail_once_lem :
    {F : Type 0} (c : WsClient F)
    → c.destroyed ≡ false
    → c.ws ≡ none
    → ((fail_once c).destroyed ≡ false)
      × ((fail_once c).ws ≡ none)
      × ((fail_once c).reconnect_delay ≡ min (c.reconnect_delay * 2) 10000)
      × ((fail_once c).pending ≡ some (min (c.reconnect_delay * 2) 10000))
unfolding fail_once on_close_event on_timer connect
fail_once_lem c d w = ground arith

fail_lem :
    {F : Type 0} (k : ℕ) (c : WsClient F)
    → c.destroyed ≡ false
    → c.ws ≡ none
    → c.reconnect_delay ≤ 10000
    → ((fail k c).destroyed ≡ false)
      × ((fail k c).ws ≡ none)
      × ((fail k c).reconnect_delay ≡ min (2 ^ k * c.reconnect_delay) 10000)
unfolding fail
fail_lem zero c d w h = (d, w, omega arith)
fail_lem (suc k) c d w h =
    let (d', w', e) = fail_lem k c d w h in
    let (d'', w'', e', _) = fail_once_lem (fail k c) d' w' in
    (d'', w'', e' ∙ omega (arith, e, ap (λ (t : ℕ). t * c.reconnect_delay) (pow-suc 2 k)))

-- Exponential backoff: a client that is not destroyed and has no socket, with a delay of at most 10
-- seconds, waits after `k + 1` failed attempts in a row for its first delay doubled `k + 1` times, and
-- never for more than 10 seconds.
pub pending-fail :
    {F : Type 0} (k : ℕ) (c : WsClient F)
    → c.destroyed ≡ false
    → c.ws ≡ none
    → c.reconnect_delay ≤ 10000
    → (fail (suc k) c).pending ≡ some (min (2 ^ suc k * c.reconnect_delay) 10000)
unfolding fail
pending-fail k c d w h =
    let (d', w', e) = fail_lem k c d w h in
    let (_, _, _, p) = fail_once_lem (fail k c) d' w' in
    p ∙ ap some (omega (arith, e, ap (λ (t : ℕ). t * c.reconnect_delay) (pow-suc 2 k)))

-- What is sent over the socket.
abbrev pub sent : {R F : Type 0} → List (Effect R F) → List ClientMsg
sent [] = []
sent (send m ∷ out) = m ∷ sent out
sent (new_socket ∷ out) = sent out
sent (close_socket ∷ out) = sent out
sent (call f ∷ out) = sent out
sent (call_msg f m ∷ out) = sent out
sent (call_candle f m c ∷ out) = sent out

sent-resubscribe :
    (R F : Type 0) (ss : List Sub)
    → sent (resubscribe {R = R} {F = F} (some is_open) ss) ≡ map subscribe_msg ss
unfolding resubscribe
sent-resubscribe R F [] = refl
sent-resubscribe R F (s ∷ ss) = ap (◌∷◌ (subscribe_msg s)) (sent-resubscribe R F ss)

pub sent-optional :
    {R F : Type 0} (f : Option F) (out : List (Effect R F))
    → sent (optional call f ++ out) ≡ sent out
sent-optional none out = refl
sent-optional (some f) out = refl

-- A client that is not destroyed sends each active subscription once, in order, when its socket
-- opens, and starts over with a delay of one second.
pub sent-on_open_event :
    (R : Type 0) {F : Type 0} (c : WsClient F)
    → c.destroyed ≡ false
    → (sent (on_open_event {R = R} c).1 ≡ map subscribe_msg (values c.active_subs))
      × ((on_open_event {R = R} c).0.reconnect_delay ≡ 1000)
unfolding on_open_event
sent-on_open_event R {F} c d =
    (rw (d, sent-optional) (sent-resubscribe R F (values c.active_subs)), rw d)
