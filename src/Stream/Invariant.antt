-- ===== src/Stream/Invariant.antt =====
-- The invariant of `WsClient` over its events, and a client that is destroyed.
use test_v.Shared.{
  ◌≤◌, true, false, ◌≡◌, refl, subst, sym, ◌⊎◌, inl, none, List, [], ◌∷◌, arith, All,
}
use test_v.Shared.Text.{Text}
use test_v.Shared.JsMap.{keys, keys-put_same, keys-delete_same, put, delete, put-All, delete-All}
use test_v.Number.{Num}
use test_v.Stream.{Sub, make_sub_key, WsClientConfig, WsClient, new_client}
use test_v.Stream.Socket.{
  connect, on_open_event, on_error_event, on_close_event, on_timer, subscribe, unsubscribe, destroy,
  update_config,
}
use test_v.Stream.Events.{Event, step, run, call_connect, call_subscribe, call_unsubscribe}

-- An active subscription stands under its own key.
abbrev pub IsKeyed : Text × Sub → Type 0
IsKeyed e = e.0 ≡ make_sub_key e.1

-- The delay before a reconnection, and what a destroyed client holds.
pub record IsTimed {F : Type 0} (c : WsClient F) : Type 0 where
  pub delay_low : 1000 ≤ c.reconnect_delay
  pub delay_high : c.reconnect_delay ≤ 10000
  pub released : (c.destroyed ≡ false) ⊎ ((c.ws ≡ none) × (c.pending ≡ none))

-- The two maps have the same keys, in the same order.
pub record IsValid {F : Type 0} (c : WsClient F) : Type 0 where
  pub same_keys : keys c.active_subs ≡ keys c.sub_callbacks
  pub keyed : All IsKeyed c.active_subs
  pub timed : IsTimed c

pub new_client-IsValid : {F : Type 0} (config : WsClientConfig F) → IsValid (new_client config)
unfolding new_client
new_client-IsValid config = record {
  same_keys = refl;
  keyed = tt;
  timed = record { delay_low = omega arith; delay_high = omega arith; released = inl refl };
}

module _ (n : Num) {F : Type 0} where
  step-IsTimed : (e : Event n.Real F) (c : WsClient F) → IsTimed c → IsTimed (step n e c).0
  unfolding step connect on_open_event on_error_event on_close_event on_timer subscribe unsubscribe
      destroy update_config
  step-IsTimed call_connect c v = ground arith
  step-IsTimed _ c v = ground arith

  step-same_keys :
      (e : Event n.Real F) (c : WsClient F)
      → keys c.active_subs ≡ keys c.sub_callbacks
      → keys (step n e c).0.active_subs ≡ keys (step n e c).0.sub_callbacks
  unfolding step connect on_open_event on_error_event on_close_event on_timer subscribe unsubscribe
      destroy update_config
  step-same_keys (call_subscribe s cb) c h = keys-put_same _ s cb c.active_subs c.sub_callbacks h
  step-same_keys (call_unsubscribe s) c h = keys-delete_same _ c.active_subs c.sub_callbacks h
  step-same_keys _ c h = ground arith

  -- Only the two calls change the subscriptions.
  abbrev subs_after : Event n.Real F → WsClient F → List (Text × Sub)
  subs_after (call_subscribe s cb) c = put (make_sub_key s) s c.active_subs
  subs_after (call_unsubscribe s) c = delete (make_sub_key s) c.active_subs
  subs_after _ c = c.active_subs

  step-subs_after :
      (e : Event n.Real F) (c : WsClient F) → (step n e c).0.active_subs ≡ subs_after e c
  unfolding step connect on_open_event on_error_event on_close_event on_timer subscribe unsubscribe
      destroy update_config
  step-subs_after (call_subscribe s cb) c = refl
  step-subs_after (call_unsubscribe s) c = refl
  step-subs_after _ c = ground arith

  subs_after-IsKeyed :
      (e : Event n.Real F) (c : WsClient F)
      → All IsKeyed c.active_subs
      → All IsKeyed (subs_after e c)
  subs_after-IsKeyed (call_subscribe s cb) c h =
      put-All IsKeyed (make_sub_key s) s c.active_subs (λ j e. e) h
  subs_after-IsKeyed (call_unsubscribe s) c h = delete-All IsKeyed (make_sub_key s) c.active_subs h
  subs_after-IsKeyed _ c h = h

  -- Every event keeps the invariant.
  pub step-IsValid : (e : Event n.Real F) (c : WsClient F) → IsValid c → IsValid (step n e c).0
  step-IsValid e c v = record {
    same_keys = step-same_keys e c v.same_keys;
    keyed = subst (λ m. All IsKeyed m) (sym (step-subs_after e c)) (subs_after-IsKeyed e c v.keyed);
    timed = step-IsTimed e c v.timed;
  }

  -- However events follow one another: the two maps have the same keys, each subscription stands
  -- under its key, the delay stays between 1 and 10 seconds, and a destroyed client has no socket
  -- and no timeout.
  pub run-IsValid :
      (es : List (Event n.Real F)) (c : WsClient F) → IsValid c → IsValid (run n es c).0
  unfolding run
  run-IsValid [] c v = v
  run-IsValid (e ∷ es) c v = run-IsValid es (step n e c).0 (step-IsValid e c v)

  step-destroyed :
      (e : Event n.Real F) (c : WsClient F)
      → c.destroyed ≡ true
      → c.ws ≡ none
      → c.pending ≡ none
      → ((step n e c).1 ≡ [])
        × ((step n e c).0.destroyed ≡ true)
        × ((step n e c).0.ws ≡ none)
        × ((step n e c).0.pending ≡ none)
  unfolding step connect on_open_event on_error_event on_close_event on_timer subscribe unsubscribe
      destroy update_config
  step-destroyed call_connect c d w p = ground arith
  step-destroyed _ c d w p = ground arith

  destroyed_run :
      (es : List (Event n.Real F)) (c : WsClient F)
      → c.destroyed ≡ true
      → c.ws ≡ none
      → c.pending ≡ none
      → ((run n es c).1 ≡ []) × ((run n es c).0.ws ≡ none)
  unfolding run
  destroyed_run [] c d w p = (refl, w)
  destroyed_run (e ∷ es) c d w p =
      let (out, d', w', p') = step-destroyed e c d w p in
      let (more, w'') = destroyed_run es (step n e c).0 d' w' p' in (rw (out, more), w'')

  -- After `destroy` nothing reaches the outside any more, whatever is called or happens.
  pub run-destroy :
      (es : List (Event n.Real F)) (c : WsClient F)
      → ((run n es (destroy {R = n.Real} c).0).1 ≡ [])
        × ((run n es (destroy {R = n.Real} c).0).0.ws ≡ none)
  unfolding destroy
  run-destroy es c = destroyed_run es _ refl refl refl
