-- ===== src/Terminal/Synced.antt =====
-- The subscriptions of the client and those of the charts.
use test_v.Shared.{
  Bool, true, false, ◌≡◌, sym, subst, Option, none, some, List, [], ◌∷◌, if◌then◌else◌, arith,
}
use test_v.History.Chart.{Settings}
use test_v.Number.{Num}
use test_v.Stream.{Sub, SubCallbacks, WsClientConfig, WsClient}
use test_v.Stream.Socket.{
  connect, on_open_event, on_error_event, on_close_event, on_timer, subscribe, unsubscribe,
  update_config,
}
use test_v.Stream.Events.{
  Event, step, call_connect, call_update_config, call_subscribe, call_unsubscribe, call_destroy,
  socket_open, socket_error, socket_closing, socket_close, socket_message, timeout,
}
use test_v.Terminal.{ChartIndex, chart0, chart1, Terminal, sub_for, other_panel}
use test_v.Terminal.Effects.{
  Result, TerminalEvent, settings_changed, ticking_changed, stream_event, unsubscribe_prev,
  clean_up, subscribe_chart, subscribe_effect, connect_effect, change_ticking, change_settings,
  mount, act_on, act_all, release,
}
use test_v.Terminal.Slots.{
  Apart, Apart-sym, Holds, delete-Holds0, delete-Holds1, put-Holds0, put-Holds1,
}

-- Events of the browser, not calls of the client's methods.
abbrev pub IsBrowser : {R F : Type 0} → Event R F → Type 0
IsBrowser call_connect = ⊥
IsBrowser (call_update_config config) = ⊥
IsBrowser (call_subscribe s cb) = ⊥
IsBrowser (call_unsubscribe s) = ⊥
IsBrowser call_destroy = ⊥
IsBrowser _ = Unit

if_holds {ℓ κ} :
    {A : Type ℓ} (P : A → Type κ) (b : Bool) (x y : A) → P x → P y → P (if b then x else y)
if_holds P true x y hx hy = hx
if_holds P false x y hx hy = hy

module _ (n : Num) {F : Type 0} where
  -- The two maps of the client are not changed.
  abbrev Keeps : WsClient F → WsClient F → Type 0
  Keeps c d = (d.active_subs ≡ c.active_subs) × (d.sub_callbacks ≡ c.sub_callbacks)

  step-Keeps : (e : Event n.Real F) (c : WsClient F) → IsBrowser e → Keeps c (step n e c).0
  unfolding step connect on_open_event on_error_event on_close_event on_timer
  step-Keeps call_connect c h = absurd h
  step-Keeps (call_update_config config) c h = absurd h
  step-Keeps (call_subscribe s cb) c h = absurd h
  step-Keeps (call_unsubscribe s) c h = absurd h
  step-Keeps call_destroy c h = absurd h
  step-Keeps socket_open c h = ground arith
  step-Keeps socket_error c h = ground arith
  step-Keeps socket_closing c h = ground arith
  step-Keeps socket_close c h = ground arith
  step-Keeps (socket_message msg) c h = ground arith
  step-Keeps timeout c h = ground arith

  connect-Keeps :
      (config : WsClientConfig F) (c : WsClient F)
      → Keeps c (connect {R = n.Real} (update_config config c)).0
  unfolding connect update_config
  connect-Keeps config c = ground arith

module _ (n : Num) {F : Type 0} (config : WsClientConfig F)
    (callbacks : ChartIndex → SubCallbacks F) where
  -- The client's two maps hold the subscriptions `p` of the first and `q` of the second chart, with
  -- the callbacks of that chart, and nothing else.
  pub record IsSynced (c : WsClient F) (p q : Option Sub) : Type 0 where
    pub apart : Apart p q
    pub subs : Holds (λ s. s) (λ s. s) c.active_subs p q
    pub calls : Holds (λ s. callbacks chart0) (λ s. callbacks chart1) c.sub_callbacks p q

  abbrev pub IsInSync : Terminal F → Type 0
  IsInSync t = IsSynced t.client t.panel0.prev_sub t.panel1.prev_sub

  -- The subscription of changed settings has another key than that of the other chart, at each event.
  abbrev pub Guard : TerminalEvent n.Real F → Terminal F → Type 0
  Guard (settings_changed i s) t = Apart (some (sub_for s)) (other_panel i t).prev_sub
  Guard (ticking_changed on) t = Unit
  Guard (stream_event e) t = IsBrowser e

  abbrev pub Guards : List (TerminalEvent n.Real F) → Terminal F → Type 0
  unfolding act_on
  Guards [] t = Unit
  Guards (e ∷ es) t = Guard e t × Guards es (act_on n config callbacks e t).0

  keep-IsSynced :
      (c d : WsClient F) (p q : Option Sub) → Keeps n c d → IsSynced c p q → IsSynced d p q
  keep-IsSynced c d p q (a, b) h = record {
    apart = h.apart;
    subs = subst (λ m. Holds (λ s. s) (λ s. s) m p q) (sym a) h.subs;
    calls =
        subst (λ m. Holds (λ s. callbacks chart0) (λ s. callbacks chart1) m p q) (sym b) h.calls;
  }

  drop0 :
      (p q : Option Sub) (c : WsClient F)
      → IsSynced c p q
      → IsSynced (unsubscribe_prev n config callbacks p c).0 none q
  unfolding unsubscribe_prev unsubscribe
  drop0 none q c h = h
  drop0 (some s) q c h = record {
    apart = tt;
    subs = delete-Holds0 (λ s. s) (λ s. s) s q c.active_subs h.apart h.subs;
    calls =
        delete-Holds0 (λ s. callbacks chart0) (λ s. callbacks chart1) s q c.sub_callbacks h.apart
          h.calls;
  }

  flip-Apart : (p q : Option Sub) → Apart p q → Apart q p
  flip-Apart none none h = tt
  flip-Apart none (some t) h = tt
  flip-Apart (some s) none h = tt
  flip-Apart (some s) (some t) h = Apart-sym s t h

  no-Apart : (p : Option Sub) → Apart p none
  no-Apart none = tt
  no-Apart (some s) = tt

  drop1 :
      (p q : Option Sub) (c : WsClient F)
      → IsSynced c p q
      → IsSynced (unsubscribe_prev n config callbacks q c).0 p none
  unfolding unsubscribe_prev unsubscribe
  drop1 p none c h = h
  drop1 p (some s) c h = record {
    apart = no-Apart p;
    subs = delete-Holds1 (λ s. s) (λ s. s) p s c.active_subs (flip-Apart p (some s) h.apart) h.subs;
    calls =
        delete-Holds1 (λ s. callbacks chart0) (λ s. callbacks chart1) p s c.sub_callbacks
          (flip-Apart p (some s) h.apart) h.calls;
  }

  add0 :
      (s : Sub) (q : Option Sub) (c : WsClient F)
      → Apart (some s) q
      → IsSynced c none q
      → IsSynced (subscribe {R = n.Real} s (callbacks chart0) c).0 (some s) q
  unfolding subscribe
  add0 s q c a h = record {
    apart = a;
    subs = put-Holds0 (λ s. s) (λ s. s) s q c.active_subs h.subs;
    calls = put-Holds0 (λ s. callbacks chart0) (λ s. callbacks chart1) s q c.sub_callbacks h.calls;
  }

  add1 :
      (p : Option Sub) (s : Sub) (c : WsClient F)
      → Apart (some s) p
      → IsSynced c p none
      → IsSynced (subscribe {R = n.Real} s (callbacks chart1) c).0 p (some s)
  unfolding subscribe
  add1 p s c a h = record {
    apart = flip-Apart (some s) p a;
    subs = put-Holds1 (λ s. s) (λ s. s) p s c.active_subs a h.subs;
    calls =
        put-Holds1 (λ s. callbacks chart0) (λ s. callbacks chart1) p s c.sub_callbacks a h.calls;
  }

  change_settings-IsInSync :
      (i : ChartIndex) (s : Settings) (t : Terminal F)
      → Apart (some (sub_for s)) (other_panel i t).prev_sub
      → IsInSync t
      → IsInSync (change_settings n config callbacks i s t).0
  unfolding change_settings clean_up subscribe_effect subscribe_chart unsubscribe_prev
  change_settings-IsInSync chart0 s t a h =
      let dropped = drop0 t.panel0.prev_sub t.panel1.prev_sub t.client h in
      if_holds (λ (r : Result n config callbacks). IsInSync r.0) t.panel0.has_client _ _
        (add0 (sub_for s) t.panel1.prev_sub _ a dropped) dropped
  change_settings-IsInSync chart1 s t a h =
      let dropped = drop1 t.panel0.prev_sub t.panel1.prev_sub t.client h in
      if_holds (λ (r : Result n config callbacks). IsInSync r.0) t.panel1.has_client _ _
        (add1 t.panel0.prev_sub (sub_for s) _ a dropped) dropped

  -- The state of App.tsx before its effects have run.
  abbrev pub at_start : WsClient F → Settings → Settings → Bool → Terminal F
  at_start client s0 s1 on = record {
    client = client;
    panel0 = record { settings = s0; has_client = false; prev_sub = none };
    panel1 = record { settings = s1; has_client = false; prev_sub = none };
    is_ticking = on;
  }

  connect_effect-IsInSync :
      (i : ChartIndex) (t : Terminal F)
      → IsInSync t
      → IsInSync (connect_effect n config callbacks i t).0
  unfolding connect_effect
  connect_effect-IsInSync chart0 t h =
      keep-IsSynced t.client _ _ _ (connect-Keeps n config t.client) h
  connect_effect-IsInSync chart1 t h =
      keep-IsSynced t.client _ _ _ (connect-Keeps n config t.client) h

  change_ticking-IsInSync :
      (on : Bool) (t : Terminal F)
      → IsInSync t
      → IsInSync (change_ticking n config callbacks on t).0
  unfolding change_ticking
  change_ticking-IsInSync false t h = h
  change_ticking-IsInSync true t h =
      connect_effect-IsInSync chart1
        (connect_effect n config callbacks chart0
          (record (release n config callbacks t) { is_ticking = true })).0
        (connect_effect-IsInSync chart0
          (record (release n config callbacks t) { is_ticking = true }) h)

  -- The first render brings the charts in sync, if their subscriptions have different keys.
  pub mount-IsInSync :
      (client : WsClient F) (s0 s1 : Settings) (on : Bool)
      → IsSynced client none none
      → Apart (some (sub_for s1)) (some (sub_for s0))
      → IsInSync (mount n config callbacks (at_start client s0 s1 on)).0
  unfolding mount connect_effect subscribe_effect subscribe_chart unsubscribe_prev
  mount-IsInSync client s0 s1 on h a =
      let t0 = at_start client s0 s1 on in
      let t1 = (connect_effect n config callbacks chart0 t0).0 in
      let h1 : IsSynced t1.client none none = connect_effect-IsInSync chart0 t0 h in
      let t2 = (subscribe_chart n config callbacks chart0 (sub_for s0) t1).0 in
      let h2 : IsInSync t2 = add0 (sub_for s0) none t1.client tt h1 in
      let t3 = (connect_effect n config callbacks chart1 t2).0 in
      let h3 : IsInSync t3 = connect_effect-IsInSync chart1 t2 h2 in
      add1 (some (sub_for s0)) (sub_for s1) t3.client a h3

  act_on-IsInSync :
      (e : TerminalEvent n.Real F) (t : Terminal F)
      → Guard e t
      → IsInSync t
      → IsInSync (act_on n config callbacks e t).0
  unfolding act_on
  act_on-IsInSync (settings_changed i s) t g h = change_settings-IsInSync i s t g h
  act_on-IsInSync (ticking_changed on) t g h = change_ticking-IsInSync on t h
  act_on-IsInSync (stream_event e) t g h =
      keep-IsSynced t.client _ _ _ (step-Keeps n e t.client g) h

  -- Whatever the user changes and the browser reports, in any order, as long as the two charts never
  -- show the same: the client holds just the subscriptions that the charts have made, each with the
  -- callbacks of its chart.
  pub act_all-IsInSync :
      (es : List (TerminalEvent n.Real F)) (t : Terminal F)
      → Guards es t
      → IsInSync t
      → IsInSync (act_all n config callbacks es t).0
  unfolding act_all
  act_all-IsInSync [] t g h = h
  act_all-IsInSync (e ∷ es) t g h =
      act_all-IsInSync es (act_on n config callbacks e t).0 g.1 (act_on-IsInSync e t g.0 h)
