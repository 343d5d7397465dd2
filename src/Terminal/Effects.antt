-- ===== src/Terminal/Effects.antt =====
-- The effects of the two charts (frontend-chart/src/App.tsx) on the client.
use test_v.Shared.{Bool, true, false, Option, none, some, List, [], ◌∷◌, ◌++◌, if◌then◌else◌}
use test_v.History.Chart.{Settings}
use test_v.Number.{Num}
use test_v.Stream.{Sub, SubCallbacks, WsClientConfig, WsClient, Effect}
use test_v.Stream.Socket.{Outcome, connect, subscribe, unsubscribe, update_config}
use test_v.Stream.Events.{Event, step}
use test_v.Terminal.{ChartIndex, chart0, chart1, Terminal, sub_for, panel_of, with_panel}

pub data TerminalEvent (R F : Type 0) : Type 0 where
  settings_changed : ChartIndex → Settings → TerminalEvent R F
  ticking_changed : Bool → TerminalEvent R F
  stream_event : Event R F → TerminalEvent R F

module _ (n : Num) {F : Type 0} (config : WsClientConfig F)
    (callbacks : ChartIndex → SubCallbacks F) where
  -- The new terminal and what the client does.
  abbrev pub Result : Type 0
  Result = Terminal F × List (Effect n.Real F)

  abbrev pub on_client : Terminal F → Outcome n.Real F → Result
  on_client t (c, out) = (record t { client = c }, out)

  abbrev pub then_do : Result → (Terminal F → Result) → Result
  then_do (t, out) next = ((next t).0, out ++ (next t).1)

  -- `if (prevSubRef.current) client.unsubscribe(…)`
  unfoldable pub unsubscribe_prev : Option Sub → WsClient F → Outcome n.Real F
  unsubscribe_prev none c = (c, [])
  unsubscribe_prev (some s) c = unsubscribe s c

  abbrev pub set_prev : ChartIndex → Option Sub → Terminal F → Terminal F
  set_prev i prev t = with_panel i (record (panel_of i t) { prev_sub = prev }) t

  -- The cleanup of the subscribing effect.
  unfoldable pub clean_up : ChartIndex → Terminal F → Result
  unfolding unsubscribe_prev
  clean_up i t =
      let (c, out) = unsubscribe_prev (panel_of i t).prev_sub t.client in
      (set_prev i none (record t { client = c }), out)

  -- The subscribing effect, when `wsClientRef` holds the client.
  unfoldable pub subscribe_chart : ChartIndex → Sub → Terminal F → Result
  unfolding unsubscribe_prev
  subscribe_chart i s t =
      let (c, out) = unsubscribe_prev (panel_of i t).prev_sub t.client in
      let (c', more) = subscribe s (callbacks i) c in
      (set_prev i (some s) (record t { client = c' }), out ++ more)

  unfoldable pub subscribe_effect : ChartIndex → Terminal F → Result
  unfolding subscribe_chart
  subscribe_effect i t =
      if (panel_of i t).has_client
      then subscribe_chart i (sub_for (panel_of i t).settings) t
      else (t, [])

  -- The connecting effect, when the switch is on.
  unfoldable pub connect_effect : ChartIndex → Terminal F → Result
  connect_effect i t =
      on_client (with_panel i (record (panel_of i t) { has_client = true }) t)
        (connect (update_config config t.client))

  abbrev pub release : Terminal F → Terminal F
  release t = record t {
    panel0 = record t.panel0 { has_client = false };
    panel1 = record t.panel1 { has_client = false };
  }

  -- A change of `isTickingAll`: both connecting effects are cleaned up and run again.
  unfoldable pub change_ticking : Bool → Terminal F → Result
  unfolding connect_effect
  change_ticking on t =
      if on
      then then_do (connect_effect chart0 (record (release t) { is_ticking = true }))
          (connect_effect chart1)
      else (record (release t) { is_ticking = false }, [])

  unfoldable pub change_settings : ChartIndex → Settings → Terminal F → Result
  unfolding clean_up subscribe_effect
  change_settings i s t =
      then_do (clean_up i t)
        (λ t'. subscribe_effect i (with_panel i (record (panel_of i t') { settings = s }) t'))

  -- The first render: the effects in the order of the source.
  unfoldable pub mount : Terminal F → Result
  unfolding connect_effect subscribe_effect
  mount t =
      then_do
        (then_do (then_do (connect_effect chart0 t) (subscribe_effect chart0))
          (connect_effect chart1))
        (subscribe_effect chart1)

  unfoldable pub act_on : TerminalEvent n.Real F → Terminal F → Result
  unfolding change_settings change_ticking
  act_on (settings_changed i s) t = change_settings i s t
  act_on (ticking_changed on) t = change_ticking on t
  act_on (stream_event e) t = on_client t (step n e t.client)

  unfoldable pub act_all : List (TerminalEvent n.Real F) → Terminal F → Result
  unfolding act_on
  act_all [] t = (t, [])
  act_all (e ∷ es) t = then_do (act_on e t) (act_all es)
