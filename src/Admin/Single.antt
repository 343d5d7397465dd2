-- ===== src/Admin/Single.antt =====
-- The requests that wait and the sources of progress that are open, and the button.
use test_v.Shared.{
  ℕ, ◌+◌, ◌≤◌, Bool, true, false, ◌||◌, ◌≡◌, none, some, List, [], ◌∷◌, ◌==◌, length, arith,
}
use test_v.Shared.Text.{Text}
use test_v.Admin.{
  HistoryLoad, AdminEvent, click_load, started, refused, request_failed, job_progress, job_done,
  job_error, leave_panel, left_started, left_refused, left_ended, leave, left_job_started, is_some,
  is_disabled, handle_load_history, job_started, not_started, show_progress, close_source,
  has_source, finish, fail_job, if_open, admin_step, admin_run, no_load,
}

-- The requests of the panel that wait, and its sources that are open.
abbrev pub followed : HistoryLoad → ℕ
followed h = h.requests + length h.sources

-- The panel shows an end or an error.
abbrev pub has_ended : HistoryLoad → Bool
has_ended h = h.hist_done || is_some h.hist_error

length-close_source :
    (job : Text) (js : List Text)
    → has_source job js ≡ true
    → length (close_source job js) + 1 ≡ length js
unfolding close_source has_source
length-close_source job [] h = absurd (cc h)
length-close_source job (j ∷ js) h = ground (arith, length-close_source job js)

-- No request waits and no source is open where an end is shown, and at most one in all; before the
-- first answer no source is open.
abbrev IsOne : HistoryLoad → Type 0
IsOne h =
    (followed h ≤ 1)
    × (has_ended h ≡ true → followed h ≡ 0)
    × (is_some h.hist_job_id ≡ false → length h.sources ≡ 0)
    × (is_some h.hist_job_id ≡ true → has_ended h ≡ false → followed h ≡ 1)

-- The user does not click again while the first request waits for its answer.
unfoldable pub IsPatient : AdminEvent → HistoryLoad → Type 0
IsPatient click_load h = is_some h.hist_job_id ≡ false → h.requests ≡ 0
IsPatient e h = Unit

admin_step-IsOne :
    (e : AdminEvent) (h : HistoryLoad) → IsPatient e h → IsOne h → IsOne (admin_step e h)
unfolding admin_step handle_load_history job_started not_started show_progress finish fail_job
    if_open leave left_job_started IsPatient
admin_step-IsOne click_load h p (a, b, c, d) = ground arith
admin_step-IsOne (started job) h p (a, b, c, d) = ground arith
admin_step-IsOne (refused message) h p (a, b, c, d) = ground arith
admin_step-IsOne (request_failed message) h p (a, b, c, d) = ground arith
admin_step-IsOne (job_progress job none) h p (a, b, c, d) = ground arith
admin_step-IsOne (job_progress job (some x)) h p (a, b, c, d) = ground arith
admin_step-IsOne leave_panel h p (a, b, c, d) = ground arith
admin_step-IsOne (left_started job) h p (a, b, c, d) = ground arith
admin_step-IsOne left_refused h p (a, b, c, d) = ground arith
admin_step-IsOne (left_ended job) h p (a, b, c, d) = (a, b, c, d)
admin_step-IsOne (job_done job) h p (a, b, c, d) = ground (arith, length-close_source job h.sources)
admin_step-IsOne (job_error job none) h p (a, b, c, d) =
    ground (arith, length-close_source job h.sources)
admin_step-IsOne (job_error job (some error)) h p (a, b, c, d) =
    ground (arith, length-close_source job h.sources)

-- Every click before the panel's first job has its name comes after the answer to the one before.
unfoldable pub ArePatient : List AdminEvent → HistoryLoad → Type 0
unfolding IsPatient
ArePatient [] h = Unit
ArePatient (e ∷ es) h = IsPatient e h × ArePatient es (admin_step e h)

admin_run-IsOne :
    (es : List AdminEvent) (h : HistoryLoad) → ArePatient es h → IsOne h → IsOne (admin_run es h)
unfolding admin_run ArePatient
admin_run-IsOne [] h p k = k
admin_run-IsOne (e ∷ es) h p k =
    admin_run-IsOne es (admin_step e h) p.1 (admin_step-IsOne e h p.0 k)

-- After any clicks, answers, failures, events of sources and exits from the admin view, if no click
-- that a panel gets before its first job has its name comes while its request waits: of the panel
-- that is shown at most one request waits or one source of progress is open, and none where it shows
-- an end or an error; and once a job has had its name in it, the button is shut exactly while a
-- request waits or a source is open. This is about what the panel follows: the job of a source that
-- was closed by an error, or of a panel that was left, may still run on the server.
pub admin_run_lem :
    (es : List AdminEvent)
    → ArePatient es no_load
    → (followed (admin_run es no_load) ≤ 1)
      × (has_ended (admin_run es no_load) ≡ true → followed (admin_run es no_load) ≡ 0)
      × (is_some (admin_run es no_load).hist_job_id ≡ true
          → is_disabled (admin_run es no_load) ≡ (followed (admin_run es no_load) == 1))
admin_run_lem es p =
    let (a, b, c, d) = admin_run-IsOne es no_load p (ground arith) in (a, b, λ q. ground arith)
