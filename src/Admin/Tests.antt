-- ===== src/Admin/Tests.antt =====
-- Tests and witnesses for the history load.
use test_v.Shared.{◌≡◌, ◌≤◌, refl, true, false, none, some, List, [], ◌∷◌, ◌==◌}
use test_v.Shared.Text.{codes, text_eq, decimal}
use test_v.Admin.{
  AdminEvent, click_load, started, job_progress, job_done, job_error, leave_panel, leave, is_some,
  is_disabled, handle_load_history, job_started, show_progress, percent, has_source, close_source,
  finish, fail_job, if_open, admin_step, admin_run, no_load,
}
use test_v.Admin.Single
use test_v.Admin.Single.{followed, has_ended, IsPatient, ArePatient}

-- A job is loaded to its end, and a second one is begun; a click meanwhile does nothing.
abbrev session : List AdminEvent
session =
    click_load
    ∷ started (codes "a")
    ∷ job_progress (codes "a")
        (some (record { current = 2; total = 3; label = none; detail = none }))
    ∷ job_done (codes "a")
    ∷ click_load
    ∷ started (codes "b")
    ∷ click_load
    ∷ []

session_runs : (admin_run session no_load).sources ≡ codes "b" ∷ []
unfolding admin_run admin_step handle_load_history job_started show_progress percent decimal if_open
    has_source close_source finish text_eq
session_runs = refl

session-ArePatient : ArePatient session no_load
unfolding ArePatient IsPatient admin_step handle_load_history job_started show_progress if_open
    has_source close_source finish text_eq
session-ArePatient = ((λ q. refl), (tt, (tt, (tt, ((λ q. refl), (tt, ((λ q. refl), tt)))))))

admin_run_lem_example :
    (followed (admin_run session no_load) ≤ 1)
    × (has_ended (admin_run session no_load) ≡ true → followed (admin_run session no_load) ≡ 0)
    × (is_some (admin_run session no_load).hist_job_id ≡ true
        → is_disabled (admin_run session no_load) ≡ (followed (admin_run session no_load) == 1))
admin_run_lem_example = Single.admin_run_lem session session-ArePatient

-- The panel is left while a job runs: it comes again with an open button, and follows no job.
left_runs :
    let h = admin_run (click_load ∷ started (codes "a") ∷ leave_panel ∷ []) no_load in
    (is_disabled h ≡ false) × (h.sources ≡ []) × (h.left_sources ≡ codes "a" ∷ [])
unfolding admin_run admin_step handle_load_history job_started leave
left_runs = (refl, refl, refl)

-- A connection is lost while the job runs: the button is open, and a second job is followed.
second_job_runs :
    (admin_run
      (click_load
        ∷ started (codes "a")
        ∷ job_error (codes "a") (some none)
        ∷ click_load
        ∷ started (codes "b")
        ∷ [])
      no_load).sources
    ≡ codes "b" ∷ []
unfolding admin_run admin_step handle_load_history job_started if_open has_source close_source
    fail_job text_eq
second_job_runs = refl

-- A lost connection is an error event without data.
lost_runs :
    (admin_run
      (click_load ∷ started (codes "a") ∷ job_error (codes "a") (some none) ∷ [])
      no_load).hist_error
    ≡ some (codes "Job failed")
unfolding admin_run admin_step handle_load_history job_started if_open has_source close_source
    fail_job text_eq
lost_runs = refl

-- Two clicks before the first answer start two jobs.
two_jobs_run :
    (admin_run
      (click_load ∷ click_load ∷ started (codes "a") ∷ started (codes "b") ∷ [])
      no_load).sources
    ≡ codes "b" ∷ codes "a" ∷ []
unfolding admin_run admin_step handle_load_history job_started
two_jobs_run = refl
