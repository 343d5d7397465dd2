-- ===== src/Admin.antt =====
-- Loading history in frontend-chart/src/components/AdminPanel.tsx: the request that starts a job, and
-- the events of the job's progress.
--
-- The state holds, beside what the panel shows, the number of its requests that wait for an answer
-- and its sources of progress (EventSource) that are open, each by its job. The job itself runs on
-- the server: that its source is closed does not end it. Leaving the admin view removes the panel
-- with its state (frontend-chart/src/App.tsx); its requests and sources live on, and what they bring
-- is not shown. Counts of a job are natural numbers. The data of an event that is no JSON is none.
pub mod Single
mod Tests
use test_v.Shared.{
  ℕ, ◌+◌, ◌-◌, ◌*◌, ◌/◌, Bool, true, false, not, ◌&&◌, ◌||◌, Option, none, some, List, [], ◌∷◌,
  ◌++◌, if◌then◌else◌, ltb, filter, get_or,
}
use test_v.Shared.Text.{Text, codes, decimal, text_eq}

pub record HistoryLoad : Type 0 where
  pub hist_job_id : Option Text
  pub hist_progress : Text
  pub hist_detail : Text
  pub hist_percent : ℕ
  pub hist_done : Bool
  pub hist_error : Option Text
  pub requests : ℕ
  pub sources : List Text
  -- of the panels that were left
  pub left_requests : ℕ
  pub left_sources : List Text

-- The data of a progress event; a label or a detail that is missing or empty is none.
pub record ProgressData : Type 0 where
  pub current : ℕ
  pub total : ℕ
  pub label : Option Text
  pub detail : Option Text

pub data AdminEvent : Type 0 where
  click_load : AdminEvent
  started : Text → AdminEvent
  refused : Option Text → AdminEvent
  request_failed : Option Text → AdminEvent
  job_progress : Text → Option ProgressData → AdminEvent
  job_done : Text → AdminEvent
  job_error : Text → Option (Option Text) → AdminEvent
  -- The admin view is left; the answers and the ends of sources of panels that were left.
  leave_panel left_refused : AdminEvent
  left_started left_ended : Text → AdminEvent

abbrev pub is_some {ℓ} : {A : Type ℓ} → Option A → Bool
is_some none = false
is_some (some a) = true

-- `disabled={!!histJobId && !histDone && !histError}`
abbrev pub is_disabled : HistoryLoad → Bool
is_disabled h = is_some h.hist_job_id && not h.hist_done && not (is_some h.hist_error)

-- `handleLoadHistory` up to its request.
unfoldable pub handle_load_history : HistoryLoad → HistoryLoad
handle_load_history h = if is_disabled h then h else record h {
  hist_done = false;
  hist_error = none;
  hist_progress = codes "Starting...";
  hist_detail = [];
  hist_percent = 0;
  requests = h.requests + 1;
}

-- The answer that names the job, and the answers that do not.
unfoldable pub job_started : Text → HistoryLoad → HistoryLoad
job_started job h =
    if ltb 0 h.requests
    then record h { hist_job_id = some job; requests = h.requests - 1; sources = job ∷ h.sources }
    else h

unfoldable pub not_started : Text → HistoryLoad → HistoryLoad
not_started message h =
    if ltb 0 h.requests
    then record h { hist_error = some message; hist_progress = []; requests = h.requests - 1 }
    else h

-- `Math.round((current / total) * 100)`
unfoldable pub percent : ProgressData → ℕ
percent d = if ltb 0 d.total then (200 * d.current + d.total) / (2 * d.total) else 0

unfoldable pub show_progress : Option ProgressData → HistoryLoad → HistoryLoad
unfolding percent decimal
show_progress none h = h
show_progress (some d) h = record h {
  hist_percent = percent d;
  hist_progress =
      get_or d.label (codes "processing")
      ++ codes " "
      ++ decimal d.current
      ++ codes "/"
      ++ decimal d.total;
  hist_detail = get_or d.detail [];
}

-- `evtSource.close()`
unfoldable pub close_source : Text → List Text → List Text
unfolding text_eq
close_source job [] = []
close_source job (j ∷ js) = let rest = close_source job js in if text_eq j job then js else j ∷ rest

unfoldable pub has_source : Text → List Text → Bool
unfolding text_eq
has_source job [] = false
has_source job (j ∷ js) = text_eq j job || has_source job js

unfoldable pub finish : Text → HistoryLoad → HistoryLoad
unfolding close_source
finish job h = record h {
  hist_done = true;
  hist_progress = codes "Complete!";
  hist_percent = 100;
  sources = close_source job h.sources;
}

-- An error event; data that is missing is read as an object without an error.
unfoldable pub fail_job : Text → Option (Option Text) → HistoryLoad → HistoryLoad
unfolding close_source
fail_job job none h = record h {
  hist_error = some (codes "Connection lost");
  sources = close_source job h.sources;
}
fail_job job (some error) h = record h {
  hist_error = some (get_or error (codes "Job failed"));
  sources = close_source job h.sources;
}

-- An event of a source that is closed does not occur; it changes nothing.
unfoldable pub if_open : Text → HistoryLoad → HistoryLoad → HistoryLoad
unfolding has_source
if_open job h next = if has_source job h.sources then next else h

-- The panel before any click.
abbrev pub no_load : HistoryLoad
no_load = record {
  hist_job_id = none;
  hist_progress = [];
  hist_detail = [];
  hist_percent = 0;
  hist_done = false;
  hist_error = none;
  requests = 0;
  sources = [];
  left_requests = 0;
  left_sources = [];
}

-- The panel is removed, and comes again with its first state.
unfoldable pub leave : HistoryLoad → HistoryLoad
leave h = record no_load {
  left_requests = h.left_requests + h.requests;
  left_sources = h.sources ++ h.left_sources;
}

-- The answer to a request of a panel that was left still opens a source.
unfoldable pub left_job_started : Text → HistoryLoad → HistoryLoad
left_job_started job h =
    if ltb 0 h.left_requests
    then record h { left_requests = h.left_requests - 1; left_sources = job ∷ h.left_sources }
    else h

unfoldable pub admin_step : AdminEvent → HistoryLoad → HistoryLoad
unfolding handle_load_history job_started not_started show_progress finish fail_job if_open leave
    left_job_started
admin_step click_load h = handle_load_history h
admin_step (started job) h = job_started job h
admin_step (refused message) h = not_started (get_or message (codes "Failed to start")) h
admin_step (request_failed message) h = not_started (get_or message (codes "Network error")) h
admin_step (job_progress job d) h = if_open job h (show_progress d h)
admin_step (job_done job) h = if_open job h (finish job h)
admin_step (job_error job error) h = if_open job h (fail_job job error h)
admin_step leave_panel h = leave h
admin_step (left_started job) h = left_job_started job h
admin_step left_refused h =
    if ltb 0 h.left_requests then record h { left_requests = h.left_requests - 1 } else h
admin_step (left_ended job) h = record h { left_sources = close_source job h.left_sources }

unfoldable pub admin_run : List AdminEvent → HistoryLoad → HistoryLoad
unfolding admin_step
admin_run [] h = h
admin_run (e ∷ es) h = admin_run es (admin_step e h)
