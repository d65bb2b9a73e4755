-- ===== src/Dashboard/Pulls.antt =====
-- The downloads of models in internal/dashboard/handler.go: one job at a time, which the goroutine of the
-- download reports to under the mutex. Texts that are shown are codes; times are of one clock.
pub mod Jobs
pub mod Views
use ollama_gateway.Common.{
  ℕ, ◌+◌, ◌*◌, ◌/◌, Text, codes, ◌==◌, trim_space, to_lower, Option, none, some, List, [], ◌∷◌,
  Bool, true, false, not, ◌&&◌, ◌||◌, leb, ltb, if◌then◌else◌,
}
use ollama_gateway.Common.Int.{ℤ, pos, negsuc, is_nonpos, is_zero, ltb_ℤ, pos_part, int64, sub_ℕ}
use ollama_gateway.Usage.Pricing.{◌*ℤ◌}
use ollama_gateway.Backends.Calls.{PullProgress}

pub record Job : Type 0 where
  pub id : Text
  pub backend : Text
  pub model : Text
  pub status : Text
  pub digest : Text
  pub total : ℤ
  pub completed : ℤ
  pub started : ℕ
  pub ended : Option ℕ
  pub failure : Text
  pub active : Bool

abbrev pub is_blank : Text → Bool
is_blank t = trim_space t == []

-- `strings.EqualFold` of the trimmed status with "success"
abbrev pub is_success : Text → Bool
is_success status = to_lower (trim_space status) == codes "success"

abbrev starting : Text
starting = codes "Starting download"

abbrev pub done : Text
done = codes "Download complete"

abbrev pub broken_off : Text
broken_off = codes "Download failed"

abbrev pub new_job : Text → Text → Text → ℕ → Job
new_job id backend model now = record {
  id = id;
  backend = backend;
  model = model;
  status = starting;
  digest = [];
  total = pos 0;
  completed = pos 0;
  started = now;
  ended = none;
  failure = [];
  active = true;
}

-- `startPullJob` up to its goroutine: the job, and whether it was started.
unfoldable pub start_pull_job : Text → Text → Text → ℕ → Option Job → Option Job × Bool
start_pull_job id backend model now none = (some (new_job id backend model now), true)
start_pull_job id backend model now (some j) =
    if j.active then (some j, false) else (some (new_job id backend model now), true)

abbrev pub or_old : Text → Text → Text
or_old new old = if is_blank new then old else trim_space new

-- The body of `recordPullJobProgress`.
unfoldable pub note_progress : PullProgress → Job → Job
note_progress p j = record j {
  status = if is_success p.status then done else or_old p.status j.status;
  digest = or_old p.digest j.digest;
  total = if is_nonpos p.total then j.total else p.total;
  completed = if is_nonpos p.completed then j.completed else p.completed;
  failure = or_old p.failure j.failure;
}

-- `recordPullJobProgress`: reports of another job are dropped.
unfoldable pub record_progress : Text → PullProgress → Option Job → Option Job
unfolding note_progress
record_progress id p none = none
record_progress id p (some j) = if j.id == id then some (note_progress p j) else some j

abbrev raised : ℤ → ℤ → ℤ
raised completed total =
    if not (is_nonpos completed) && not (is_nonpos total) && ltb_ℤ completed total
    then total
    else completed

-- The count of a download that ended without an error.
unfoldable pub full_count : ℤ → ℤ → ℤ
full_count completed total =
    let c = raised completed total in if not (is_nonpos total) && is_zero c then total else c

abbrev filled : Job → Job
filled j = record j {
  completed = full_count j.completed j.total;
  status = if is_blank j.status || is_success j.status then done else j.status;
}

-- The body of `finishPullJob`, with the text of the error.
unfoldable pub end_job : ℕ → Option Text → Job → Job
end_job now (some e) j = record j {
  active = false;
  ended = some now;
  failure = e;
  status = broken_off;
}
end_job now none j = filled (record j { active = false; ended = some now })

-- `finishPullJob`
unfoldable pub finish_pull_job : Text → ℕ → Option Text → Option Job → Option Job
unfolding end_job
finish_pull_job id now e none = none
finish_pull_job id now e (some j) = if j.id == id then some (end_job now e j) else some j

-- ten seconds
abbrev pub shown_for : ℕ
shown_for = 10000000000

pub record View : Type 0 where
  pub job : Job
  pub status : Text
  pub percent : ℤ
  pub is_active : Bool
  pub is_complete : Bool
  pub is_error : Bool
  pub is_indeterminate : Bool
  pub should_poll : Bool

-- Division of Go's `int64` by a positive number, towards zero.
unfoldable pub quot : ℤ → ℕ → ℤ
quot (pos n) d = pos (n / d)
quot (negsuc n) d = sub_ℕ 0 ((n + 1) / d)

-- The percentage, of which 100 is the most.
unfoldable pub percent_of : ℤ → ℤ → ℤ
unfolding quot ◌*ℤ◌
percent_of completed total =
    if is_nonpos total
    then pos 0
    else let p = quot (int64 (completed *ℤ pos 100)) (pos_part total) in
      if ltb_ℤ (pos 100) p then pos 100 else p

-- The job has ended more than ten seconds ago.
abbrev pub is_over : ℕ → Option ℕ → Bool
is_over now none = false
is_over now (some t) = ltb (t + shown_for) now

abbrev pub is_recent : ℕ → Option ℕ → Bool
is_recent now none = false
is_recent now (some t) = ltb now (t + shown_for)

abbrev shown_status : Job → Text
shown_status j =
    if not (is_blank j.status)
    then j.status
    else if not (is_blank j.failure)
    then broken_off
    else if not j.active
    then done
    else starting

unfoldable pub view_of : ℕ → Job → View
unfolding percent_of
view_of now j = record {
  job = j;
  status = shown_status j;
  percent = percent_of j.completed j.total;
  is_active = j.active;
  is_complete = not j.active && is_blank j.failure;
  is_error = not (is_blank j.failure);
  is_indeterminate = is_nonpos j.total;
  should_poll = j.active || is_recent now j.ended;
}

-- `currentPullJobView`: a job that is over is forgotten.
unfoldable pub current_view : ℕ → Option Job → Option Job × Option View
unfolding view_of
current_view now none = (none, none)
current_view now (some j) =
    if not j.active && is_over now j.ended then (none, none) else (some j, some (view_of now j))
