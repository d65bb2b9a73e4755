-- ===== src/Dashboard/Pulls/Jobs.antt =====
-- The downloads of internal/dashboard/handler.go in any order of the steps of their goroutines and of
-- the requests.
use ollama_gateway.Common.{
  ℕ, ◌≡◌, refl, ap, ◌∙◌, inl, inr, Text, ◌==◌, Option, none, some, List, [], ◌∷◌, Bool, true, false,
  All, keep, arith, Bool-cases,
}
use ollama_gateway.Backends.Calls.{PullProgress}
use ollama_gateway.Dashboard.Pulls.{
  Job, start_pull_job, note_progress, record_progress, end_job, finish_pull_job, current_view,
}

-- A step under the mutex: a request to start, a report or the end of a download, and the showing.
pub data Event : Type 0 where
  requested : Text → Text → Text → ℕ → Event
  progressed : Text → PullProgress → Event
  finished : Text → ℕ → Option Text → Event
  shown : ℕ → Event

unfoldable pub step : Event → Option Job → Option Job
unfolding start_pull_job record_progress finish_pull_job current_view
step (requested id b m now) s = (start_pull_job id b m now s).0
step (progressed id p) s = record_progress id p s
step (finished id now e) s = finish_pull_job id now e s
step (shown now) s = (current_view now s).0

unfoldable pub run : List Event → Option Job → Option Job
unfolding step
run [] s = s
run (e ∷ es) s = run es (step e s)

-- The event does not end the download.
abbrev pub Spares : Text → Event → Type 0
Spares id (requested i b m now) = Unit
Spares id (progressed i p) = Unit
Spares id (finished i now e) = (id == i) ≡ false
Spares id (shown now) = Unit

-- The job is that download, and it runs.
abbrev pub Runs : Job → Option Job → Type 0
Runs j none = ⊥
Runs j (some k) =
    (k.id ≡ j.id)
    × (k.backend ≡ j.backend)
    × (k.model ≡ j.model)
    × (k.started ≡ j.started)
    × (k.active ≡ true)

step-Runs : (j : Job) (e : Event) (s : Option Job) → Spares j.id e → Runs j s → Runs j (step e s)
unfolding step start_pull_job record_progress note_progress finish_pull_job current_view
step-Runs j e none h v = absurd v
step-Runs j (requested i b m now) (some k) h v = ground (arith, v.4)
step-Runs j (progressed i p) (some k) h v = elim (Bool-cases (k.id == i)) [
  | inl q ↦ rw q v
  | inr q ↦ rw q v
]
step-Runs j (finished i now e) (some k) h v =
    let other : (k.id == i) ≡ false = ap (λ x. x == i) v.0 ∙ h in rw other v
step-Runs j (shown now) (some k) h v = ground (arith, v.4)

-- While a download runs, nothing but its own end takes its place: it stays the one job, whatever is
-- requested, reported by other downloads or shown meanwhile.
pub run-Runs :
    (j : Job) (es : List Event) (s : Option Job)
    → All (Spares j.id) es
    → Runs j s
    → Runs j (run es s)
unfolding run
run-Runs j [] s h v = v
run-Runs j (e ∷ es) s h v = run-Runs j es (step e s) h.1 (step-Runs j e s h.0 v)

-- The event is of that download, or a showing.
abbrev pub concerns : Text → Event → Bool
concerns id (requested i b m now) = true
concerns id (progressed i p) = id == i
concerns id (finished i now e) = id == i
concerns id (shown now) = true

abbrev pub NoRequest : Event → Type 0
NoRequest (requested i b m now) = ⊥
NoRequest (progressed i p) = Unit
NoRequest (finished i now e) = Unit
NoRequest (shown now) = Unit

-- No job, or the job of that download.
abbrev pub IsOf : Text → Option Job → Type 0
IsOf id none = Unit
IsOf id (some k) = k.id ≡ id

step-IsOf : (id : Text) (e : Event) (s : Option Job) → NoRequest e → IsOf id s → IsOf id (step e s)
unfolding step record_progress note_progress finish_pull_job end_job current_view
step-IsOf id (requested i b m now) s h v = absurd h
step-IsOf id (progressed i p) none h v = tt
step-IsOf id (progressed i p) (some k) h v = elim (Bool-cases (k.id == i)) [
  | inl q ↦ rw q v
  | inr q ↦ rw q v
]
step-IsOf id (finished i now e) none h v = tt
step-IsOf id (finished i now none) (some k) h v = elim (Bool-cases (k.id == i)) [
  | inl q ↦ rw q v
  | inr q ↦ rw q v
]
step-IsOf id (finished i now (some e)) (some k) h v = elim (Bool-cases (k.id == i)) [
  | inl q ↦ rw q v
  | inr q ↦ rw q v
]
step-IsOf id (shown now) none h v = tt
step-IsOf id (shown now) (some k) h v = ground arith

step-other :
    (id : Text) (e : Event) (s : Option Job) → concerns id e ≡ false → IsOf id s → step e s ≡ s
unfolding step record_progress finish_pull_job
step-other id (requested i b m now) s h v = cc
step-other id (progressed i p) none h v = refl
step-other id (progressed i p) (some k) h v =
    let other : (k.id == i) ≡ false = ap (λ x. x == i) v ∙ h in rw other refl
step-other id (finished i now e) none h v = refl
step-other id (finished i now e) (some k) h v =
    let other : (k.id == i) ≡ false = ap (λ x. x == i) v ∙ h in rw other refl
step-other id (shown now) s h v = cc

-- Until the next request, the job depends on the reports of its own download alone: those of downloads
-- that are over make no difference, wherever they come in between.
pub run-concerns :
    (id : Text) (es : List Event) (s : Option Job)
    → All NoRequest es
    → IsOf id s
    → run es s ≡ run (keep (concerns id) es) s
unfolding run
run-concerns id [] s h v = refl
run-concerns id (e ∷ es) s h v = elim (Bool-cases (concerns id e)) [
  | inl q ↦ rw q (run-concerns id es (step e s) h.1 (step-IsOf id e s h.0 v))
  | inr q ↦ rw q (rw (step-other id e s q v) (run-concerns id es s h.1 v))
]
