-- ===== src/Dashboard/Pulls/Views.antt =====
-- How a download of internal/dashboard/handler.go ends, and what is shown of it.
use ollama_gateway.Common.{
  ℕ, ◌*◌, ◌/◌, ◌^◌, ◌≤◌, ◌<◌, ◌≡◌, refl, ap, ◌∙◌, inl, inr, Text, ◌==◌, eq_iff, eq_refl, trim_space,
  Option, none, some, List, [], ◌∷◌, Bool, true, false, not, All, arith, Bool-cases,
}
use ollama_gateway.Common.Int.{ℤ, pos, negsuc, pos_part, neg_part, is_nonpos, int64, int64_id}
use ollama_gateway.Usage.Pricing.{◌*ℤ◌}
use ollama_gateway.Backends.Calls.{
  is_bad, PullProgress, CallError, PullStream, Answer, pull_loop, pull_model_stream,
}
use ollama_gateway.Dashboard.Pulls.{
  Job, new_job, note_progress, record_progress, end_job, finish_pull_job, is_blank, percent_of,
  quot, full_count, view_of, is_recent,
}
use ollama_gateway.Dashboard.Pulls.Jobs.{Event, progressed, step, run}

-- The steps of the goroutine of `startPullJob`.
abbrev pub reports : Text → List PullProgress → List Event
reports id [] = []
reports id (p ∷ ps) = progressed id p ∷ reports id ps

abbrev is_none : Option CallError → Bool
is_none none = true
is_none (some e) = false

-- `err.Error()`
abbrev pub rendered : (CallError → Text) → Option CallError → Option Text
rendered render none = none
rendered render (some e) = some (render e)

-- The job after its own download, by itself.
unfoldable pub download : (CallError → Text) → ℕ → Option (Answer × PullStream) → Job → Option Job
download render now answer j =
    let (ps, e) = pull_model_stream answer in
    finish_pull_job j.id now (rendered render e) (run (reports j.id ps) (some j))

-- The job with the reports noted.
note_all : List PullProgress → Job → Job
note_all [] j = j
note_all (p ∷ ps) j = note_all ps (note_progress p j)

note_all-id : (ps : List PullProgress) (j : Job) → (note_all ps j).id ≡ j.id
unfolding note_all note_progress
note_all-id [] j = refl
note_all-id (p ∷ ps) j = note_all-id ps (note_progress p j)

run-reports :
    (ps : List PullProgress) (j : Job) → run (reports j.id ps) (some j) ≡ some (note_all ps j)
unfolding run step record_progress note_all note_progress
run-reports [] j = refl
run-reports (p ∷ ps) j =
    let same : record_progress j.id p (some j) ≡ some (note_progress p j) =
      rw (eq_refl j.id, record_progress) refl in
    ap (λ s. run (reports j.id ps) s) same ∙ run-reports ps (note_progress p j)

-- The counts of a download are not negative, and small enough for the percentage.
abbrev pub IsSmall : ℤ → Type 0
IsSmall z = (neg_part z ≡ 0) × (pos_part z * 100 < 2 ^ 63)

abbrev pub IsModest : PullProgress → Type 0
IsModest p = IsSmall p.total × IsSmall p.completed

hundredfold : (n : ℕ) → n * 100 < 2 ^ 63 → int64 (pos n *ℤ pos 100) ≡ pos (n * 100)
unfolding ◌*ℤ◌
hundredfold n h =
    let e : pos n *ℤ pos 100 ≡ pos (n * 100) = ground arith in
    rw e (int64_id (pos (n * 100)) h (omega arith))

percent_bounds :
    (c t : ℤ) → IsSmall c → (neg_part (percent_of c t) ≡ 0) × (pos_part (percent_of c t) ≤ 100)
unfolding percent_of quot
percent_bounds (pos n) t h = elim (Bool-cases (is_nonpos t)) [
  | inl e ↦ rw e (omega arith)
  | inr e ↦ rw e (rw (hundredfold n h.1) (ground arith))
]
percent_bounds (negsuc n) t h = absurd (omega (arith, h.0))

div_most : (m n : ℕ) → 0 < m → m ≤ n → 100 ≤ n * 100 / m
div_most m n h k = grind arith

-- A job that has all its bytes is shown with 100 percent.
percent_full :
    (c t : ℤ) → IsSmall c → is_nonpos t ≡ false → pos_part t ≤ pos_part c → percent_of c t ≡ pos 100
unfolding percent_of quot
percent_full (pos n) (pos m) h e k =
    rw e (rw (hundredfold n h.1) (ground (arith, div_most m n (ground (arith, e)) k)))
percent_full (pos n) (negsuc m) h e k = absurd (ground (arith, e))
percent_full (negsuc n) t h e k = absurd (omega (arith, h.0))

abbrev IsCounted : Job → Type 0
IsCounted j = IsSmall j.total × IsSmall j.completed

note_all-IsCounted :
    (ps : List PullProgress) (j : Job) → All IsModest ps → IsCounted j → IsCounted (note_all ps j)
unfolding note_all note_progress
note_all-IsCounted [] j a v = v
note_all-IsCounted (p ∷ ps) j a v = note_all-IsCounted ps (note_progress p j) a.1 (
  elim (Bool-cases (is_nonpos p.total)) [ inl e ↦ rw e v.0 | inr e ↦ rw e a.0.0 ],
  elim (Bool-cases (is_nonpos p.completed)) [ inl e ↦ rw e v.1 | inr e ↦ rw e a.0.1 ],
)

note_all-failure :
    (ps : List PullProgress) (j : Job)
    → All (λ (p : PullProgress). is_blank p.failure ≡ true) ps
    → (note_all ps j).failure ≡ j.failure
unfolding note_all note_progress
note_all-failure [] j a = refl
note_all-failure (p ∷ ps) j a = note_all-failure ps (note_progress p j) a.1 ∙ rw (a.0) refl

-- Where the loop gives no error, no report has one.
pull_loop-fine :
    (ps : List PullProgress) (w : Bool)
    → (pull_loop ps w).1 ≡ none
    → All (λ (p : PullProgress). is_blank p.failure ≡ true) (pull_loop ps w).0
unfolding pull_loop
pull_loop-fine [] w h = tt
pull_loop-fine (p ∷ ps) w h = elim (Bool-cases (is_blank p.failure)) [
  | inl e ↦ rw e (e, pull_loop-fine ps w (rw e at h))
  | inr e ↦ cc (rw e at h)
]

stream-fine :
    (answer : Option (Answer × PullStream))
    → (pull_model_stream answer).1 ≡ none
    → All (λ (p : PullProgress). is_blank p.failure ≡ true) (pull_model_stream answer).0
unfolding pull_model_stream
stream-fine none h = cc
stream-fine (some (a, s)) h = elim (Bool-cases (is_bad a.status)) [
  | inl e ↦ cc (rw e at h)
  | inr e ↦ rw e (pull_loop-fine s.events s.well_ended (rw e at h))
]

-- How a download has ended, and what is shown of it at a later time.
abbrev pub Ended : ℕ → ℕ → Option CallError → Job → Type 0
Ended now later e k =
    (k.ended ≡ some now)
    × ((view_of later k).is_active ≡ false)
    × ((view_of later k).is_error ≡ not (is_none e))
    × ((view_of later k).is_complete ≡ is_none e)
    × ((view_of later k).should_poll ≡ is_recent later (some now))
    × (e ≡ none → is_nonpos k.total ≡ false → (view_of later k).percent ≡ pos 100)

full_count-full :
    (c t : ℤ)
    → IsSmall c
    → IsSmall t
    → is_nonpos t ≡ false
    → IsSmall (full_count c t) × (pos_part t ≤ pos_part (full_count c t))
unfolding full_count
full_count-full (pos n) (pos m) h k e = ground arith
full_count-full (pos n) (negsuc m) h k e = absurd (ground (arith, e))
full_count-full (negsuc n) t h k e = absurd (omega (arith, h.0))

filled_full :
    (now : ℕ) (j : Job)
    → IsCounted j
    → is_nonpos (end_job now none j).total ≡ false
    → percent_of (end_job now none j).completed (end_job now none j).total ≡ pos 100
unfolding end_job
filled_full now j v h =
    let (small, most) = full_count-full j.completed j.total v.1 v.0 h in
    percent_full (full_count j.completed j.total) j.total small h most

ended_lem :
    (render : CallError → Text) (now later : ℕ) (e : Option CallError) (j : Job)
    → ((c : CallError) → is_blank (render c) ≡ false)
    → IsCounted j
    → (e ≡ none → is_blank j.failure ≡ true)
    → Ended now later e (end_job now (rendered render e) j)
unfolding end_job view_of
ended_lem render now later none j r v f =
    (refl, refl, rw (f refl) refl, rw (f refl) refl, refl, λ q h. filled_full now j v h)
ended_lem render now later (some c) j r v f =
    (refl, refl, rw (r c) refl, rw (r c) refl, refl, λ q h. cc)

finish_own :
    (id : Text) (now : ℕ) (o : Option Text) (k : Job)
    → k.id ≡ id
    → finish_pull_job id now o (some k) ≡ some (end_job now o k)
unfolding finish_pull_job
finish_own id now o k h = let own : (k.id == id) ≡ true = (eq_iff k.id id).1 h in rw own refl

-- Once the stream of a download has ended, whatever it was, the job is over: it is shown as failed
-- exactly if there was an error and else as complete, the page asks again for ten seconds more, and
-- without an error it is shown with 100 percent if its size was reported. The counts are those of a
-- file of less than 2^63 / 100 bytes, and the text of an error is not blank.
pub download-Ended :
    (render : CallError → Text) (now later : ℕ) (answer : Option (Answer × PullStream))
    (id backend model : Text) (start : ℕ)
    → ((e : CallError) → is_blank (render e) ≡ false)
    → All IsModest (pull_model_stream answer).0
    → (k : Job) × (download render now answer (new_job id backend model start) ≡ some k)
      × Ended now later (pull_model_stream answer).1 k
unfolding download ◌==◌ trim_space
download-Ended render now later answer id backend model start r a =
    let j = new_job id backend model start in
    let (ps, e) = pull_model_stream answer in
    let k = note_all ps j in
    let same : k.id ≡ id = note_all-id ps j in
    (
      end_job now (rendered render e) k,
      rw (run-reports ps j) (finish_own id now (rendered render e) k same),
      ended_lem render now later e k r
          (note_all-IsCounted ps j a ((refl, omega arith), (refl, omega arith)))
          (λ q. rw (note_all-failure ps j (stream-fine answer q)) refl),
    )
