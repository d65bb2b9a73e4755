-- ===== src/Config/Reloader/Debounce.antt =====
-- When the poll of internal/config/reloader.go reloads.
use ollama_gateway.Common.{
  ℕ, ◌-◌, ◌≤◌, ◌≡◌, refl, sym, ◌∙◌, inl, inr, Option, none, some, List, [], ◌∷◌, true, false, ◌&&◌,
  eqb, eqb_iff, arith, Bool-cases, if◌then◌else◌,
}
use ollama_gateway.Config.Reloader.{Watch, new_watch, debounce, note_hash, is_due, poll}

-- The polls that could read the file, the latest first: when, and with which hash.
abbrev pub History : Type 0
History = List (ℕ × ℕ)

-- The state after them.
unfoldable pub watched : History → Watch
watched [] = new_watch
watched ((now, h) ∷ polls) = (poll now (some h) (watched polls)).1

-- The poll that last saw another content than the one before it.
pub changed_at : History → Option ℕ
changed_at [] = none
changed_at ((t, h) ∷ []) = none
changed_at ((t, h) ∷ (u, g) ∷ polls) =
    let before = changed_at ((u, g) ∷ polls) in if eqb h g then before else some t

-- The state tells the latest hash, and when it came if it is pending.
abbrev Tracks : Watch → History → Type 0
Tracks w [] = (w.has_hash ≡ false) × (w.pending ≡ false)
Tracks w ((t, h) ∷ polls) =
    (w.has_hash ≡ true)
    × (w.last_hash ≡ h)
    × (w.pending ≡ true
        → (w.pending_hash ≡ h) × (changed_at ((t, h) ∷ polls) ≡ some w.pending_since))

changed_same :
    (now h t g : ℕ) (polls : History)
    → eqb h g ≡ true
    → changed_at ((now, h) ∷ (t, g) ∷ polls) ≡ changed_at ((t, g) ∷ polls)
unfolding changed_at
changed_same now h t g polls e = rw (e, changed_at) refl

changed_now :
    (now h t g : ℕ) (polls : History)
    → eqb h g ≡ false
    → changed_at ((now, h) ∷ (t, g) ∷ polls) ≡ some now
unfolding changed_at
changed_now now h t g polls e = rw (e, changed_at) refl

note-Tracks :
    (now h t g : ℕ) (polls : History) (w : Watch)
    → Tracks w ((t, g) ∷ polls)
    → Tracks (note_hash now h w) ((now, h) ∷ (t, g) ∷ polls)
unfolding note_hash
note-Tracks now h t g polls w k = elim (Bool-cases (eqb h g)) [
  | inl e ↦
      let same : h ≡ g = (eqb_iff h g).0 e in
      let l : eqb h w.last_hash ≡ true = rw k.1 e in
      rw (l, note_hash)
        (
          k.0,
          k.1 ∙ sym same,
          λ p. ((k.2 p).0 ∙ sym same, changed_same now h t g polls e ∙ (k.2 p).1),
        )
  | inr e ↦
      let l : eqb h w.last_hash ≡ false = rw k.1 e in
      rw (l, note_hash) (k.0, refl, λ p. (refl, changed_now now h t g polls e))
]

watched-Tracks : (polls : History) → Tracks (watched polls) polls
unfolding watched poll new_watch
watched-Tracks [] = (refl, refl)
watched-Tracks ((now, h) ∷ []) = (refl, refl, λ p. absurd (cc p))
watched-Tracks ((now, h) ∷ (t, g) ∷ polls) =
    let w = watched ((t, g) ∷ polls) in
    let k = watched-Tracks ((t, g) ∷ polls) in
    let n = note-Tracks now h t g polls w k in
    elim (Bool-cases (is_due now (note_hash now h w))) [
      | inl d ↦ rw (k.0, watched, poll) (rw d (n.0, n.1, λ p. absurd (cc p)))
      | inr d ↦ rw (k.0, watched, poll) (rw d n)
    ]

due_lem :
    (now : ℕ) (w : Watch)
    → is_due now w ≡ true
    → (w.pending ≡ true)
      × (debounce ≤ now - w.pending_since)
      × ((w.has_attempted_hash && eqb w.attempted_hash w.pending_hash) ≡ false)
unfolding is_due
due_lem now w h = (ground arith, ground arith, ground arith)

note-attempted :
    (now h : ℕ) (w : Watch)
    → ((note_hash now h w).has_attempted_hash ≡ w.has_attempted_hash)
      × ((note_hash now h w).attempted_hash ≡ w.attempted_hash)
unfolding note_hash
note-attempted now h w = elim (Bool-cases (eqb h w.last_hash)) [
  | inl e ↦ rw (e, note_hash) (refl, refl)
  | inr e ↦ rw (e, note_hash) (refl, refl)
]

poll-due :
    (now h : ℕ) (w : Watch)
    → (poll now (some h) w).0 ≡ true
    → (w.has_hash ≡ true) × (is_due now (note_hash now h w) ≡ true)
unfolding poll
poll-due now h w e = elim (Bool-cases w.has_hash) [
  | inl k ↦ elim (Bool-cases (is_due now (note_hash now h w))) [
    | inl d ↦ (k, d)
    | inr d ↦ absurd (cc (d, (rw (k, poll) at e)))
  ]
  | inr k ↦ absurd (cc (rw (k, poll) at e))
]

-- A poll reloads only a content that it and all polls of at least the debounce time have seen, which
-- differs from the content seen before, and which was not the last one tried.
pub poll-debounce :
    (now h : ℕ) (polls : History)
    → (poll now (some h) (watched polls)).0 ≡ true
    → (since : ℕ) × (changed_at ((now, h) ∷ polls) ≡ some since)
      × (debounce ≤ now - since)
      × (((watched polls).has_attempted_hash && eqb (watched polls).attempted_hash h) ≡ false)
unfolding new_watch watched
poll-debounce now h [] e = absurd (cc ((poll-due now h new_watch e).0))
poll-debounce now h ((t, g) ∷ polls) e =
    let w = watched ((t, g) ∷ polls) in
    let d = poll-due now h w e in
    let n = note-Tracks now h t g polls w (watched-Tracks ((t, g) ∷ polls)) in
    let due = due_lem now (note_hash now h w) d.1 in
    let p = n.2 due.0 in
    let a = note-attempted now h w in
    let tried : (w.has_attempted_hash && eqb w.attempted_hash h) ≡ false =
      (let q = due.2 in rw (a.0, a.1, p.0) at q) in
    ((note_hash now h w).pending_since, p.1, due.1, tried)
