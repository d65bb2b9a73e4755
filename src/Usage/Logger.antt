-- ===== src/Usage/Logger.antt =====
-- The usage logger of internal/usage/logger.go: what becomes of the records.
pub mod Delivery
use ollama_gateway.Common.{
  ℕ, suc, ◌+◌, ◌≤◌, ◌<◌, ◌≡◌, ◌≢◌, refl, sym, ap, ◌∙◌, ◌⊎◌, inl, inr, List, [], ◌∷◌, ◌++◌, Bool,
  true, false, length, length-append, is_empty, ltb, leb, leb→le, ltb→lt, arith, All, All-append,
  Bool-cases, if◌then◌else◌,
}
use ollama_gateway.Usage.{
  UsageLogger, LoggerOptions, new_usage_logger, send, replace_oldest, log, flush, accept,
  receive_from, receive, drain, stop, Event, logged, received, ticked, step, run,
}

module _ {A : Type 0} where
  abbrev pub concat : List (List A) → List A
  concat [] = []
  concat (xs ∷ xss) = xs ++ concat xss

  pub append_assoc : (xs ys zs : List A) → (xs ++ ys) ++ zs ≡ xs ++ (ys ++ zs)
  append_assoc [] ys zs = refl
  append_assoc (x ∷ xs) ys zs = ap (λ l. x ∷ l) (append_assoc xs ys zs)

  pub append_nil : (xs : List A) → xs ++ [] ≡ xs
  append_nil [] = refl
  append_nil (x ∷ xs) = ap (λ l. x ∷ l) (append_nil xs)

  concat-append : (xss : List (List A)) (ys : List A) → concat (xss ++ (ys ∷ [])) ≡ concat xss ++ ys
  concat-append [] ys = append_nil ys
  concat-append (xs ∷ xss) ys =
      ap (λ l. xs ++ l) (concat-append xss ys) ∙ sym (append_assoc xs (concat xss) ys)

  -- The records handed to the store, in the batch and in the channel, in that order.
  abbrev pub records : UsageLogger A → List A
  records s = concat s.stored ++ (s.batch ++ s.buffer)

  -- The channel and the batch are within their limits, and so is each batch handed to the store,
  -- which is not empty.
  abbrev pub IsValid : UsageLogger A → Type 0
  IsValid s =
      (length s.buffer ≤ s.buffer_size)
      × (length s.batch < s.batch_size)
      × All (λ (b : List A). (0 < length b) × (length b ≤ s.batch_size)) s.stored

  pub flush-records : (s : UsageLogger A) → records (flush s) ≡ records s
  unfolding flush
  flush-records s = elim (Bool-cases (is_empty s.batch)) [
    | inl e ↦ rw (e, flush) refl
    | inr e ↦
        rw (e, flush)
          (rw (concat-append s.stored s.batch) (append_assoc (concat s.stored) s.batch s.buffer))
  ]

  nonempty : (xs : List A) → is_empty xs ≡ false → 0 < length xs
  nonempty [] h = cc
  nonempty (x ∷ xs) h = omega arith

  empty : (xs : List A) → is_empty xs ≡ true → length xs ≡ 0
  empty [] h = refl
  empty (x ∷ xs) h = cc

  abbrev pub Sized : ℕ → List A → Type 0
  Sized n b = (0 < length b) × (length b ≤ n)

  flush-IsValid :
      (s : UsageLogger A)
      → length s.buffer ≤ s.buffer_size
      → length s.batch ≤ s.batch_size
      → 0 < s.batch_size
      → All (Sized s.batch_size) s.stored
      → IsValid (flush s)
  unfolding flush
  flush-IsValid s b k p h = elim (Bool-cases (is_empty s.batch)) [
    | inl e ↦ rw (e, flush) (b, omega (arith, empty s.batch e), h)
    | inr e ↦
        rw (e, flush)
          (
            b,
            p,
            All-append (Sized s.batch_size) s.stored (s.batch ∷ []) h ((nonempty s.batch e, k), tt),
          )
  ]

  pub accept-records :
      (r : A) (s : UsageLogger A)
      → records (accept r s) ≡ concat s.stored ++ (s.batch ++ (r ∷ s.buffer))
  unfolding accept
  accept-records r s =
      let s' = record s { batch = s.batch ++ (r ∷ []) } in
      let e : records s' ≡ concat s.stored ++ (s.batch ++ (r ∷ s.buffer)) =
        ap (λ l. concat s.stored ++ l) (append_assoc s.batch (r ∷ []) s.buffer) in
      elim (Bool-cases (leb s.batch_size (length (s.batch ++ (r ∷ []))))) [
        | inl f ↦ rw (f, accept) (flush-records s' ∙ e)
        | inr f ↦ rw (f, accept) e
      ]

  pub accept-IsValid : (r : A) (s : UsageLogger A) → IsValid s → IsValid (accept r s)
  unfolding accept
  accept-IsValid r s v =
      let s' = record s { batch = s.batch ++ (r ∷ []) } in
      let n = length-append s.batch (r ∷ []) in
      elim (Bool-cases (leb s.batch_size (length (s.batch ++ (r ∷ []))))) [
        | inl f ↦
            rw (f, accept) (flush-IsValid s' v.0 (omega (arith, n, v.1)) (omega (arith, v.1)) v.2)
        | inr f ↦ rw (f, accept) (v.0, ground arith, v.2)
      ]

  receive_from-records :
      (s : UsageLogger A) (xs : List A) → s.buffer ≡ xs → records (receive_from s xs) ≡ records s
  unfolding receive_from
  receive_from-records s [] e = refl
  receive_from-records s (x ∷ xs) e =
      accept-records x (record s { buffer = xs })
      ∙ ap (λ l. concat s.stored ++ (s.batch ++ l)) (sym e)

  pub receive-records : (s : UsageLogger A) → records (receive s) ≡ records s
  unfolding receive
  receive-records s = receive_from-records s s.buffer refl

  receive_from-IsValid :
      (s : UsageLogger A) (xs : List A) → s.buffer ≡ xs → IsValid s → IsValid (receive_from s xs)
  unfolding receive_from
  receive_from-IsValid s [] e v = v
  receive_from-IsValid s (x ∷ xs) e v =
      accept-IsValid x (record s { buffer = xs })
        (
          let q : length s.buffer ≡ suc (length xs) = ap (λ l. length l) e in omega (arith, q, v.0),
          v.1,
          v.2,
        )

  send-IsValid :
      (r : A) (s : UsageLogger A) → length s.buffer < s.buffer_size → IsValid s → IsValid (send r s)
  unfolding send
  send-IsValid r s l v = (let n = length-append s.buffer (r ∷ []) in omega (arith, n, l), v.1, v.2)

  -- A record that a full channel discards makes room for another.
  pub room :
      (s : UsageLogger A) (x : A) (xs : List A)
      → s.buffer ≡ x ∷ xs
      → length s.buffer ≤ s.buffer_size
      → ltb (length xs) s.buffer_size ≡ true
  room s x xs e l =
      let q : length s.buffer ≡ suc (length xs) = ap (λ l. length l) e in ground (arith, q, l)

  replace_oldest-IsValid :
      (r : A) (s : UsageLogger A) (xs : List A)
      → s.buffer ≡ xs
      → IsValid s
      → IsValid (replace_oldest r s xs)
  unfolding replace_oldest
  replace_oldest-IsValid r s [] e v = v
  replace_oldest-IsValid r s (x ∷ xs) e v =
      let l = room s x xs e v.0 in
      let n = ltb→lt (length xs) s.buffer_size l in
      rw (l, replace_oldest)
        (send-IsValid r (record s { buffer = xs }) n (omega (arith, n), v.1, v.2))

  log-IsValid : (r : A) (s : UsageLogger A) → IsValid s → IsValid (log r s)
  unfolding log
  log-IsValid r s v = elim (Bool-cases (ltb (length s.buffer) s.buffer_size)) [
    | inl f ↦ rw (f, log) (send-IsValid r s (ltb→lt (length s.buffer) s.buffer_size f) v)
    | inr f ↦ rw (f, log) (replace_oldest-IsValid r s s.buffer refl v)
  ]

  pub step-IsValid : (e : Event A) (s : UsageLogger A) → IsValid s → IsValid (step e s)
  unfolding step receive
  step-IsValid (logged r) s v = log-IsValid r s v
  step-IsValid received s v = receive_from-IsValid s s.buffer refl v
  step-IsValid ticked s v = flush-IsValid s v.0 (omega (arith, v.1)) (omega (arith, v.1)) v.2

  -- Every event keeps the channel, the batch and the stored batches within their limits.
  pub run-IsValid : (es : List (Event A)) (s : UsageLogger A) → IsValid s → IsValid (run es s)
  unfolding run
  run-IsValid [] s v = v
  run-IsValid (e ∷ es) s v = run-IsValid es (step e s) (step-IsValid e s v)
