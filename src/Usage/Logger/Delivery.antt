-- ===== src/Usage/Logger/Delivery.antt =====
-- Which records the usage logger (internal/usage/logger.go) hands to the store.
use mathlib.Core.Path.{subst}
use ollama_gateway.Common.{
  suc, ◌+◌, ◌≤◌, ◌<◌, ◌≡◌, refl, sym, ap, ◌∙◌, inl, inr, List, [], ◌∷◌, ◌++◌, true, length,
  length-append, is_empty, ltb, leb, arith, Bool-cases,
}
use ollama_gateway.Usage.{
  UsageLogger, LoggerOptions, fill_options, default_logger_options, new_usage_logger, send,
  replace_oldest, log, flush, accept, receive_from, receive, drain, stop, Event, logged, received,
  ticked, step, run,
}
use ollama_gateway.Usage.Logger.{
  concat, append_assoc, append_nil, records, flush-records, receive-records, accept-records, room,
  IsValid, step-IsValid,
}

-- The first list is the second without some of its elements.
pub data Sublist {A : Type 0} : List A → List A → Type 0 where
  none_left : Sublist [] []
  left_out : {x : A} {xs ys : List A} → Sublist xs ys → Sublist xs (x ∷ ys)
  kept : {x : A} {xs ys : List A} → Sublist xs ys → Sublist (x ∷ xs) (x ∷ ys)

module _ {A : Type 0} where
  Sublist_refl : (xs : List A) → Sublist xs xs
  Sublist_refl [] = none_left
  Sublist_refl (x ∷ xs) = kept (Sublist_refl xs)

  Sublist_trans : {ys zs : List A} → Sublist ys zs → {xs : List A} → Sublist xs ys → Sublist xs zs
  Sublist_trans none_left h = h
  Sublist_trans (left_out k) h = left_out (Sublist_trans k h)
  Sublist_trans (kept k) (left_out h) = left_out (Sublist_trans k h)
  Sublist_trans (kept k) (kept h) = kept (Sublist_trans k h)

  nothing_left : (ys : List A) → Sublist [] ys
  nothing_left [] = none_left
  nothing_left (y ∷ ys) = left_out (nothing_left ys)

  Sublist-prefix : (xs ys : List A) → Sublist xs (xs ++ ys)
  Sublist-prefix [] ys = nothing_left ys
  Sublist-prefix (x ∷ xs) ys = kept (Sublist-prefix xs ys)

  Sublist-append : {xs ys : List A} (zs : List A) → Sublist xs ys → Sublist (zs ++ xs) (zs ++ ys)
  Sublist-append [] h = h
  Sublist-append (z ∷ zs) h = kept (Sublist-append zs h)

  Sublist-append_right :
      {xs ys : List A} (zs : List A) → Sublist xs ys → Sublist (xs ++ zs) (ys ++ zs)
  Sublist-append_right zs none_left = Sublist_refl zs
  Sublist-append_right zs (left_out h) = left_out (Sublist-append_right zs h)
  Sublist-append_right zs (kept h) = kept (Sublist-append_right zs h)

  -- The records that the events log.
  abbrev pub logs : List (Event A) → List A
  logs [] = []
  logs (logged r ∷ es) = r ∷ logs es
  logs (received ∷ es) = logs es
  logs (ticked ∷ es) = logs es

  send-records : (r : A) (s : UsageLogger A) → records (send r s) ≡ records s ++ (r ∷ [])
  unfolding send
  send-records r s =
      ap (λ l. concat s.stored ++ l) (sym (append_assoc s.batch s.buffer (r ∷ [])))
      ∙ sym (append_assoc (concat s.stored) (s.batch ++ s.buffer) (r ∷ []))

  replace_oldest-records :
      (r : A) (s : UsageLogger A) (xs : List A)
      → s.buffer ≡ xs
      → length s.buffer ≤ s.buffer_size
      → Sublist (records (replace_oldest r s xs)) (records s ++ (r ∷ []))
  unfolding replace_oldest
  replace_oldest-records r s [] e v = Sublist-prefix (records s) (r ∷ [])
  replace_oldest-records r s (x ∷ xs) e v =
      rw (room s x xs e v, replace_oldest)
        (rw (send-records r (record s { buffer = xs })) (
          Sublist-append_right (r ∷ []) (
            Sublist-append (concat s.stored) (
              Sublist-append s.batch
                (subst (λ b. Sublist xs b) (sym e) (left_out (Sublist_refl xs)))))))

  -- After `Log`, the logger has some of the records it had, and at the end the new one or none.
  log-records :
      (r : A) (s : UsageLogger A)
      → length s.buffer ≤ s.buffer_size
      → Sublist (records (log r s)) (records s ++ (r ∷ []))
  unfolding log
  log-records r s v = elim (Bool-cases (ltb (length s.buffer) s.buffer_size)) [
    | inl f ↦ rw (f, log) (rw (send-records r s) (Sublist_refl (records s ++ (r ∷ []))))
    | inr f ↦ rw (f, log) (replace_oldest-records r s s.buffer refl v)
  ]

  -- Whatever happens, the logger has records that it had or that were logged, each at most as often,
  -- in the order in which they were logged.
  pub run-Sublist :
      (es : List (Event A)) (s : UsageLogger A)
      → IsValid s
      → Sublist (records (run es s)) (records s ++ logs es)
  unfolding run step
  run-Sublist [] s v = rw (append_nil (records s)) (Sublist_refl (records s))
  run-Sublist (logged r ∷ es) s v =
      let rest = run-Sublist es (log r s) (step-IsValid (logged r) s v) in
      Sublist_trans
        (subst (λ l. Sublist (records (log r s) ++ logs es) l)
          (append_assoc (records s) (r ∷ []) (logs es))
          (Sublist-append_right (logs es) (log-records r s v.0)))
        rest
  run-Sublist (received ∷ es) s v =
      subst (λ l. Sublist (records (run es (receive s))) (l ++ logs es)) (receive-records s)
        (run-Sublist es (receive s) (step-IsValid received s v))
  run-Sublist (ticked ∷ es) s v =
      subst (λ l. Sublist (records (run es (flush s))) (l ++ logs es)) (flush-records s)
        (run-Sublist es (flush s) (step-IsValid ticked s v))

  flush-buffer : (s : UsageLogger A) → (flush s).buffer ≡ s.buffer
  unfolding flush
  flush-buffer s = elim (Bool-cases (is_empty s.batch)) [
    | inl e ↦ rw (e, flush) refl
    | inr e ↦ rw (e, flush) refl
  ]

  accept-buffer : (r : A) (s : UsageLogger A) → (accept r s).buffer ≡ s.buffer
  unfolding accept
  accept-buffer r s = elim (Bool-cases (leb s.batch_size (length (s.batch ++ (r ∷ []))))) [
    | inl f ↦ rw (f, accept) (flush-buffer (record s { batch = s.batch ++ (r ∷ []) }))
    | inr f ↦ rw (f, accept) refl
  ]

  flush-size : (s : UsageLogger A) → (flush s).buffer_size ≡ s.buffer_size
  unfolding flush
  flush-size s = elim (Bool-cases (is_empty s.batch)) [
    | inl e ↦ rw (e, flush) refl
    | inr e ↦ rw (e, flush) refl
  ]

  accept-size : (r : A) (s : UsageLogger A) → (accept r s).buffer_size ≡ s.buffer_size
  unfolding accept
  accept-size r s = elim (Bool-cases (leb s.batch_size (length (s.batch ++ (r ∷ []))))) [
    | inl f ↦ rw (f, accept) (flush-size (record s { batch = s.batch ++ (r ∷ []) }))
    | inr f ↦ rw (f, accept) refl
  ]

  receive_from-room :
      (s : UsageLogger A) (xs : List A)
      → s.buffer ≡ xs
      → (length (receive_from s xs).buffer ≤ length s.buffer)
        × ((receive_from s xs).buffer_size ≡ s.buffer_size)
  unfolding receive_from
  receive_from-room s [] e = (omega arith, refl)
  receive_from-room s (x ∷ xs) e =
      let t = record s { buffer = xs } in
      let q : length s.buffer ≡ suc (length xs) = ap (λ l. length l) e in
      (rw (accept-buffer x t) (omega (arith, q)), accept-size x t)

  empty_nil : (xs : List A) → is_empty xs ≡ true → xs ≡ []
  empty_nil [] h = refl
  empty_nil (x ∷ xs) h = cc

  flush-batch : (s : UsageLogger A) → (flush s).batch ≡ []
  unfolding flush
  flush-batch s = elim (Bool-cases (is_empty s.batch)) [
    | inl e ↦ rw (e, flush) (empty_nil s.batch e)
    | inr e ↦ rw (e, flush) refl
  ]

  drain-records :
      (xs : List A) (s : UsageLogger A)
      → s.buffer ≡ xs
      → (records (drain xs s) ≡ records s) × ((drain xs s).buffer ≡ []) × ((drain xs s).batch ≡ [])
  unfolding drain
  drain-records [] s e = (
    flush-records (record s { buffer = [] }) ∙ ap (λ l. concat s.stored ++ (s.batch ++ l)) (sym e),
    flush-buffer (record s { buffer = [] }),
    flush-batch (record s { buffer = [] }),
  )
  drain-records (r ∷ rest) s e =
      let t = record s { buffer = rest } in
      let d = drain-records rest (accept r t) (accept-buffer r t) in
      (d.0 ∙ accept-records r t ∙ ap (λ l. concat s.stored ++ (s.batch ++ l)) (sym e), d.1, d.2)

  all_stored : (s : UsageLogger A) → s.buffer ≡ [] → s.batch ≡ [] → records s ≡ concat s.stored
  all_stored s b k =
      ap (λ l. concat s.stored ++ (l ++ s.buffer)) k
      ∙ ap (λ l. concat s.stored ++ l) b
      ∙ append_nil (concat s.stored)

  -- Stopping hands every record that the logger has to the store, once and in order, and leaves none
  -- behind.
  pub stop_lem :
      (s : UsageLogger A)
      → (concat (stop s).stored ≡ records s) × ((stop s).buffer ≡ []) × ((stop s).batch ≡ [])
  unfolding stop
  stop_lem s =
      let d = drain-records s.buffer (flush s) (flush-buffer s) in
      (sym (all_stored (stop s) d.1 d.2) ∙ d.0 ∙ flush-records s, d.1, d.2)

  -- From the start of the logger to its end, the store gets logged records only, each at most as
  -- often as it was logged, in the order in which they were logged.
  pub stop-run :
      (o : LoggerOptions) (es : List (Event A))
      → Sublist (concat (stop (run es (new_usage_logger o))).stored) (logs es)
  unfolding new_usage_logger fill_options default_logger_options
  stop-run o es =
      let v : IsValid (new_usage_logger {A = A} o) = (omega arith, ground arith, tt) in
      rw ((stop_lem (run es (new_usage_logger o))).0) (run-Sublist es (new_usage_logger o) v)

  -- What a logger has room for.
  abbrev pub Fits : List (Event A) → UsageLogger A → Type 0
  Fits es s = length s.buffer + length (logs es) ≤ s.buffer_size

  log-room : (r : A) (s : UsageLogger A) → length s.buffer < s.buffer_size → log r s ≡ send r s
  unfolding log
  log-room r s h =
      let l : ltb (length s.buffer) s.buffer_size ≡ true = ground arith in rw (l, log) refl

  -- Where the channel has room for all records that are logged, none of them is lost.
  pub run-records :
      (es : List (Event A)) (s : UsageLogger A)
      → Fits es s
      → records (run es s) ≡ records s ++ logs es
  unfolding run step
  run-records [] s f = sym (append_nil (records s))
  run-records (logged r ∷ es) s f =
      ap (λ t. records (run es t)) (log-room r s (omega (arith, f)))
      ∙ (run-records es (send r s)
            (let n = length-append s.buffer (r ∷ []) in unfold send in omega (arith, n, f))
          ∙ rw (send-records r s) (append_assoc (records s) (r ∷ []) (logs es)))
  run-records (received ∷ es) s f =
      run-records es (receive s)
        (let k = receive_from-room s s.buffer refl in unfold receive in omega (arith, k.0, k.1, f))
      ∙ rw (receive-records s) refl
  run-records (ticked ∷ es) s f =
      run-records es (flush s) (omega (arith, flush-size s, ap (λ l. length l) (flush-buffer s), f))
      ∙ rw (flush-records s) refl
