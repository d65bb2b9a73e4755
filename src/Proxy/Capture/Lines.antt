-- ===== src/Proxy/Capture/Lines.antt =====
-- `parseForUsage` of internal/proxy/response.go against the lines of the stream: its loop ends, and
-- how the stream is cut into writes does not matter.
use ollama_gateway.Common.{
  ℕ, zero, suc, ◌<◌, ◌≡◌, refl, sym, ap, ◌∙◌, ◌⊎◌, inl, inr, Text, List, [], ◌∷◌, ◌++◌, true, false,
  none, some, arith, length, eqb, if◌then◌else◌, Bool-cases,
}
use ollama_gateway.Common.Int.{ℤ, is_nonpos, pos_part}
use mathlib.Core.List.{append_assoc, append-nil}
use ollama_gateway.Proxy.{ObjectParser}
use ollama_gateway.Proxy.Capture.{
  CaptureWriter, newline, cut_line, note_counts, note_prompt, note_eval, parse_loop,
  parse_for_usage, take, write,
}

-- The lines of a text that a newline ends, and what stands after the last of them.
abbrev add_char : ℕ → List Text × Text → List Text × Text
add_char c ([], rest) = ([], c ∷ rest)
add_char c (line ∷ lines, rest) = ((c ∷ line) ∷ lines, rest)

unfoldable pub split_lines : Text → List Text × Text
split_lines [] = ([], [])
split_lines (c ∷ s) =
    let (lines, rest) = split_lines s in
    if eqb c newline then ([] ∷ lines, rest) else add_char c (lines, rest)

-- One line after the other.
unfoldable pub read_lines : ObjectParser → List Text → CaptureWriter → CaptureWriter
unfolding note_counts
read_lines parse [] w = w
read_lines parse (line ∷ lines) w = read_lines parse lines (note_counts (parse line) w)

abbrev with_buf : Text → CaptureWriter → CaptureWriter
with_buf s w = record w { buf = s }

-- The first line of a text, as `cut_line` finds it.
abbrev Cut : Text → Type 0
Cut s =
    ((cut_line s ≡ none) × (split_lines s ≡ ([], s)))
    ⊎ ((l : Text) × (r : Text) × (cut_line s ≡ some (l, r))
        × (split_lines s ≡ (l ∷ (split_lines r).0, (split_lines r).1))
        × (length r < length s))

Cut-newline : (c : ℕ) (s : Text) → eqb c newline ≡ true → Cut (c ∷ s)
unfolding cut_line split_lines
Cut-newline c s e = inr ([], s, rw e refl, rw e refl, omega arith)

Cut-char : (c : ℕ) (s : Text) → eqb c newline ≡ false → Cut s → Cut (c ∷ s)
unfolding cut_line split_lines
Cut-char c s e (inl (h, k)) = inl (rw e (rw h refl), rw e (rw k refl))
Cut-char c s e (inr (l, r, h, k, m)) =
    inr (c ∷ l, r, rw e (rw h refl), rw e (rw k refl), omega (arith, m))

cut : (s : Text) → Cut s
unfolding cut_line split_lines
cut [] = inl (refl, refl)
cut (c ∷ s) = elim (Bool-cases (eqb c newline)) [
  | inl e ↦ Cut-newline c s e
  | inr e ↦ Cut-char c s e (cut s)
]

-- The buffer plays no part in the counts.
note_counts-with_buf :
    (parse : ObjectParser) (line s : Text) (w : CaptureWriter)
    → note_counts (parse line) (with_buf s w) ≡ with_buf s (note_counts (parse line) w)
unfolding note_counts note_prompt note_eval
note_counts-with_buf parse line s w = ground arith

read_lines-with_buf :
    (parse : ObjectParser) (lines : List Text) (s : Text) (w : CaptureWriter)
    → read_lines parse lines (with_buf s w) ≡ with_buf s (read_lines parse lines w)
unfolding read_lines
read_lines-with_buf parse [] s w = refl
read_lines-with_buf parse (line ∷ lines) s w =
    ap (read_lines parse lines) (note_counts-with_buf parse line s w)
    ∙ read_lines-with_buf parse lines s (note_counts (parse line) w)

-- The state after the lines of a text, its unfinished line in the buffer.
abbrev pub after : ObjectParser → Text → CaptureWriter → CaptureWriter
after parse s w = with_buf (split_lines s).1 (read_lines parse (split_lines s).0 w)

after-with_buf :
    (parse : ObjectParser) (s r : Text) (w : CaptureWriter)
    → after parse s (with_buf r w) ≡ after parse s w
after-with_buf parse s r w =
    ap (with_buf (split_lines s).1) (read_lines-with_buf parse (split_lines s).0 r w)

parse_loop-some :
    (parse : ObjectParser) (fuel : ℕ) (w : CaptureWriter) (l r : Text)
    → cut_line w.buf ≡ some (l, r)
    → parse_loop parse (suc fuel) w ≡ parse_loop parse fuel (with_buf r (note_counts (parse l) w))
unfolding parse_loop
parse_loop-some parse fuel w l r h =
    rw (h, parse_loop) (ap (parse_loop parse fuel) (note_counts-with_buf parse l r w))

parse_loop-after :
    (parse : ObjectParser) (fuel : ℕ) (w : CaptureWriter)
    → length w.buf < fuel
    → parse_loop parse fuel w ≡ after parse w.buf w
unfolding parse_loop
parse_loop-after parse zero w h = absurd (omega arith)
parse_loop-after parse (suc fuel) w h = elim (cut w.buf) [
  | inl (n, k) ↦ rw (n, parse_loop) (rw k (unfold read_lines in refl))
  | inr (l, r, n, k, m) ↦
      let w1 = note_counts (parse l) w in
      parse_loop-some parse fuel w l r n
      ∙ parse_loop-after parse fuel (with_buf r w1) (omega (arith, m, h))
      ∙ after-with_buf parse r r w1
      ∙ rw k (unfold read_lines in refl)
]

-- What a text has after another, of which `rest` is unfinished.
abbrev continued : List Text → Text → Text → List Text × Text
continued lines rest t = (lines ++ (split_lines (rest ++ t)).0, (split_lines (rest ++ t)).1)

continued-char :
    (c : ℕ) (p : List Text × Text) (t : Text)
    → eqb c newline ≡ false
    → add_char c (continued p.0 p.1 t) ≡ continued (add_char c p).0 (add_char c p).1 t
unfolding split_lines
continued-char c ([], rest) t e = rw e refl
continued-char c (l ∷ lines, rest) t e = refl

split_lines-append :
    (s t : Text) → split_lines (s ++ t) ≡ continued (split_lines s).0 (split_lines s).1 t
unfolding split_lines
split_lines-append [] t = refl
split_lines-append (c ∷ s) t = elim (Bool-cases (eqb c newline)) [
  | inl e ↦ rw e (rw (split_lines-append s t) refl)
  | inr e ↦ rw e (rw (split_lines-append s t) (continued-char c (split_lines s) t e))
]

read_lines-append :
    (parse : ObjectParser) (xs ys : List Text) (w : CaptureWriter)
    → read_lines parse (xs ++ ys) w ≡ read_lines parse ys (read_lines parse xs w)
unfolding read_lines
read_lines-append parse [] ys w = refl
read_lines-append parse (x ∷ xs) ys w = read_lines-append parse xs ys (note_counts (parse x) w)

unfinished : (s : Text) → cut_line (split_lines s).1 ≡ none
unfolding cut_line split_lines
unfinished [] = refl
unfinished (c ∷ s) = elim (Bool-cases (eqb c newline)) [
  | inl e ↦ rw e (unfinished s)
  | inr e ↦ rw e (unfinished-char c (split_lines s) e (unfinished s))
]
  where
    unfinished-char :
        (c : ℕ) (p : List Text × Text)
        → eqb c newline ≡ false
        → cut_line p.1 ≡ none
        → cut_line (add_char c p).1 ≡ none
    unfinished-char c ([], rest) e h = rw e (rw h refl)
    unfinished-char c (l ∷ lines, rest) e h = h

-- The loop of `parseForUsage` ends by its return: with as many rounds as the buffer has bytes and
-- one more, no newline is left in the buffer, and further rounds change nothing.
pub parse_loop-Ended :
    (parse : ObjectParser) (fuel : ℕ) (w : CaptureWriter)
    → length w.buf < fuel
    → (cut_line (parse_loop parse fuel w).buf ≡ none)
      × (parse_loop parse fuel w ≡ parse_loop parse (suc (length w.buf)) w)
parse_loop-Ended parse fuel w h =
    let e = parse_loop-after parse fuel w h in
    (rw e (unfinished w.buf), e ∙ sym (parse_loop-after parse (suc (length w.buf)) w (omega arith)))

-- What the client's connection took of the writes, one after the other.
abbrev pub taken : List (ℤ × Text) → Text
taken [] = []
taken ((n, p) ∷ writes) = (if is_nonpos n then [] else take (pos_part n) p) ++ taken writes

unfoldable pub write_all : ObjectParser → List (ℤ × Text) → CaptureWriter → CaptureWriter
unfolding write
write_all parse [] w = w
write_all parse ((n, p) ∷ writes) w = write_all parse writes (write parse n p w)

parse_for_usage-after :
    (parse : ObjectParser) (p : Text) (w : CaptureWriter)
    → parse_for_usage parse p w ≡ after parse (w.buf ++ p) w
unfolding parse_for_usage
parse_for_usage-after parse p w =
    let s = w.buf ++ p in
    parse_loop-after parse (suc (length s)) (with_buf s w) (omega arith)
    ∙ after-with_buf parse s s w

after-append :
    (parse : ObjectParser) (s t : Text) (w : CaptureWriter)
    → after parse ((split_lines s).1 ++ t) (after parse s w) ≡ after parse (s ++ t) w
after-append parse s t w =
    let rest = (split_lines s).1 in
    after-with_buf parse (rest ++ t) rest (read_lines parse (split_lines s).0 w)
    ∙ rw (split_lines-append s t) (rw read_lines-append refl)

whole : (s : Text) → cut_line s ≡ none → split_lines s ≡ ([], s)
whole s h = elim (cut s) [ inl (n, k) ↦ k | inr (l, r, n, k, m) ↦ cc ]

after-whole :
    (parse : ObjectParser) (w : CaptureWriter) → cut_line w.buf ≡ none → after parse w.buf w ≡ w
unfolding read_lines
after-whole parse w h = rw (whole w.buf h) refl

-- The state after some writes is that after the lines of what the client's connection took of them
-- together, whatever the single writes were.
pub write_all-after :
    (parse : ObjectParser) (writes : List (ℤ × Text)) (w : CaptureWriter)
    → cut_line w.buf ≡ none
    → write_all parse writes w ≡ after parse (w.buf ++ taken writes) w
unfolding write_all write
write_all-after parse [] w h = rw append-nil (sym (after-whole parse w h))
write_all-after parse ((n, p) ∷ writes) w h = elim (Bool-cases (is_nonpos n)) [
  | inl e ↦ rw e (write_all-after parse writes w h)
  | inr e ↦
      let q = take (pos_part n) p in
      let s = w.buf ++ q in
      rw e (
        rw (parse_for_usage-after parse q w) (
          write_all-after parse writes (after parse s w) (unfinished s)
          ∙ after-append parse s (taken writes) w
          ∙ ap (λ t. after parse t w) (append_assoc w.buf q (taken writes))))
]
