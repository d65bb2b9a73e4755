-- ===== src/Proxy/Capture/Counts.antt =====
-- The token counts of internal/proxy/response.go, as the counts on the lines of the whole stream.
use ollama_gateway.Common.{
  ◌≡◌, refl, ap, ◌∙◌, Text, List, [], ◌∷◌, ◌++◌, Option, none, some, arith, if◌then◌else◌,
}
use ollama_gateway.Common.Int.{ℤ, pos, is_zero}
use ollama_gateway.Common.Table.{Table}
use ollama_gateway.Proxy.{UsageStats, JsonValue, ObjectParser, int_field}
use ollama_gateway.Proxy.Capture.{
  CaptureWriter, prompt_key, eval_key, note_counts, note_prompt, note_eval, stats, cut_line,
}
use ollama_gateway.Proxy.Capture.Lines.{
  split_lines, read_lines, after, taken, write_all, write_all-after,
}

abbrev put {ℓ} : {A : Type ℓ} → Option A → List A → List A
put none xs = xs
put (some x) xs = x ∷ xs

abbrev count_of : Text → Option (Table JsonValue) → Option ℤ
count_of key none = none
count_of key (some obj) = int_field key obj

-- The counts that lines have under a key.
pub counts : ObjectParser → Text → List Text → List ℤ
counts parse key [] = []
counts parse key (line ∷ lines) = put (count_of key (parse line)) (counts parse key lines)

-- The first count that is not zero, from a count so far.
pub first_count : ℤ → List ℤ → ℤ
first_count n [] = n
first_count n (m ∷ ms) = first_count (if is_zero n then m else n) ms

pub last_count : ℤ → List ℤ → ℤ
last_count n [] = n
last_count n (m ∷ ms) = last_count m ms

abbrev totals : ObjectParser → List Text → CaptureWriter → UsageStats
totals parse lines w = record {
  prompt_tokens = first_count w.prompt_tokens (counts parse prompt_key lines);
  eval_tokens = last_count w.eval_tokens (counts parse eval_key lines);
}

totals-note :
    (parse : ObjectParser) (line : Text) (lines : List Text) (w : CaptureWriter)
    → totals parse lines (note_counts (parse line) w) ≡ totals parse (line ∷ lines) w
unfolding note_counts note_prompt note_eval counts first_count last_count
totals-note parse line lines w = ground arith

stats-read_lines :
    (parse : ObjectParser) (lines : List Text) (w : CaptureWriter)
    → stats (read_lines parse lines w) ≡ totals parse lines w
unfolding read_lines stats counts first_count last_count
stats-read_lines parse [] w = refl
stats-read_lines parse (line ∷ lines) w =
    stats-read_lines parse lines (note_counts (parse line) w) ∙ totals-note parse line lines w

-- Zero if there is none.
pub first_nonzero : List ℤ → ℤ
first_nonzero [] = pos 0
first_nonzero (m ∷ ms) = let rest = first_nonzero ms in if is_zero m then rest else m

first_count-first_nonzero :
    (n : ℤ) (ms : List ℤ) → first_count n ms ≡ (if is_zero n then first_nonzero ms else n)
unfolding first_count first_nonzero
first_count-first_nonzero n [] = ground arith
first_count-first_nonzero n (m ∷ ms) =
    ground (arith, first_count-first_nonzero (if is_zero n then m else n) ms)

-- What the lines of a stream say: the first count of the prompt that is not zero, and the last count
-- of the completion, where the writer had none before.
abbrev pub usage_in : ObjectParser → Text → CaptureWriter → UsageStats
usage_in parse s w =
    let lines = (split_lines s).0 in
    record {
      prompt_tokens =
          if is_zero w.prompt_tokens
          then first_nonzero (counts parse prompt_key lines)
          else w.prompt_tokens;
      eval_tokens = last_count w.eval_tokens (counts parse eval_key lines);
    }

-- However a stream is cut into writes, and wherever the connection takes a write in part, the
-- captured usage is that of the lines which the client's connection took.
pub write_all-usage_in :
    (parse : ObjectParser) (writes : List (ℤ × Text)) (w : CaptureWriter)
    → w.buf ≡ []
    → stats (write_all parse writes w) ≡ usage_in parse (taken writes) w
unfolding cut_line stats
write_all-usage_in parse writes w h =
    let lines = (split_lines (taken writes)).0 in
    ap stats (write_all-after parse writes w (rw h refl))
    ∙ ap (λ (s : Text). stats (after parse (s ++ taken writes) w)) h
    ∙ stats-read_lines parse lines w
    ∙ ap
        (λ (n : ℤ). record {
          prompt_tokens = n;
          eval_tokens = last_count w.eval_tokens (counts parse eval_key lines);
        })
        (first_count-first_nonzero w.prompt_tokens (counts parse prompt_key lines))
