-- ===== src/Proxy/Capture.antt =====
-- internal/proxy/response.go: the writer that passes a response on to the client and reads the
-- token counts from its lines.
pub mod Lines
pub mod Counts
use ollama_gateway.Common.{
  ℕ, zero, suc, Text, codes, Option, none, some, List, [], ◌∷◌, ◌++◌, length, eqb, if◌then◌else◌,
}
use ollama_gateway.Common.Int.{ℤ, pos, is_zero, is_nonpos, pos_part}
use ollama_gateway.Proxy.{UsageStats, ObjectParser, JsonValue, int_field}
use ollama_gateway.Common.Table.{Table}

abbrev pub newline : ℕ
newline = 10

abbrev pub prompt_key : Text
prompt_key = codes "prompt_eval_count"

abbrev pub eval_key : Text
eval_key = codes "eval_count"

-- `streamingUsageCaptureWriter`, without the writer below it.
pub record CaptureWriter : Type 0 where
  pub buf : Text
  pub prompt_tokens : ℤ
  pub eval_tokens : ℤ

unfoldable pub new_capture_writer : CaptureWriter
new_capture_writer = record { buf = []; prompt_tokens = pos 0; eval_tokens = pos 0 }

abbrev put_first : ℕ → Option (Text × Text) → Option (Text × Text)
put_first c none = none
put_first c (some p) = some (c ∷ p.0, p.1)

-- The text before the first newline and the text after it; `none` is the -1 of `bytes.IndexByte`.
unfoldable pub cut_line : Text → Option (Text × Text)
cut_line [] = none
cut_line (c ∷ s) = let rest = cut_line s in if eqb c newline then some ([], s) else put_first c rest

unfoldable pub note_prompt : Option ℤ → CaptureWriter → CaptureWriter
note_prompt none w = w
note_prompt (some n) w = if is_zero w.prompt_tokens then record w { prompt_tokens = n } else w

unfoldable pub note_eval : Option ℤ → CaptureWriter → CaptureWriter
note_eval none w = w
note_eval (some n) w = record w { eval_tokens = n }

unfoldable pub note_counts : Option (Table JsonValue) → CaptureWriter → CaptureWriter
unfolding note_prompt note_eval
note_counts none w = w
note_counts (some chunk) w =
    note_eval (int_field eval_key chunk) (note_prompt (int_field prompt_key chunk) w)

-- The loop of `parseForUsage`, by the number of its rounds.
unfoldable pub parse_loop : ObjectParser → ℕ → CaptureWriter → CaptureWriter
unfolding note_counts
parse_loop parse zero w = w
parse_loop parse (suc fuel) w = elim (cut_line w.buf) [
  | none ↦ w
  | some p ↦ parse_loop parse fuel (note_counts (parse p.0) (record w { buf = p.1 }))
]

-- `parseForUsage`: a round takes a byte at least.
unfoldable pub parse_for_usage : ObjectParser → Text → CaptureWriter → CaptureWriter
unfolding parse_loop
parse_for_usage parse p w =
    let buf = w.buf ++ p in parse_loop parse (suc (length buf)) (record w { buf = buf })

-- The first `n` bytes.
unfoldable pub take : ℕ → Text → Text
take zero s = []
take (suc n) [] = []
take (suc n) (c ∷ s) = c ∷ take n s

-- `Write`, where the writer below took `n` bytes of `p`.
unfoldable pub write : ObjectParser → ℤ → Text → CaptureWriter → CaptureWriter
unfolding parse_for_usage take
write parse n p w = if is_nonpos n then w else parse_for_usage parse (take (pos_part n) p) w

unfoldable pub stats : CaptureWriter → UsageStats
stats w = record { prompt_tokens = w.prompt_tokens; eval_tokens = w.eval_tokens }

abbrev pub or_zero : Option ℤ → ℤ
or_zero none = pos 0
or_zero (some n) = n

abbrev usage_of : Option (Table JsonValue) → UsageStats
usage_of none = record { prompt_tokens = pos 0; eval_tokens = pos 0 }
usage_of (some resp) = record {
  prompt_tokens = or_zero (int_field prompt_key resp);
  eval_tokens = or_zero (int_field eval_key resp);
}

-- `extractNonStreamingUsage`
unfoldable pub extract_non_streaming_usage : ObjectParser → Text → UsageStats
extract_non_streaming_usage parse body = usage_of (parse body)
