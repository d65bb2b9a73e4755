-- ===== src/Proxy/Serve/Streams.antt =====
-- The answers that internal/proxy/handler.go passes on: what the client is given of them, and the
-- usage that is read from them.
use ollama_gateway.Common.{
  ◌≡◌, refl, ap, inl, inr, Text, true, false, not, ◌||◌, Option, some, arith, Bool-cases,
  if◌then◌else◌,
}
use ollama_gateway.Common.Int.{pos, ◌≤ℤ◌, is_nonpos, eq_of_parts}
use ollama_gateway.Proxy.Capture.{
  CaptureWriter, new_capture_writer, stats, extract_non_streaming_usage,
}
use ollama_gateway.Proxy.Outgoing.{Request, is_streaming_generate, is_counted}
use ollama_gateway.Proxy.Handler.{
  Response, Services, modify_response, modify_body, set_stats, keep_stats, start_capture,
}
use ollama_gateway.Proxy.Serve.{copied, usage_after, delivery}

-- The writer that reads a streaming answer: with no counts, unless the whole answer is one object.
abbrev pub first_writer : Services → Text → CaptureWriter
first_writer s body =
    let u = extract_non_streaming_usage s.parse body in
    if not (is_nonpos u.prompt_tokens) || not (is_nonpos u.eval_tokens)
    then set_stats u new_capture_writer
    else new_capture_writer

modify_counted :
    (s : Services) (r : Request) (resp : Response) (body : Text) (capture : Option CaptureWriter)
    → is_counted r ≡ true
    → resp.body ≡ some body
    → modify_response s.parse r resp capture
      ≡ (resp, keep_stats (extract_non_streaming_usage s.parse body) capture)
unfolding modify_response modify_body
modify_counted s r resp body capture c e =
    rw c (ap (λ (o : Option Text). modify_body s.parse resp o capture) e)

start_counted :
    (s : Services) (r : Request)
    → is_streaming_generate s.library r ≡ false
    → is_counted r ≡ true
    → start_capture s.library r ≡ some new_capture_writer
unfolding start_capture
start_counted s r e c = rw e (rw c refl)

keep_stats-new :
    (s : Services) (body : Text)
    → keep_stats (extract_non_streaming_usage s.parse body) (some new_capture_writer)
      ≡ some (first_writer s body)
unfolding keep_stats
keep_stats-new s body =
    let u = extract_non_streaming_usage s.parse body in
    elim (Bool-cases (not (is_nonpos u.prompt_tokens) || not (is_nonpos u.eval_tokens))) [
      | inl e ↦ rw e refl
      | inr e ↦ rw e refl
    ]

first_writer-stats :
    (s : Services) (body : Text)
    → let u = extract_non_streaming_usage s.parse body in
      pos 0 ≤ℤ u.prompt_tokens → pos 0 ≤ℤ u.eval_tokens → stats (first_writer s body) ≡ u
unfolding stats set_stats new_capture_writer
first_writer-stats s body hp he = ground (
  arith,
  eq_of_parts (extract_non_streaming_usage s.parse body).prompt_tokens (pos 0),
  eq_of_parts (extract_non_streaming_usage s.parse body).eval_tokens (pos 0),
)

-- The client is offered the answer as the backend gave it; of an answer that is not a streaming one,
-- the usage is that of the body read as one JSON object, where its counts are not negative.
pub usage_after-whole :
    (s : Services) (r : Request) (resp : Response) (body : Text)
    → is_streaming_generate s.library r ≡ false
    → is_counted r ≡ true
    → resp.body ≡ some body
    → let u = extract_non_streaming_usage s.parse body in
      pos 0 ≤ℤ u.prompt_tokens
      → pos 0 ≤ℤ u.eval_tokens
      → (delivery s r resp ≡ s.deliver resp) × (usage_after s r resp ≡ u)
unfolding usage_after delivery
usage_after-whole s r resp body e c f hp he =
    let same = modify_counted s r resp body (start_capture s.library r) c f in
    (
      rw (same, delivery) refl,
      rw (same, usage_after)
          (rw (e, copied)
            (rw (start_counted s r e c)
              (rw (keep_stats-new s body) (first_writer-stats s body hp he)))),
    )
