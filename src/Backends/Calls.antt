-- ===== src/Backends/Calls.antt =====
-- The calls of internal/backends/backend.go to Ollama. What comes back over the network, and JSON, are
-- arguments.
use ollama_gateway.Common.{
  ℕ, Text, codes, ◌==◌, trim_space, Option, none, some, List, [], ◌∷◌, ◌++◌, Bool, leb, ltb, ◌||◌,
  if◌then◌else◌,
}
use ollama_gateway.Common.Int.{ℤ}
use ollama_gateway.Common.Table.{Table, insert}
use ollama_gateway.Backends.{Backend}

-- `strings.TrimRight` of slashes
unfoldable pub trim_slashes : Text → Text
trim_slashes [] = []
trim_slashes (c ∷ s) =
    let rest = trim_slashes s in
    if rest == [] then (if c ∷ [] == codes "/" then [] else c ∷ []) else c ∷ rest

pub record CallRequest : Type 0 where
  pub method : Text
  pub url : Text
  pub headers : Table Text
  pub body : Option Text
  pub timeout : Option ℤ

-- `req.Header.Set` for each header of the backend.
unfoldable pub set_headers : Table Text → Table Text → Table Text
set_headers [] headers = headers
set_headers ((k, v) ∷ more) headers = set_headers more (insert k v headers)

abbrev json_header : Option Text → Table Text
json_header none = []
json_header (some body) = (codes "Content-Type", codes "application/json") ∷ []

-- The request of `doJSONRequest`.
unfoldable pub json_request : Backend → Text → Text → Option Text → CallRequest
unfolding trim_slashes set_headers
json_request b method path body = record {
  method = method;
  url = trim_slashes b.url.rendered ++ path;
  headers = set_headers b.headers (json_header body);
  body = body;
  timeout = some b.timeout;
}

-- The request of `PullModelStream`, which has no timeout.
unfoldable pub pull_request : Backend → Text → CallRequest
unfolding json_request
pull_request b body = record (json_request b (codes "POST") (codes "/api/pull") (some body)) {
  timeout = none;
}

-- What came back: the status and the body, which may fail to be read.
pub record Answer : Type 0 where
  pub status : ℕ
  pub body : Option Text

pub data CallError : Type 0 where
  call_failed read_failed decode_failed : CallError
  bad_status : ℕ → Text → CallError
  pull_failed : Text → CallError

pub data Called (A : Type 0) : Type 0 where
  received : A → Called A
  broken : CallError → Called A

abbrev pub is_bad : ℕ → Bool
is_bad status = ltb status 200 || leb 300 status

-- The rest of `doJSONRequest`; `none` stands for a call that fails.
unfoldable pub json_result : Option Answer → Called Text
json_result none = broken call_failed
json_result (some a) = elim a.body [
  | none ↦ broken read_failed
  | some body ↦
      if is_bad a.status then broken (bad_status a.status (trim_space body)) else received body
]

-- `ListModels` and `ListInMemoryModels` after the call, and `ShowModel`.
unfoldable pub decoded : {A : Type 0} → (Text → Option A) → Called Text → Called A
decoded decode (broken e) = broken e
decoded decode (received body) = elim (decode body) [
  | none ↦ broken decode_failed
  | some v ↦ received v
]

-- `PullProgress`
pub record PullProgress : Type 0 where
  pub status : Text
  pub digest : Text
  pub total : ℤ
  pub completed : ℤ
  pub failure : Text

-- What the decoder of `/api/pull` gives, in order: the events, and how the stream ends. The code sets
-- no timeout, so a stream may also go on for ever; the model has those that end.
pub record PullStream : Type 0 where
  pub events : List PullProgress
  pub well_ended : Bool

-- The loop of `PullModelStream`: the events that it reports, and its error.
unfoldable pub pull_loop : List PullProgress → Bool → List PullProgress × Option CallError
pull_loop [] well_ended = ([], (if well_ended then none else some decode_failed))
pull_loop (p ∷ ps) well_ended =
    let (reported, e) = pull_loop ps well_ended in
    if trim_space p.failure == []
    then (p ∷ reported, e)
    else (p ∷ [], some (pull_failed (trim_space p.failure)))

-- `PullModelStream`
unfoldable pub pull_model_stream :
    Option (Answer × PullStream) → List PullProgress × Option CallError
unfolding pull_loop
pull_model_stream none = ([], some call_failed)
pull_model_stream (some (a, s)) =
    if is_bad a.status
    then (
      [],
      some (elim a.body [ none ↦ read_failed | some body ↦ bad_status a.status (trim_space body) ]),
    )
    else pull_loop s.events s.well_ended
