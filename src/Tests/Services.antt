-- ===== src/Tests/Services.antt =====
-- The theorems on the certificate watcher (internal/tlsruntime), on the table of backends
-- (internal/backends/store.go) and on discovery (internal/models/discovery.go) at small inputs.
use ollama_gateway.Common.{
  ◌+◌, ◌*◌, ◌≡◌, ◌≢◌, refl, sym, ◌∙◌, ap, Text, codes, ◌==◌, Option, none, some, List, [], ◌∷◌,
  ◌++◌, arith, if◌then◌else◌,
}
use ollama_gateway.Common.Int.{ℤ, pos}
use ollama_gateway.Common.Table.{Table}
use ollama_gateway.Backends.{BackendConfig}
use ollama_gateway.Backends.Manager.{with_defaults}
use ollama_gateway.Backends.Store.{Row, millisecond, row_of, upsert_row}
use ollama_gateway.Backends.Store.Rows.{stored_config, upsert_row-load_active_backends}
use ollama_gateway.Models.Catalog.Merging.{serves}
use ollama_gateway.Models.Discovery.{TagsAnswer, discover_catalog}
use ollama_gateway.Models.Discovery.Found.{reported, discover_catalog-serves}
use ollama_gateway.Tls.{
  Certificate, Files, Manager, day, new_manager, load_initial, read_both, run, get_certificate,
}
use ollama_gateway.Tls.Refresh.{last_good, ticks_of, run-last_good}
use ollama_gateway.Tls.Provider.{new_certificate_provider}
use ollama_gateway.Tls.Provider.Watchers.{
  Call, attached, manager_set, paths_updated, closed, run_calls, IsWatched, run_calls-IsWatched,
}
use ollama_gateway.Tests.Routing.{config_of}

-- A certificate of one letter parses, with the key k, and the hash keeps its text.
abbrev parse_text : Text → Option Certificate
parse_text [] = none
parse_text (c ∷ []) = some (record { pair = (c ∷ [], codes "k"); not_after = pos (10 * day) })
parse_text (c ∷ d ∷ s) = none

abbrev parse_pair : Text → Text → Option Certificate
parse_pair cert key = if key == codes "k" then parse_text cert else none

abbrev keep_text : Text → Text
keep_text t = t

-- What the two paths have.
abbrev disk : Text → Text → Option Text
disk cert path = if path == codes "crt" then some cert else some (codes "k")

abbrev pair : Files
pair = record { read = disk (codes "x"); hash = keep_text; parse = parse_pair }

abbrev cert_x : Certificate
cert_x = record { pair = (codes "x", codes "k"); not_after = pos (10 * day) }

abbrev loaded : Manager
loaded = record {
  cert_path = codes "crt";
  key_path = codes "key";
  check_interval = pos day;
  warning_days = pos 30;
  cert = some cert_x;
  last_reload_at = pos 5;
  expires_at = pos (10 * day);
  fingerprint = some (codes "xk");
}

loads :
    (load_initial pair (pos 5) (new_manager (codes "crt") (codes "key") (pos 0) (pos 0))).0 ≡ loaded
unfolding load_initial new_manager ◌==◌
loads = refl

abbrev reads : List ((Text → Option Text) × ℤ)
reads = (disk (codes "y"), pos 6) ∷ ((λ path. none), pos 7) ∷ (disk (codes "yy"), pos 8) ∷ []

-- The key is k whenever the two files can be read.
abbrev HasKey : Text × Text → Type 0
HasKey p = p.1 ≡ codes "k"

same_start : (a c : Text) → a ++ codes "k" ≡ c ++ codes "k" → a ≡ c
same_start [] [] e = refl
same_start [] (y ∷ []) e = cc
same_start [] (y ∷ z ∷ c) e = cc
same_start (x ∷ []) [] e = cc
same_start (x ∷ w ∷ a) [] e = cc
same_start (x ∷ a) (y ∷ c) e =
    let rest : a ≡ c = same_start a c (cc) in let first : x ≡ y = cc in rw (first, rest) refl

apart :
    (p q : Text × Text)
    → HasKey p
    → HasKey q
    → keep_text (p.0 ++ p.1) ≡ keep_text (q.0 ++ q.1)
    → p ≡ q
apart (a, b) (c, d) h k e =
    let first : a ≡ c = same_start a c (ap (λ x. a ++ x) (sym h) ∙ e ∙ ap (λ x. c ++ x) k) in
    rw (first, h, k) refl

run-last_good_example :
    get_certificate (run (ticks_of keep_text parse_pair HasKey apart reads) loaded)
    ≡ some (
        last_good
          (codes "crt")
          (codes "key")
          cert_x
          (ticks_of keep_text parse_pair HasKey apart reads))
unfolding ◌==◌ read_both
run-last_good_example =
    run-last_good keep_text parse_pair HasKey apart reads cert_x loaded (refl, (tt, (refl, tt)))
      (codes "x", codes "k", refl, refl, refl, refl)

abbrev calls : List Call
calls =
    manager_set (some 7)
    ∷ attached
    ∷ paths_updated pair (pos 5) (codes "crt") (codes "key") (pos 0) (pos 0)
    ∷ closed
    ∷ []

run_calls-IsWatched_example : IsWatched (run_calls calls (new_certificate_provider (λ i. loaded)))
run_calls-IsWatched_example = run_calls-IsWatched (λ i. loaded) calls

abbrev saved : BackendConfig
saved = record (config_of (codes "a")) {
  timeout = pos (5 * millisecond);
  headers = (codes "X-Team", codes "t") ∷ [];
}

abbrev rows : Table Row
rows =
    (codes "a", row_of (config_of (codes "a"))) ∷ (codes "b", row_of (config_of (codes "b"))) ∷ []

upsert_row-load_active_backends_example :
    (stored_config (codes "a") (upsert_row saved rows)
      ≡ some (record (with_defaults saved) { headers = [] }))
    × ((n : Text) → n ≢ codes "a" → stored_config n (upsert_row saved rows) ≡ stored_config n rows)
unfolding row_of
upsert_row-load_active_backends_example =
    upsert_row-load_active_backends saved 5 rows (refl, (refl, tt)) (omega arith) refl

abbrev answers : List (BackendConfig × Option TagsAnswer)
answers =
    (
      config_of (codes "a"),
      some (record { status = 200; names = some (codes "Llama:latest" ∷ codes " " ∷ []) }),
    )
    ∷ (config_of (codes "b"), some (record { status = 500; names = none }))
    ∷ []

discover_catalog-serves_example :
    let d = (discover_catalog answers).0 in
    (serves (codes "llama") (codes "a") d.catalog ≡ reported (codes "llama") (codes "a") answers)
    × (d.successful + d.failed ≡ 2)
discover_catalog-serves_example =
    discover_catalog-serves answers (codes "llama") (codes "a") (λ e. ground (arith, e))
