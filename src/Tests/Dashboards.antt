-- ===== src/Tests/Dashboards.antt =====
-- The theorems on the dashboard (internal/dashboard/handler.go) at small inputs.
use ollama_gateway.Common.{
  ◌≡◌, ◌≢◌, refl, inl, inr, eq_iff, eq_of_some, Bool-cases, Text, codes, ◌==◌, Option, none, some,
  List, [], ◌∷◌, Bool, true, false, not, ◌&&◌, has_prefix, trim_space, keep, arith, if◌then◌else◌,
}
use ollama_gateway.Common.Int.{pos}
use ollama_gateway.Common.Table.{Table, lookup, insert, delete}
use ollama_gateway.Config.{UserConfig}
use ollama_gateway.Models.Catalog.{CatalogEntry}
use ollama_gateway.Usage.Pricing.{ModelPricing}
use ollama_gateway.Backends.Calls.{PullProgress, PullStream, Answer, CallError, pull_model_stream}
use ollama_gateway.Dashboard.Routes.{
  AdminRequest, is_authenticated, serve_admin, is_public, serve_admin-unauthenticated,
}
use ollama_gateway.Dashboard.Pulls.{Job, new_job}
use ollama_gateway.Dashboard.Pulls.Jobs.{
  Event, requested, progressed, finished, shown, run, Runs, run-Runs,
}
use ollama_gateway.Dashboard.Pulls.Views.{download, Ended, download-Ended}
use ollama_gateway.Models.{ModelEntry}
use ollama_gateway.Auth.Database.{UserStore, user_row}
use ollama_gateway.Dashboard.Access.{remove_value, with_access, apply_model_access, forget_model}
use ollama_gateway.Dashboard.Access.Effects.{may_use}
use ollama_gateway.Dashboard.Catalog.{Site, save_model, delete_model}
use ollama_gateway.Dashboard.Catalog.Saving.{InStep, save_model-InStep}
use ollama_gateway.Dashboard.Catalog.Deleting.{delete_model-InStep}
use ollama_gateway.Dashboard.Servers.{
  Fleet, Action, save_submitted, removal_confirmed, toggled, act_all,
}
use ollama_gateway.Dashboard.Servers.Alignment.{IsAligned}
use ollama_gateway.Dashboard.Servers.History.{act_all-IsAligned}
use ollama_gateway.Backends.Manager.{get_by_name, upsert_backend, remove_backend}
use ollama_gateway.Backends.Manager.History.{empty-IsConsistent}
use ollama_gateway.Tests.Routing.{parse, config_of}
use ollama_gateway.Tests.Scheduling.{heap}
use ollama_gateway.Common.Sorting.{find_by, sort_by, insert_sorted}
use ollama_gateway.Dashboard.Forms.{parse_aliases, format_aliases}
use ollama_gateway.Dashboard.Forms.Aliases.{is_pair}
use ollama_gateway.Dashboard.Forms.Roundtrip.{parse_aliases-format_aliases}
use ollama_gateway.Tests.Credentials.{digest, no_lists}
use ollama_gateway.Tests.Catalogs.{tables}

-- A form for users, sent without a token.
abbrev intruder : AdminRequest
intruder = record {
  method = codes "POST";
  path = codes "/admin/users";
  admin_token = [];
  authorization = [];
  session = none;
}

abbrev reader : AdminRequest
reader = record intruder { method = codes "GET" }

serve_admin-unauthenticated_example : is_public (serve_admin digest (codes "h") reader) ≡ true
unfolding is_authenticated ◌==◌ ollama_gateway.Auth.credential trim_space
serve_admin-unauthenticated_example =
    serve_admin-unauthenticated digest (codes "h") reader refl refl

-- A POST to the users is acted on for everyone.
intruder_acts : is_public (serve_admin digest (codes "h") intruder) ≡ false
unfolding serve_admin has_prefix ◌==◌ ollama_gateway.Common.trim_prefix
intruder_acts = refl

abbrev job : Job
job = new_job (codes "j1") (codes "a") (codes "qwen") 5

abbrev half : PullProgress
half = record {
  status = codes "pulling";
  digest = [];
  total = pos 8;
  completed = pos 4;
  failure = [];
}

abbrev events : List Event
events =
    progressed (codes "j0") half
    ∷ requested (codes "j2") (codes "b") (codes "phi") 6
    ∷ finished (codes "j0") 7 none
    ∷ shown 8
    ∷ []

run-Runs_example : Runs job (run events (some job))
unfolding ◌==◌
run-Runs_example =
    run-Runs job events (some job) (tt, (tt, (refl, (tt, tt)))) (refl, refl, refl, refl, refl)

abbrev reports : List Event
reports = progressed (codes "j0") half ∷ progressed (codes "j1") half ∷ []

abbrev rendering : CallError → Text
rendering e = codes "error"

abbrev stream : Option (Answer × PullStream)
stream =
    some (record { status = 200; body = some [] }, record { events = half ∷ []; well_ended = true })

download-Ended_example :
    (k : Job) × (download rendering 9 stream job ≡ some k)
    × Ended 9 12 (pull_model_stream stream).1 k
unfolding pull_model_stream ◌==◌ trim_space
download-Ended_example =
    download-Ended rendering 9 12 stream (codes "j1") (codes "a") (codes "qwen") 5 (λ e. refl)
      (((refl, omega arith), (refl, omega arith)), tt)

abbrev bob : UserConfig
bob = record {
  api_key_hash = codes "k";
  rate_limit = none;
  model_allow = codes "qwen" ∷ [];
  model_deny = [];
  aliases = [];
}

abbrev users : UserStore
users = record {
  rows = (codes "bob", user_row no_lists none (record bob { model_allow = [] })) ∷ [];
  config_users = [];
}

abbrev nobody : Text → Bool
nobody id = false

abbrev phi_entry : ModelEntry
phi_entry = record { name = codes "Phi"; backends = codes "b" ∷ [] }

-- Refusing the only model of an allow list empties it, which opens the other models.
bob_unbound :
    (may_use bob phi_entry (codes "phi") ≡ false)
    × (may_use (with_access (codes "qwen") false bob) phi_entry (codes "phi") ≡ true)
unfolding ollama_gateway.Models.check_access ollama_gateway.Models.names with_access ◌==◌ trim_space
    remove_value ollama_gateway.Models.normalize ollama_gateway.Proxy.Handler.from_user_config
    ollama_gateway.Dashboard.Access.contains_value ollama_gateway.Common.Sorting.sort_by
bob_unbound = (refl, refl)

abbrev site : Site
site = record {
  models = none;
  config_models = [];
  pricing = [];
  users = users;
  json = no_lists;
  tables = tables;
  prices = [];
  resolver_catalog = [];
  proxy_pricing = [];
}

abbrev form : CatalogEntry
form = record { name = codes "Phi"; backends = record { backend = codes "b"; weight = pos 3 } ∷ [] }

abbrev price : ModelPricing
price = record { input_cost = pos 5; output_cost = pos 7 }

abbrev created : Site
created = (save_model true (codes "phi") form price true nobody site).0

save_model-InStep_example : InStep created
unfolding save_model trim_space ◌==◌ lookup apply_model_access
    ollama_gateway.Auth.Database.update_stored_user ollama_gateway.Models.Store.Editing.upsert_model
    ollama_gateway.Common.Table.insert ollama_gateway.Auth.Database.list_users user_row
save_model-InStep_example =
    (save_model-InStep true (codes "phi") form price true nobody site created refl refl).0

delete_model-InStep_example : InStep (delete_model (codes "phi") created).0
unfolding delete_model save_model trim_space ◌==◌ lookup apply_model_access
    ollama_gateway.Auth.Database.update_stored_user ollama_gateway.Models.Store.Editing.upsert_model
    ollama_gateway.Common.Table.insert ollama_gateway.Models.Store.load_active_catalog
    ollama_gateway.Common.Sorting.sort_by ollama_gateway.Common.Sorting.leb_text forget_model
    ollama_gateway.Models.Store.Editing.deactivate_model ollama_gateway.Auth.Database.list_users
    user_row
delete_model-InStep_example =
    (delete_model-InStep (codes "phi") created (delete_model (codes "phi") created).0 refl refl).0

-- A gateway without backends yet.
abbrev no_backends : Fleet
no_backends = record {
  backends = [];
  rows = [];
  manager = record { heap = heap; next = 0; backends = []; by_name = [] };
  disabled = [];
}

no_backends-IsAligned : IsAligned no_backends
unfolding get_by_name lookup
no_backends-IsAligned = record {
  consistent = empty-IsConsistent heap;
  keyed = tt;
  stored = λ n p. cc;
  agreed = λ n p. cc;
}

abbrev clicks : List Action
clicks =
    save_submitted true (config_of (codes "a"))
    ∷ save_submitted true (config_of (codes "b"))
    ∷ toggled (codes "backends/toggle/a")
    ∷ removal_confirmed (codes "b") (codes "b") []
    ∷ []

act_all-IsAligned_example : IsAligned (act_all parse clicks no_backends)
act_all-IsAligned_example = act_all-IsAligned parse clicks no_backends no_backends-IsAligned

-- The first backend is left, and disabled.
clicks_left : (act_all parse clicks no_backends).disabled ≡ codes "a" ∷ []
unfolding act_all ◌==◌ lookup find_by sort_by insert_sorted delete has_prefix upsert_backend
    get_by_name ollama_gateway.Backends.Store.remove_row ollama_gateway.Common.trim_prefix
    ollama_gateway.Backends.new_backend ollama_gateway.Backends.Store.load_active_backends
    ollama_gateway.Backends.Store.upsert_row insert remove_backend trim_space
clicks_left = refl

abbrev two_aliases : Table Text
two_aliases = (codes "fast", codes "llama3:8b") ∷ (codes "big", codes "qwen") ∷ []

two_aliases-pairs : (n v : Text) → lookup n two_aliases ≡ some v → is_pair n v ≡ true
unfolding lookup ◌==◌
two_aliases-pairs n v h = elim (Bool-cases (codes "fast" == n)) [
  | inl e ↦ rw (← (eq_iff (codes "fast") n).0 e, ← eq_of_some (rw e at h)) refl
  | inr e ↦ elim (Bool-cases (codes "big" == n)) [
    | inl f ↦ rw (← (eq_iff (codes "big") n).0 f, ← eq_of_some (rw (e, f) at h)) refl
    | inr f ↦ cc (rw (e, f) at h)
  ]
]

parse_aliases-format_aliases_example :
    (m : Table Text) × (parse_aliases (format_aliases two_aliases) ≡ some m)
    × ((n : Text) → lookup n m ≡ lookup n two_aliases)
parse_aliases-format_aliases_example = parse_aliases-format_aliases two_aliases two_aliases-pairs
