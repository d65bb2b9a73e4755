-- ===== src/Tests/Scheduling.antt =====
-- The scheduling theorems (internal/backends/pool.go, healthcheck.go) at two backends.
use ollama_gateway.Common.{
  ℕ, ◌+◌, ◌*◌, ◌<◌, ◌≤◌, ◌≡◌, refl, Text, codes, Option, none, some, List, [], ◌∷◌, Bool, true,
  false, All, sum_by, length, keep, arith, eqb, if◌then◌else◌,
}
use ollama_gateway.Common.Int.{ℤ, pos, ◌<ℤ◌}
use ollama_gateway.Backends.{Backend, is_healthy}
use ollama_gateway.Backends.Health.{Probe, answered, no_response, no_request}
use ollama_gateway.Backends.Pool.{Heap, Entry, selectable, select}
use ollama_gateway.Backends.Pool.Loop.{member, amount, total_weight}
use ollama_gateway.Backends.Pool.Fairness.{run_select, times, fairness}
use ollama_gateway.Backends.Pool.Choice.{select_sound}

abbrev pub backend_of : Text → ℕ → Backend
backend_of name w = record {
  name = name;
  url = record { scheme = codes "http"; host = name; rendered = name };
  weight = pos w;
  tag = [];
  health_check_path = codes "/api/version";
  timeout = pos 0;
  headers = [];
  effective_weight = pos w;
  current_weight = pos 0;
  healthy = true;
  last_check_time = 0;
  failure_count = pos 0;
  enabled = true;
}

abbrev pub heap : Heap
heap p = if eqb p 0 then backend_of (codes "a") 2 else backend_of (codes "b") 1

abbrev two : List Entry
two = record { ptr = 0; weight = pos 2 } ∷ record { ptr = 1; weight = pos 1 } ∷ []

fairness_example :
    All
      (λ e.
        (times e.ptr (run_select (4 * total_weight two) heap two).1 ≡ 4 * amount e)
        × (((run_select (4 * total_weight two) heap two).0 e.ptr).current_weight ≡ pos 0))
      two
unfolding selectable is_healthy
fairness_example =
    fairness two (refl, (refl, tt)) (refl, (refl, tt)) (omega arith) (omega arith) heap
      (refl, (refl, tt)) (refl, (refl, tt)) 4

select_sound_example :
    (member 0 two ≡ true)
    × ((heap 0).healthy ≡ true)
    × ((heap 0).enabled ≡ true)
    × (pos 0 <ℤ (heap 0).effective_weight)
unfolding select selectable ollama_gateway.Common.Int.int64 ollama_gateway.Common.Int.◌+ℤ◌
select_sound_example = select_sound heap two 0 refl

abbrev probes : List (ℕ × Probe)
probes = (10, no_response) ∷ (20, answered 200) ∷ (30, answered 500) ∷ (40, no_request) ∷ []
