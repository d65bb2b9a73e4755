-- ===== src/Backends/Pool.antt =====
-- internal/backends/pool.go: smooth weighted round-robin over backends that pools share by pointer.
pub mod Loop
pub mod Shares
pub mod Tally
pub mod Fairness
pub mod Choice
use ollama_gateway.Common.{
  ℕ, Option, none, some, List, [], ◌∷◌, Bool, not, ◌||◌, eqb, map, if◌then◌else◌,
}
use ollama_gateway.Common.Int.{ℤ, pos, negsuc, ◌+ℤ◌, ◌-ℤ◌, int64, ltb_ℤ, is_zero, is_nonpos}
use ollama_gateway.Backends.{Backend, is_healthy}

-- The backends that pointers stand for. A pool holds pointers, and pools share them.
abbrev pub Heap : Type 0
Heap = ℕ → Backend

abbrev pub update : Heap → ℕ → Backend → Heap
update h p b q = if eqb q p then b else h q

pub record Entry : Type 0 where
  pub ptr : ℕ
  pub weight : ℤ

-- A weight that is not positive is replaced by the backend's own.
unfoldable pub new_entry : Heap → Entry → Entry
new_entry h e = if is_nonpos e.weight then record e { weight = (h e.ptr).weight } else e

unfoldable pub new_pool : Heap → List Entry → List Entry
unfolding new_entry
new_pool h = map (new_entry h)

-- The variables of the loop in `Select`; `best` is the pointer of the entry at `bestIdx`.
pub record Scan : Type 0 where
  pub heap : Heap
  pub total : ℤ
  pub best : Option ℕ
  pub best_weight : ℤ

-- The test that lets an entry take part.
unfoldable pub selectable : Backend → Bool
unfolding is_healthy
selectable b = not (not (is_healthy b) || is_nonpos b.effective_weight)

raise_best : ℕ → ℤ → Scan → Scan
raise_best p c s = if ltb_ℤ s.best_weight c then record s { best = some p; best_weight = c } else s

pub visit : Scan → Entry → Scan
unfolding raise_best
visit s e =
    let b = s.heap e.ptr in
    let c = int64 (b.current_weight +ℤ e.weight) in
    if selectable b
    then raise_best e.ptr c (record s {
      heap = update s.heap e.ptr (record b { current_weight = c });
      total = int64 (s.total +ℤ e.weight);
    })
    else s

pub scan : Scan → List Entry → Scan
unfolding visit
scan s [] = s
scan s (e ∷ es) = scan (visit s e) es

-- `bestWeight` starts at -(2^63 - 1).
pub start : Heap → Scan
start h = record { heap = h; total = pos 0; best = none; best_weight = negsuc 9223372036854775806 }

pub charge : Scan → ℕ → Heap
charge s p =
    let b = s.heap p in
    update s.heap p (record b { current_weight = int64 (b.current_weight -ℤ s.total) })

pub finish : Scan → Option ℕ → Heap × Option ℕ
unfolding charge
finish s none = (s.heap, none)
finish s (some p) = if is_zero s.total then (s.heap, none) else (charge s p, some p)

-- `Select`: the backends afterwards, and the pointer it returns; `none` is `ErrNoHealthyBackends`.
-- On an empty pool the loop does nothing and leaves `bestIdx` at -1, as the early return does.
unfoldable pub select : Heap → List Entry → Heap × Option ℕ
unfolding scan start finish
select h es = let s = scan (start h) es in finish s s.best
