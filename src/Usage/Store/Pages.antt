-- ===== src/Usage/Store/Pages.antt =====
-- The pages of the log view (`ListRecords` of internal/usage/store.go).
use ollama_gateway.Common.{
  ℕ, zero, suc, ◌+◌, ◌-◌, ◌*◌, ◌≤◌, ◌≡◌, refl, sym, ap, ◌∙◌, List, [], ◌++◌, keep, take, drop,
  take-add, take-length, length, sum_by, length-sum, arith,
}
use ollama_gateway.Common.Int.{pos}
use ollama_gateway.Common.Ordering.{order_by, sum-order_by}
use ollama_gateway.Usage.Store.{
  UsageRow, UsageTable, LikeTest, ListOptions, logs_where, is_later, page_size_of, page_of,
  list_records,
}

abbrev pub page : LikeTest → ListOptions → UsageTable → ℕ → List UsageRow
page like o t k = list_records like (record o { page = pos k }) t

-- The pages 1 to k, one after the other.
unfoldable pub pages : LikeTest → ListOptions → UsageTable → ℕ → List UsageRow
pages like o t zero = []
pages like o t (suc k) = pages like o t k ++ page like o t (suc k)

abbrev found : LikeTest → ListOptions → UsageTable → List UsageRow
found like o t = order_by is_later (keep (logs_where like o) t.rows)

page_lem :
    (like : LikeTest) (o : ListOptions) (t : UsageTable) (k : ℕ)
    → page like o t (suc k) ≡ take (page_size_of o) (drop (k * page_size_of o) (found like o t))
unfolding list_records logs_where
page_lem like o t k =
    let size = page_size_of o in
    let e : page_of (record o { page = pos (suc k) }) - 1 ≡ k = ground arith in
    ap (λ i. take size (drop (i * size) (found like o t))) e

pages-take :
    (like : LikeTest) (o : ListOptions) (t : UsageTable) (k : ℕ)
    → pages like o t k ≡ take (k * page_size_of o) (found like o t)
unfolding pages
pages-take like o t zero = let z : 0 * page_size_of o ≡ 0 = omega arith in rw z refl
pages-take like o t (suc k) =
    let size = page_size_of o in
    let next : k * size + size ≡ suc k * size = grind arith in
    rw (pages-take like o t k) (
      rw (page_lem like o t k)
        (take-add (k * size) size (found like o t) ∙ ap (λ m. take m (found like o t)) next))

-- Enough pages, one after the other, have each record that the filter lets through exactly as often as the
-- table has it, and no other: no record falls between two pages or is on two of them.
pub pages-logs_where :
    (like : LikeTest) (o : ListOptions) (t : UsageTable) (k : ℕ) (f : UsageRow → ℕ)
    → length (keep (logs_where like o) t.rows) ≤ k * page_size_of o
    → sum_by f (pages like o t k) ≡ sum_by f (keep (logs_where like o) t.rows)
pages-logs_where like o t k f h =
    let rows = keep (logs_where like o) t.rows in
    let same : length (order_by is_later rows) ≡ length rows =
      sym (length-sum (order_by is_later rows))
      ∙ sum-order_by is_later (λ r. 1) rows
      ∙ length-sum rows in
    rw (pages-take like o t k) (
      rw (take-length (k * page_size_of o) (order_by is_later rows) (omega (arith, h, same)))
        (sum-order_by is_later f rows))
