-- ===== src/Usage/Store.antt =====
-- internal/usage/store.go: the table of usage records and the sums that the dashboard shows of it. The
-- rows are in the order of their ids. `LIKE` of SQLite is a parameter, and an error of the database is
-- left out.
pub mod Pages
pub mod Totals
use ollama_gateway.Common.{
  ℕ, suc, ◌+◌, ◌-◌, ◌*◌, Text, codes, ◌==◌, Option, none, some, List, [], ◌∷◌, ◌++◌, Bool, true,
  false, not, ◌&&◌, ◌||◌, keep, take, drop, map, length, eqb, ltb, if◌then◌else◌,
}
use ollama_gateway.Common.Int.{ℤ, pos, negsuc, is_nonpos, pos_part, ltb_ℤ, eqb_ℤ, ◌+ℤ◌}
use ollama_gateway.Common.Table.{Table, lookup, insert}
use ollama_gateway.Common.Sorting.{leb_text}
use ollama_gateway.Common.Ordering.{order_by}

-- A record without its row id.
pub record UsageRecord : Type 0 where
  pub timestamp : Text
  pub api_key_id : Text
  pub model : Text
  pub backend_url : Text
  pub prompt_tokens : ℤ
  pub completion_tokens : ℤ
  pub duration_ms : ℤ
  pub cost : ℤ

-- A row; ids grow.
pub record UsageRow : Type 0 where
  pub id : ℕ
  pub entry : UsageRecord

pub record UsageTable : Type 0 where
  pub rows : List UsageRow
  pub next_id : ℕ

-- `BatchInsert`
unfoldable pub batch_insert : List UsageRecord → UsageTable → UsageTable
batch_insert [] t = t
batch_insert (r ∷ rs) t = batch_insert rs (record {
  rows = t.rows ++ (record { id = t.next_id; entry = r } ∷ []);
  next_id = suc t.next_id;
})

-- `text LIKE pattern`
abbrev pub LikeTest : Type 0
LikeTest = Text → Text → Bool

pub record ListOptions : Type 0 where
  pub api_key_id : Text
  pub model : Text
  pub start : Text
  pub end : Text
  pub page : ℤ
  pub page_size : ℤ

pub record OverviewOptions : Type 0 where
  pub start : Text
  pub end : Text

-- A clause that an empty filter leaves out.
abbrev clause : Text → Bool → Bool
clause filter holds = filter == [] || holds

abbrev within : Text → Text → UsageRow → Bool
within start end r =
    clause start (leb_text start r.entry.timestamp) && clause end (leb_text r.entry.timestamp end)

-- `overviewWhereClause`
unfoldable pub overview_where : OverviewOptions → UsageRow → Bool
overview_where o r = within o.start o.end r

abbrev somewhere : Text → Text
somewhere t = codes "%" ++ (t ++ codes "%")

-- The clauses of `LogsAnalytics` and `ListRecords`.
unfoldable pub logs_where : LikeTest → ListOptions → UsageRow → Bool
logs_where like o r =
    clause o.api_key_id (like r.entry.api_key_id (somewhere o.api_key_id))
    && clause o.model (like r.entry.model (somewhere o.model))
    && within o.start o.end r

unfoldable pub user_where : Text → UsageRow → Bool
user_where user r = r.entry.api_key_id == user

pub record UsageSummary : Type 0 where
  pub requests : ℕ
  pub prompt_tokens : ℤ
  pub completion_tokens : ℤ
  pub cost : ℤ

-- `COALESCE(SUM(...), 0)`
unfoldable pub sum_ℤ : {A : Type 0} → (A → ℤ) → List A → ℤ
sum_ℤ f [] = pos 0
sum_ℤ f (x ∷ xs) = f x +ℤ sum_ℤ f xs

abbrev pub row_cost : UsageRow → ℤ
row_cost r = r.entry.cost

-- The sums of the rows that a query finds.
unfoldable pub summary_of : List UsageRow → UsageSummary
unfolding sum_ℤ
summary_of rows = record {
  requests = length rows;
  prompt_tokens = sum_ℤ (λ (r : UsageRow). r.entry.prompt_tokens) rows;
  completion_tokens = sum_ℤ (λ (r : UsageRow). r.entry.completion_tokens) rows;
  cost = sum_ℤ row_cost rows;
}

pub record ModelCost : Type 0 where
  pub model : Text
  pub count : ℕ
  pub cost : ℤ

-- The group of a model with one row more.
abbrev pub joined : UsageRow → Option ModelCost → ModelCost
joined r none = record { model = r.entry.model; count = 1; cost = r.entry.cost }
joined r (some g) = record g { count = suc g.count; cost = r.entry.cost +ℤ g.cost }

-- `GROUP BY model`
unfoldable pub group_by_model : List UsageRow → Table ModelCost
group_by_model [] = []
group_by_model (r ∷ rows) =
    let groups = group_by_model rows in
    insert r.entry.model (joined r (lookup r.entry.model groups)) groups

-- `ORDER BY SUM(cost_usd) DESC, model`
abbrev pub costs_more : ModelCost → ModelCost → Bool
costs_more a b = ltb_ℤ b.cost a.cost || (eqb_ℤ a.cost b.cost && leb_text a.model b.model)

-- `LIMIT`; SQLite reads a negative one as none.
unfoldable pub limited : {A : Type 0} → ℤ → List A → List A
limited (pos n) xs = take n xs
limited (negsuc n) xs = xs

abbrev pub groups_of : List UsageRow → List ModelCost
groups_of rows = map (λ (e : Text × ModelCost). e.1) (group_by_model rows)

unfoldable pub breakdown_of : ℤ → List UsageRow → List ModelCost
unfolding group_by_model limited
breakdown_of limit rows = limited limit (order_by costs_more (groups_of rows))

-- `OverviewSummary`
unfoldable pub overview_summary : OverviewOptions → UsageTable → UsageSummary
unfolding overview_where summary_of
overview_summary o t = summary_of (keep (overview_where o) t.rows)

-- `ModelCostBreakdown`
unfoldable pub model_cost_breakdown : ℤ → OverviewOptions → UsageTable → List ModelCost
unfolding overview_where breakdown_of
model_cost_breakdown limit o t = breakdown_of limit (keep (overview_where o) t.rows)

-- The average cost is the fraction of the cost and the requests, or none.
pub record LogsAnalytics : Type 0 where
  pub summary : UsageSummary
  pub average : Option (ℤ × ℕ)
  pub models : List ModelCost

-- `LogsAnalytics`
unfoldable pub logs_analytics : LikeTest → ListOptions → UsageTable → LogsAnalytics
unfolding logs_where summary_of breakdown_of
logs_analytics like o t =
    let rows = keep (logs_where like o) t.rows in
    let s = summary_of rows in
    record {
      summary = s;
      average = if ltb 0 s.requests then some (s.cost, s.requests) else none;
      models = breakdown_of (pos 10) rows;
    }

pub record UserStats : Type 0 where
  pub summary : UsageSummary
  pub top_models : List ModelCost

-- `UserStats`
unfoldable pub user_stats : Text → ℤ → UsageTable → UserStats
unfolding user_where summary_of breakdown_of
user_stats user limit t =
    let rows = keep (user_where user) t.rows in
    record {
      summary = summary_of rows;
      top_models = breakdown_of (if is_nonpos limit then pos 5 else limit) rows;
    }

-- `ORDER BY timestamp DESC, id DESC`
abbrev pub is_later : UsageRow → UsageRow → Bool
is_later a b =
    not (leb_text a.entry.timestamp b.entry.timestamp)
    || (a.entry.timestamp == b.entry.timestamp && ltb b.id a.id)

abbrev pub page_size_of : ListOptions → ℕ
page_size_of o = if is_nonpos o.page_size then 50 else pos_part o.page_size

abbrev pub page_of : ListOptions → ℕ
page_of o = if is_nonpos o.page then 1 else pos_part o.page

-- `ListRecords`; the offset is that of a page whose product 64 bits hold.
unfoldable pub list_records : LikeTest → ListOptions → UsageTable → List UsageRow
unfolding logs_where
list_records like o t =
    take (page_size_of o) (
      drop ((page_of o - 1) * page_size_of o) (order_by is_later (keep (logs_where like o) t.rows)))
