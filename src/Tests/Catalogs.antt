-- ===== src/Tests/Catalogs.antt =====
-- The theorems on the tables of models (internal/models/store.go) and of usage records
-- (internal/usage/store.go) at small tables.
use ollama_gateway.Common.{
  ◌≡◌, ◌≢◌, refl, Text, codes, ◌==◌, Option, none, some, List, [], ◌∷◌, Bool, true, false, keep,
  length, sum_by, arith, if◌then◌else◌,
}
use ollama_gateway.Common.Int.{pos}
use ollama_gateway.Common.Table.{Table, lookup}
use ollama_gateway.Usage.Pricing.{ModelPricing}
use ollama_gateway.Usage.Store.{
  UsageRecord, UsageRow, UsageTable, ListOptions, OverviewOptions, logs_where, overview_where,
  sum_ℤ, groups_of, overview_summary, model_cost_breakdown,
}
use ollama_gateway.Usage.Store.Pages.{pages, pages-logs_where}
use ollama_gateway.Usage.Store.Totals.{cost_of, model_cost_breakdown-overview_summary}
use ollama_gateway.Models.Catalog.{CatalogEntry, Catalog}
use ollama_gateway.Models.Catalog.Merging.{serves, offered}
use ollama_gateway.Models.Store.{ModelTables, load_active_catalog, sync_discovered_catalog}
use ollama_gateway.Models.Store.Pricing.{
  load_model_pricing, replace_model_pricing, kept_price, replace_model_pricing-load_model_pricing,
}
use ollama_gateway.Models.Store.Syncing.{sync_discovered_catalog-load_active_catalog}

-- A model with a backend, and one that is inactive.
abbrev pub tables : ModelTables
tables = record {
  models =
      (codes "qwen", record { display_name = []; active = true })
      ∷ (codes "phi", record { display_name = codes "Phi"; active = false })
      ∷ [];
  refs = record { model = codes "qwen"; backend = codes "a"; weight = pos 2 } ∷ [];
}

abbrev entry : CatalogEntry
entry = record {
  name = codes "Llama";
  backends = record { backend = codes "b"; weight = pos 3 } ∷ [];
}

abbrev discovered : Catalog
discovered = (codes "Llama:latest", entry) ∷ []

sync_discovered_catalog-load_active_catalog_example :
    serves
      (codes "llama")
      (codes "b")
      (load_active_catalog (sync_discovered_catalog discovered tables).tables)
    ≡ offered (codes "llama") (codes "b") discovered
sync_discovered_catalog-load_active_catalog_example =
    sync_discovered_catalog-load_active_catalog (codes "llama") (codes "b") discovered tables
      (λ e. cc) (λ e. cc)

abbrev saved : ModelTables
saved = record {
  models =
      (codes "qwen", record { display_name = []; active = true })
      ∷ (codes "phi", record { display_name = codes "Llama"; active = true })
      ∷ [];
  refs =
      record { model = codes "qwen"; backend = codes "a"; weight = pos 2 }
      ∷ record { model = codes "phi"; backend = codes "b"; weight = pos 3 }
      ∷ [];
}

abbrev price : ModelPricing
price = record { input_cost = pos 5; output_cost = pos 7 }

abbrev prices : Table ModelPricing
prices = (codes "qwen", price) ∷ (codes "gone", price) ∷ []

replace_model_pricing-load_model_pricing_example :
    lookup (codes "qwen") (load_model_pricing (replace_model_pricing tables.models prices))
    ≡ kept_price tables.models prices (codes "qwen")
replace_model_pricing-load_model_pricing_example =
    replace_model_pricing-load_model_pricing tables.models prices (codes "qwen")

abbrev row : Text → Text → UsageRow
row model time = record {
  id = 1;
  entry = record {
    timestamp = time;
    api_key_id = codes "ann";
    model = model;
    backend_url = [];
    prompt_tokens = pos 1;
    completion_tokens = pos 2;
    duration_ms = pos 3;
    cost = pos 4;
  };
}

abbrev table : UsageTable
table = record {
  rows =
      row (codes "qwen") (codes "1")
      ∷ row (codes "phi") (codes "2")
      ∷ row (codes "qwen") (codes "3")
      ∷ [];
  next_id = 2;
}

abbrev every : ListOptions
every = record {
  api_key_id = [];
  model = [];
  start = [];
  end = [];
  page = pos 0;
  page_size = pos 2;
}

abbrev always : Text → Text → Bool
always text pattern = true

pages-logs_where_example :
    sum_by (λ r. 1) (pages always every table 2)
    ≡ sum_by (λ r. 1) (keep (logs_where always every) table.rows)
unfolding logs_where ◌==◌
pages-logs_where_example = pages-logs_where always every table 2 (λ r. 1) (omega arith)

abbrev period : OverviewOptions
period = record { start = codes "2"; end = [] }

model_cost_breakdown-overview_summary_example :
    sum_ℤ cost_of (model_cost_breakdown (pos 10) period table)
    ≡ (overview_summary period table).cost
unfolding overview_where ollama_gateway.Usage.Store.group_by_model ◌==◌
    ollama_gateway.Common.Sorting.leb_text ollama_gateway.Common.Table.insert
model_cost_breakdown-overview_summary_example =
    (model_cost_breakdown-overview_summary 10 period table (omega arith)).0
