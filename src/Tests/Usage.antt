-- ===== src/Tests/Usage.antt =====
-- The theorems on the usage logger (internal/usage/logger.go) at a channel of two records.
use ollama_gateway.Common.{ℕ, ◌≡◌, List, [], ◌∷◌}
use ollama_gateway.Common.Int.{pos, negsuc}
use ollama_gateway.Usage.{
  UsageLogger, LoggerOptions, Event, logged, received, ticked, new_usage_logger, run, stop,
}
use ollama_gateway.Usage.Logger.{records, concat}
use ollama_gateway.Usage.Logger.Delivery.{Sublist, logs, stop_lem, stop-run}

abbrev options : LoggerOptions
options = record { buffer_size = pos 2; batch_size = pos 2; flush_interval = negsuc 0 }

abbrev logger : UsageLogger ℕ
logger = record {
  buffer_size = 2;
  batch_size = 2;
  buffer = 5 ∷ [];
  batch = 4 ∷ [];
  stored = (2 ∷ 3 ∷ []) ∷ [];
}

abbrev busy : List (Event ℕ)
busy = logged 6 ∷ logged 7 ∷ received ∷ ticked ∷ logged 8 ∷ logged 9 ∷ []

stop_lem_example :
    (concat (stop logger).stored ≡ records logger)
    × ((stop logger).buffer ≡ [])
    × ((stop logger).batch ≡ [])
stop_lem_example = stop_lem logger

stop-run_example : Sublist (concat (stop (run busy (new_usage_logger options))).stored) (logs busy)
stop-run_example = stop-run options busy

abbrev calm : List (Event ℕ)
calm = received ∷ logged 6 ∷ ticked ∷ []
