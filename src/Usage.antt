-- ===== src/Usage.antt =====
-- internal/usage/logger.go: the queue of usage records and the goroutine that stores them in
-- batches. `Store.BatchInsert` is a call to the database: the state lists its
-- batches in order.
pub mod Logger
pub mod Pricing
pub mod Store
use ollama_gateway.Common.{
  ℕ, suc, ◌<◌, List, [], ◌∷◌, ◌++◌, Bool, true, false, length, is_empty, ltb, leb, if◌then◌else◌,
}
use ollama_gateway.Common.Int.{ℤ, pos, is_nonpos, pos_part}

-- config of the logger
pub record LoggerOptions : Type 0 where
  pub buffer_size : ℤ
  pub batch_size : ℤ
  pub flush_interval : ℤ

pub default_logger_options : LoggerOptions
default_logger_options = record {
  buffer_size = pos 1024;
  batch_size = pos 50;
  flush_interval = pos 1000000000;
}

-- The options as `NewUsageLogger` uses them.
pub fill_options : LoggerOptions → LoggerOptions
unfolding default_logger_options
fill_options o = record {
  buffer_size =
      if is_nonpos o.buffer_size then default_logger_options.buffer_size else o.buffer_size;
  batch_size = if is_nonpos o.batch_size then default_logger_options.batch_size else o.batch_size;
  flush_interval =
      if is_nonpos o.flush_interval
      then default_logger_options.flush_interval
      else o.flush_interval;
}

-- The channel `ch` with its size, the slice `batch` with its limit, and the batches handed to the
-- store.
pub record UsageLogger (A : Type 0) : Type 0 where
  pub buffer_size : ℕ
  pub batch_size : ℕ
  pub buffer : List A
  pub batch : List A
  pub stored : List (List A)

module _ {A : Type 0} where
  pub new_usage_logger : LoggerOptions → UsageLogger A
  unfolding fill_options
  new_usage_logger o = record {
    buffer_size = pos_part (fill_options o).buffer_size;
    batch_size = pos_part (fill_options o).batch_size;
    buffer = [];
    batch = [];
    stored = [];
  }

  -- `ul.ch <- record`, where there is room
  pub send : A → UsageLogger A → UsageLogger A
  send r s = record s { buffer = s.buffer ++ (r ∷ []) }

  -- The second `select` of `Log`: the oldest record is discarded, if there is one, and the new one
  -- sent if there is room now.
  pub replace_oldest : A → UsageLogger A → List A → UsageLogger A
  unfolding send
  replace_oldest r s [] = s
  replace_oldest r s (x ∷ xs) =
      let s' = record s { buffer = xs } in if ltb (length xs) s.buffer_size then send r s' else s'

  -- `Log`
  pub log : A → UsageLogger A → UsageLogger A
  unfolding replace_oldest send
  log r s = if ltb (length s.buffer) s.buffer_size then send r s else replace_oldest r s s.buffer

  pub flush : UsageLogger A → UsageLogger A
  flush s =
      if is_empty s.batch then s else record s { stored = s.stored ++ (s.batch ∷ []); batch = [] }

  -- The body of `run` for a record that it received.
  pub accept : A → UsageLogger A → UsageLogger A
  unfolding flush
  accept r s =
      let s' = record s { batch = s.batch ++ (r ∷ []) } in
      if leb s.batch_size (length s'.batch) then flush s' else s'

  -- The receiving case of `run`; an empty channel leaves it waiting.
  receive_from : UsageLogger A → List A → UsageLogger A
  unfolding accept
  receive_from s [] = s
  receive_from s (r ∷ rest) = accept r (record s { buffer = rest })

  pub receive : UsageLogger A → UsageLogger A
  unfolding receive_from
  receive s = receive_from s s.buffer

  -- The loop of the stopping case, over what the channel holds.
  pub drain : List A → UsageLogger A → UsageLogger A
  unfolding accept flush
  drain [] s = flush (record s { buffer = [] })
  drain (r ∷ rest) s = drain rest (accept r (record s { buffer = rest }))

  -- The stopping case of `run`, with no call of `Log` beside it.
  pub stop : UsageLogger A → UsageLogger A
  unfolding flush drain
  stop s = drain s.buffer (flush s)

-- What happens to a running logger, one after the other.
pub data Event (A : Type 0) : Type 0 where
  logged : A → Event A
  received : Event A
  ticked : Event A

module _ {A : Type 0} where
  pub step : Event A → UsageLogger A → UsageLogger A
  unfolding log receive flush
  step (logged r) s = log r s
  step received s = receive s
  step ticked s = flush s

  pub run : List (Event A) → UsageLogger A → UsageLogger A
  unfolding step
  run [] s = s
  run (e ∷ es) s = run es (step e s)
