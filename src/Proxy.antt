-- ===== src/Proxy.antt =====
-- internal/proxy: from an admitted request to the answer of a backend and the usage record.
-- This file has the data that the child modules share.
pub mod Capture
pub mod Outgoing
pub mod Errors
pub mod Handler
pub mod Serve
use ollama_gateway.Common.{Text, Option, none, some}
use ollama_gateway.Common.Int.{ℤ}
use ollama_gateway.Common.Table.{Table, lookup}

-- What Go decodes a JSON value to: a number, here by the `int` that Go converts it to, or another
-- value.
pub data JsonValue : Type 0 where
  number : ℤ → JsonValue
  other : JsonValue

-- `json.Unmarshal` into a map; `none` is its error.
abbrev pub ObjectParser : Type 0
ObjectParser = Text → Option (Table JsonValue)

abbrev as_int : Option JsonValue → Option ℤ
as_int none = none
as_int (some (number n)) = some n
as_int (some other) = none

-- `int(obj[key].(float64))`; `none` where the type assertion fails.
unfoldable pub int_field : Text → Table JsonValue → Option ℤ
int_field key obj = as_int (lookup key obj)

-- `UsageStats`
pub record UsageStats : Type 0 where
  pub prompt_tokens : ℤ
  pub eval_tokens : ℤ
