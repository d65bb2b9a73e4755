-- ===== src/Proxy/Errors.antt =====
-- `writeJSONError` of internal/proxy/response.go: the body of an error. The message is not escaped.
use ollama_gateway.Common.{ℕ, Text, codes, ◌∷◌, ◌++◌, []}

abbrev quote : ℕ
quote = 34

-- `{"error":"` + message + `"}`
unfoldable pub error_body : Text → Text
error_body message = codes "{\"error\":\"" ++ message ++ quote ∷ b'}' ∷ []
