-- ===== src/Tests/Credentials.antt =====
-- The theorems on authentication (internal/auth) at two users.
use ollama_gateway.Common.{◌≡◌, refl, Text, codes, trim_space, Option, none, some, List, [], ◌∷◌}
use ollama_gateway.Config.{UserConfig}
use ollama_gateway.Auth.{Digest, credential}
use ollama_gateway.Auth.Database.{JsonText, UserStore, user_row, middleware}
use ollama_gateway.Auth.Checks.{Justified, middleware-Justified}

-- A digest for the example: the text itself.
abbrev pub digest : Digest
digest = record { hash = λ t. t; decode = λ t. some t }

-- The columns of lists and maps are empty.
abbrev pub no_lists : JsonText
no_lists = record {
  marshal_list = λ xs. [];
  unmarshal_list = λ t. [];
  marshal_map = λ m. [];
  unmarshal_map = λ t. [];
}

abbrev user_of : Text → UserConfig
user_of hash = record {
  api_key_hash = hash;
  rate_limit = none;
  model_allow = [];
  model_deny = [];
  aliases = [];
}

-- One user in the table, and one that only the configuration has.
abbrev pub users : UserStore
users = record {
  rows = (codes "ann", user_row no_lists none (user_of (codes "k1"))) ∷ [];
  config_users = (codes "bob", user_of (codes "k2")) ∷ [];
}

bearer : credential [] (codes " bearer   k1 ") ≡ codes "k1"
unfolding credential ollama_gateway.Common.◌==◌ trim_space ollama_gateway.Common.to_lower
bearer = refl

middleware-Justified_example :
    Justified digest users
      (credential [] (codes "Bearer k1"))
      (middleware digest users [] (codes "Bearer k1"))
middleware-Justified_example = middleware-Justified digest users [] (codes "Bearer k1")
