-- ===== src/Tests/Accounts.antt =====
-- The theorems on the users in a database (internal/auth/store.go) at a table of one user.
use ollama_gateway.Common.{
  ℕ, ◌+◌, ◌-◌, ◌*◌, ◌≡◌, ◌≢◌, refl, ap, ◌∙◌, Text, codes, trim_space, eqb, ◌==◌, some, List, [],
  ◌∷◌, true, arith, if◌then◌else◌,
}
use ollama_gateway.Common.Int.{pos}
use ollama_gateway.Common.Table.{Table, lookup, insert}
use ollama_gateway.Ratelimit.{second}
use ollama_gateway.Config.{UserConfig}
use ollama_gateway.Auth.{lookup_api_key, verify_hash}
use ollama_gateway.Auth.Database.{
  JsonText, UserStore, stored, get_user_config, lookup_stored_key, create_stored_user,
  deactivate_stored_user, user_row, rate_arg,
}
use ollama_gateway.Auth.Database.Accounts.{
  IsFaithful, create_stored_user-get_user_config, deactivate_stored_user-lookup_stored_key,
}
use ollama_gateway.Tests.Credentials.{digest}

-- A list of texts for the example: each letter one higher, and a zero after each text.
abbrev put_text : Text → Text → Text
put_text [] after = 0 ∷ after
put_text (c ∷ t) after = (c + 1) ∷ put_text t after

abbrev put_texts : List Text → Text
put_texts [] = []
put_texts (t ∷ ts) = put_text t (put_texts ts)

abbrev add_letter : ℕ → List Text → List Text
add_letter c [] = []
add_letter c (t ∷ ts) = (c ∷ t) ∷ ts

abbrev get_texts : Text → List Text
get_texts [] = []
get_texts (n ∷ t) = if eqb n 0 then [] ∷ get_texts t else add_letter (n - 1) (get_texts t)

abbrev flat : Table Text → List Text
flat [] = []
flat ((k, v) ∷ m) = k ∷ v ∷ flat m

abbrev pairs : List Text → Table Text
pairs [] = []
pairs (k ∷ []) = []
pairs (k ∷ v ∷ ts) = (k, v) ∷ pairs ts

abbrev json : JsonText
json = record {
  marshal_list = λ ts. 0 ∷ put_texts ts;
  unmarshal_list = λ t. elim t [ [] ↦ [] | n ∷ rest ↦ get_texts rest ];
  marshal_map = λ m. 0 ∷ put_texts (flat m);
  unmarshal_map = λ t. elim t [ [] ↦ [] | n ∷ rest ↦ pairs (get_texts rest) ];
}

get_texts-put_text : (t after : Text) → get_texts (put_text t after) ≡ (t ∷ get_texts after)
get_texts-put_text [] after = refl
get_texts-put_text (c ∷ t) after = rw (get_texts-put_text t after) (ground arith)

get_texts-put_texts : (ts : List Text) → get_texts (put_texts ts) ≡ ts
get_texts-put_texts [] = refl
get_texts-put_texts (t ∷ ts) =
    get_texts-put_text t (put_texts ts) ∙ ap (λ r. t ∷ r) (get_texts-put_texts ts)

pairs-flat : (m : Table Text) → pairs (flat m) ≡ m
pairs-flat [] = refl
pairs-flat ((k, v) ∷ m) = ap (λ r. (k, v) ∷ r) (pairs-flat m)

json-IsFaithful : IsFaithful json
unfolding ◌==◌
json-IsFaithful = record {
  list_back = get_texts-put_texts;
  list_text = λ ts. refl;
  map_back = λ m. ap pairs (get_texts-put_texts (flat m)) ∙ pairs-flat m;
  map_text = λ m. refl;
}

abbrev guest : UserConfig
guest = record {
  api_key_hash = codes "k2";
  rate_limit = some (record { rate = pos 5; burst = pos 2; ttl = pos (3 * second) });
  model_allow = codes "llama" ∷ [];
  model_deny = [];
  aliases = (codes "fast", codes "llama") ∷ [];
}

abbrev empty_store : UserStore
empty_store = record { rows = []; config_users = [] }

abbrev one_user : UserStore
one_user = record {
  rows = (codes "bob", user_row json (rate_arg guest.rate_limit) guest) ∷ [];
  config_users = [];
}

create_stored_user-get_user_config_example :
    get_user_config json (codes "bob") one_user ≡ some guest
unfolding user_row create_stored_user trim_space insert lookup ◌==◌
create_stored_user-get_user_config_example =
    (create_stored_user-get_user_config json (codes " bob") guest empty_store one_user
      json-IsFaithful (refl, (3, omega arith, refl)) refl).0

abbrev gone_user : UserStore
gone_user = record {
  rows =
      (codes "bob", record (user_row json (rate_arg guest.rate_limit) guest) { disabled = true })
      ∷ [];
  config_users = [];
}

deactivate_stored_user-lookup_stored_key_example :
    lookup_stored_key digest (codes "k2") gone_user ≢ some (codes "bob")
unfolding user_row deactivate_stored_user trim_space insert lookup ◌==◌
deactivate_stored_user-lookup_stored_key_example =
    (deactivate_stored_user-lookup_stored_key digest json (codes "bob ") one_user gone_user
        (refl, tt) refl refl).0
      (codes "k2")

-- A user whom the configuration names too is deactivated in the table, and the key still passes.
abbrev named_user : UserStore
named_user = record one_user { config_users = (codes "bob", guest) ∷ [] }

named_still :
    (deactivate_stored_user (codes "bob") named_user
      ≡ stored (record gone_user { config_users = (codes "bob", guest) ∷ [] }))
    × (lookup_stored_key digest
          (codes "k2")
          (record gone_user { config_users = (codes "bob", guest) ∷ [] })
        ≡ some (codes "bob"))
unfolding user_row deactivate_stored_user trim_space insert lookup lookup_stored_key lookup_api_key
    ◌==◌ verify_hash
named_still = (refl, refl)
