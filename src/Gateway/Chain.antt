-- ===== src/Gateway/Chain.antt =====
-- What has been checked of a request that the gateway of cmd/gateway/main.go sends to a backend.
use ollama_gateway.Common.{ℕ, ◌≡◌, Text, codes, some, Bool, true, Bool-cases, inl, inr}
use ollama_gateway.Ratelimit.{allow, handler}
use ollama_gateway.Auth.{Authenticated, missing_api_key, invalid_api_key, admitted, credential}
use ollama_gateway.Auth.Database.{middleware}
use ollama_gateway.Auth.Checks.{Justified, middleware-Justified}
use ollama_gateway.Proxy.Outgoing.{Request, get_header}
use ollama_gateway.Proxy.Handler.{Services, Clock}
use ollama_gateway.Proxy.Serve.Routes.{Authorized, serve-Authorized}
use ollama_gateway.Gateway.{Site, user_limits, with_users, limit, admit, handle}

-- The credential of the request.
abbrev pub own_credential : Request → Text
own_credential r =
    credential (get_header (codes "X-Api-Key") r.header)
      (get_header (codes "Authorization") r.header)

-- The rate limiter's answer for a user.
abbrev pub is_let_through : ℕ → Text → Site → Bool
is_let_through now key site =
    (allow site.limits (some (user_limits site.json site.users)) now key site.limiter).0.0

abbrev pub Admitted : Services → ℕ → Request → Site → ℕ → Request → Type 0
Admitted s now r site p out =
    (key : Text) × Justified site.digest site.users (own_credential r) (admitted key)
    × (is_let_through now key site ≡ true)
    × Authorized s (some key) r (with_users site.json site.users site.proxy) p out

admit-Admitted :
    (s : Services) (t : Clock) (now : ℕ) (r : Request) (site : Site) (p : ℕ) (out : Request)
    (a : Authenticated)
    → Justified site.digest site.users (own_credential r) a
    → (admit s t now r site a).sent ≡ some (p, out)
    → Admitted s now r site p out
unfolding admit limit handler
admit-Admitted s t now r site p out missing_api_key j e = cc
admit-Admitted s t now r site p out invalid_api_key j e = cc
admit-Admitted s t now r site p out (admitted key) j e =
    elim (Bool-cases (is_let_through now key site)) [
      | inl f ↦ (
        key,
        j,
        f,
        serve-Authorized s t (some key) r (with_users site.json site.users site.proxy) p out
            (rw (f, handler) at e),
      )
      | inr f ↦ cc (rw (f, handler) at e)
    ]

-- A request reaches a backend only with a credential whose hash is that of the row of a user who is not
-- deactivated or, where no such row has it, that the hash of a user of the configuration verifies;
-- after the rate limiter has let a request of that user through; and as the routing allows it to that
-- user.
pub handle-Admitted :
    (s : Services) (t : Clock) (now : ℕ) (r : Request) (site : Site) (p : ℕ) (out : Request)
    → (handle s t now r site).sent ≡ some (p, out)
    → Admitted s now r site p out
unfolding handle
handle-Admitted s t now r site p out =
    admit-Admitted s t now r site p out
      (middleware site.digest site.users (get_header (codes "X-Api-Key") r.header)
        (get_header (codes "Authorization") r.header))
      (middleware-Justified site.digest site.users (get_header (codes "X-Api-Key") r.header)
        (get_header (codes "Authorization") r.header))
