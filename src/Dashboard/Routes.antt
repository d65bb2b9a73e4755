-- ===== src/Dashboard/Routes.antt =====
-- `ServeHTTP`, `isAuthenticated` and `handleLogin` of internal/dashboard/handler.go: who is let through
-- to which page and action. The handler is mounted at /admin/ by itself (cmd/gateway/main.go).
use ollama_gateway.Common.{
  ◌≡◌, refl, ap, ◌∙◌, eq_iff, inl, inr, Text, codes, ◌==◌, has_prefix, trim_prefix, Option, none,
  some, [], Bool, true, false, not, ◌&&◌, ◌||◌, arith, Bool-cases, if◌then◌else◌,
}
use ollama_gateway.Auth.{Digest, credential, check_admin_token}

-- A request with what the handler reads of it: the two headers and the cookie `admin_session`.
pub record AdminRequest : Type 0 where
  pub method : Text
  pub path : Text
  pub admin_token : Text
  pub authorization : Text
  pub session : Option Text

-- What is called of the handler. The last two are its answers 403.
pub data Route : Type 0 where
  static_file : Text → Route
  login_submitted login_page : Route
  user_action model_action backend_action pull_started model_fragment : Route
  overview overview_partial models_page pull_status backends_page users_page : Route
  logs_page logs_partial backend_health theme_selected wrong_method : Route
  backend_toggled : Text → Route
  login_refused forbidden : Route

unfoldable pub session_passes : Digest → Text → Option Text → Bool
session_passes d token_hash none = false
session_passes d token_hash (some v) = not (v == []) && check_admin_token d token_hash v

-- `isAuthenticated`
unfoldable pub is_authenticated : Digest → Text → AdminRequest → Bool
unfolding session_passes
is_authenticated d token_hash r =
    let token = credential r.admin_token r.authorization in
    (not (token == []) && check_admin_token d token_hash token)
    || session_passes d token_hash r.session

-- The name of the page, without the prefix.
unfoldable pub page_of : Text → Text
page_of path =
    let p = trim_prefix (codes "/admin") path in
    let q = trim_prefix (codes "/") (if p == [] || p == codes "/" then codes "/overview" else p) in
    if q == [] then codes "overview" else q

-- The `switch` for a request that is authenticated.
unfoldable pub page_route : Bool → Text → Route
page_route is_post page =
    if page == codes "overview"
    then overview
    else if page == codes "overview/partial"
    then overview_partial
    else if page == codes "models"
    then models_page
    else if page == codes "models/backend-fragment"
    then model_fragment
    else if page == codes "pull-status"
    then pull_status
    else if page == codes "backends"
    then backends_page
    else if page == codes "users"
    then users_page
    else if page == codes "logs"
    then logs_page
    else if page == codes "logs/partial"
    then logs_partial
    else if page == codes "backends/health"
    then backend_health
    else if page == codes "theme"
    then (if is_post then theme_selected else wrong_method)
    else if has_prefix (codes "backends/toggle/") page
    then backend_toggled page
    else overview

-- The routes of a POST that come before the test of the credential. Two of their handlers test it
-- themselves: `handlePullModelStart` and `renderModelsBackendFragment`.
unfoldable pub post_route : Bool → Text → Option Route
post_route authenticated page =
    if page == codes "login"
    then some login_submitted
    else if page == codes "users"
    then some user_action
    else if page == codes "models"
    then some model_action
    else if page == codes "models/backend-fragment"
    then some (if authenticated then model_fragment else forbidden)
    else if page == codes "models/pull"
    then some (if authenticated then pull_started else login_refused)
    else if page == codes "backends"
    then some backend_action
    else none

abbrev pub is_post : Text → Bool
is_post method = method == codes "POST"

unfoldable pub guarded_route : Bool → Bool → Text → Route
unfolding page_route
guarded_route authenticated post page =
    if page == codes "login"
    then login_page
    else if not authenticated
    then login_refused
    else page_route post page

abbrev or_route : Option Route → Route → Route
or_route none r = r
or_route (some r) s = r

unfoldable pub route : Bool → Bool → Text → Route
unfolding post_route guarded_route
route authenticated post page =
    if has_prefix (codes "static/") page
    then static_file page
    else or_route (if post then post_route authenticated page else none)
        (guarded_route authenticated post page)

-- `ServeHTTP`
unfoldable pub serve_admin : Digest → Text → AdminRequest → Route
unfolding is_authenticated page_of route
serve_admin d token_hash r =
    route (is_authenticated d token_hash r) (is_post r.method) (page_of r.path)

-- Answers to which no credential is asked for by design: the static files and the login.
abbrev pub is_public : Route → Bool
is_public (static_file page) = true
is_public login_submitted = true
is_public login_page = true
is_public login_refused = true
is_public forbidden = true
is_public r = false

-- A POST to the pages of the users, the models or the backends.
abbrev pub is_unguarded : Text → Bool
is_unguarded page = page == codes "users" || page == codes "models" || page == codes "backends"

guarded_elsewhere :
    (page other : Text)
    → (page == other) ≡ true
    → is_unguarded other ≡ false
    → is_unguarded page ≡ false
guarded_elsewhere page other e h = ap is_unguarded ((eq_iff page other).0 e) ∙ h

guarded_login : (page : Text) → (page == codes "login") ≡ true → is_unguarded page ≡ false
unfolding ◌==◌
guarded_login page e = guarded_elsewhere page (codes "login") e refl

guarded_fragment :
    (page : Text) → (page == codes "models/backend-fragment") ≡ true → is_unguarded page ≡ false
unfolding ◌==◌
guarded_fragment page e = guarded_elsewhere page (codes "models/backend-fragment") e refl

guarded_pull : (page : Text) → (page == codes "models/pull") ≡ true → is_unguarded page ≡ false
unfolding ◌==◌
guarded_pull page e = guarded_elsewhere page (codes "models/pull") e refl

route-unauthenticated :
    (post : Bool) (page : Text)
    → is_public (route false post page)
      ≡ not (post && is_unguarded page && not (has_prefix (codes "static/") page))
unfolding route post_route guarded_route
route-unauthenticated true page = elim (Bool-cases (has_prefix (codes "static/") page)) [
  | inl h ↦ rw h (ground arith)
  | inr h ↦ rw h (ground (arith, guarded_login page, guarded_fragment page, guarded_pull page))
]
route-unauthenticated false page = ground arith

-- Without a credential that passes, a request other than a POST to the pages of the users, the models
-- or the backends gets a static file, the login or a refusal.
pub serve_admin-unauthenticated :
    (d : Digest) (token_hash : Text) (r : AdminRequest)
    → is_authenticated d token_hash r ≡ false
    → (is_post r.method && is_unguarded (page_of r.path)) ≡ false
    → is_public (serve_admin d token_hash r) ≡ true
unfolding serve_admin
serve_admin-unauthenticated d token_hash r h k =
    rw h (route-unauthenticated (is_post r.method) (page_of r.path) ∙ ground (arith, k))
