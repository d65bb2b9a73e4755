-- ===== src/Proxy/Outgoing.antt =====
-- The request as internal/proxy/handler.go reads it and as it sends it to a backend, and the
-- settings of internal/proxy/transport.go. `net/url`, `net/http` and the network are parameters.
pub mod Laws
use ollama_gateway.Common.{
  has_prefix, ℕ, Text, codes, ◌==◌, trim_space, has_suffix, Option, none, some, List, [], ◌∷◌, ◌++◌,
  Bool, true, false, not, ◌&&◌, ◌||◌, eqb, is_empty, if◌then◌else◌,
}
use Prim.Native.String.{String}
use ollama_gateway.Common.Int.{ℤ, pos, is_nonpos}
use ollama_gateway.Common.Table.{Table, lookup, insert}
use ollama_gateway.Backends.{Backend, Url}
use ollama_gateway.Config.{seconds}

-- `header` has the first value under each canonical name, and `body` is `none` where reading it fails.
pub record Request : Type 0 where
  pub method : Text
  pub scheme : Text
  pub url_host : Text
  pub path : Text
  pub raw_query : Text
  pub host : Text
  pub remote_addr : Text
  pub header : Table Text
  pub body : Option Text

-- What the code uses of Go: `json.Unmarshal` into a struct with the field `Model`, with `none` for
-- its error; the field `Stream` that it leaves in another struct, with `none` for nil; and
-- `url.Hostname`, `url.Port`, `Query().Encode()` and `CanonicalHeaderKey`.
pub record Library : Type 0 where
  pub model_of : Text → Option Text
  pub stream_of : Text → Option Bool
  pub hostname : Url → Text
  pub port : Url → Text
  pub encode_query : Text → Text
  pub canonical : Text → Text

abbrev is_method : String → Request → Bool
is_method m r = r.method == codes m

abbrev decode_model : Library → Option Text → Option Text
decode_model l none = none
decode_model l (some body) = if is_empty body then some [] else l.model_of body

-- `extractModelFromRequest`; `none` is its error.
unfoldable pub extract_model : Library → Request → Option Text
extract_model l r =
    if is_method "GET" r || is_method "HEAD" r then some [] else decode_model l r.body

abbrev decode_stream : Library → Option Text → Bool
decode_stream l none = false
decode_stream l (some body) = elim (l.stream_of body) [ none ↦ false | some stream ↦ stream ]

unfoldable pub path_has : String → Request → Bool
unfolding has_prefix
path_has prefix r = has_prefix (codes prefix) r.path

-- `isStreamingGenerate`
unfoldable pub is_streaming_generate : Library → Request → Bool
is_streaming_generate l r =
    if not (is_method "POST" r) || not (path_has "/api/generate" r)
    then false
    else decode_stream l r.body

-- The paths whose answers have token counts.
unfoldable pub is_counted : Request → Bool
is_counted r = path_has "/api/generate" r || path_has "/api/chat" r

-- `strings.Split(s, sep)[0]`, for a separator of one byte
unfoldable pub before : ℕ → Text → Text
before sep [] = []
before sep (c ∷ s) = let rest = before sep s in if eqb c sep then [] else c ∷ rest

abbrev or_empty : Option Text → Text
or_empty none = []
or_empty (some t) = t

-- `Header.Get` of a canonical name
unfoldable pub get_header : Text → Table Text → Text
get_header name header = or_empty (lookup name header)

-- `getClientIP`
unfoldable pub client_ip : Request → Text
unfolding get_header before
client_ip r =
    let xff = get_header (codes "X-Forwarded-For") r.header in
    if not (xff == []) then trim_space (before b',' xff) else trim_space (before b':' r.remote_addr)

-- `applyHeaders`
unfoldable pub apply_headers : Library → Table Text → Table Text → Table Text
apply_headers l [] header = header
apply_headers l ((k, v) ∷ more) header = apply_headers l more (insert (l.canonical k) v header)

-- The three headers that `Director` sets; the first only if there is a client address.
unfoldable pub forwarded : Text → Text → Table Text → Table Text
forwarded ip host header =
    let h = if not (ip == []) then insert (codes "X-Forwarded-For") ip header else header in
    insert (codes "X-Forwarded-Proto") (codes "http") (insert (codes "X-Forwarded-Host") host h)

-- `Director` of `buildReverseProxy`
unfoldable pub direct : Library → Backend → Request → Request
unfolding forwarded apply_headers client_ip
direct l b r = record r {
  scheme = b.url.scheme;
  url_host = b.url.host;
  host = b.url.host;
  raw_query = if r.raw_query == [] then l.encode_query r.raw_query else r.raw_query;
  header = apply_headers l b.headers (forwarded (client_ip r) b.url.host r.header);
}

-- `net.JoinHostPort` takes the pair: the host, and the port or the default of the scheme.
unfoldable pub dial_target : Library → Backend → Text × Text
dial_target l b =
    let port = l.port b.url in
    (
      l.hostname b.url,
      if port == []
          then if b.url.scheme == codes "https" then codes "443" else codes "80"
          else port,
    )

-- `canReachBackend`, of a dialer that tells whether a connection can be made
unfoldable pub can_reach : Library → (Text × Text → Bool) → Backend → Bool
unfolding dial_target
can_reach l dial b = dial (dial_target l b)

-- The settings that `newTransport` gives Go's transport.
pub record Transport : Type 0 where
  pub dial_timeout : ℤ
  pub max_idle_conns : ℕ
  pub max_idle_conns_per_host : ℕ
  pub max_conns_per_host : ℕ
  pub idle_conn_timeout : ℤ
  pub tls_handshake_timeout : ℤ
  pub expect_continue_timeout : ℤ
  pub force_attempt_http2 : Bool

-- `newTransport`
unfoldable pub new_transport : Backend → Transport
new_transport b =
    let timeout = if is_nonpos b.timeout then seconds 60 else b.timeout in
    record {
      dial_timeout = timeout;
      max_idle_conns = 128;
      max_idle_conns_per_host = 32;
      max_conns_per_host = 64;
      idle_conn_timeout = seconds 90;
      tls_handshake_timeout = timeout;
      expect_continue_timeout = seconds 1;
      force_attempt_http2 = false;
    }

-- `joinURLPath`
unfoldable pub join_url_path : Text → Text → Text
join_url_path base path =
    let slash = codes "/" in
    let request = if path == [] then slash else path in
    if base == [] || base == slash
    then request
    else if request == slash
    then base
    else base ++ (if has_suffix slash base then drop_slash request else request)
  where
    drop_slash : Text → Text
    drop_slash [] = []
    drop_slash (c ∷ s) = if eqb c b'/' then s else c ∷ s
