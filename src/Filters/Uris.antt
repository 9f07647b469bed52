-- ===== src/Filters/Uris.antt =====
-- The URI half of filters.rs: redirects and rewrites, and the data that configures them.
use agentproxy.Prelude.{
  ℕ, zero, suc, ◌+◌, ◌/◌, ◌%◌, Bool, true, false, ◌&&◌, Option, none, some, [], ◌∷◌, ◌++◌, length,
  drop, if◌then◌else◌, nat_beq, ltb, Str, codes, is_empty, starts_with, or_else, is_some, not,
}
use agentproxy.Prelude.Utf8.{is_char_boundary}
use agentproxy.Prelude.Outcome.{Outcome, ok, err, panic, ◌>>=◌, ok_or}

pub data Error : Type 0 where
  invalid_uri invalid_http_uri invalid_header_name invalid_header_value : Error
  invalid_filter_configuration http_error : Error

pub data Scheme : Type 0 where
  http https : Scheme
  other_scheme : Str → Scheme

-- The URIs of the `http` crate: their parts, the parsers of the parts, and the builder, which
-- answers `none` where it returns an error. `header_value` parses a header's value.
pub record UriLib : Type 1 where
  pub Uri : Type 0
  pub Authority : Type 0
  pub PathAndQuery : Type 0
  pub scheme : Uri → Option Scheme
  pub authority : Uri → Option Authority
  pub host : Uri → Option Str
  pub port_u16 : Uri → Option ℕ
  pub path : Uri → Str
  pub query : Uri → Option Str
  pub path_and_query : Uri → Option PathAndQuery
  pub parse_authority : Str → Option Authority
  pub parse_path_and_query : Str → Option PathAndQuery
  pub build : Scheme → Authority → PathAndQuery → Option Uri
  pub to_string : Uri → Str
  pub header_value : Str → Option Str

-- `HostRedirect` and `PathRedirect` of crates/agentgateway/src/types/agent.rs.
pub data HostRedirect : Type 0 where
  full : Str → HostRedirect
  host : Str → HostRedirect
  port : ℕ → HostRedirect

pub data PathRedirect : Type 0 where
  full : Str → PathRedirect
  prefix : Str → PathRedirect

-- `PathMatch` of agent.rs; a regular expression is kept as its text, with the length that it sorts by.
pub data PathMatch : Type 0 where
  exact : Str → PathMatch
  path_prefix : Str → PathMatch
  regex : Str → ℕ → PathMatch

-- `Display` of an unsigned number, in at most `fuel` digits.
decimal : (fuel : ℕ) → ℕ → Str
decimal zero n = []
decimal (suc fuel) n =
    let front = decimal fuel (n / 10) in
    if ltb n 10 then (b'0' + n) ∷ [] else front ++ (b'0' + n % 10) ∷ []

-- A `u16` has five digits at most.
unfoldable pub show_u16 : ℕ → Str
unfolding decimal
show_u16 n = decimal 5 n

-- A `u64` has twenty digits at most.
unfoldable pub show_u64 : ℕ → Str
unfolding decimal
show_u64 n = decimal 20 n

unfoldable pub port_respecting_default : Scheme → ℕ → Option ℕ
port_respecting_default http p = if nat_beq p 80 then none else some p
port_respecting_default https p = if nat_beq p 443 then none else some p
port_respecting_default (other_scheme s) p = some p

abbrev pub is_http_or_https : Option Scheme → Bool
is_http_or_https (some http) = true
is_http_or_https (some https) = true
is_http_or_https _ = false

abbrev pub port_is : Option ℕ → ℕ → Bool
port_is none p = false
port_is (some q) p = nat_beq p q

-- `{host}:{port}`.
abbrev pub with_port : Str → ℕ → Str
with_port h p = h ++ (b':' ∷ show_u16 p)

-- The new path with the original query.
abbrev pub with_query : Str → Option Str → Str
with_query p none = p
with_query p (some q) = p ++ (b'?' ∷ q)

abbrev pub slash : Str
slash = codes "/"

-- `split_at` panics where the path is shorter than the prefix, and inside a character of the path.
unfoldable pub prefix_path : (replacement match_pfx path : Str) → Outcome Error Str
unfolding starts_with is_char_boundary
prefix_path r match_pfx p =
    let rest = drop (length match_pfx) p in
    if not (is_char_boundary p (length match_pfx))
    then panic
    else if not (is_empty rest) && not (starts_with slash rest)
    then ok (r ++ (slash ++ rest))
    else ok (r ++ rest)

module _ (lib : UriLib) where
  open lib use {
    Uri, Authority, PathAndQuery, scheme, authority, host as host_of, port_u16, path, query,
    path_and_query, parse_authority, parse_path_and_query, build, to_string, header_value,
  }

  rewrite_to_host :
      Str
      → Uri
      → (original_scheme : Option Scheme) → (new_scheme : Scheme) → Outcome Error Authority
  rewrite_to_host h orig original_scheme new_scheme =
      if is_http_or_https original_scheme
      then ok_or (parse_authority h) invalid_http_uri
      else elim (port_u16 orig) [
        | none ↦ ok_or (parse_authority h) invalid_http_uri
        | some q ↦ elim (port_respecting_default new_scheme q) [
          | some p ↦ ok_or (parse_authority (with_port h p)) invalid_http_uri
          | none ↦ ok_or (parse_authority h) invalid_http_uri
        ]
      ]

  rewrite_to_port : ℕ → Uri → (new_scheme : Scheme) → Outcome Error Authority
  rewrite_to_port p orig new_scheme = elim (port_respecting_default new_scheme p) [
    | some q ↦ if port_is (port_u16 orig) q then ok_or (authority orig) invalid_uri else (do
      h ← ok_or (host_of orig) invalid_uri
      ok_or (parse_authority (with_port h q)) invalid_http_uri)
    | none ↦
        if is_some (port_u16 orig)
        then (do h ← ok_or (host_of orig) invalid_uri; ok_or (parse_authority h) invalid_http_uri)
        else ok_or (authority orig) invalid_uri
  ]

  unfoldable pub rewrite_host :
      Option HostRedirect
      → Uri
      → (original_scheme : Option Scheme) → (new_scheme : Scheme) → Outcome Error Authority
  unfolding rewrite_to_host rewrite_to_port port_respecting_default
  rewrite_host none orig original_scheme new_scheme = ok_or (authority orig) invalid_uri
  rewrite_host (some (HostRedirect.full hp)) orig original_scheme new_scheme =
      ok_or (parse_authority hp) invalid_http_uri
  rewrite_host (some (HostRedirect.host h)) orig original_scheme new_scheme =
      rewrite_to_host h orig original_scheme new_scheme
  rewrite_host (some (HostRedirect.port p)) orig original_scheme new_scheme =
      rewrite_to_port p orig new_scheme

  unfoldable pub rewrite_path : Option PathRedirect → PathMatch → Uri → Outcome Error PathAndQuery
  unfolding prefix_path
  rewrite_path none path_match orig = ok_or (path_and_query orig) invalid_uri
  rewrite_path (some (PathRedirect.full r)) path_match orig =
      ok_or (parse_path_and_query (with_query r (query orig))) invalid_http_uri
  rewrite_path (some (PathRedirect.prefix r)) (path_prefix match_pfx) orig = do
    new_path ← prefix_path r match_pfx (path orig)
    ok_or (parse_path_and_query (with_query new_path (query orig))) invalid_http_uri
  rewrite_path (some (PathRedirect.prefix r)) _ orig = err invalid_filter_configuration

-- `RequestRedirect`; the status is 302 where none is set.
pub record RequestRedirect : Type 0 where
  pub scheme : Option Scheme
  pub authority : Option HostRedirect
  pub path : Option PathRedirect
  pub status : Option ℕ

-- The redirect's response has a status, one header `location` and an empty body.
pub record RedirectResponse : Type 0 where
  pub status : ℕ
  pub location : Str

pub record UrlRewrite : Type 0 where
  pub authority : Option HostRedirect
  pub path : Option PathRedirect

abbrev pub found_status : ℕ
found_status = 302

abbrev pub unwrap_or {ℓ} : {A : Type ℓ} → Option A → A → A
unwrap_or none d = d
unwrap_or (some a) d = a

module _ (lib : UriLib) where
  unfoldable pub redirect : RequestRedirect → lib.Uri → PathMatch → Outcome Error RedirectResponse
  unfolding rewrite_host rewrite_path
  redirect r uri path_match =
      let new_scheme = unwrap_or (or_else r.scheme (lib.scheme uri)) http in
      do
        authority ← rewrite_host lib r.authority uri r.scheme new_scheme
        path_and_query ← rewrite_path lib r.path path_match uri
        new ← ok_or (lib.build new_scheme authority path_and_query) http_error
        location ← ok_or (lib.header_value (lib.to_string new)) http_error
        ok (record { status = unwrap_or r.status found_status; location = location })

  -- The part of a request that `UrlRewrite::apply` changes: its URI and the `OriginalUrl` extension.
  pub record UrlState : Type 0 where
    pub uri : lib.Uri
    pub original_url : Option lib.Uri

  unfoldable pub rewrite_url :
      UrlRewrite → UrlState → PathMatch → UrlState × Outcome Error (Unit {0})
  unfolding rewrite_host rewrite_path
  rewrite_url r s path_match =
      let saved : UrlState = record s { original_url = some s.uri } in
      let new_scheme = unwrap_or (lib.scheme s.uri) http in
      let new : Outcome Error lib.Uri = do
        authority ← rewrite_host lib r.authority s.uri (some new_scheme) new_scheme
        path_and_query ← rewrite_path lib r.path path_match s.uri
        ok_or (lib.build new_scheme authority path_and_query) invalid_filter_configuration
      in elim new [
        | ok uri ↦ (record saved { uri = uri }, ok tt)
        | err e ↦ (saved, err e)
        | panic ↦ (saved, panic)
      ]
