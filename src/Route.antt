-- ===== src/Route.antt =====
-- crates/agentgateway/src/types/agent.rs: routes, what they match on and where they lead, and the
-- policies of crates/agentgateway/src/http/timeout.rs and http/retry/mod.rs that a route carries.
-- Durations are in nanoseconds; the percentage of a mirror is kept as the bits of its `f64`.
use agentproxy.Prelude.{
  ℕ, min, Option, none, some, List, [], ◌∷◌, map, length, is_empty, Str, if◌then◌else◌,
}
use agentproxy.Filters.Uris.{PathMatch, path_prefix, RequestRedirect, UrlRewrite}
use agentproxy.Filters.Headers.{HeaderModifier}
use agentproxy.Cors.{Cors}
use agentproxy.Hostname.{HostnameMatch, any_host, from_hostname}

-- A regular expression is kept as its text.
pub data HeaderValueMatch : Type 0 where
  exact : Str → HeaderValueMatch
  regex : Str → HeaderValueMatch

pub data QueryValueMatch : Type 0 where
  exact : Str → QueryValueMatch
  regex : Str → QueryValueMatch

pub record HeaderMatch : Type 0 where
  pub name : Str
  pub value : HeaderValueMatch

pub record QueryMatch : Type 0 where
  pub name : Str
  pub value : QueryValueMatch

pub record RouteMatch : Type 0 where
  pub headers : List HeaderMatch
  pub path : PathMatch
  pub method : Option Str
  pub query : List QueryMatch

pub record NamespacedHostname : Type 0 where
  pub namespace : Str
  pub hostname : Str

pub data BackendReference : Type 0 where
  service : NamespacedHostname → (port : ℕ) → BackendReference
  backend : Str → BackendReference
  invalid : BackendReference

pub record DirectResponse : Type 0 where
  pub body : Str
  pub status : ℕ

pub record RequestMirror : Type 0 where
  pub backend : BackendReference
  pub percentage : ℕ

pub data RouteFilter : Type 0 where
  request_header_modifier response_header_modifier : HeaderModifier → RouteFilter
  request_redirect : RequestRedirect → RouteFilter
  url_rewrite : UrlRewrite → RouteFilter
  request_mirror : RequestMirror → RouteFilter
  direct_response : DirectResponse → RouteFilter
  cors : Cors → RouteFilter

pub record RouteBackendReference : Type 0 where
  pub weight : ℕ
  pub backend : BackendReference
  pub filters : List RouteFilter

pub record TimeoutPolicy : Type 0 where
  pub request_timeout : Option ℕ
  pub backend_request_timeout : Option ℕ

-- `Policy::effective_timeout`.
unfoldable pub effective_timeout : TimeoutPolicy → Option ℕ
effective_timeout p = elim p.request_timeout [
  | some r ↦ elim p.backend_request_timeout [ some b ↦ some (min r b) | none ↦ some r ]
  | none ↦ elim p.backend_request_timeout [ some b ↦ some b | none ↦ none ]
]

pub record RetryPolicy : Type 0 where
  pub attempts : ℕ
  pub backoff : Option ℕ
  pub codes : List ℕ

pub record TrafficPolicy : Type 0 where
  pub timeout : TimeoutPolicy
  pub retry : Option RetryPolicy

pub record Route : Type 0 where
  pub key : Str
  pub route_name : Str
  pub rule_name : Option Str
  pub hostnames : List Str
  pub matches : List RouteMatch
  pub filters : List RouteFilter
  pub backends : List RouteBackendReference
  pub policies : Option TrafficPolicy

-- `RouteSet::hostname_matchers`.
unfoldable pub hostname_matchers : Route → List HostnameMatch
unfolding from_hostname
hostname_matchers r = if is_empty r.hostnames then any_host ∷ [] else map from_hostname r.hostnames

unfoldable pub get_path_rank : PathMatch → ℕ
get_path_rank (PathMatch.exact p) = 3
get_path_rank (path_prefix p) = 2
get_path_rank (PathMatch.regex p n) = 2

unfoldable pub get_path_length : PathMatch → ℕ
get_path_length (PathMatch.exact p) = length p
get_path_length (path_prefix p) = length p
get_path_length (PathMatch.regex p n) = n
