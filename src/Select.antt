-- ===== src/Select.antt =====
-- crates/agentgateway/src/http/route.rs: which route a request gets, with `get_host` of http/mod.rs.
-- Regular expressions, the parser of query strings and `HeaderValue::to_str` come from libraries
-- (`MatchLib`). `none` is a panic.
pub mod Best
pub mod Prefix
mod Tests
use agentproxy.Prelude.{
  ℕ, ◌+◌, Bool, true, false, ◌&&◌, ◌||◌, Option, none, some, List, [], ◌∷◌, ◌++◌, length, all,
  head?, is_empty, if◌then◌else◌, nat_beq, Str, str_eq, Eq, ◌==◌, codes, strip_prefix, starts_with,
  trim_end_matches, split,
}
use agentproxy.Prelude.Map.{Map, get, insert}
use agentproxy.Prelude.Outcome.{Outcome, ok, err, panic}
use agentproxy.Filters.Uris.{PathMatch, path_prefix, slash}
use agentproxy.Filters.Headers.{HeaderLib}
use agentproxy.Cors.{first_value}
use agentproxy.Hostname.{HostnameMatch, all_matches}
use agentproxy.Route.{
  Route, RouteMatch, HeaderMatch, HeaderValueMatch, QueryMatch, QueryValueMatch, NamespacedHostname,
  BackendReference,
}
use agentproxy.RouteSet.{RouteSet, get_hostname, is_empty_set}
use agentproxy.Listener.{Listener, ListenerProtocol, hbone}

-- `regex_find` gives the start and the end of the first place where an expression matches.
pub record MatchLib : Type 0 where
  pub regex_find : (expression text : Str) → Option (ℕ × ℕ)
  pub to_str : (value : Str) → Option Str
  pub parse_query : Str → List (Str × Str)

pub data ProxyError : Type 0 where
  invalid_request : ProxyError

-- An IP address as its bytes.
pub record NetworkAddress : Type 0 where
  pub network : Str
  pub address : Str

unfoldable pub network_address_beq : NetworkAddress → NetworkAddress → Bool
network_address_beq a b = a.network == b.network && a.address == b.address

pub data Destination : Type 0 where
  address : NetworkAddress → Destination
  hostname : NamespacedHostname → Destination

pub record GatewayAddress : Type 0 where
  pub destination : Destination
  pub hbone_mtls_port : ℕ

-- The part of a `Service` that the choice of a route reads.
pub record Service : Type 0 where
  pub namespace : Str
  pub hostname : Str
  pub waypoint : Option GatewayAddress

-- `ServiceStore::get_by_vip`, on the entries of `by_vip`.
unfoldable pub get_by_vip : List (NetworkAddress × Service) → NetworkAddress → Option Service
unfolding network_address_beq
get_by_vip [] vip = none
get_by_vip ((a, s) ∷ rest) vip =
    let later = get_by_vip rest vip in if network_address_beq a vip then some s else later

abbrev last_part : List Str → Str
last_part [] = []
last_part (p ∷ []) = p
last_part (p ∷ q ∷ ps) = last_part (q ∷ ps)

-- `&host_port[0..i + 1]` for the first bracket's index `i`.
abbrev up_to_bracket : Str → Option Str
up_to_bracket [] = none
up_to_bracket (c ∷ s) =
    let rest = up_to_bracket s in
    if nat_beq c b']' then some (c ∷ []) else elim rest [ none ↦ none | some t ↦ some (c ∷ t) ]

-- An empty host panics at its first byte, and an open bracket without its end panics too.
unfoldable pub strip_port : Str → Option Str
unfolding split
strip_port auth =
    let host_port = last_part (split b'@' auth) in
    elim (head? host_port) [
      | none ↦ none
      | some c ↦ if nat_beq c b'[' then up_to_bracket host_port else head? (split b':' host_port)
    ]

-- `collect` of pairs into a `HashMap`: a later pair wins.
abbrev pub collect_map : List (Str × Str) → Map Str Str → Map Str Str
collect_map [] m = m
collect_map ((k, v) ∷ rest) m = collect_map rest (insert k v m)

unfoldable pub prefix_matches : (pfx path : Str) → Bool
unfolding strip_prefix starts_with trim_end_matches
prefix_matches pfx path =
    elim (strip_prefix (trim_end_matches b'/' pfx) (trim_end_matches b'/' path)) [
      | none ↦ false
      | some suffix ↦ is_empty suffix || starts_with slash suffix
    ]

module _ (lib : HeaderLib) (texts : MatchLib) where
  -- What a request's match reads: `host`, `path` and `query` are parts of its URI.
  pub record RouteRequest : Type 0 where
    pub method : Str
    pub host : Option Str
    pub path : Str
    pub query : Option Str
    pub headers : lib.Headers

  unfoldable pub get_host : RouteRequest → Outcome ProxyError Str
  unfolding strip_port
  get_host req = elim req.host [
    | none ↦ err invalid_request
    | some h ↦ elim (strip_port h) [ none ↦ panic | some s ↦ ok s ]
  ]

  -- The expression matches the text from its start to its end.
  pub regex_matches : (expression text : Str) → Bool
  regex_matches expression text = elim (texts.regex_find expression text) [
    | none ↦ false
    | some (a, b) ↦ nat_beq a 0 && nat_beq b (length text)
  ]

  pub path_matches : PathMatch → Str → Bool
  unfolding regex_matches prefix_matches
  path_matches (PathMatch.exact p) path = path == p
  path_matches (PathMatch.regex r n) path = regex_matches r path
  path_matches (path_prefix p) path = prefix_matches p path

  pub method_matches : Option Str → Str → Bool
  method_matches none have = true
  method_matches (some want) have = have == want

  pub header_matches : lib.Headers → HeaderMatch → Bool
  unfolding regex_matches
  header_matches headers h = elim (first_value lib headers h.name) [
    | none ↦ false
    | some have ↦ elim h.value [
      | HeaderValueMatch.exact want ↦ have == want
      | HeaderValueMatch.regex want ↦ elim (texts.to_str have) [
        | none ↦ false
        | some text ↦ regex_matches want text
      ]
    ]
  ]

  pub query_map : Option Str → Map Str Str
  unfolding insert
  query_map none = []
  query_map (some q) = collect_map (texts.parse_query q) []

  pub query_matches : Map Str Str → QueryMatch → Bool
  unfolding regex_matches get
  query_matches query q = elim (get q.name query) [
    | none ↦ false
    | some have ↦ elim q.value [
      | QueryValueMatch.exact want ↦ have == want
      | QueryValueMatch.regex want ↦ regex_matches want have
    ]
  ]

  -- The test of the closure that `find` gets.
  unfoldable pub matches_request : RouteRequest → Route × RouteMatch → Bool
  unfolding path_matches method_matches header_matches query_map query_matches
  matches_request req (r, m) =
      path_matches m.path req.path
      && method_matches m.method req.method
      && all (λ h. header_matches req.headers h) m.headers
      && all (λ q. query_matches (query_map req.query) q) m.query

-- `find` on the lazy iterator: it panics if it gets to an entry that does.
pub find_candidate :
    (Route × RouteMatch → Bool)
    → List (Option (Route × RouteMatch))
    → Option (Option (Route × RouteMatch))
find_candidate p [] = some none
find_candidate p (none ∷ rest) = none
find_candidate p (some c ∷ rest) =
    let later = find_candidate p rest in if p c then some (some c) else later

-- The loop over the hostname keys.
unfoldable pub route_for :
    (Route × RouteMatch → Bool)
    → RouteSet
    → List HostnameMatch
    → Option (Option (Route × PathMatch))
unfolding find_candidate get_hostname
route_for p routes [] = some none
route_for p routes (hm ∷ hms) =
    let rest = route_for p routes hms in
    elim (find_candidate p (get_hostname hm routes)) [
      | none ↦ none
      | some found ↦ elim found [ none ↦ rest | some (r, m) ↦ some (some (r, m.path)) ]
    ]

abbrev pub default_key : Str
default_key = codes "waypoint-default"

-- The route of a service that has this gateway as its waypoint.
pub waypoint_default : Service → (port : ℕ) → Route
waypoint_default svc port = record {
  key = default_key;
  route_name = default_key;
  rule_name = none;
  hostnames = [];
  matches = [];
  filters = [];
  policies = none;
  backends =
      record {
        weight = 1;
        backend =
            BackendReference.service (record { namespace = svc.namespace; hostname = svc.hostname })
              port;
        filters = [];
      }
      ∷ [];
}

pub waypoint_route :
    List (NetworkAddress × Service)
    → (network : Str) → (self_addr : Option Str) → (dst : Str) → (port : ℕ)
    → Option (Route × PathMatch)
unfolding get_by_vip waypoint_default
waypoint_route services network none dst port = none
waypoint_route services network (some self_addr) dst port =
    elim (get_by_vip services (record { network = network; address = dst })) [
      | none ↦ none
      | some svc ↦ elim svc.waypoint [
        | none ↦ none
        | some wp ↦ elim wp.destination [
          | address a ↦ none
          | hostname n ↦
              if n.hostname == self_addr
              then some (waypoint_default svc port, path_prefix slash)
              else none
        ]
      ]
    ]

abbrev pub is_waypoint : Listener → Bool
is_waypoint l = elim l.protocol [ hbone ↦ is_empty_set l.routes | _ ↦ false ]

module _ (lib : HeaderLib) (texts : MatchLib) where
  -- `select_best_route`; the outer `none` is a panic.
  unfoldable pub select_best_route :
      List (NetworkAddress × Service)
      → (network : Str) → (self_addr : Option Str) → (dst : Str) → (port : ℕ) → Listener
      → RouteRequest lib texts
      → Option (Option (Route × PathMatch))
  unfolding get_host waypoint_route route_for all_matches matches_request is_empty_set
  select_best_route services network self_addr dst port listener req =
      elim (get_host lib texts req) [
        | err e ↦ some none
        | panic ↦ none
        | ok host ↦
            if is_waypoint listener
            then some (waypoint_route services network self_addr dst port)
            else route_for (matches_request lib texts req) listener.routes (all_matches host)
      ]
