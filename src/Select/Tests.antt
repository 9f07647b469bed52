-- ===== src/Select/Tests.antt =====
-- The choice of a route at a concrete request.
use agentproxy.Prelude.{
  ◌≡◌, refl, ◌↔◌, true, none, some, List, [], ◌∷◌, ◌++◌, if◌then◌else◌, Str, str_eq, ◌==◌, codes,
  trim_end_matches,
}
use agentproxy.Prelude.Outcome.{panic}
use agentproxy.Filters.Uris.{UriLib, http, PathRedirect, path_prefix, rewrite_path, slash}
use agentproxy.Filters.Headers.{HeaderLib}
use agentproxy.Hostname.{all_matches}
use agentproxy.RouteSet.Tests.{one_route, one_route-IsValid}
use agentproxy.TcpRouteSet
use agentproxy.Listener.{Listener, ListenerProtocol}
use agentproxy.Select.{
  MatchLib, RouteRequest, matches_request, select_best_route, prefix_matches, get_host, strip_port,
}
use agentproxy.Select.Best.{Chooses, select_best_route-Chooses}
use agentproxy.Select.Prefix.{prefix_matches_iff, IsSegments, trailing_slash_panics}

-- A header map as the function from a name to its values.
abbrev small_headers : HeaderLib
small_headers = record {
  Headers = Str → List Str;
  header_name = some;
  header_value = some;
  empty = λ n. [];
  get_all = λ h n. h n;
  append = λ h k v n. if k == n then h n ++ v ∷ [] else h n;
  insert = λ h k v n. if k == n then v ∷ [] else h n;
  remove = λ h k n. if k == n then [] else h n;
  get_all-empty = λ n. refl;
  get_all-append = λ h k v n. refl;
  get_all-insert = λ h k v n. refl;
  get_all-remove = λ h k n. refl;
}

-- No expression matches, and no query has pairs.
abbrev small_texts : MatchLib
small_texts = record { regex_find = λ e t. none; to_str = some; parse_query = λ q. [] }

abbrev request : RouteRequest small_headers small_texts
request = record {
  method = codes "GET";
  host = some (codes "a.com");
  path = codes "/a/b";
  query = none;
  headers = λ n. [];
}

abbrev listener : Listener
listener = record {
  key = codes "l";
  name = codes "l";
  gateway_name = codes "g";
  hostname = [];
  protocol = ListenerProtocol.http;
  routes = one_route;
  tcp_routes = TcpRouteSet.empty;
}

strip_port_test : strip_port (codes "[::1]:80") ≡ some (codes "[::1]")
unfolding strip_port
strip_port_test = refl

select_best_route-Chooses_example :
    Chooses one_route
      (matches_request small_headers small_texts request)
      (all_matches (codes "a.com"))
      (select_best_route small_headers small_texts []
        (codes "n")
        none
        (codes "ip")
        80
        listener
        request)
unfolding get_host
select_best_route-Chooses_example =
    select_best_route-Chooses small_headers small_texts [] (codes "n") none (codes "ip") 80 listener
      request (codes "a.com") one_route-IsValid refl refl

prefix_matches_iff_example : (prefix_matches (codes "/a/") (codes "/a/b") ≡ true) ↔ (
    (rest : Str) × (trim_end_matches b'/' (codes "/a/b")
      ≡ trim_end_matches b'/' (codes "/a/") ++ rest)
    × IsSegments rest)
prefix_matches_iff_example = prefix_matches_iff (codes "/a/") (codes "/a/b")

-- URIs that are just a path.
abbrev paths : UriLib
paths = record {
  Uri = Str;
  Authority = Str;
  PathAndQuery = Str;
  scheme = λ u. some http;
  authority = λ u. none;
  host = λ u. none;
  port_u16 = λ u. none;
  path = λ u. u;
  query = λ u. none;
  path_and_query = some;
  parse_authority = some;
  parse_path_and_query = some;
  build = λ s a p. some p;
  to_string = λ u. u;
  header_value = some;
}

trailing_slash_panics_example :
    (prefix_matches (codes "/foo" ++ slash) (codes "/foo") ≡ true)
    × (rewrite_path paths
          (some (PathRedirect.prefix (codes "/new")))
          (path_prefix (codes "/foo" ++ slash))
          (codes "/foo")
        ≡ panic)
trailing_slash_panics_example = trailing_slash_panics paths (codes "/new") (codes "/foo")
