-- ===== src/Listener/Tests.antt =====
-- The choice of a listener at a concrete set.
use agentproxy.Prelude.{◌≡◌, refl, ◌⊎◌, true, none, some, [], ◌∷◌, is_empty, In, Str, codes}
use agentproxy.Prelude.Map.{values}
use agentproxy.RouteSet
use agentproxy.TcpRouteSet
use agentproxy.Listener.{Listener, ListenerProtocol, ListenerSet, best_match, is_suffix_of}
use agentproxy.Listener.BestMatch.{exactly, NoneOf, NotLonger, best_match_cases}

abbrev of_hostname : Str → Listener
of_hostname h = record {
  key = h;
  name = h;
  gateway_name = codes "g";
  hostname = h;
  protocol = ListenerProtocol.http;
  routes = RouteSet.empty;
  tcp_routes = TcpRouteSet.empty;
}

abbrev listeners : ListenerSet
listeners =
    (codes "1", of_hostname (codes "*.com"))
    ∷ (codes "2", of_hostname (codes "*.example.com"))
    ∷ (codes "3", of_hostname [])
    ∷ []

best_match_test :
    best_match listeners (codes "a.example.com") ≡ some (of_hostname (codes "*.example.com"))
unfolding best_match
best_match_test = refl

best_match_cases_example :
    ((l : Listener) × (best_match listeners (codes "a.com") ≡ some l)
      × In l (values listeners)
      × (exactly (codes "a.com") l ≡ true))
    ⊎ ((l : Listener) × (best_match listeners (codes "a.com") ≡ some l)
        × In l (values listeners)
        × NoneOf (exactly (codes "a.com")) listeners
        × (is_suffix_of (codes "a.com") l ≡ true)
        × ((m : Listener)
            → In m (values listeners)
            → is_suffix_of (codes "a.com") m ≡ true
            → NotLonger l m))
    ⊎ ((l : Listener) × (best_match listeners (codes "a.com") ≡ some l)
        × In l (values listeners)
        × NoneOf (exactly (codes "a.com")) listeners
        × NoneOf (is_suffix_of (codes "a.com")) listeners
        × (is_empty l.hostname ≡ true))
    ⊎ ((best_match listeners (codes "a.com") ≡ none)
        × NoneOf (exactly (codes "a.com")) listeners
        × NoneOf (is_suffix_of (codes "a.com")) listeners
        × NoneOf (λ l. is_empty l.hostname) listeners)
best_match_cases_example = best_match_cases listeners (codes "a.com")
