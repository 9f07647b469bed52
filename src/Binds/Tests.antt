-- ===== src/Binds/Tests.antt =====
-- The store of binds at concrete arrivals. A policy is a number here, and so is a backend.
use agentproxy.Prelude.{
  ◌&&◌, ◌==◌, if◌then◌else◌, ℕ, ◌≡◌, refl, Option, none, some, List, [], ◌∷◌, find_map, Str, str_eq,
  codes,
}
use agentproxy.Prelude.Map.{get, values}
use agentproxy.RouteSet.{RouteSet, empty, or_default}
use agentproxy.RouteSet.Tests.{two_matches, one_route, insert_test}
use agentproxy.TcpRouteSet
use agentproxy.Listener.{Listener, ListenerProtocol, get_listener}
use agentproxy.Binds.Targets.{gateway, route, route_rule}
use agentproxy.Binds.{
  Bind, Store, TargetedPolicy, insert_policy, insert_listener, insert_route, listener_home,
}
use agentproxy.Binds.Index.{IsIndexed}
use agentproxy.Binds.Changes.{
  PolicyChange, put, dropped, change_policies, change_policies-IsIndexed,
}
use agentproxy.Binds.Policies.{
  Payload, Policy, jwt_auth, as_jwt, as_ext_authz, as_remote_rate_limit, as_transformation,
  as_local_rate_limit, route_policies, route_rules,
}
use agentproxy.Binds.Precedence.{Chosen, route_policies-Chosen}
use agentproxy.RateLimit.{RateLimit}
use agentproxy.Prelude.Map.{insert, add}
use agentproxy.Binds.Staged.{staged_listener, staged_listener_replaced, staged_route_arrives}

abbrev nothing : Store ℕ ℕ
nothing = record {
  by_name = [];
  policies_by_name = [];
  policies_by_target = [];
  backends_by_name = [];
  staged_listeners = [];
  staged_routes = [];
  sent = [];
}

nothing-IsIndexed : IsIndexed nothing
unfolding get agentproxy.Prelude.Map.member
nothing-IsIndexed = record { keyed = λ n p e. absurd (cc); agrees = λ t n. refl }

abbrev on_gateway : TargetedPolicy ℕ
on_gateway = record { name = codes "p"; target = gateway (codes "g"); policy = 1 }

abbrev on_route : TargetedPolicy ℕ
on_route = record { name = codes "p"; target = route (codes "r"); policy = 2 }

-- A policy whose target changes, and which is removed.
change_policies-IsIndexed_example :
    IsIndexed (change_policies (put on_gateway ∷ put on_route ∷ dropped (codes "p") ∷ []) nothing)
change_policies-IsIndexed_example =
    change_policies-IsIndexed (put on_gateway ∷ put on_route ∷ dropped (codes "p") ∷ []) nothing
      nothing-IsIndexed

-- What a policy says is a number.
abbrev numbers : Payload
numbers = λ kind. ℕ

abbrev bare : Store (Policy Str numbers) ℕ
bare = record {
  by_name = [];
  policies_by_name = [];
  policies_by_target = [];
  backends_by_name = [];
  staged_listeners = [];
  staged_routes = [];
  sent = [];
}

bare-IsIndexed : IsIndexed bare
unfolding get agentproxy.Prelude.Map.member
bare-IsIndexed = record { keyed = λ n p e. absurd (cc); agrees = λ t n. refl }

-- One authentication for a gateway, and another for a rule.
abbrev attached : List (PolicyChange (Policy Str numbers))
attached =
    put (record { name = codes "a"; target = gateway (codes "g"); policy = jwt_auth 1 })
    ∷ put (record { name = codes "b"; target = route_rule (codes "rr"); policy = jwt_auth 2 })
    ∷ []

abbrev guarded : Store (Policy Str numbers) ℕ
guarded = change_policies attached bare

route_policies-Chosen_example :
    let rules = route_rule (codes "rr") in
    let of_route = route (codes "r") in
    let of_gateway = gateway (codes "g") in
    let applied = route_policies guarded (codes "rr") (codes "r") (codes "g") in
    Chosen as_jwt guarded.policies_by_name rules of_route of_gateway applied.jwt
    × Chosen as_ext_authz guarded.policies_by_name rules of_route of_gateway applied.authz
    × Chosen as_remote_rate_limit guarded.policies_by_name rules of_route of_gateway
        applied.remote_limit
    × Chosen as_transformation guarded.policies_by_name rules of_route of_gateway
        applied.transformer
    × ((limits : Option (List RateLimit)) × Chosen as_local_rate_limit guarded.policies_by_name
          rules of_route of_gateway limits
        × (applied.rate_limits ≡ or_default limits))
route_policies-Chosen_example =
    route_policies-Chosen guarded (codes "rr") (codes "r") (codes "g")
      (change_policies-IsIndexed attached bare bare-IsIndexed)

the_rule_wins : (route_policies guarded (codes "rr") (codes "r") (codes "g")).jwt ≡ some 2
unfolding route_policies route_rules insert_policy get insert add
the_rule_wins = refl

abbrev listener_of : RouteSet → Listener
listener_of routes = record {
  key = codes "l";
  name = codes "l";
  gateway_name = codes "g";
  hostname = [];
  protocol = ListenerProtocol.http;
  routes = routes;
  tcp_routes = TcpRouteSet.empty;
}

-- Another listener is staged for the bind, and stays.
abbrev other_listener : Listener
other_listener = record (listener_of empty) { key = codes "m" }

abbrev waiting : Store ℕ ℕ
waiting = record nothing { staged_listeners = (codes "b", (codes "m", other_listener) ∷ []) ∷ [] }

staged_listener_replaced_example :
    (t : Store ℕ ℕ) × (u : Store ℕ ℕ) × (v : Store ℕ ℕ) × (insert_route two_matches
        (codes "l")
        waiting
      ≡ some t)
    × (insert_listener (listener_of empty) (codes "b") t ≡ some u)
    × (insert_listener (listener_of empty) (codes "b") u ≡ some v)
    × (staged_listener (codes "b") (codes "l") u ≡ some (listener_of one_route))
    × (get (codes "l") v.staged_routes ≡ none)
    × ((j k : Str)
        → staged_listener j k v ≡ (
            if codes "b" == j && codes "l" == k
            then some (listener_of empty)
            else staged_listener j k waiting))
unfolding get
staged_listener_replaced_example =
    staged_listener_replaced two_matches (listener_of empty) (codes "b") waiting one_route refl refl
      refl insert_test

abbrev bind : Bind
bind = record { key = codes "b"; address = codes "ip"; listeners = [] }

abbrev bound : Store ℕ ℕ
bound = record nothing { by_name = (codes "b", bind) ∷ [] }

staged_route_arrives_example :
    (t : Store ℕ ℕ) × (u : Store ℕ ℕ) × (b' : Bind) × (insert_route two_matches (codes "l") bound
      ≡ some t)
    × (insert_listener (listener_of empty) (codes "b") t ≡ some u)
    × (get (codes "b") u.by_name ≡ some b')
    × (get_listener (codes "l") b'.listeners ≡ some (listener_of one_route))
unfolding get get_listener listener_home
staged_route_arrives_example =
    staged_route_arrives two_matches (listener_of empty) bind bound one_route refl refl refl refl
      refl insert_test
