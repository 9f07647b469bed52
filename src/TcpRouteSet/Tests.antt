-- ===== src/TcpRouteSet/Tests.antt =====
-- TCP routes at concrete keys.
use agentproxy.Prelude.{
  ◌==◌, if◌then◌else◌, ◌≡◌, refl, sym, ◌∙◌, subst, none, some, [], ◌∷◌, Str, str_eq, codes, In, ◌↔◌,
  ◌⊎◌,
}
use agentproxy.Prelude.Map.{get}
use agentproxy.Prelude.Search.{binary_search}
use agentproxy.Prelude.Sorted.{some_injective}
use agentproxy.Hostname.{hostname_eq, any_host, HostnameMatch}
use agentproxy.RouteSet.{or_default}
use agentproxy.TcpRouteSet.{TcpRoute, TcpRouteSet, empty, insert_route, hostname_matchers}
use agentproxy.TcpRouteSet.Insert.{IsValid, insert_tcp_route-IsValid}
use agentproxy.TcpRouteSet.Lookup.{Gives, get_tcp_hostname-Gives}

abbrev named : Str → TcpRoute
named k = record { key = k; route_name = k; hostnames = []; rule_name = none; backends = [] }

abbrev one_route : TcpRouteSet
one_route = record {
  inner = (any_host, codes "r" ∷ []) ∷ [];
  all = (codes "r", named (codes "r")) ∷ [];
}

empty-IsValid : IsValid empty.all empty.inner
unfolding get
empty-IsValid hm = (tt, tt)

insert_test : insert_route (named (codes "r")) empty ≡ some one_route
unfolding insert_route binary_search
insert_test = refl

one_route-IsValid : IsValid one_route.all one_route.inner
one_route-IsValid =
    let (t, e, f, g, v) = insert_tcp_route-IsValid (named (codes "r")) empty empty-IsValid in
    subst (λ (s : TcpRouteSet). IsValid s.all s.inner) (some_injective (sym e ∙ insert_test)) v

-- A second route goes in front of the first.
insert_tcp_route-IsValid_example :
    (t : TcpRouteSet) × (insert_route (named (codes "q")) one_route ≡ some t)
    × ((k : Str)
        → get k t.all ≡ (if codes "q" == k then some (named (codes "q")) else get k one_route.all))
    × ((hm : HostnameMatch) (k : Str)
        → In k (or_default (get hm t.inner)) ↔ (
            In k (or_default (get hm one_route.inner))
            ⊎ (In hm (hostname_matchers (named (codes "q"))) × (k ≡ codes "q"))))
    × IsValid t.all t.inner
insert_tcp_route-IsValid_example =
    insert_tcp_route-IsValid (named (codes "q")) one_route one_route-IsValid

get_tcp_hostname-Gives_example :
    Gives one_route any_host (or_default (get any_host one_route.inner))
get_tcp_hostname-Gives_example = get_tcp_hostname-Gives one_route any_host one_route-IsValid
