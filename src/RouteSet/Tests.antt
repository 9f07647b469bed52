-- ===== src/RouteSet/Tests.antt =====
-- The route set at concrete routes.
use agentproxy.Prelude.Search.{binary_search}
use agentproxy.Prelude.{
  str_cmp, sym, ◌∙◌, subst, ◌↔◌, ◌⊎◌, inl, map, arith, if◌then◌else◌, ◌==◌, In, ◌≡◌, refl, none,
  some, List, [], ◌∷◌, Str, str_eq, codes,
}
use agentproxy.Prelude.Map.{insert, get}
use agentproxy.Route.{Route, RouteMatch, hostname_matchers}
use agentproxy.Filters.Uris.{path_prefix}
use agentproxy.RouteSet.{
  RouteSet, empty, insert_route, compare_route, remove_route, get_hostname, or_default,
}
use agentproxy.RouteSet.Invariant.{IsValid, entry}
use agentproxy.Hostname.{HostnameMatch, hostname_eq, exact}
use agentproxy.Prelude.Sorted.{Sorted, some_injective}
use agentproxy.RouteSet.Remove.{remove_route-IsValid, without}
use agentproxy.RouteSet.Reinsert.{reinsert_panics}
use agentproxy.RouteSet.Lookup.{Serves, keyed_match, get_hostname_lem}
use agentproxy.RouteSet.Insert.{insert_route-IsValid}

abbrev pub of_prefix : Str → RouteMatch
of_prefix p = record { headers = []; path = path_prefix p; method = none; query = [] }

abbrev pub named : Str → List RouteMatch → Route
named k ms = record {
  key = k;
  route_name = k;
  rule_name = none;
  hostnames = codes "a.com" ∷ [];
  matches = ms;
  filters = [];
  backends = [];
  policies = none;
}

abbrev pub two_matches : Route
two_matches = named (codes "r") (of_prefix (codes "/a") ∷ of_prefix (codes "/b") ∷ [])

empty-IsValid : IsValid empty
unfolding get
empty-IsValid = record {
  keyed = λ k r e. absurd (cc);
  ordered = λ hm v e. absurd (cc);
  complete = λ k r hm i e named inside. absurd (cc);
}

insert_route-IsValid_example :
    (t : RouteSet) × (insert_route two_matches empty ≡ some t)
    × (t.all ≡ insert (codes "r") two_matches [])
    × IsValid t
unfolding get
insert_route-IsValid_example = insert_route-IsValid two_matches empty empty-IsValid refl

-- A valid set with one route. Its matches are of one precedence, and the search for the place of the
-- second stops at the first.
abbrev pub one_route : RouteSet
one_route = record {
  inner = (exact (codes "a.com"), entry (codes "r") 1 ∷ entry (codes "r") 0 ∷ []) ∷ [];
  all = (codes "r", two_matches) ∷ [];
}

pub insert_test : insert_route two_matches empty ≡ some one_route
unfolding insert_route binary_search compare_route str_cmp
insert_test = refl

pub one_route-IsValid : IsValid one_route
unfolding get
one_route-IsValid =
    let (t, e, f, v) = insert_route-IsValid two_matches empty empty-IsValid refl in
    subst IsValid (some_injective (sym e ∙ insert_test)) v

remove_route-IsValid_example :
    IsValid (remove_route (codes "r") one_route)
    × ((k : Str)
        → get k (remove_route (codes "r") one_route).all
          ≡ (if codes "r" == k then none else get k one_route.all))
    × ((hm : HostnameMatch)
        → or_default (get hm (remove_route (codes "r") one_route).inner)
          ≡ without (codes "r") (or_default (get hm one_route.inner)))
remove_route-IsValid_example = remove_route-IsValid (codes "r") one_route one_route-IsValid

get_hostname_lem_example :
    (l : List (Route × RouteMatch)) × (get_hostname (exact (codes "a.com")) one_route ≡ map some l)
    × Sorted compare_route (map keyed_match l)
    × ((r : Route) (m : RouteMatch) → In (r, m) l ↔ Serves one_route (exact (codes "a.com")) (r, m))
get_hostname_lem_example = get_hostname_lem one_route (exact (codes "a.com")) one_route-IsValid

-- The same key, now with one match.
abbrev fewer_matches : Route
fewer_matches = named (codes "r") (of_prefix (codes "/a") ∷ [])

reinsert_panics_example :
    (insert_route fewer_matches one_route ≡ none)
    ⊎ ((t : RouteSet) × (insert_route fewer_matches one_route ≡ some t)
        × In none (get_hostname (exact (codes "a.com")) t))
unfolding get hostname_matchers
reinsert_panics_example =
    reinsert_panics one_route two_matches fewer_matches (exact (codes "a.com")) one_route-IsValid
      refl (inl refl) (omega arith)
