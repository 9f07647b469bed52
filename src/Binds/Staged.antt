-- ===== src/Binds/Staged.antt =====
-- What is staged until its parent arrives, and what is lost when it is staged twice.
use agentproxy.Prelude.{
  refl, Bool, true, false, ◌&&◌, ◌==◌, ==_iff, Bool-cases, inl, inr, if◌then◌else◌, Option, ◌≡◌, ap,
  ◌∙◌, arith, none, some, [], ◌∷◌, ◌++◌, find_map, Str, str_eq, ==_refl,
}
use agentproxy.Prelude.Map.{Map, get, insert, remove, values, get-insert, get-remove}
use agentproxy.Route.{Route}
use agentproxy.RouteSet.{RouteSet, insert_route as insert_in_set, or_default}
use agentproxy.Listener.{Listener, insert_listener as insert_in_listeners, get_listener}
use agentproxy.Binds.{
  Bind, Store, added, adopt_routes, adopt, adopt_listeners, insert_bind, update_listener,
  stage_listener, insert_listener, listener_home, insert_route,
}

get-insert_self : {V : Type 0} (k : Str) (v : V) (m : Map Str V) → get k (insert k v m) ≡ some v
get-insert_self k v m = rw (get-insert k k v m, ==_refl k)

adopt_nothing :
    (key : Str) (staged : Map Str (Map Str Route)) (l : Listener)
    → get key staged ≡ none
    → adopt key staged l ≡ some l
unfolding adopt adopt_routes
adopt_nothing key staged l e = ground arith

adopt_one :
    (key : Str) (staged : Map Str (Map Str Route)) (l : Listener) (r : Route) (routes : RouteSet)
    → get key staged ≡ some ((r.key, r) ∷ [])
    → insert_in_set r l.routes ≡ some routes
    → adopt key staged l ≡ some (record l { routes = routes })
unfolding adopt adopt_routes
adopt_one key staged l r routes e f = ground arith

if-true : {A : Type 0} {b : Bool} (x y : A) → b ≡ true → (if b then x else y) ≡ x
if-true x y e = rw e

if-if :
    {A : Type 0} (b : Bool) (x y z : A)
    → (if b then x else if b then y else z) ≡ (if b then x else z)
if-if true x y z = refl
if-if false x y z = refl

module _ {Policy Backend : Type 0} where
  -- A bind that nothing is staged for stands as it is.
  insert_bind_plain :
      (b : Bind) (s : Store Policy Backend)
      → get b.key s.staged_listeners ≡ none
      → (t : Store Policy Backend) × (insert_bind b s ≡ some t) × (get b.key t.by_name ≡ some b)
  unfolding insert_bind adopt_listeners
  insert_bind_plain b s e =
      let same : adopt_listeners (or_default (get b.key s.staged_listeners)) s.staged_routes
            b.listeners
          ≡ some (s.staged_routes, b.listeners) =
        rw e in
      let t : Store Policy Backend = record s {
        by_name = insert b.key b s.by_name;
        staged_listeners = remove b.key s.staged_listeners;
        sent = s.sent ++ added b ∷ [];
      } in
      (t, ground (arith, same), get-insert_self b.key b s.by_name)

  insert_listener_staged :
      (l : Listener) (bind_name : Str) (s : Store Policy Backend) (whole : Listener)
      → get bind_name s.by_name ≡ none
      → adopt l.key s.staged_routes l ≡ some whole
      → insert_listener l bind_name s
        ≡ some (record s {
          staged_routes = remove l.key s.staged_routes;
          staged_listeners =
              insert bind_name
                (insert l.key whole (or_default (get bind_name s.staged_listeners)))
                s.staged_listeners;
        })
  unfolding insert_listener stage_listener
  insert_listener_staged l bind_name s whole e f = ground arith

  insert_route_staged :
      (r : Route) (key : Str) (s : Store Policy Backend)
      → find_map (listener_home key) (values s.by_name) ≡ none
      → get key s.staged_routes ≡ none
      → insert_route r key s
        ≡ some (record s { staged_routes = insert key ((r.key, r) ∷ []) s.staged_routes })
  unfolding insert_route insert
  insert_route_staged r key s e f = ground arith

  -- The listener that is staged for a bind under a key.
  abbrev pub staged_listener : Str → Str → Store Policy Backend → Option Listener
  staged_listener bind_name key s = get key (or_default (get bind_name s.staged_listeners))

  get-stage :
      (bind_name key : Str) (l : Listener) (s : Store Policy Backend) (j k : Str)
      → get k (
          or_default (
            get j (
              insert bind_name
                (insert key l (or_default (get bind_name s.staged_listeners)))
                s.staged_listeners)))
        ≡ (if bind_name == j && key == k then some l else staged_listener j k s)
  get-stage bind_name key l s j k =
      let here = insert key l (or_default (get bind_name s.staged_listeners)) in
      let at_bind = get-insert bind_name j here s.staged_listeners in
      elim (Bool-cases (bind_name == j)) [
        | inl same ↦
            let e : bind_name ≡ j = (==_iff bind_name j).0 same in
            rw (at_bind, same, get-insert key k l (or_default (get bind_name s.staged_listeners)))
              (ap (λ i. if key == k then some l else get k (or_default (get i s.staged_listeners)))
                e)
        | inr other ↦ rw (at_bind, other) refl
      ]

  -- No bind has a listener of a key, and no route is staged for it. A route for it comes, and then the
  -- listener, whose routes take the route, for a bind that is not there. The listener is staged with
  -- the route among its routes. If the listener then comes again, as it came before, it is staged
  -- without the route, and no route is staged for it either: the route is lost. All other listeners
  -- that are staged stay as they were.
  pub staged_listener_replaced :
      (r : Route) (l : Listener) (bind_name : Str) (s : Store Policy Backend) (routes : RouteSet)
      → find_map (listener_home l.key) (values s.by_name) ≡ none
      → get bind_name s.by_name ≡ none
      → get l.key s.staged_routes ≡ none
      → insert_in_set r l.routes ≡ some routes
      → (t : Store Policy Backend) × (u : Store Policy Backend) × (v : Store Policy Backend)
        × (insert_route r l.key s ≡ some t)
        × (insert_listener l bind_name t ≡ some u)
        × (insert_listener l bind_name u ≡ some v)
        × (staged_listener bind_name l.key u ≡ some (record l { routes = routes }))
        × (get l.key v.staged_routes ≡ none)
        × ((j k : Str)
            → staged_listener j k v
              ≡ (if bind_name == j && l.key == k then some l else staged_listener j k s))
  staged_listener_replaced r l bind_name s routes away unbound no_routes e =
      let t : Store Policy Backend = record s {
        staged_routes = insert l.key ((r.key, r) ∷ []) s.staged_routes;
      } in
      let whole : Listener = record l { routes = routes } in
      let u : Store Policy Backend = record t {
        staged_routes = remove l.key t.staged_routes;
        staged_listeners =
            insert bind_name (insert l.key whole (or_default (get bind_name t.staged_listeners)))
              t.staged_listeners;
      } in
      let v : Store Policy Backend = record u {
        staged_routes = remove l.key u.staged_routes;
        staged_listeners =
            insert bind_name (insert l.key l (or_default (get bind_name u.staged_listeners)))
              u.staged_listeners;
      } in
      let gone : get l.key u.staged_routes ≡ none =
        rw (get-remove l.key l.key t.staged_routes, ==_refl l.key) in
      let here : (bind_name == bind_name && l.key == l.key) ≡ true =
        rw (==_refl bind_name, ==_refl l.key) in
      let f =
        adopt_one l.key t.staged_routes l r routes
          (get-insert_self l.key ((r.key, r) ∷ []) s.staged_routes) e in
      (
        t,
        u,
        v,
        insert_route_staged r l.key s away no_routes,
        insert_listener_staged l bind_name t whole unbound f,
        insert_listener_staged l bind_name u l unbound (adopt_nothing l.key u.staged_routes l gone),
        get-stage bind_name l.key whole t bind_name l.key ∙ if-true _ _ here,
        rw (get-remove l.key l.key u.staged_routes, ==_refl l.key),
        λ j k.
            let c = bind_name == j && l.key == k in
            get-stage bind_name l.key l u j k
            ∙ (ap (λ o. if c then some l else o) (get-stage bind_name l.key whole t j k)
                ∙ if-if c (some l) (some whole) (staged_listener j k s)),
      )

  update_listener_step :
      (l whole : Listener) (b : Bind) (s : Store Policy Backend)
      → get_listener l.key b.listeners ≡ none
      → adopt l.key s.staged_routes l ≡ some whole
      → update_listener l b s
        ≡ insert_bind
            (record b { listeners = insert_in_listeners whole (remove l.key b.listeners) })
            (record s { staged_routes = remove l.key s.staged_routes })
  unfolding update_listener
  update_listener_step l whole b s e f = ground arith

  insert_listener_update :
      (l : Listener) (bind_name : Str) (b : Bind) (s : Store Policy Backend)
      → get bind_name s.by_name ≡ some b
      → insert_listener l bind_name s ≡ update_listener l b s
  unfolding insert_listener
  insert_listener_update l bind_name b s e = ground arith

  -- A route comes before its listener, which comes under a bind that is there. No bind has a listener
  -- of the key, and no other route is staged for it, nor a listener for the bind. If the listener's
  -- routes take the route, the bind then has the listener with the route among its routes.
  pub staged_route_arrives :
      (r : Route) (l : Listener) (b : Bind) (s : Store Policy Backend) (routes : RouteSet)
      → find_map (listener_home l.key) (values s.by_name) ≡ none
      → get b.key s.by_name ≡ some b
      → get_listener l.key b.listeners ≡ none
      → get l.key s.staged_routes ≡ none
      → get b.key s.staged_listeners ≡ none
      → insert_in_set r l.routes ≡ some routes
      → (t : Store Policy Backend) × (u : Store Policy Backend) × (b' : Bind) × (insert_route r
            l.key s
          ≡ some t)
        × (insert_listener l b.key t ≡ some u)
        × (get b.key u.by_name ≡ some b')
        × (get_listener l.key b'.listeners ≡ some (record l { routes = routes }))
  unfolding get_listener insert_in_listeners
  staged_route_arrives r l b s routes away bound new no_routes no_listeners e =
      let t : Store Policy Backend = record s {
        staged_routes = insert l.key ((r.key, r) ∷ []) s.staged_routes;
      } in
      let whole : Listener = record l { routes = routes } in
      let b' : Bind = record b {
        listeners = insert_in_listeners whole (remove l.key b.listeners);
      } in
      let f =
        adopt_one l.key t.staged_routes l r routes
          (get-insert_self l.key ((r.key, r) ∷ []) s.staged_routes) e in
      let (u, g, h) =
        insert_bind_plain b' (record t { staged_routes = remove l.key t.staged_routes })
          no_listeners in
      (
        t,
        u,
        b',
        insert_route_staged r l.key s away no_routes,
        insert_listener_update l b.key b t bound ∙ (update_listener_step l whole b t new f ∙ g),
        h,
        get-insert_self l.key whole (remove l.key b.listeners),
      )
