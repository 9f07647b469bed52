-- ===== src/Binds.antt =====
-- crates/agentgateway/src/store/binds.rs: the store of binds, policies and backends, with what
-- arrives before its parent staged. What a policy does and what a backend is are left open
-- (`Policy`, `Backend`). Events that subscribers get are a log. `none` is a panic of a route set.
pub mod Targets
pub mod Index
pub mod Staged
pub mod Policies
mod Changes
mod Precedence
mod Tests
use agentproxy.Prelude.{
  ℕ, Bool, true, false, Option, none, some, List, [], ◌∷◌, ◌++◌, if◌then◌else◌, find, find_map, Str,
  str_eq, Eq, ◌==◌, codes,
}
use agentproxy.Prelude.Map.{Map, get, insert, remove, contains, values, add, discard}
use agentproxy.Route.{Route}
use agentproxy.RouteSet.{
  RouteSet, insert_route as insert_in_set, remove_route as remove_from_set, contains_route,
  or_default,
}
use agentproxy.Listener.{
  Listener, ListenerSet, insert_listener as insert_in_listeners, contains_listener, get_listener,
}
use agentproxy.Binds.Targets.{PolicyTarget, target_eq}

pub record Bind : Type 0 where
  pub key : Str
  pub address : Str
  pub listeners : ListenerSet

pub data Event : Type 0 where
  added removed : Bind → Event

pub record TargetedPolicy (Policy : Type 0) : Type 0 where
  pub name : Str
  pub target : PolicyTarget
  pub policy : Policy

pub record Store (Policy Backend : Type 0) : Type 0 where
  pub by_name : Map Str Bind
  pub policies_by_name : Map Str (TargetedPolicy Policy)
  pub policies_by_target : Map PolicyTarget (List Str)
  pub backends_by_name : Map Str Backend
  pub staged_listeners : Map Str (Map Str Listener)
  pub staged_routes : Map Str (Map Str Route)
  pub sent : List Event

-- The loop over the staged routes of a listener.
pub adopt_routes : List (Str × Route) → RouteSet → Option RouteSet
unfolding insert_in_set
adopt_routes [] s = some s
adopt_routes ((k, r) ∷ rest) s = elim (insert_in_set r s) [
  | none ↦ none
  | some s' ↦ adopt_routes rest s'
]

-- The listener with the routes that were staged under a key.
pub adopt : Str → Map Str (Map Str Route) → Listener → Option Listener
unfolding adopt_routes get
adopt key staged l = elim (adopt_routes (or_default (get key staged)) l.routes) [
  | none ↦ none
  | some routes ↦ some (record l { routes = routes })
]

-- The loop of `insert_bind` over the staged listeners.
pub adopt_listeners :
    List (Str × Listener)
    → Map Str (Map Str Route)
    → ListenerSet
    → Option (Map Str (Map Str Route) × ListenerSet)
unfolding adopt remove insert_in_listeners
adopt_listeners [] staged ls = some (staged, ls)
adopt_listeners ((k, l) ∷ rest) staged ls = elim (adopt k staged l) [
  | none ↦ none
  | some l' ↦ adopt_listeners rest (remove k staged) (insert_in_listeners l' ls)
]

-- `get_mut(target)` and the removal of a name from what is there.
pub forget_name : PolicyTarget → Str → Map PolicyTarget (List Str) → Map PolicyTarget (List Str)
unfolding get insert discard
forget_name target name index = elim (get target index) [
  | none ↦ index
  | some names ↦ insert target (discard name names) index
]

-- The bind and the listener in it that a route is in.
pub route_home : Str → Bind → Option (Bind × Listener)
unfolding contains_route
route_home key b =
    elim (find (λ (l : Listener). contains_route key l.routes) (values b.listeners)) [
      | none ↦ none
      | some l ↦ some (b, l)
    ]

pub listener_home : Str → Bind → Option (Bind × Listener)
unfolding get_listener
listener_home key b = elim (get_listener key b.listeners) [ none ↦ none | some l ↦ some (b, l) ]

module _ {Policy Backend : Type 0} where
  unfoldable pub insert_bind : Bind → Store Policy Backend → Option (Store Policy Backend)
  unfolding adopt_listeners get remove insert
  insert_bind b s =
      elim (adopt_listeners (or_default (get b.key s.staged_listeners)) s.staged_routes
        b.listeners) [
          | none ↦ none
          | some (staged, ls) ↦
              let whole : Bind = record b { listeners = ls } in
              some (record s {
                by_name = insert b.key whole s.by_name;
                staged_listeners = remove b.key s.staged_listeners;
                staged_routes = staged;
                sent = s.sent ++ added whole ∷ [];
              })
        ]

  unfoldable pub remove_bind : Str → Store Policy Backend → Store Policy Backend
  unfolding get remove
  remove_bind key s = elim (get key s.by_name) [
    | none ↦ s
    | some old ↦ record s { by_name = remove key s.by_name; sent = s.sent ++ removed old ∷ [] }
  ]

  unfoldable pub insert_policy : TargetedPolicy Policy → Store Policy Backend → Store Policy Backend
  unfolding forget_name get insert add
  insert_policy pol s =
      let index : Map PolicyTarget (List Str) = elim (get pol.name s.policies_by_name) [
        | none ↦ s.policies_by_target
        | some old ↦ forget_name old.target pol.name s.policies_by_target
      ] in
      record s {
        policies_by_name = insert pol.name pol s.policies_by_name;
        policies_by_target =
            insert pol.target (add pol.name (or_default (get pol.target index))) index;
      }

  unfoldable pub remove_policy : Str → Store Policy Backend → Store Policy Backend
  unfolding forget_name get remove
  remove_policy name s = elim (get name s.policies_by_name) [
    | none ↦ s
    | some old ↦ record s {
      policies_by_name = remove name s.policies_by_name;
      policies_by_target = forget_name old.target name s.policies_by_target;
    }
  ]

  unfoldable pub insert_backend :
      (backend_name : Backend → Str) → Backend → Store Policy Backend → Store Policy Backend
  unfolding insert
  insert_backend backend_name b s = record s {
    backends_by_name = insert (backend_name b) b s.backends_by_name;
  }

  unfoldable pub remove_backend : Str → Store Policy Backend → Store Policy Backend
  unfolding remove
  remove_backend name s = record s { backends_by_name = remove name s.backends_by_name }

  unfoldable pub remove_listener : Str → Store Policy Backend → Option (Store Policy Backend)
  unfolding insert_bind contains_listener remove
  remove_listener key s =
      elim (find (λ (b : Bind). contains_listener key b.listeners) (values s.by_name)) [
        | none ↦ some s
        | some b ↦ insert_bind (record b { listeners = remove key b.listeners }) s
      ]

  unfoldable pub remove_route : Str → Store Policy Backend → Option (Store Policy Backend)
  unfolding insert_bind route_home remove_from_set insert_in_listeners
  remove_route key s = elim (find_map (route_home key) (values s.by_name)) [
    | none ↦ some s
    | some (b, l) ↦
        let left : Listener = record l { routes = remove_from_set key l.routes } in
        insert_bind (record b { listeners = insert_in_listeners left b.listeners }) s
  ]

  -- A listener under a bind that is there. An update keeps the HTTP routes of the old listener.
  pub update_listener : Listener → Bind → Store Policy Backend → Option (Store Policy Backend)
  unfolding insert_bind get_listener adopt remove insert_in_listeners
  update_listener l b s =
      let kept : Listener = elim (get_listener l.key b.listeners) [
        | none ↦ l
        | some old ↦ record l { routes = old.routes }
      ] in
      elim (adopt l.key s.staged_routes kept) [
        | none ↦ none
        | some whole ↦
            insert_bind
              (record b { listeners = insert_in_listeners whole (remove l.key b.listeners) })
              (record s { staged_routes = remove l.key s.staged_routes })
      ]

  pub stage_listener : Listener → Str → Store Policy Backend → Option (Store Policy Backend)
  unfolding adopt get insert remove
  stage_listener l bind_name s = elim (adopt l.key s.staged_routes l) [
    | none ↦ none
    | some whole ↦ some (record s {
      staged_routes = remove l.key s.staged_routes;
      staged_listeners =
          insert bind_name (insert l.key whole (or_default (get bind_name s.staged_listeners)))
            s.staged_listeners;
    })
  ]

  unfoldable pub insert_listener :
      Listener → (bind_name : Str) → Store Policy Backend → Option (Store Policy Backend)
  unfolding update_listener stage_listener get
  insert_listener l bind_name s = elim (get bind_name s.by_name) [
    | some b ↦ update_listener l b s
    | none ↦ stage_listener l bind_name s
  ]

  unfoldable pub insert_route :
      Route → (listener_key : Str) → Store Policy Backend → Option (Store Policy Backend)
  unfolding insert_bind listener_home insert_in_set insert_in_listeners get insert
  insert_route r listener_key s = elim (find_map (listener_home listener_key) (values s.by_name)) [
    | none ↦ some (record s {
      staged_routes =
          insert listener_key (insert r.key r (or_default (get listener_key s.staged_routes)))
            s.staged_routes;
    })
    | some (b, l) ↦ elim (insert_in_set r l.routes) [
      | none ↦ none
      | some routes ↦
          insert_bind
            (record b {
              listeners = insert_in_listeners (record l { routes = routes }) b.listeners;
            })
            s
    ]
  ]

  -- `insert_xds_bind` after the bind is parsed: an update keeps the listeners of the old bind.
  unfoldable pub insert_xds_bind : Bind → Store Policy Backend → Option (Store Policy Backend)
  unfolding insert_bind get remove
  insert_xds_bind b s = elim (get b.key s.by_name) [
    | none ↦ insert_bind b s
    | some old ↦
        insert_bind (record b { listeners = old.listeners })
          (record s { by_name = remove b.key s.by_name })
  ]

  -- `remove_resource` after the name is split at its first slash.
  unfoldable pub remove_resource :
      (kind resource : Str) → Store Policy Backend → Option (Store Policy Backend)
  unfolding remove_bind remove_listener remove_route
  remove_resource kind resource s =
      if kind == codes "bind"
      then some (remove_bind resource s)
      else if kind == codes "listener"
      then remove_listener resource s
      else if kind == codes "route"
      then remove_route resource s
      else some s
