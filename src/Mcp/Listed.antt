-- ===== src/Mcp/Listed.antt =====
-- The tools that a caller is shown, and the calls of them.
use agentproxy.Prelude.{
  ◌≡◌, refl, sym, ap, inl, inr, true, Option, none, some, List, [], ◌∷◌, map, Str, str_eq, All, In,
  In-append, Free, In-retain,
}
use agentproxy.Prelude.Map.{Map, get}
use agentproxy.Prelude.Outcome.{ok}
use agentproxy.Mcp.Rbac.{tool, Cel, validate}
use agentproxy.Mcp.{
  Target, Relay, Tool, delimiter, single_name, list_from, list_connections, get_connection,
  resource_name, shown_tools, merge_tools, list_tools, forward, shown_answer, connection,
}
use agentproxy.Mcp.Names.{Resolves, parse-resource_name}
use agentproxy.Mcp.Access.{forward_iff}

In-map :
    {A B : Type 0} (f : A → B) (b : B) (xs : List A)
    → In b (map f xs)
    → (a : A) × In a xs × (b ≡ f a)
In-map f b [] h = elim h [ ]
In-map f b (x ∷ xs) (inl q) = (x, inl refl, q)
In-map f b (x ∷ xs) (inr i) = let (a, j, q) = In-map f b xs i in (a, inr j, q)

module _ {S : Type 0} where
  -- With more than one target, no name of a target holds the delimiter.
  abbrev pub Distinguishable : List (Target S) → Type 0
  Distinguishable ts = single_name ts ≡ none → All (λ t. Free delimiter t.name) ts

In-connection :
    {U : Type 0} (name target : Str) (u : U) (o : Option U)
    → In (name, u) (connection target o)
    → (name ≡ target) × (o ≡ some u)
In-connection name target u none h = elim h [ ]
In-connection name target u (some v) (inl q) = (ap (λ x. x.0) q, ap (λ x. some x.1) (sym q))
In-connection name target u (some v) (inr i) = elim i [ ]

module _ {S U : Type 0} where
  -- A listed connection is that of a target.
  In-list_from :
      (P : Str → Type 0) (name : Str) (u : U) (ts : List (Target S)) (m : Map Str U)
      → All (λ t. P t.name) ts
      → In (name, u) (list_from ts m)
      → P name × (get name m ≡ some u)
  In-list_from P name u [] m a h = elim h [ ]
  In-list_from P name u (t ∷ ts) m (p, a) h =
      elim ((In-append (name, u) (connection t.name (get t.name m)) (list_from ts m)).0 h) [
        | inl i ↦ let (n, e) = In-connection name t.name u (get t.name m) i in (rw n p, rw n e)
        | inr i ↦ In-list_from P name u ts m a i
      ]

  listed_Resolves :
      (name : Str) (u : U) (ts : List (Target S)) (m : Map Str U)
      → Distinguishable ts
      → In (name, u) (list_from ts m)
      → Resolves (single_name ts) name × (get name m ≡ some u)
  listed_Resolves name u [] m d h = elim h [ ]
  listed_Resolves name u (t ∷ []) m d h =
      let (q, g) = In-list_from (λ n. n ≡ t.name) name u (t ∷ []) m (refl, tt) h in
      (inl (ap some (sym q)), g)
  listed_Resolves name u (t ∷ t' ∷ ts) m d h =
      let (f, g) = In-list_from (Free delimiter) name u (t ∷ t' ∷ ts) m (d refl) h in
      (inr (refl, f), g)

module _ {S U Ctx Expr Exec D A : Type 0} (cel : Cel Ctx Expr Exec) (r : Relay S U Expr) (ctx : Ctx)
    (tools_of : U → Option (List (Tool D A))) where
  -- Where a tool that is shown comes from.
  abbrev Comes : List (Str × U) → Tool D A → Type 0
  Comes us t =
      (target : Str) × (u : U) × (ts : List (Tool D A)) × (own : Tool D A) × In (target, u) us
      × (tools_of u ≡ some ts)
      × In own ts
      × (validate cel r.policies (tool (record { target = target; id = own.name })) ctx ≡ true)
      × (t.name ≡ resource_name r target own.name)

  shown_Comes :
      (target : Str) (ts : List (Tool D A)) (t : Tool D A)
      → In t (shown_tools cel r ctx target ts)
      → (own : Tool D A) × In own ts
        × (validate cel r.policies (tool (record { target = target; id = own.name })) ctx ≡ true)
        × (t.name ≡ resource_name r target own.name)
  shown_Comes target ts t h =
      let (own, i, q) = In-map _ t _ h in
      let (j, v) = (In-retain _ own ts).0 i in (own, j, v, ap (λ x. x.name) q)

  answer_Comes :
      (target : Str) (o : Option (List (Tool D A))) (t : Tool D A)
      → In t (shown_answer cel r ctx target o)
      → (ts : List (Tool D A)) × (o ≡ some ts)
        × (own : Tool D A) × In own ts
        × (validate cel r.policies (tool (record { target = target; id = own.name })) ctx ≡ true)
        × (t.name ≡ resource_name r target own.name)
  answer_Comes target none t h = elim h [ ]
  answer_Comes target (some ts) t h =
      let (own, j, v, q) = shown_Comes target ts t h in (ts, refl, own, j, v, q)

  merge_tools-Comes :
      (us : List (Str × U)) (t : Tool D A) → In t (merge_tools cel r ctx tools_of us) → Comes us t
  merge_tools-Comes [] t h = elim h [ ]
  merge_tools-Comes ((target, u) ∷ us) t h = elim ((In-append t _ _).0 h) [
    | inl i ↦
        let (ts, e, own, j, v, q) = answer_Comes target (tools_of u) t i in
        (target, u, ts, own, inl refl, e, j, v, q)
    | inr i ↦
        let (n, v, ts, own, j, e, k, w, q) = merge_tools-Comes us t i in
        (n, v, ts, own, inr j, e, k, w, q)
  ]

  -- The relay's default target is its only one, if there is one only. If the targets' names do not
  -- hold the delimiter where there are more, a call by the name of a tool that the caller is shown is
  -- sent on: to the upstream of a target that answered with the tool, by the tool's own name, with the
  -- call's arguments. The policies allow that tool to the caller.
  pub listed_tools_callable :
      {E Args : Type 0} (t : Tool D A) (args : Args)
      → r.default_target_name ≡ single_name r.pool.targets
      → Distinguishable r.pool.targets
      → In t (list_tools cel r ctx tools_of)
      → (target : Str) × (u : U) × (ts : List (Tool D A)) × (own : Tool D A) × (tools_of u
          ≡ some ts)
        × In own ts
        × (validate cel r.policies (tool (record { target = target; id = own.name })) ctx ≡ true)
        × (forward cel {E = E} tool r ctx t.name args
            ≡ ok (record { upstream = u; name = own.name; arguments = args }))
  unfolding list_tools list_connections get_connection
  listed_tools_callable {E = E} t args def dis h =
      let (target, u, ts, own, i, e, j, v, n) =
        merge_tools-Comes (list_from r.pool.targets r.pool.by_name) t h in
      let (res, g) = listed_Resolves target u r.pool.targets r.pool.by_name dis i in
      let parsed = (parse-resource_name {E = E} r target own.name).1 (rw def res) in
      (
        target,
        u,
        ts,
        own,
        e,
        j,
        v,
        (forward_iff cel tool r ctx t.name args _).1 (target, rw n parsed, v, g, refl),
      )
