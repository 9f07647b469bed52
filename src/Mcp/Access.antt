-- ===== src/Mcp/Access.antt =====
-- What authorisation promises of the requests that the relay sends on.
use agentproxy.Prelude.{
  ◌≡◌, refl, ◌↔◌, Bool, true, false, Option, none, some, Str, str_eq, arith, ◌≢◌, inl, sym, ◌∙◌,
  inr, subst,
}
use agentproxy.Prelude.Outcome.{Outcome, ok, err, Outcome-cases, ◌>>=◌}
use agentproxy.Mcp.Rbac.{tool, prompt, resource, ResourceType, ResourceId, Cel, validate}
use agentproxy.Mcp.{
  McpError, Relay, Forwarded, parse_resource_name, get_connection, pass_on, call_tool, get_prompt,
  read_resource, forward, admit, panic,
}

admit_ok :
    {E U Args : Type 0} (b : Bool) (o : Option U) (target id : Str) (args : Args)
    (req : Forwarded U Args)
    → admit {E = E} b o target id args ≡ ok req
    → (b ≡ true) × (o ≡ some req.upstream) × (req.name ≡ id) × (req.arguments ≡ args)
admit_ok false o target id args req h = cc
admit_ok true none target id args req h = cc
admit_ok true (some u) target id args req h = (refl, ground arith, ground arith, ground arith)

module _ {S U Ctx Expr Exec Args : Type 0} (E : Type 0) (cel : Cel Ctx Expr Exec)
    (kind : ResourceId → ResourceType) (r : Relay S U Expr) (ctx : Ctx) (name : Str)
    (args : Args) where
  -- The request that is sent on: the name resolves to a target and a resource of it, the policies
  -- allow that resource to the caller, and the target is connected. It goes to the target's upstream,
  -- with the resource's own name and the caller's arguments.
  abbrev pub Admitted : Forwarded U Args → Type 0
  Admitted req =
      (target : Str) × (parse_resource_name {E = E} r name ≡ ok (target, req.name))
      × (validate cel r.policies (kind (record { target = target; id = req.name })) ctx ≡ true)
      × (get_connection target r.pool ≡ some req.upstream)
      × (req.arguments ≡ args)

module _ {S U Ctx Expr Exec E Args : Type 0} (cel : Cel Ctx Expr Exec)
    (kind : ResourceId → ResourceType) (r : Relay S U Expr) (ctx : Ctx) (name : Str)
    (args : Args) where
  pub forward_step :
      (target id : Str)
      → parse_resource_name {E = E} r name ≡ ok (target, id)
      → forward cel {E = E} kind r ctx name args
        ≡ admit
            (validate cel r.policies (kind (record { target = target; id = id })) ctx)
            (get_connection target r.pool)
            target
            id
            args
  unfolding forward
  forward_step target id e = rw e

  forward_fails :
      (e : McpError E) (req : Forwarded U Args)
      → parse_resource_name {E = E} r name ≡ err e
      → forward cel {E = E} kind r ctx name args ≢ ok req
  unfolding forward
  forward_fails e req f h = cc (rw f at h)

  forward_panics :
      (req : Forwarded U Args)
      → parse_resource_name {E = E} r name ≡ panic
      → forward cel {E = E} kind r ctx name args ≢ ok req
  unfolding forward
  forward_panics req f h = cc (rw f at h)

  pub forward_iff :
      (req : Forwarded U Args)
      → (forward cel {E = E} kind r ctx name args ≡ ok req)
        ↔ Admitted E cel kind r ctx name args req
  forward_iff req = (
    λ h. elim (Outcome-cases (parse_resource_name {E = E} r name)) [
      | inl ((target, id), e) ↦
          let (v, g, n, q) =
            admit_ok (validate cel r.policies (kind (record { target = target; id = id })) ctx)
              (get_connection target r.pool) target id args req
              (sym (forward_step target id e) ∙ h) in
          (target, rw n e, rw n v, g, q)
      | inr (inl (e, f)) ↦ absurd (forward_fails e req f h)
      | inr (inr f) ↦ absurd (forward_panics req f h)
    ],
    λ (target, e, v, g, q). forward_step target req.name e ∙ rw (v, g, ← q) refl,
  )

pass_on_ok : {E R : Type 0} (o : Outcome E R) (a : R) → (pass_on o ≡ ok a) ↔ (o ≡ ok a)
pass_on_ok (ok b) a = ground arith
pass_on_ok (err e) a = ground arith
pass_on_ok panic a = ground arith

answered_iff :
    {E U Args R : Type 0} (m : Outcome (McpError E) (Forwarded U Args))
    (answer : Forwarded U Args → Outcome E R) (a : R)
    → ((m >>= λ req. pass_on (answer req)) ≡ ok a)
      ↔ ((req : Forwarded U Args) × (m ≡ ok req) × (answer req ≡ ok a))
answered_iff (ok req) answer a = (
  λ h. (req, refl, (pass_on_ok (answer req) a).0 h),
  λ (q, e, h). (pass_on_ok (answer req) a).1 (subst (λ x. answer x ≡ ok a) (ground arith) h),
)
answered_iff (err e) answer a = (λ h. absurd (cc h), λ (q, e, h). absurd (cc e))
answered_iff panic answer a = (λ h. absurd (cc h), λ (q, e, h). absurd (cc e))

module _ {S U Ctx Expr Exec E Args R : Type 0} (cel : Cel Ctx Expr Exec)
    (answer : Forwarded U Args → Outcome E R) (r : Relay S U Expr) (ctx : Ctx) (name : Str)
    (args : Args) (a : R) where
  -- The request of the kind is admitted, and the upstream answers it.
  abbrev pub Answered : (ResourceId → ResourceType) → Type 0
  Answered kind =
      (req : Forwarded U Args) × Admitted E cel kind r ctx name args req × (answer req ≡ ok a)

  answered-Answered :
      (kind : ResourceId → ResourceType)
      → ((forward cel {E = E} kind r ctx name args >>= λ req. pass_on (answer req)) ≡ ok a)
        ↔ Answered kind
  answered-Answered kind =
      let (f, g) = answered_iff (forward cel {E = E} kind r ctx name args) answer a in
      (
        λ h. let (req, e, w) = f h in (req, (forward_iff cel kind r ctx name args req).0 e, w),
        λ (req, d, w). g (req, (forward_iff cel kind r ctx name args req).1 d, w),
      )

  -- A call of a tool, the request for a prompt and the reading of a resource each give an answer
  -- exactly if the name resolves to a target and a tool, prompt or resource of it, the policies allow
  -- that one to the caller, the target is connected, and its upstream gives the answer to the request
  -- with the own name and the caller's arguments.
  pub calls_iff :
      ((call_tool cel answer r ctx name args ≡ ok a) ↔ Answered tool)
      × ((get_prompt cel answer r ctx name args ≡ ok a) ↔ Answered prompt)
      × ((read_resource cel answer r ctx name args ≡ ok a) ↔ Answered resource)
  unfolding call_tool get_prompt read_resource
  calls_iff = (answered-Answered tool, answered-Answered prompt, answered-Answered resource)
