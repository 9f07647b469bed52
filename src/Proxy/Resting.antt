-- ===== src/Proxy/Resting.antt =====
-- What an attempt leaves of the shared state of the body.
use agentproxy.Prelude.{
  [], ◌∷◌, ℕ, zero, suc, ◌≡◌, refl, Bool, true, false, Option, none, some, if◌then◌else◌, arith,
  or_else, List, subst, [],
}
use agentproxy.Replay.{
  Body, BodyState, ReplayBody, SharedState, is_capped, clone, drop_body, poll_times, acquire_from,
  Polled, capped_of, ReplayError, poll_state,
}
use agentproxy.Replay.Bounds.{
  Within, OnState, Ready, give_back-OnState, ReadyFrom-acquires, OnState-ReadyFrom,
  poll_state-Keeps, poll_frame_acquired,
}
use agentproxy.Proxy.{Attempt, unusable, attempt_upstream}

module _ {B H : Type 0} (max : ℕ) where
  -- The shared state is with a body that is still used, or within its limit.
  abbrev pub Resting : Option (BodyState B H) → Type 0
  Resting none = Unit {0}
  Resting (some s) = Within max s

  pub usable_clone :
      (shared : SharedState B H)
      → Resting shared.body
      → unusable (is_capped clone shared) ≡ false
      → Ready max clone shared
  unfolding is_capped clone
  usable_clone shared h e = usable_from shared.body h e
    where
      usable_from :
          (o : Option (BodyState B H))
          → Resting o
          → unusable (or_else none (capped_of o)) ≡ false
          → OnState (Within max) o
      usable_from none h e = cc
      usable_from (some s) h e = h

  acquired_Resting :
      (o slot : Option (BodyState B H)) (shared : SharedState B H) (s : BodyState B H)
      (rest : SharedState B H)
      → Resting shared.body
      → acquire_from o slot shared ≡ some (s, rest)
      → Resting rest.body
  acquired_Resting (some t) slot shared s rest h e =
      let q : shared ≡ rest = ground arith in subst (λ (x : SharedState B H). Resting x.body) q h
  acquired_Resting none (some t) shared s rest h e =
      let q : record shared { body = none } ≡ rest = ground arith in
      subst (λ (x : SharedState B H). Resting x.body) q tt
  acquired_Resting none none shared s rest h e = cc

  OnState-Resting : (o : Option (BodyState B H)) → OnState (Within max) o → Resting o
  OnState-Resting none h = tt
  OnState-Resting (some s) h = h

  if_Resting :
      (b : Bool) (x y : SharedState B H)
      → Resting x.body
      → Resting y.body
      → Resting (if b then x else y).body
  if_Resting true x y h k = h
  if_Resting false x y h k = k

module _ {B H E : Type 0} (body : Body B H E) (max : ℕ) where
  poll_times-Resting :
      (n : ℕ) (b : ReplayBody B H) (shared : SharedState B H)
      → Ready max b shared
      → Resting max shared.body
      → (ps : List (Polled H (ReplayError E))) × (c : ReplayBody B H) × (next : SharedState B H)
        × (poll_times body n b shared ≡ some (ps, c, next))
        × Ready max c next
        × Resting max next.body
  unfolding poll_times
  poll_times-Resting zero b shared h k = ([], b, shared, refl, h, k)
  poll_times-Resting (suc n) b shared h k =
      let (s, rest, e, w) = ReadyFrom-acquires max b.state shared.body shared h in
      let (p, c) = poll_state body b s in
      let r = OnState-ReadyFrom max c.state rest.body (poll_state-Keeps body max b s w) in
      let q = poll_frame_acquired body max b shared s rest e in
      let (ps, d, last, f, r', k') =
        poll_times-Resting n c rest r
          (acquired_Resting max b.state shared.body shared s rest k e) in
      (p ∷ ps, d, last, ground arith, r', k')

  attempt_returned :
      (a : Attempt) (this : ReplayBody B H) (shared : SharedState B H)
      (ps : List (Polled H (ReplayError E))) (c : ReplayBody B H) (next : SharedState B H)
      → poll_times body a.polls this shared ≡ some (ps, c, next)
      → attempt_upstream body a this shared ≡ some (if a.dropped then drop_body c next else next)
  unfolding attempt_upstream
  attempt_returned a this shared ps c next e = ground arith

  pub attempt_returns :
      (a : Attempt) (this : ReplayBody B H) (shared : SharedState B H)
      → Ready max this shared
      → Resting max shared.body
      → (next : SharedState B H) × (attempt_upstream body a this shared ≡ some next)
        × Resting max next.body
  unfolding drop_body
  attempt_returns a this shared h k =
      let (ps, c, next, e, r, k') = poll_times-Resting a.polls this shared h k in
      (
        (if a.dropped then drop_body c next else next),
        attempt_returned a this shared ps c next e,
        if_Resting max a.dropped (drop_body c next) next
            (OnState-Resting max _ (give_back-OnState max c.state next r)) k',
      )
