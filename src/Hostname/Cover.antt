-- ===== src/Hostname/Cover.antt =====
-- Which hostname keys a host tries, and in which order.
use agentproxy.Prelude.{
  ℕ, suc, ◌<◌, ◌≡◌, refl, ap, ◌∙◌, ◌≢◌, ◌↔◌, ◌⊎◌, inl, inr, arith, false, List, [], ◌∷◌, ◌++◌, map,
  length, nat_beq, if◌then◌else◌, Str, split, join, join-split, split-ne-nil, push_first, drop, In,
  Bool-cases, starts_with, In-append, sym, subst,
}
use agentproxy.Hostname.{
  HostnameMatch, exact, wildcard, any_host, wildcards, suffixes, all_matches, dot, wildcard_prefix,
}

-- A key covers a host: the same name, a name that ends in a dot and the key, or any.
abbrev pub Covers : HostnameMatch → Str → Type 0
Covers (exact s) host = s ≡ host
Covers (wildcard s) host = (p : Str) × (host ≡ p ++ dot ∷ s)
Covers any_host host = Unit {0}

-- The wildcard keys, by recursion on the host.
tails : Str → List HostnameMatch
tails [] = []
tails (x ∷ xs) = if nat_beq x dot then wildcard xs ∷ tails xs else tails xs

abbrev joined : List (List Str) → List HostnameMatch
joined = map (λ ps. wildcard (join dot ps))

joined-suffixes :
    (ps : List Str)
    → ps ≢ []
    → joined (suffixes ps) ≡ wildcard (join dot ps) ∷ joined (suffixes (drop 1 ps))
joined-suffixes [] h = absurd (h refl)
joined-suffixes (p ∷ ps) h = refl

drop-push_first : (x : ℕ) (ps : List Str) → ps ≢ [] → drop 1 (push_first x ps) ≡ drop 1 ps
drop-push_first x [] h = absurd (h refl)
drop-push_first x (p ∷ ps) h = refl

wildcards-eq-tails : (host : Str) → wildcards host ≡ tails host
unfolding wildcards tails split
wildcards-eq-tails [] = refl
wildcards-eq-tails (x ∷ xs) = elim (Bool-cases (nat_beq x dot)) [
  | inl at_dot ↦ rw at_dot (
      joined-suffixes (split dot xs) (split-ne-nil dot xs)
      ∙ cc (join-split dot xs, wildcards-eq-tails xs))
  | inr inside ↦ rw inside (
      ap (λ ps. joined (suffixes ps)) (drop-push_first x (split dot xs) (split-ne-nil dot xs))
      ∙ wildcards-eq-tails xs)
]

-- The keys among the wildcards are those whose dotted name ends the host.
tails_sound :
    (host : Str) (k : HostnameMatch)
    → In k (tails host)
    → (s : Str) × (p : Str) × (k ≡ wildcard s) × (host ≡ p ++ dot ∷ s)
unfolding tails
tails_sound [] k h = absurd h
tails_sound (x ∷ xs) k h = elim (Bool-cases (nat_beq x dot)) [
  | inl at_dot ↦ elim (let i : (k ≡ wildcard xs) ⊎ In k (tails xs) = rw at_dot at h in i) [
    | inl e ↦ (xs, [], e, ground arith)
    | inr i ↦ let (s, p, e, f) = tails_sound xs k i in (s, x ∷ p, e, ap (◌∷◌ x) f)
  ]
  | inr inside ↦ let (s, p, e, f) = tails_sound xs k (rw inside at h) in (s, x ∷ p, e, ap (◌∷◌ x) f)
]

tails_complete : (p s : Str) → In (wildcard s) (tails (p ++ dot ∷ s))
unfolding tails
tails_complete [] s = inl refl
tails_complete (x ∷ p) s = elim (Bool-cases (nat_beq x dot)) [
  | inl at_dot ↦ rw at_dot (inr (tails_complete p s))
  | inr inside ↦ rw inside (tails_complete p s)
]

-- Longer wildcard keys come first.
abbrev pub Shorter : ℕ → List HostnameMatch → Type 0
Shorter n [] = Unit
Shorter n (wildcard s ∷ ks) = (length s < n) × Shorter (length s) ks
Shorter n (exact s ∷ ks) = ⊥
Shorter n (any_host ∷ ks) = ⊥

Shorter-mono : (m n : ℕ) (ks : List HostnameMatch) → m < n → Shorter m ks → Shorter n ks
Shorter-mono m n [] h s = tt
Shorter-mono m n (wildcard x ∷ ks) h s = (omega arith, s.1)
Shorter-mono m n (exact x ∷ ks) h s = s
Shorter-mono m n (any_host ∷ ks) h s = s

tails-Shorter : (host : Str) → Shorter (length host) (tails host)
unfolding tails
tails-Shorter [] = tt
tails-Shorter (x ∷ xs) = elim (Bool-cases (nat_beq x dot)) [
  | inl at_dot ↦ rw at_dot (omega arith, tails-Shorter xs)
  | inr inside ↦
      rw inside
        (Shorter-mono (length xs) (suc (length xs)) (tails xs) (omega arith) (tails-Shorter xs))
]

all_matches_eq :
    (host : Str)
    → starts_with wildcard_prefix host ≡ false
    → all_matches host ≡ exact host ∷ (tails host ++ any_host ∷ [])
unfolding all_matches
all_matches_eq host plain = rw (plain, wildcards-eq-tails host)

wildcard-injective : {s t : Str} → wildcard s ≡ wildcard t → s ≡ t
wildcard-injective e = cc

keys_sound :
    (host : Str) (k : HostnameMatch)
    → (k ≡ exact host) ⊎ In k (tails host ++ any_host ∷ [])
    → Covers k host
keys_sound host (exact s) (inl e) = cc
keys_sound host (wildcard s) (inl e) = absurd (cc)
keys_sound host any_host h = tt
keys_sound host (exact s) (inr i) = elim ((In-append (exact s) (tails host) (any_host ∷ [])).0 i) [
  | inl j ↦ let (t, p, e, f) = tails_sound host (exact s) j in absurd (cc)
  | inr (inl e) ↦ absurd (cc)
  | inr (inr z) ↦ absurd z
]
keys_sound host (wildcard s) (inr i) =
    elim ((In-append (wildcard s) (tails host) (any_host ∷ [])).0 i) [
      | inl j ↦
          let (t, p, e, f) = tails_sound host (wildcard s) j in (p, rw (wildcard-injective e) f)
      | inr (inl e) ↦ absurd (cc)
      | inr (inr z) ↦ absurd z
    ]

keys_complete :
    (host : Str) (k : HostnameMatch)
    → Covers k host
    → (k ≡ exact host) ⊎ In k (tails host ++ any_host ∷ [])
keys_complete host (exact s) e = inl (ap exact e)
keys_complete host (wildcard s) (p, e) = inr (
    (In-append (wildcard s) (tails host) (any_host ∷ [])).1
      (inl (subst (λ h. In (wildcard s) (tails h)) (sym e) (tails_complete p s))))
keys_complete host any_host _ =
    inr ((In-append any_host (tails host) (any_host ∷ [])).1 (inr (inl refl)))

all_matches_iff :
    (host : Str) (k : HostnameMatch)
    → starts_with wildcard_prefix host ≡ false
    → In k (all_matches host) ↔ Covers k host
all_matches_iff host k plain =
    rw (all_matches_eq host plain) (keys_sound host k, keys_complete host k)

all_matches_order :
    (host : Str)
    → starts_with wildcard_prefix host ≡ false
    → (ks : List HostnameMatch) × (all_matches host ≡ exact host ∷ (ks ++ any_host ∷ []))
      × Shorter (length host) ks
all_matches_order host plain = (tails host, all_matches_eq host plain, tails-Shorter host)

-- A host that is no pattern itself tries exactly the keys that cover it, and these come from the most
-- specific to the least: the host itself, then the wildcards from the longest to the shortest, then
-- the key for any host.
pub all_matches_lem :
    (host : Str)
    → starts_with wildcard_prefix host ≡ false
    → ((k : HostnameMatch) → In k (all_matches host) ↔ Covers k host)
      × ((ks : List HostnameMatch) × (all_matches host ≡ exact host ∷ (ks ++ any_host ∷ []))
          × Shorter (length host) ks)
all_matches_lem host plain = (λ k. all_matches_iff host k plain, all_matches_order host plain)
