-- ===== src/Discovery/RoundTrip.antt =====
-- Identities are read from exactly the texts that they are printed as.
use agentproxy.Prelude.{
  ℕ, ◌≡◌, refl, sym, ap, ◌∙◌, ◌↔◌, none, some, List, [], ◌∷◌, ◌++◌, Str, str_eq, codes, ==_iff,
  strip_prefix, strip_prefix_sound, strip_prefix_complete, split, join, join-split, split-Free,
  Free, All, Option-cases, arith, subst, inl, ◌≢◌, inr, split-join,
}
use agentproxy.Discovery.Formats.{
  slash, Identity, uri_prefix, identity_of, parse_identity, print_identity,
}

-- The parts of an identity's text, after the prefix.
abbrev parts : Identity → List Str
parts i = i.trust_domain ∷ codes "ns" ∷ i.namespace ∷ codes "sa" ∷ i.service_account ∷ []

abbrev pub NoSlash : Identity → Type 0
NoSlash i = Free slash i.trust_domain × Free slash i.namespace × Free slash i.service_account

identity_of-parts : (ps : List Str) (i : Identity) → identity_of ps ≡ some i → ps ≡ parts i
identity_of-parts [] i h = cc
identity_of-parts (a ∷ []) i h = cc
identity_of-parts (a ∷ b ∷ []) i h = cc
identity_of-parts (a ∷ b ∷ c ∷ []) i h = cc
identity_of-parts (a ∷ b ∷ c ∷ d ∷ []) i h = cc
identity_of-parts (a ∷ b ∷ c ∷ d ∷ e ∷ f ∷ ps) i h = cc
identity_of-parts (a ∷ b ∷ c ∷ d ∷ e ∷ []) i h =
    ground (arith, ==_iff b (codes "ns"), ==_iff d (codes "sa"))

join-parts : (i : Identity) → print_identity i ≡ uri_prefix ++ join slash (parts i)
unfolding print_identity join
join-parts i = refl

word : (c d : ℕ) → c ≢ slash → d ≢ slash → Free slash (c ∷ d ∷ [])
word c d e f = (e, (f, tt))

parts-Free : (i : Identity) → NoSlash i → All (Free slash) (parts i)
parts-Free i (t, n, s) = (
  t,
  (
    word 110 115 (omega arith) (omega arith),
    (n, (word 115 97 (omega arith) (omega arith), (s, tt))),
  ),
)

parts-NoSlash : (i : Identity) → All (Free slash) (parts i) → NoSlash i
parts-NoSlash i (t, (a, (n, (b, (s, u))))) = (t, n, s)

parse_step :
    (s rest : Str)
    → strip_prefix uri_prefix s ≡ some rest
    → parse_identity s ≡ identity_of (split slash rest)
unfolding parse_identity
parse_step s rest e = ground arith

parse_fails : (s : Str) → strip_prefix uri_prefix s ≡ none → parse_identity s ≡ none
unfolding parse_identity
parse_fails s e = ground arith

identity_of_own : (i : Identity) → identity_of (parts i) ≡ some i
identity_of_own i = refl

parsed_parts :
    (s rest : Str) (i : Identity)
    → strip_prefix uri_prefix s ≡ some rest
    → parse_identity s ≡ some i
    → (s ≡ print_identity i) × NoSlash i
parsed_parts s rest i e h =
    let q = identity_of-parts (split slash rest) i (sym (parse_step s rest e) ∙ h) in
    let r : rest ≡ join slash (parts i) = sym (join-split slash rest) ∙ ap (join slash) q in
    (
      strip_prefix_sound uri_prefix s rest e ∙ ap (λ x. uri_prefix ++ x) r ∙ sym (join-parts i),
      parts-NoSlash i (subst (All (Free slash)) q (split-Free slash rest)),
    )

-- A text is read as an identity exactly if it is what the identity is printed as, and none of the
-- identity's parts holds a slash.
pub parse_identity-print_identity :
    (s : Str) (i : Identity) → (parse_identity s ≡ some i) ↔ ((s ≡ print_identity i) × NoSlash i)
parse_identity-print_identity s i = (
  λ h. elim (Option-cases (strip_prefix uri_prefix s)) [
    | inl e ↦ absurd (cc (parse_fails s e))
    | inr (rest, e) ↦ parsed_parts s rest i e h
  ],
  λ (q, f).
      rw (q, join-parts i)
        (parse_step (uri_prefix ++ join slash (parts i)) (join slash (parts i))
            (strip_prefix_complete uri_prefix (join slash (parts i)))
          ∙ (ap identity_of (split-join slash i.trust_domain _ (parts-Free i f))
              ∙ identity_of_own i)),
)
