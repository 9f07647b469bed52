-- ===== src/Select/Prefix.antt =====
-- When a path matches a prefix, and where such a match and a rewrite of the prefix disagree.
use agentproxy.Prelude.{
  ◌≡◌, refl, sym, ap, ◌∙◌, ◌⊎◌, ◌↔◌, inl, inr, arith, true, ◌||◌, some, [], ◌∷◌, ◌++◌,
  length-append, is_empty, Str, starts_with, strip_prefix, strip_prefix_sound,
  strip_prefix_complete, trim_end_matches, Option-cases,
}
use mathlib.Core.List.{append-nil}
use agentproxy.Prelude.Outcome.{panic}
use agentproxy.Filters.Uris.{UriLib, PathRedirect, path_prefix, rewrite_path, slash}
use agentproxy.Filters.Rewrite.{rewrite_path_panics_iff}
use agentproxy.Select.{prefix_matches}

-- Nothing, or a slash and what comes after it.
abbrev pub IsSegments : Str → Type 0
IsSegments rest = (rest ≡ []) ⊎ ((t : Str) × (rest ≡ b'/' ∷ t))

IsSegments-iff : (rest : Str) → ((is_empty rest || starts_with slash rest) ≡ true) ↔ IsSegments rest
unfolding starts_with
IsSegments-iff [] = (λ h. inl refl, λ h. refl)
IsSegments-iff (c ∷ t) =
    (λ h. inr (t, ground arith), λ h. elim h [ inl e ↦ absurd (cc) | inr (u, e) ↦ ground arith ])

-- A path matches a prefix exactly if, both without the slashes at their ends, the path is the prefix
-- and after it nothing or a slash and more.
pub prefix_matches_iff :
    (pfx path : Str)
    → (prefix_matches pfx path ≡ true) ↔ (
        (rest : Str) × (trim_end_matches b'/' path ≡ trim_end_matches b'/' pfx ++ rest)
        × IsSegments rest)
unfolding prefix_matches
prefix_matches_iff pfx path =
    elim (Option-cases (strip_prefix (trim_end_matches b'/' pfx) (trim_end_matches b'/' path))) [
      | inl missing ↦ (
        λ h. absurd (ground arith),
        λ (rest, e, h).
            absurd (ground (arith, strip_prefix_complete (trim_end_matches b'/' pfx) rest)),
      )
      | inr (t, found) ↦ (
        λ h. (t, strip_prefix_sound _ _ t found, (IsSegments-iff t).0 (ground arith)),
        λ (rest, e, h).
            let f = strip_prefix_complete (trim_end_matches b'/' pfx) rest in
            let same : some t ≡ some rest =
              sym found ∙ (ap (strip_prefix (trim_end_matches b'/' pfx)) e ∙ f) in
            let g = (IsSegments-iff rest).1 h in ground arith,
      )
    ]

trim_slash : (s : Str) → trim_end_matches b'/' (s ++ slash) ≡ trim_end_matches b'/' s
unfolding trim_end_matches
trim_slash [] = refl
trim_slash (x ∷ xs) = ground (arith, trim_slash xs)

-- A path matches itself followed by a slash, as a prefix. A rewrite of the matched prefix then
-- panics.
pub trailing_slash_panics :
    (lib : UriLib) (r : Str) (uri : lib.Uri)
    → (prefix_matches (lib.path uri ++ slash) (lib.path uri) ≡ true)
      × (rewrite_path lib (some (PathRedirect.prefix r)) (path_prefix (lib.path uri ++ slash)) uri
          ≡ panic)
trailing_slash_panics lib r uri =
    let p = lib.path uri in
    (
      (prefix_matches_iff (p ++ slash) p).1 ([], sym (trim_slash p) ∙ sym (append-nil _), inl refl),
      (rewrite_path_panics_iff lib (some (PathRedirect.prefix r)) (path_prefix (p ++ slash)) uri).1
          (r, p ++ slash, refl, refl, inl (omega (arith, length-append p slash))),
    )
