-- ===== src/Filters/Rewrite.antt =====
-- When a path rewrite works and when it panics, and what a URL rewrite leaves behind.
use agentproxy.Prelude.{
  ◌≤◌, ◌<◌, ◌≡◌, refl, ◌≢◌, ◌⊎◌, ◌↔◌, inl, inr, arith, Bool-cases, Option, none, some, [], ◌∷◌,
  ◌++◌, length, drop, drop-length-append, Str, is_empty, starts_with, not, ◌&&◌, nat_beq,
  Option-cases, if◌then◌else◌, true, false, ℕ, subst, get_elem?, ap, ◌∙◌,
}
use agentproxy.Prelude.Utf8.{
  is_char_boundary, is_utf8, is_char_boundary-append, is_char_boundary-false,
}
use agentproxy.Prelude.Outcome.{ok, panic, ok_or, Outcome-cases, ok_or-ne-panic, ◌>>=◌}
use agentproxy.Filters.Uris.{
  UriLib, PathRedirect, PathMatch, path_prefix, prefix_path, rewrite_path, with_query,
  invalid_http_uri, slash, rewrite_url, UrlRewrite, UrlState, rewrite_host, unwrap_or, http,
}

-- What stands between the replacement and the rest of the path.
abbrev pub separator : Str → Str
separator [] = []
separator (c ∷ rest) = if nat_beq c b'/' then [] else slash

prefix_path_split :
    (r pfx rest : Str)
    → is_char_boundary (pfx ++ rest) (length pfx) ≡ true
    → prefix_path r pfx (pfx ++ rest) ≡ ok (r ++ (separator rest ++ rest))
unfolding prefix_path
prefix_path_split r pfx [] h = rw h (ground (arith, drop-length-append pfx []))
prefix_path_split r pfx (c ∷ rest) h = rw h (ground (arith, drop-length-append pfx (c ∷ rest)))

prefix_path_inside :
    (r pfx path : Str) → is_char_boundary path (length pfx) ≡ false → prefix_path r pfx path ≡ panic
unfolding prefix_path
prefix_path_inside r pfx path h = rw h

prefix_path_boundary :
    (r pfx path : Str)
    → is_char_boundary path (length pfx) ≡ true
    → (p : Str) × (prefix_path r pfx path ≡ ok p)
unfolding prefix_path
prefix_path_boundary r pfx path h =
    let rest = drop (length pfx) path in
    elim (Bool-cases (not (is_empty rest) && not (starts_with slash rest))) [
      | inl slashed ↦ (r ++ (slash ++ rest), rw (h, slashed))
      | inr plain ↦ (r ++ rest, rw (h, plain))
    ]

-- A path that is cut after so many bytes: it is shorter, or its next byte goes on with a character.
abbrev pub IsCutInside : Str → ℕ → Type 0
IsCutInside path n =
    (length path < n) ⊎ ((0 < n) × (b : ℕ) × (get_elem? path n ≡ some b) × (128 ≤ b) × (b < 192))

module _ (lib : UriLib) where
  -- Of a path that begins with the matched prefix, both UTF-8, a prefix rewrite replaces just that
  -- prefix: the rest of the path stays, after a slash if it brings none of its own, and so does the
  -- query.
  pub rewrite_path_of_prefix :
      (r pfx rest : Str) (uri : lib.Uri)
      → is_utf8 pfx ≡ true
      → is_utf8 (lib.path uri) ≡ true
      → lib.path uri ≡ pfx ++ rest
      → rewrite_path lib (some (PathRedirect.prefix r)) (path_prefix pfx) uri
        ≡ ok_or
            (lib.parse_path_and_query (with_query (r ++ (separator rest ++ rest)) (lib.query uri)))
            invalid_http_uri
  unfolding rewrite_path
  rewrite_path_of_prefix r pfx rest uri h k e =
      let whole : is_utf8 (pfx ++ rest) ≡ true = subst (λ s. is_utf8 s ≡ true) e k in
      let split = prefix_path_split r pfx rest (is_char_boundary-append pfx rest h whole) in
      ap
        (λ o. o >>= λ p.
          ok_or (lib.parse_path_and_query (with_query p (lib.query uri))) invalid_http_uri)
        (ap (prefix_path r pfx) e ∙ split)

  -- A path rewrite panics exactly if it replaces a prefix that is longer than the path, or whose length
  -- falls inside a multi-byte character of the path: on a byte from 128 to 191.
  pub rewrite_path_panics_iff :
      (rewrite : Option PathRedirect) (m : PathMatch) (uri : lib.Uri)
      → (rewrite_path lib rewrite m uri ≡ panic) ↔ (
          (r : Str) × (pfx : Str) × (rewrite ≡ some (PathRedirect.prefix r))
          × (m ≡ path_prefix pfx)
          × IsCutInside (lib.path uri) (length pfx))
  unfolding rewrite_path
  rewrite_path_panics_iff none m uri =
      (λ e. absurd (ok_or-ne-panic _ _ e), λ (r, pfx, e, _, _). absurd (cc))
  rewrite_path_panics_iff (some (PathRedirect.full r)) m uri =
      (λ e. absurd (ok_or-ne-panic _ _ e), λ (r, pfx, e, _, _). absurd (cc))
  rewrite_path_panics_iff (some (PathRedirect.prefix r)) (PathMatch.exact p) uri =
      (λ e. absurd (cc), λ (r, pfx, _, e, _). absurd (cc))
  rewrite_path_panics_iff (some (PathRedirect.prefix r)) (PathMatch.regex p n) uri =
      (λ e. absurd (cc), λ (r, pfx, _, e, _). absurd (cc))
  rewrite_path_panics_iff (some (PathRedirect.prefix r)) (path_prefix pfx) uri =
      elim (Bool-cases (is_char_boundary (lib.path uri) (length pfx))) [
        | inr inside ↦ (
          λ e. (r, pfx, refl, refl, (is_char_boundary-false (lib.path uri) (length pfx)).0 inside),
          λ _. rw (prefix_path_inside r pfx (lib.path uri) inside),
        )
        | inl boundary ↦
            let (p, e) = prefix_path_boundary r pfx (lib.path uri) boundary in
            rw e (
              λ h. absurd (ok_or-ne-panic _ _ h),
              λ (q, pfx', _, f, h).
                  let g : pfx' ≡ pfx = cc in
                  let cut = subst (λ (s : Str). IsCutInside (lib.path uri) (length s)) g h in
                  absurd
                    (cc (boundary, (is_char_boundary-false (lib.path uri) (length pfx)).1 cut)),
            )
      ]

  -- A URL rewrite always records the original URL. It changes the URL only if it succeeds, and then
  -- to one built with the scheme of the old (http, if it has none).
  pub rewrite_url_cases :
      (r : UrlRewrite) (s : UrlState lib) (m : PathMatch)
      → ((rewrite_url lib r s m).0.original_url ≡ some s.uri)
        × (((rewrite_url lib r s m).1 ≢ ok tt × (rewrite_url lib r s m).0.uri ≡ s.uri)
            ⊎ ((a : lib.Authority) × (p : lib.PathAndQuery) × (lib.build
                    (unwrap_or (lib.scheme s.uri) http)
                    a
                    p
                  ≡ some (rewrite_url lib r s m).0.uri)
                × ((rewrite_url lib r s m).1 ≡ ok tt)
                × (rewrite_path lib r.path m s.uri ≡ ok p)))
  unfolding rewrite_url
  rewrite_url_cases r s m =
      elim (Outcome-cases (
        rewrite_host lib r.authority s.uri (some (unwrap_or (lib.scheme s.uri) http))
          (unwrap_or (lib.scheme s.uri) http))) [
            | inl (a, ea) ↦ elim (Outcome-cases (rewrite_path lib r.path m s.uri)) [
              | inl (p, ep) ↦
                  elim (Option-cases (lib.build (unwrap_or (lib.scheme s.uri) http) a p)) [
                    | inl eb ↦ (ground arith, inl (ground arith))
                    | inr (u, eb) ↦ (ground arith, inr (a, p, ground arith, ground arith, ep))
                  ]
              | inr (inl (e, ep)) ↦ (ground arith, inl (ground arith))
              | inr (inr ep) ↦ (ground arith, inl (ground arith))
            ]
            | inr (inl (e, ea)) ↦ (ground arith, inl (ground arith))
            | inr (inr ea) ↦ (ground arith, inl (ground arith))
          ]
