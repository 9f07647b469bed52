-- ===== src/Cors/Allow.antt =====
-- Which origins get CORS headers, and which headers.
use agentproxy.Prelude.{
  ◌≡◌, refl, ◌⊎◌, inl, inr, ◌≢◌, arith, true, false, ◌||◌, Option, none, some, List, [], ◌∷◌, ◌++◌,
  if◌then◌else◌, Str, codes, str_eq, ◌==◌, ==_iff, ==_eq, any, Option-cases, Bool-cases,
}
use mathlib.Core.List.{append-nil}
use agentproxy.Prelude.Map.{member}
use agentproxy.Prelude.Outcome.{ok}
use agentproxy.Filters.Headers.{HeaderLib}
use agentproxy.Cors.{
  WildcardOrList, unset, wildcard, list, star, parse_all, from_list, Cors, Request, Preflight,
  no_response, preflight, added_headers, first_value, apply, allows_origin, to_header_value,
  origin_name, allow_origin_name, allow_methods_name, allow_headers_name, allow_credentials_name,
  expose_headers_name, max_age_name, ok_status, append_some, insert_some,
}

parse_all-some : (vs : List Str) → parse_all some vs ≡ ok vs
unfolding parse_all
parse_all-some [] = refl
parse_all-some (v ∷ vs) = rw (parse_all-some vs)

any-eq-member : (o : Str) (vs : List Str) → any (λ want. want == o) vs ≡ member o vs
unfolding member
any-eq-member o [] = refl
any-eq-member o (v ∷ vs) = ground (arith, any-eq-member o vs)

-- Origins are texts that need no parsing. The configured list then admits an origin exactly if the
-- list holds a star or the origin itself.
pub allows_origin-from_list :
    (vs : List Str) (origin : Str)
    → (w : WildcardOrList) × (from_list some vs ≡ ok w)
      × (allows_origin w origin ≡ (member star vs || member origin vs))
unfolding from_list allows_origin
allows_origin-from_list [] origin = (unset, refl, unfold member in refl)
allows_origin-from_list (v ∷ vs) origin = elim (Bool-cases (member star (v ∷ vs))) [
  | inl starred ↦ (wildcard, ground arith, ground arith)
  | inr plain ↦ (
    list (v ∷ vs),
    ground (arith, parse_all-some (v ∷ vs)),
    ground (arith, any-eq-member origin (v ∷ vs)),
  )
]

module _ (lib : HeaderLib) where
  open lib use {
    Headers, get_all, get_all-empty, get_all-append, get_all-insert, append, insert, empty,
  }

  abbrev pub IsQuiet : Cors → Request lib → Type 0
  IsQuiet c req =
      (first_value lib req.headers origin_name ≡ none)
      ⊎ ((o : Str) × (first_value lib req.headers origin_name ≡ some o)
          × (allows_origin c.allow_origins o ≡ false))

  abbrev values_of : Option Str → List Str
  values_of none = []
  values_of (some v) = v ∷ []

  get_all-append_some :
      (name n : Str) (o : Option Str) (h : Headers)
      → get_all (append_some lib name o h) n
        ≡ (if name == n then get_all h n ++ values_of o else get_all h n)
  get_all-append_some name n none h = ground (arith, append-nil (get_all h n))
  get_all-append_some name n (some v) h = get_all-append h name v n

  -- `insert` of an optional value into a map that has none under the name.
  get_all-insert_some :
      (name n : Str) (o : Option Str) (h : Headers)
      → get_all h name ≡ []
      → get_all (insert_some lib name o h) n ≡ (if name == n then values_of o else get_all h n)
  get_all-insert_some name n none h e = ground (arith, ==_iff name n)
  get_all-insert_some name n (some v) h e = get_all-insert h name v n

  -- What a preflight's answer says.
  pub record Answers (c : Cors) (origin : Str) (p : Preflight lib) : Type 0 where
    pub status : p.status ≡ ok_status
    pub allow_origin : get_all p.headers allow_origin_name ≡ origin ∷ []
    pub methods :
        get_all p.headers allow_methods_name ≡ values_of (to_header_value lib c.allow_methods)
    pub headers :
        get_all p.headers allow_headers_name ≡ values_of (to_header_value lib c.allow_headers)
    pub age : get_all p.headers max_age_name ≡ values_of c.max_age
    pub no_credentials : get_all p.headers allow_credentials_name ≡ []

  preflight-Answers : (c : Cors) (origin : Str) → Answers c origin (preflight lib c origin)
  unfolding preflight
  preflight-Answers c origin = record {
    status = refl;
    allow_origin = simp (get_all-append_some, get_all-append, get_all-empty);
    methods = simp (get_all-append_some, get_all-append, get_all-empty);
    headers = simp (get_all-append_some, get_all-append, get_all-empty);
    age = simp (get_all-append_some, get_all-append, get_all-empty);
    no_credentials = simp (get_all-append_some, get_all-append, get_all-empty);
  }

  -- What is added to the response of an actual request.
  pub record Exposes (c : Cors) (origin : Str) (h : Headers) : Type 0 where
    pub allow_origin : get_all h allow_origin_name ≡ origin ∷ []
    pub credentials :
        get_all h allow_credentials_name ≡ (if c.allow_credentials then codes "true" ∷ [] else [])
    pub exposed : get_all h expose_headers_name ≡ values_of (to_header_value lib c.expose_headers)
    pub no_methods : get_all h allow_methods_name ≡ []

  added_headers-Exposes : (c : Cors) (origin : Str) → Exposes c origin (added_headers lib c origin)
  unfolding added_headers
  added_headers-Exposes c origin = record {
    allow_origin = simp (first_free, second_free, get_all-insert);
    credentials = simp (second_free, first_free, get_all-insert, get_all-empty) (ground arith);
    exposed = simp second_free;
    no_methods = simp (second_free, first_free, get_all-insert, get_all-empty);
  }
    where
      base : Headers
      base = insert empty allow_origin_name origin

      given : Option Str
      given = if c.allow_credentials then some (codes "true") else none

      first_free :
          (n : Str)
          → get_all (insert_some lib allow_credentials_name given base) n
            ≡ (if allow_credentials_name == n then values_of given else get_all base n)
      first_free n =
          get_all-insert_some allow_credentials_name n given base
            (simp (get_all-insert, get_all-empty))

      second_free :
          (n : Str)
          → get_all
              (insert_some lib expose_headers_name
                (to_header_value lib c.expose_headers)
                (insert_some lib allow_credentials_name given base))
              n
            ≡ (if expose_headers_name == n
                then values_of (to_header_value lib c.expose_headers)
                else get_all (insert_some lib allow_credentials_name given base) n)
      second_free n =
          get_all-insert_some expose_headers_name n (to_header_value lib c.expose_headers)
            (insert_some lib allow_credentials_name given base)
            (simp (first_free, get_all-insert, get_all-empty))

  -- A request without an origin, or whose first origin is not allowed, gets no response and no
  -- headers. An `OPTIONS` request of an allowed origin is answered at once: with status 200, its
  -- origin, the configured methods, headers and age, and without credentials. Any other request of an
  -- allowed origin goes on, and its response gets the origin, the credentials header exactly if
  -- configured, the exposed headers, and no methods.
  pub apply_cases :
      (c : Cors) (req : Request lib)
      → (IsQuiet c req × (apply lib c req ≡ no_response lib))
        ⊎ ((o : Str) × (p : Preflight lib) × (first_value lib req.headers origin_name ≡ some o)
            × (allows_origin c.allow_origins o ≡ true)
            × (req.method ≡ codes "OPTIONS")
            × (apply lib c req ≡ record { direct_response = some p; response_headers = none })
            × Answers c o p)
        ⊎ ((o : Str) × (h : Headers) × (first_value lib req.headers origin_name ≡ some o)
            × (allows_origin c.allow_origins o ≡ true)
            × (req.method ≢ codes "OPTIONS")
            × (apply lib c req ≡ record { direct_response = none; response_headers = some h })
            × Exposes c o h)
  unfolding apply
  apply_cases c req = elim (Option-cases (first_value lib req.headers origin_name)) [
    | inl missing ↦ inl (inl missing, rw (missing, apply))
    | inr (o, e) ↦ elim (Bool-cases (allows_origin c.allow_origins o)) [
      | inr refused ↦ inl (inr (o, e, refused), ground arith)
      | inl allowed ↦ elim (Bool-cases (req.method == codes "OPTIONS")) [
        | inl options ↦ inr (
            inl (
              o,
              preflight lib c o,
              e,
              allowed,
              ==_eq req.method _ options,
              ground arith,
              preflight-Answers c o,
            ))
        | inr other ↦ inr (
            inr (
              o,
              added_headers lib c o,
              e,
              allowed,
              (λ q. ground (arith, ==_iff req.method (codes "OPTIONS"))),
              ground arith,
              added_headers-Exposes c o,
            ))
      ]
    ]
  ]
