-- ===== src/Cors.antt =====
-- crates/agentgateway/src/http/cors.rs: the CORS filter. Header maps and the parsers of names and
-- values are those of the `http` crate (`HeaderLib`).
pub mod Allow
mod Tests
use agentproxy.Prelude.{
  ℕ, Bool, true, false, Option, none, some, List, [], ◌∷◌, ◌++◌, if◌then◌else◌, Str, codes, str_eq,
  ◌==◌, any, head?,
}
use agentproxy.Prelude.Map.{member}
use agentproxy.Prelude.Outcome.{Outcome, ok, err, panic, ◌>>=◌, ok_or}
use agentproxy.Filters.Uris.{show_u64}
use agentproxy.Filters.Headers.{HeaderLib}

-- A list holds the text of its entries.
pub data WildcardOrList : Type 0 where
  unset wildcard : WildcardOrList
  list : List Str → WildcardOrList

pub data ConfigError : Type 0 where
  invalid_entry invalid_max_age : ConfigError

abbrev pub star : Str
star = codes "*"

-- `collect::<Result<Vec<T>, _>>` of the parsed entries.
parse_all : (Str → Option Str) → List Str → Outcome ConfigError (List Str)
parse_all parse [] = ok []
parse_all parse (v ∷ vs) =
    let rest = parse_all parse vs in do x ← ok_or (parse v) invalid_entry; xs ← rest; ok (x ∷ xs)

-- `TryFrom<Vec<String>>`.
unfoldable pub from_list :
    (parse : Str → Option Str) → List Str → Outcome ConfigError WildcardOrList
unfolding parse_all member
from_list parse [] = ok unset
from_list parse (v ∷ vs) =
    if member star (v ∷ vs) then ok wildcard else (do xs ← parse_all parse (v ∷ vs); ok (list xs))

-- `[String]::join(",")`.
abbrev pub comma_join : List Str → Str
comma_join [] = []
comma_join (x ∷ []) = x
comma_join (x ∷ y ∷ xs) = x ++ (b',' ∷ comma_join (y ∷ xs))

pub record CorsSerde : Type 0 where
  pub allow_credentials : Bool
  pub allow_headers : List Str
  pub allow_methods : List Str
  pub allow_origins : List Str
  pub expose_headers : List Str
  pub max_age : Option ℕ

pub record Cors : Type 0 where
  pub allow_credentials : Bool
  pub allow_headers : WildcardOrList
  pub allow_methods : WildcardOrList
  pub allow_origins : WildcardOrList
  pub expose_headers : WildcardOrList
  pub max_age : Option Str

abbrev pub origin_name : Str
origin_name = codes "origin"

abbrev pub allow_origin_name : Str
allow_origin_name = codes "access-control-allow-origin"

abbrev pub allow_methods_name : Str
allow_methods_name = codes "access-control-allow-methods"

abbrev pub allow_headers_name : Str
allow_headers_name = codes "access-control-allow-headers"

abbrev pub max_age_name : Str
max_age_name = codes "access-control-max-age"

abbrev pub allow_credentials_name : Str
allow_credentials_name = codes "access-control-allow-credentials"

abbrev pub expose_headers_name : Str
expose_headers_name = codes "access-control-expose-headers"

-- How the entries of each list and the age are parsed.
pub record Parsers : Type 0 where
  pub header_name : Str → Option Str
  pub method : Str → Option Str
  pub origin : Str → Option Str
  pub header_value : Str → Option Str

abbrev parse_age : (Str → Option Str) → Option ℕ → Outcome ConfigError (Option Str)
parse_age parse none = ok none
parse_age parse (some secs) = do v ← ok_or (parse (show_u64 secs)) invalid_max_age; ok (some v)

-- `TryFrom<CorsSerde>`.
unfoldable pub from_serde : Parsers → CorsSerde → Outcome ConfigError Cors
unfolding from_list show_u64
from_serde p value = do
  headers ← from_list p.header_name value.allow_headers
  methods ← from_list p.method value.allow_methods
  origins ← from_list p.origin value.allow_origins
  exposed ← from_list p.header_name value.expose_headers
  age ← parse_age p.header_value value.max_age
  ok (record {
    allow_credentials = value.allow_credentials;
    allow_headers = headers;
    allow_methods = methods;
    allow_origins = origins;
    expose_headers = exposed;
    max_age = age;
  })

abbrev pub ok_status : ℕ
ok_status = 200

-- Whether a configured list of origins admits an origin.
unfoldable pub allows_origin : WildcardOrList → Str → Bool
allows_origin unset origin = false
allows_origin wildcard origin = true
allows_origin (list origins) origin = any (λ want. want == origin) origins

module _ (lib : HeaderLib) where
  open lib use {Headers, header_value, get_all, append, insert, empty}

  pub record Request : Type 0 where
    pub method : Str
    pub headers : Headers

  -- The answer to a preflight: an empty body under a status and headers.
  pub record Preflight : Type 0 where
    pub status : ℕ
    pub headers : Headers

  pub record CorsResponse : Type 0 where
    pub direct_response : Option Preflight
    pub response_headers : Option Headers

  abbrev pub no_response : CorsResponse
  no_response = record { direct_response = none; response_headers = none }

  unfoldable pub to_header_value : WildcardOrList → Option Str
  to_header_value unset = none
  to_header_value wildcard = some star
  to_header_value (list xs) = header_value (comma_join xs)

  -- `if let Some(h) = value { .. }` with the builder's `header`, and with the map's `insert`.
  abbrev pub append_some : (name : Str) → Option Str → Headers → Headers
  append_some name none h = h
  append_some name (some v) h = append h name v

  abbrev pub insert_some : (name : Str) → Option Str → Headers → Headers
  insert_some name none h = h
  insert_some name (some v) h = insert h name v

  preflight : Cors → (origin : Str) → Preflight
  unfolding to_header_value
  preflight c origin = record {
    status = ok_status;
    headers = append_some max_age_name c.max_age (
        append_some allow_headers_name (to_header_value c.allow_headers) (
          append_some allow_methods_name (to_header_value c.allow_methods)
            (append empty allow_origin_name origin)));
  }

  added_headers : Cors → (origin : Str) → Headers
  unfolding to_header_value
  added_headers c origin = insert_some expose_headers_name (to_header_value c.expose_headers) (
      insert_some allow_credentials_name (if c.allow_credentials then some (codes "true") else none)
        (insert empty allow_origin_name origin))

  -- `HeaderMap::get`: the first value.
  abbrev pub first_value : Headers → Str → Option Str
  first_value h name = head? (get_all h name)

  unfoldable pub apply : Cors → Request → CorsResponse
  unfolding preflight added_headers allows_origin
  apply c req = elim (first_value req.headers origin_name) [
    | none ↦ no_response
    | some origin ↦
        if allows_origin c.allow_origins origin
        then if req.method == codes "OPTIONS"
          then record { direct_response = some (preflight c origin); response_headers = none }
          else record { direct_response = none; response_headers = some (added_headers c origin) }
        else no_response
  ]
