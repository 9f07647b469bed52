-- ===== src/Cors/Tests.antt =====
-- The CORS filter at concrete requests.
use agentproxy.Prelude.{
  ◌≡◌, refl, ◌⊎◌, ◌≢◌, true, ◌||◌, none, some, List, [], ◌∷◌, ◌++◌, if◌then◌else◌, Str, str_eq,
  ◌==◌, codes,
}
use agentproxy.Prelude.Map.{member}
use agentproxy.Prelude.Outcome.{ok}
use agentproxy.Filters.Headers.{HeaderLib}
use agentproxy.Cors.{
  WildcardOrList, unset, wildcard, list, star, from_list, Cors, Request, Preflight, no_response,
  first_value, apply, allows_origin, origin_name,
}
use agentproxy.Cors.Allow.{allows_origin-from_list, apply_cases, IsQuiet, Answers, Exposes}

abbrev origins : List Str
origins = codes "http://a.com" ∷ codes "http://b.com" ∷ []

allows_origin-from_list_example :
    (w : WildcardOrList) × (from_list some origins ≡ ok w)
    × (allows_origin w (codes "http://b.com")
        ≡ (member star origins || member (codes "http://b.com") origins))
allows_origin-from_list_example = allows_origin-from_list origins (codes "http://b.com")

-- A header map as the function from a name to its values.
abbrev small_headers : HeaderLib
small_headers = record {
  Headers = Str → List Str;
  header_name = some;
  header_value = some;
  empty = λ n. [];
  get_all = λ h n. h n;
  append = λ h k v n. if k == n then h n ++ v ∷ [] else h n;
  insert = λ h k v n. if k == n then v ∷ [] else h n;
  remove = λ h k n. if k == n then [] else h n;
  get_all-empty = λ n. refl;
  get_all-append = λ h k v n. refl;
  get_all-insert = λ h k v n. refl;
  get_all-remove = λ h k n. refl;
}

abbrev cors : Cors
cors = record {
  allow_credentials = true;
  allow_headers = wildcard;
  allow_methods = list (codes "GET" ∷ codes "PUT" ∷ []);
  allow_origins = list origins;
  expose_headers = unset;
  max_age = none;
}

abbrev request : Request small_headers
request = record {
  method = codes "OPTIONS";
  headers = λ n. if origin_name == n then codes "http://b.com" ∷ [] else [];
}

apply_cases_example :
    (IsQuiet small_headers cors request
      × (apply small_headers cors request ≡ no_response small_headers))
    ⊎ ((o : Str) × (p : Preflight small_headers) × (first_value small_headers request.headers
            origin_name
          ≡ some o)
        × (allows_origin cors.allow_origins o ≡ true)
        × (request.method ≡ codes "OPTIONS")
        × (apply small_headers cors request
            ≡ record { direct_response = some p; response_headers = none })
        × Answers small_headers cors o p)
    ⊎ ((o : Str) × (h : small_headers.Headers) × (first_value small_headers request.headers
            origin_name
          ≡ some o)
        × (allows_origin cors.allow_origins o ≡ true)
        × (request.method ≢ codes "OPTIONS")
        × (apply small_headers cors request
            ≡ record { direct_response = none; response_headers = some h })
        × Exposes small_headers cors o h)
apply_cases_example = apply_cases small_headers cors request
