-- ===== src/Filters/Tests.antt =====
-- The filters over small models of the `http` crate's URIs and header maps.
use agentproxy.Prelude.{
  ◌≡◌, refl, ◌⊎◌, ◌↔◌, ◌≢◌, Option, none, some, List, [], ◌∷◌, ◌++◌, if◌then◌else◌, length, Str,
  str_eq, ◌==◌, codes, split, join,
}
use agentproxy.Prelude.Outcome.{ok, panic, ok_or}
use agentproxy.Filters.Uris.{
  UriLib, http, HostRedirect, PathRedirect, path_prefix, rewrite_path, rewrite_url, UrlRewrite,
  UrlState, with_query, invalid_http_uri, RequestRedirect, redirect, unwrap_or,
}
use agentproxy.Filters.Headers.{HeaderLib, HeaderModifier, modify_headers}
use agentproxy.Prelude.Utf8.{is_utf8}
use agentproxy.Filters.Rewrite.{
  IsCutInside, separator, rewrite_path_of_prefix, rewrite_path_panics_iff, rewrite_url_cases,
}
use agentproxy.Filters.Headers.Modify.{
  get_all-modify_headers, added_for, set_for, set_over, is_removed,
}

record SmallUri : Type 0 where
  host : Str
  path : Str
  query : Option Str

-- A path up to its question mark, and what comes after.
abbrev cut : List Str → Option (Str × Option Str)
cut [] = none
cut (p ∷ []) = some (p, none)
cut (p ∷ q ∷ qs) = some (p, some (join 63 (q ∷ qs)))

abbrev small_uris : UriLib
small_uris = record {
  Uri = SmallUri;
  Authority = Str;
  PathAndQuery = Str × Option Str;
  scheme = λ u. some http;
  authority = λ u. some u.host;
  host = λ u. some u.host;
  port_u16 = λ u. none;
  path = λ u. u.path;
  query = λ u. u.query;
  path_and_query = λ u. some (u.path, u.query);
  parse_authority = some;
  parse_path_and_query = λ s. cut (split 63 s);
  build = λ s a p. some (record { host = a; path = p.0; query = p.1 });
  to_string = λ u. codes "http://" ++ (u.host ++ with_query u.path u.query);
  header_value = some;
}

abbrev uri : SmallUri
uri = record { host = codes "old.com"; path = codes "/foo/bar"; query = some (codes "a=1") }

rewrite_path_of_prefix_example :
    rewrite_path small_uris
      (some (PathRedirect.prefix (codes "/new")))
      (path_prefix (codes "/foo"))
      uri
    ≡ ok_or
        (small_uris.parse_path_and_query (
          with_query
            (codes "/new" ++ (separator (codes "/bar") ++ codes "/bar"))
            (some (codes "a=1"))))
        invalid_http_uri
unfolding is_utf8
rewrite_path_of_prefix_example =
    rewrite_path_of_prefix small_uris (codes "/new") (codes "/foo") (codes "/bar") uri refl refl
      refl

-- A path that ends in a character of two bytes, and a prefix that matches it without its slashes.
abbrev accented : SmallUri
accented = record uri { path = codes "/a/" ++ 195 ∷ 169 ∷ [] }

rewrite_path_panics_iff_example :
    (rewrite_path small_uris
        (some (PathRedirect.prefix (codes "/new")))
        (path_prefix (codes "/a//"))
        accented
      ≡ panic)
    ↔ ((r : Str) × (pfx : Str) × (some (PathRedirect.prefix (codes "/new"))
          ≡ some (PathRedirect.prefix r))
        × (path_prefix (codes "/a//") ≡ path_prefix pfx)
        × IsCutInside accented.path (length pfx))
rewrite_path_panics_iff_example =
    rewrite_path_panics_iff small_uris (some (PathRedirect.prefix (codes "/new")))
      (path_prefix (codes "/a//")) accented

cut_inside :
    rewrite_path small_uris
      (some (PathRedirect.prefix (codes "/new")))
      (path_prefix (codes "/a//"))
      accented
    ≡ panic
unfolding rewrite_path
cut_inside = refl

abbrev url_state : UrlState small_uris
url_state = record { uri = uri; original_url = none }

abbrev to_new_host : UrlRewrite
to_new_host = record { authority = some (HostRedirect.host (codes "new.com")); path = none }

rewrite_url_cases_example :
    ((rewrite_url small_uris to_new_host url_state (path_prefix [])).0.original_url ≡ some uri)
    × (((rewrite_url small_uris to_new_host url_state (path_prefix [])).1 ≢ ok tt
          × (rewrite_url small_uris to_new_host url_state (path_prefix [])).0.uri ≡ uri)
        ⊎ ((a : Str) × (p : Str × Option Str) × (small_uris.build (unwrap_or (some http) http) a p
              ≡ some (rewrite_url small_uris to_new_host url_state (path_prefix [])).0.uri)
            × ((rewrite_url small_uris to_new_host url_state (path_prefix [])).1 ≡ ok tt)
            × (rewrite_path small_uris none (path_prefix []) uri ≡ ok p)))
rewrite_url_cases_example = rewrite_url_cases small_uris to_new_host url_state (path_prefix [])

abbrev to_secure : RequestRedirect
to_secure = record {
  scheme = none;
  authority = some (HostRedirect.full (codes "new.com"));
  path = none;
  status = none;
}

redirect_test :
    redirect small_uris to_secure uri (path_prefix [])
    ≡ ok (record { status = 302; location = codes "http://new.com/foo/bar?a=1" })
unfolding redirect
redirect_test = refl

-- A header map as the function from a name to its values.
abbrev small_headers : HeaderLib
small_headers = record {
  Headers = Str → List Str;
  header_name = some;
  header_value = some;
  empty = λ n. [];
  get_all = λ h n. h n;
  append = λ h k v n. if k == n then h n ++ v ∷ [] else h n;
  insert = λ h k v n. if k == n then v ∷ [] else h n;
  remove = λ h k n. if k == n then [] else h n;
  get_all-empty = λ n. refl;
  get_all-append = λ h k v n. refl;
  get_all-insert = λ h k v n. refl;
  get_all-remove = λ h k n. refl;
}

abbrev modifier : HeaderModifier
modifier = record {
  add = (codes "x", codes "1") ∷ (codes "y", codes "2") ∷ [];
  set = (codes "y", codes "3") ∷ [];
  remove = codes "z" ∷ [];
}

abbrev no_headers : Str → List Str
no_headers n = []

get_all-modify_headers_example :
    (modify_headers small_headers modifier no_headers).0 (codes "y") ≡ (
      if is_removed small_headers (codes "y") modifier.remove
      then []
      else set_over small_headers
          (set_for small_headers (codes "y") modifier.set)
          ([] ++ added_for small_headers (codes "y") modifier.add))
unfolding modify_headers
get_all-modify_headers_example =
    get_all-modify_headers small_headers modifier no_headers (codes "y") refl
