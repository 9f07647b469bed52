-- ===== src/Hostname/Tests.antt =====
-- The keys of a concrete host.
use agentproxy.Prelude.{◌≡◌, ◌↔◌, refl, List, [], ◌∷◌, ◌++◌, length, Str, codes, In, starts_with}
use agentproxy.Hostname.{HostnameMatch, exact, wildcard, any_host, all_matches, from_hostname}
use agentproxy.Hostname.Cover.{Covers, Shorter, all_matches_lem}

abbrev host : Str
host = codes "a.example.com"

keys_test :
    all_matches host
    ≡ exact host ∷ wildcard (codes "example.com") ∷ wildcard (codes "com") ∷ any_host ∷ []
unfolding all_matches
keys_test = refl

wildcard_test : from_hostname (codes "*.example.com") ≡ wildcard (codes "example.com")
unfolding from_hostname
wildcard_test = refl

all_matches_lem_example :
    ((k : HostnameMatch) → In k (all_matches host) ↔ Covers k host)
    × ((ks : List HostnameMatch) × (all_matches host ≡ exact host ∷ (ks ++ any_host ∷ []))
        × Shorter (length host) ks)
unfolding starts_with
all_matches_lem_example = all_matches_lem host refl
