-- ===== src/Listener/BestMatch.antt =====
-- Which listener `ListenerSet::best_match` picks, in whatever order the map gives its listeners.
use agentproxy.Prelude.{
  ◌≤◌, ◌≡◌, refl, sym, subst, ◌⊎◌, ◌↔◌, inl, inr, arith, Bool, true, false, Option, none, some,
  List, [], ◌∷◌, leb, length, find, is_empty, In, Str, str_eq, ◌==◌, Bool-cases,
}
use agentproxy.Prelude.Map.{values}
use agentproxy.Listener.{
  Listener, ListenerSet, best_match, insert_longest, sort_longest, is_suffix_of,
}

-- What `find` gives.
abbrev Finds : (Listener → Bool) → List Listener → Option Listener → Type 0
Finds p l o =
    ((o ≡ none) × ((x : Listener) → In x l → p x ≡ false))
    ⊎ ((x : Listener) × (o ≡ some x) × In x l × (p x ≡ true))

find-Finds : (p : Listener → Bool) (l : List Listener) → Finds p l (find p l)
find-Finds p [] = inl (refl, λ x i. absurd i)
find-Finds p (x ∷ xs) = elim (Bool-cases (p x)) [
  | inl hit ↦ inr (x, ground arith, inl refl, hit)
  | inr miss ↦ elim (find-Finds p xs) [
    | inl (e, none_of) ↦ inl (
      ground arith,
      λ y i. elim i [ inl f ↦ subst (λ z. p z ≡ false) (sym f) miss | inr j ↦ none_of y j ],
    )
    | inr (y, e, i, hit) ↦ inr (y, ground arith, inr i, hit)
  ]
]

abbrev pub NotLonger : Listener → Listener → Type 0
NotLonger l m = length m.hostname ≤ length l.hostname

abbrev LongestFirst : List Listener → Type 0
LongestFirst [] = Unit
LongestFirst (l ∷ ls) = ((m : Listener) → In m ls → NotLonger l m) × LongestFirst ls

In-insert_longest :
    (x l : Listener) (ls : List Listener) → In x (insert_longest l ls) ↔ ((x ≡ l) ⊎ In x ls)
unfolding insert_longest
In-insert_longest x l [] = (λ i. i, λ i. i)
In-insert_longest x l (m ∷ ms) = elim (Bool-cases (leb (length m.hostname) (length l.hostname))) [
  | inl first ↦ rw first (λ i. i, λ i. i)
  | inr later ↦
      let (there, back) = In-insert_longest x l ms in
      rw later (
        λ i. elim i [
          | inl e ↦ inr (inl e)
          | inr j ↦ elim (there j) [ inl e ↦ inl e | inr k ↦ inr (inr k) ]
        ],
        λ i. elim i [
          | inl e ↦ inr (back (inl e))
          | inr j ↦ elim j [ inl e ↦ inl e | inr k ↦ inr (back (inr k)) ]
        ],
      )
]

insert_longest-LongestFirst :
    (l : Listener) (ls : List Listener) → LongestFirst ls → LongestFirst (insert_longest l ls)
unfolding insert_longest
insert_longest-LongestFirst l [] h = ((λ m i. absurd i), tt)
insert_longest-LongestFirst l (m ∷ ms) (h, hs) =
    elim (Bool-cases (leb (length m.hostname) (length l.hostname))) [
      | inl first ↦ rw first (
        (λ x i. elim i [
          | inl e ↦ subst (NotLonger l) (sym e) (ground arith)
          | inr j ↦ let k = h x j in ground arith
        ]),
        (h, hs),
      )
      | inr later ↦ rw later (
        (λ x i. elim ((In-insert_longest x l ms).0 i) [
          | inl e ↦ subst (NotLonger m) (sym e) (ground arith)
          | inr j ↦ h x j
        ]),
        insert_longest-LongestFirst l ms hs,
      )
    ]

sort_longest_lem :
    (ls : List Listener)
    → LongestFirst (sort_longest ls) × ((x : Listener) → In x (sort_longest ls) ↔ In x ls)
unfolding sort_longest
sort_longest_lem [] = (tt, λ x. (λ i. i, λ i. i))
sort_longest_lem (l ∷ ls) =
    let (sorted, same) = sort_longest_lem ls in
    (
      insert_longest-LongestFirst l (sort_longest ls) sorted,
      λ x. (
        λ i. elim ((In-insert_longest x l (sort_longest ls)).0 i) [
          | inl e ↦ inl e
          | inr j ↦ inr ((same x).0 j)
        ],
        λ i. elim i [
          | inl e ↦ (In-insert_longest x l (sort_longest ls)).1 (inl e)
          | inr j ↦ (In-insert_longest x l (sort_longest ls)).1 (inr ((same x).1 j))
        ],
      ),
    )

-- The first that passes a test in a list with the longest first is a longest that passes it.
find_longest :
    (p : Listener → Bool) (ls : List Listener) (x : Listener)
    → LongestFirst ls
    → find p ls ≡ some x
    → (y : Listener) → In y ls
    → p y ≡ true
    → NotLonger x y
find_longest p [] x h e y i hit = absurd i
find_longest p (l ∷ ls) x (h, hs) e y i hit = elim (Bool-cases (p l)) [
  | inl first ↦
      let same : l ≡ x = ground arith in
      elim i [
        | inl f ↦ subst (λ z. NotLonger z y) same (subst (NotLonger l) (sym f) (omega arith))
        | inr j ↦ subst (λ z. NotLonger z y) same (h y j)
      ]
  | inr miss ↦ elim i [
    | inl f ↦ absurd (let g = subst (λ z. p z ≡ false) (sym f) miss in cc)
    | inr j ↦ find_longest p ls x hs (ground arith) y j hit
  ]
]

abbrev pub exactly : Str → Listener → Bool
exactly host l = l.hostname == host

abbrev pub NoneOf : (Listener → Bool) → ListenerSet → Type 0
NoneOf p s = (l : Listener) → In l (values s) → p l ≡ false

-- A host gets a listener of its own name, if the set has one. Else it gets one of a wildcard that
-- ends the host, with no longer such wildcard in the set; else one with no hostname; else none.
pub best_match_cases :
    (s : ListenerSet) (host : Str)
    → ((l : Listener) × (best_match s host ≡ some l) × In l (values s) × (exactly host l ≡ true))
      ⊎ ((l : Listener) × (best_match s host ≡ some l)
          × In l (values s)
          × NoneOf (exactly host) s
          × (is_suffix_of host l ≡ true)
          × ((m : Listener) → In m (values s) → is_suffix_of host m ≡ true → NotLonger l m))
      ⊎ ((l : Listener) × (best_match s host ≡ some l)
          × In l (values s)
          × NoneOf (exactly host) s
          × NoneOf (is_suffix_of host) s
          × (is_empty l.hostname ≡ true))
      ⊎ ((best_match s host ≡ none)
          × NoneOf (exactly host) s
          × NoneOf (is_suffix_of host) s
          × NoneOf (λ l. is_empty l.hostname) s)
unfolding best_match
best_match_cases s host =
    let (sorted, same) = sort_longest_lem (values s) in
    elim (find-Finds (exactly host) (values s)) [
      | inr (l, e, i, hit) ↦ inl (l, ground arith, i, hit)
      | inl (e, no_name) ↦ elim (find-Finds (is_suffix_of host) (sort_longest (values s))) [
        | inr (l, f, i, hit) ↦ inr (
            inl (
              l,
              ground arith,
              (same l).0 i,
              no_name,
              hit,
              λ m j h.
                  find_longest (is_suffix_of host) (sort_longest (values s)) l sorted f m
                    ((same m).1 j) h,
            ))
        | inl (f, no_suffix) ↦
            elim (find-Finds (λ (l : Listener). is_empty l.hostname) (values s)) [
              | inr (l, g, i, hit) ↦ inr (
                  inr (inl (l, ground arith, i, no_name, (λ m j. no_suffix m ((same m).1 j)), hit)))
              | inl (g, no_empty) ↦
                  inr (
                    inr
                      (inr (ground arith, no_name, (λ m j. no_suffix m ((same m).1 j)), no_empty)))
            ]
      ]
    ]
