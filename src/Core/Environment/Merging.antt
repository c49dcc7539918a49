-- ===== src/Core/Environment/Merging.antt =====
-- The entries of a merged path, in apps/desktop/src/main/core-manager.ts: mergeUniquePathEntries.
use dolssh.Prelude.{
  ◌≡◌, refl, ap, sym, ◌∙◌, String, Bool, true, not, ◌&&◌, ◌||◌, Option, List, [], ◌∷◌, ◌++◌, map,
  ◌==◌, ==_iff, if◌then◌else◌, Bool-cases, inl, inr, filter_by, includes, arith,
}
use dolssh.Core.Environment.{
  Runtime, UniqueEntries, no_entries, is_given, split_path_entries, seen_key, append_unique,
  append_each, unique_entries,
}

append_assoc : (xs ys zs : List String) → (xs ++ ys) ++ zs ≡ xs ++ (ys ++ zs)
append_assoc [] ys zs = refl
append_assoc (x ∷ xs) ys zs = ap (◌∷◌ x) (append_assoc xs ys zs)

append-nil : (xs : List String) → xs ++ [] ≡ xs
append-nil [] = refl
append-nil (x ∷ xs) = ap (◌∷◌ x) (append-nil xs)

filter_by-all :
    (p : String → Bool) (xs : List String) → ((x : String) → p x ≡ true) → filter_by p xs ≡ xs
filter_by-all p [] h = refl
filter_by-all p (x ∷ xs) h = rw (h x) (ap (◌∷◌ x) (filter_by-all p xs h))

-- Two filters at once.
filter_by-filter_by :
    (p q r : String → Bool) (xs : List String)
    → ((x : String) → r x ≡ (q x && p x))
    → filter_by p (filter_by q xs) ≡ filter_by r xs
filter_by-filter_by p q r [] h = refl
filter_by-filter_by p q r (x ∷ xs) h =
    let e = h x in
    let rest = filter_by-filter_by p q r xs h in
    elim (Bool-cases (q x)) [
      | inl a ↦ elim (Bool-cases (p x)) [
        | inl b ↦ rw (e, a, b) (ap (◌∷◌ x) rest)
        | inr b ↦ rw (e, a, b) rest
      ]
      | inr a ↦ rw (e, a) rest
    ]

-- A text that is not in a list differs from one that is.
seen-differs :
    (k j : String) (seen : List String)
    → includes k seen ≡ true
    → not (includes j seen) ≡ (not (k == j) && not (includes j seen))
seen-differs k j seen h = elim (Bool-cases (k == j)) [
  | inl e ↦ rw (e, ← (==_iff k j).0 e, h) refl
  | inr e ↦ rw e refl
]

module _ (js : Runtime) (any_case : Bool) where
  -- Of texts with the same key, the first is kept.
  abbrev pub first_of_each : List String → List String
  first_of_each [] = []
  first_of_each (x ∷ xs) =
      x ∷ filter_by (λ y. not (seen_key js any_case x == seen_key js any_case y)) (first_of_each xs)

  abbrev pub given_entries : List String → List String
  given_entries xs = filter_by is_given (map js.trim xs)

  -- Whether an entry adds nothing to the entries whose keys are `seen`.
  abbrev pub is_skipped : String → List String → Bool
  is_skipped x seen = js.trim x == "" || includes (seen_key js any_case (js.trim x)) seen

  -- What is added to the entries whose keys are `seen`, and the keys that are seen then.
  unfoldable pub fresh : List String → List String → List String
  fresh seen [] = []
  fresh seen (x ∷ xs) =
      let added = js.trim x ∷ fresh (seen_key js any_case (js.trim x) ∷ seen) xs in
      let rest = fresh seen xs in if is_skipped x seen then rest else added

  unfoldable pub after : List String → List String → List String
  after seen [] = seen
  after seen (x ∷ xs) =
      let added = after (seen_key js any_case (js.trim x) ∷ seen) xs in
      let rest = after seen xs in if is_skipped x seen then rest else added

  pub append_each-fresh :
      (xs : List String) (u : UniqueEntries)
      → append_each js any_case xs u
        ≡ record { entries = u.entries ++ fresh u.seen xs; seen = after u.seen xs }
  unfolding append_each fresh after
  append_each-fresh [] u = rw (append-nil u.entries) refl
  append_each-fresh (x ∷ xs) u = elim (Bool-cases (is_skipped x u.seen)) [
    | inl e ↦ rw e (append_each-fresh xs u)
    | inr e ↦ rw (e, append_each-fresh xs _, append_assoc u.entries (js.trim x ∷ []) _) refl
  ]

  pub append_each-append :
      (xs ys : List String) (u : UniqueEntries)
      → append_each js any_case (xs ++ ys) u
        ≡ append_each js any_case ys (append_each js any_case xs u)
  unfolding append_each
  append_each-append [] ys u = refl
  append_each-append (x ∷ xs) ys u = append_each-append xs ys (append_unique js any_case x u)

  unfoldable not_seen : List String → String → Bool
  not_seen seen x = not (includes (seen_key js any_case x) seen)

  fresh-first_of_each :
      (xs seen : List String)
      → fresh seen xs ≡ filter_by (not_seen seen) (first_of_each (given_entries xs))
  unfolding fresh not_seen
  fresh-first_of_each [] seen = refl
  fresh-first_of_each (x ∷ xs) seen =
      let key = seen_key js any_case (js.trim x) in
      let differs : String → Bool = λ y. not (key == seen_key js any_case y) in
      let firsts = first_of_each (given_entries xs) in
      elim (Bool-cases (js.trim x == "")) [
        | inl a ↦ rw a (fresh-first_of_each xs seen)
        | inr a ↦ elim (Bool-cases (includes key seen)) [
          | inl b ↦
              rw (a, b)
                (fresh-first_of_each xs seen
                  ∙ sym (
                      filter_by-filter_by (not_seen seen) differs (not_seen seen) firsts
                        (λ y. seen-differs key (seen_key js any_case y) seen b)))
          | inr b ↦
              rw (a, b)
                (ap (◌∷◌ (js.trim x)) (
                  fresh-first_of_each xs (key ∷ seen)
                  ∙ sym (
                      filter_by-filter_by (not_seen seen) differs (not_seen (key ∷ seen)) firsts
                        (λ y. ground arith))))
        ]
      ]

  -- The loop over a set of keys that were seen keeps, of the entries that are given, the first of each
  -- key, in their order.
  pub unique_entries-first_of_each :
      (preferred : List String) (raw_path : Option String) (delimiter : String)
      → unique_entries js preferred raw_path delimiter any_case
        ≡ first_of_each (given_entries (preferred ++ split_path_entries js raw_path delimiter))
  unfolding not_seen
  unique_entries-first_of_each preferred raw_path delimiter =
      let raw = split_path_entries js raw_path delimiter in
      ap (λ u. u.entries)
        (sym (append_each-append preferred raw no_entries)
          ∙ append_each-fresh (preferred ++ raw) no_entries)
      ∙ (fresh-first_of_each (preferred ++ raw) [] ∙ filter_by-all (not_seen []) _ (λ x. refl))
