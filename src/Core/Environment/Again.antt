-- ===== src/Core/Environment/Again.antt =====
-- A path of apps/desktop/src/main/core-manager.ts that is merged a second time.
use dolssh.Prelude.{
  ◌≡◌, refl, ap, sym, ◌∙◌, String, Bool, true, ◌||◌, Option, some, List, [], ◌∷◌, ◌++◌, ◌==◌,
  ==_iff, Bool-cases, inl, inr, includes, arith,
}
use dolssh.Core.Environment.{
  Runtime, UniqueEntries, no_entries, split_path_entries, seen_key, append_unique, append_each,
  unique_entries, merge_unique_path_entries,
}
use dolssh.Core.Environment.Merging.{
  is_skipped, fresh, after, append_each-fresh, given_entries, append_each-append,
}

module _ (js : Runtime) (any_case : Bool) where
  append_unique-seen :
      (x : String) (u : UniqueEntries)
      → js.trim x ≡ x
      → (x == "" || includes (seen_key js any_case x) u.seen) ≡ true
      → append_unique js any_case x u ≡ u
  append_unique-seen x u t h = rw (t, h) refl

  module _ (trim_trim : (s : String) → js.trim (js.trim s) ≡ js.trim s) where
    -- What was added as new is new still, and whole.
    fresh-fresh :
        (xs seen : List String)
        → fresh js any_case seen (fresh js any_case seen xs) ≡ fresh js any_case seen xs
    unfolding fresh
    fresh-fresh [] seen = refl
    fresh-fresh (x ∷ xs) seen = elim (Bool-cases (is_skipped js any_case x seen)) [
      | inl e ↦ rw e (fresh-fresh xs seen)
      | inr e ↦
          rw (e, trim_trim x, e)
            (ap (◌∷◌ (js.trim x)) (fresh-fresh xs (seen_key js any_case (js.trim x) ∷ seen)))
    ]

    given_entries-fresh :
        (xs seen : List String)
        → given_entries js any_case (fresh js any_case seen xs) ≡ fresh js any_case seen xs
    unfolding fresh
    given_entries-fresh [] seen = refl
    given_entries-fresh (x ∷ xs) seen = elim (Bool-cases (js.trim x == "")) [
      | inl a ↦ rw a (given_entries-fresh xs seen)
      | inr a ↦ elim (Bool-cases (includes (seen_key js any_case (js.trim x)) seen)) [
        | inl b ↦ rw (a, b) (given_entries-fresh xs seen)
        | inr b ↦
            rw (a, b, trim_trim x, a)
              (ap (◌∷◌ (js.trim x))
                (given_entries-fresh xs (seen_key js any_case (js.trim x) ∷ seen)))
      ]
    ]

    after-grows :
        (xs seen : List String) (k : String)
        → includes k seen ≡ true
        → includes k (after js any_case seen xs) ≡ true
    unfolding after
    after-grows [] seen k h = h
    after-grows (x ∷ xs) seen k h = elim (Bool-cases (is_skipped js any_case x seen)) [
      | inl e ↦ rw e (after-grows xs seen k h)
      | inr e ↦
          rw e (after-grows xs (seen_key js any_case (js.trim x) ∷ seen) k (ground (arith, h)))
    ]

    -- What was added before is not added again.
    append_each-skips :
        (xs seen : List String) (u : UniqueEntries)
        → ((k : String) → includes k (after js any_case seen xs) ≡ true → includes k u.seen ≡ true)
        → append_each js any_case (fresh js any_case seen xs) u ≡ u
    unfolding append_each fresh after
    append_each-skips [] seen u h = refl
    append_each-skips (x ∷ xs) seen u h =
        let key = seen_key js any_case (js.trim x) in
        elim (Bool-cases (is_skipped js any_case x seen)) [
          | inl e ↦ rw e (append_each-skips xs seen u (λ k a. h k (rw e a)))
          | inr e ↦
              let again =
                h key
                  (rw e (after-grows xs (key ∷ seen) key (rw ((==_iff key key).1 refl) refl))) in
              let skipped : (js.trim x == "" || includes key u.seen) ≡ true =
                ground (arith, again) in
              rw e (
                ap (append_each js any_case (fresh js any_case (key ∷ seen) xs))
                  (append_unique-seen (js.trim x) u (trim_trim x) skipped)
                ∙ append_each-skips xs (key ∷ seen) u (λ k a. h k (rw e a)))
        ]

    -- Entries that are merged again after the same preferred ones.
    merged-again :
        (preferred raw : List String)
        → let first = append_each js any_case preferred no_entries in
          let merged = (append_each js any_case raw first).entries in
          (append_each js any_case merged first).entries ≡ merged
    merged-again preferred raw =
        let seen = after js any_case [] preferred in
        let again = fresh js any_case seen raw in
        let first : UniqueEntries = record {
          entries = fresh js any_case [] preferred;
          seen = seen;
        } in
        rw
          (
            append_each-fresh js any_case preferred no_entries,
            append_each-fresh js any_case raw first,
          )
          (ap (λ u. u.entries)
              (append_each-append js any_case (fresh js any_case [] preferred) again first
                ∙ (ap (append_each js any_case again)
                      (append_each-skips preferred [] first (λ k h. h))
                    ∙ append_each-fresh js any_case again first))
            ∙ ap (λ es. fresh js any_case [] preferred ++ es) (fresh-fresh raw seen))

    given-merged :
        (preferred raw : List String)
        → let merged =
            (append_each js any_case raw (append_each js any_case preferred no_entries)).entries in
          given_entries js any_case merged ≡ merged
    given-merged preferred raw =
        let e =
          ap (λ u. u.entries)
            (sym (append_each-append js any_case preferred raw no_entries)
              ∙ append_each-fresh js any_case (preferred ++ raw) no_entries) in
        rw e (given_entries-fresh (preferred ++ raw) [])

    -- Where trimming twice is trimming once, and the runtime splits the merged path into the entries
    -- that it joined, the preferred entries merged into that path leave it as it is.
    pub merge_unique_path_entries-again :
        (preferred : List String) (raw_path : Option String) (delimiter : String)
        → js.split (merge_unique_path_entries js preferred raw_path delimiter any_case) delimiter
          ≡ unique_entries js preferred raw_path delimiter any_case
        → merge_unique_path_entries js preferred
            (some (merge_unique_path_entries js preferred raw_path delimiter any_case))
            delimiter
            any_case
          ≡ merge_unique_path_entries js preferred raw_path delimiter any_case
    merge_unique_path_entries-again preferred raw_path delimiter h =
        let raw = split_path_entries js raw_path delimiter in
        let first = append_each js any_case preferred no_entries in
        ap (λ es. js.join delimiter (append_each js any_case es first).entries)
          (ap (given_entries js any_case) h ∙ given-merged preferred raw)
        ∙ ap (js.join delimiter) (merged-again preferred raw)
