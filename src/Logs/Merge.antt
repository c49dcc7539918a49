-- ===== src/Logs/Merge.antt =====
-- What the merge of two polls keeps.
use dolssh.Prelude.{
  ℕ, zero, suc, ◌-◌, ◌≤◌, ◌≡◌, refl, sym, ap, ◌∙◌, String, true, List, [], ◌∷◌, ◌++◌, length, take,
  drop, arith, inl, inr, Bool-cases, take-append-drop, length-drop,
}
use mathlib.Core.List.{append_assoc, append-nil}
use dolssh.Logs.{lines_match, merge_from, merge_container_log_lines}

-- Both lists are whole in the result: the one at its start, the other at its end, over `overlap`
-- lines that they share.
pub record Overlaid (existing incoming merged : List String) : Type 0 where
  pub overlap : ℕ
  pub fits : overlap ≤ length existing
  pub starts : merged ≡ existing ++ drop overlap incoming
  pub ends : merged ≡ take (length existing - overlap) existing ++ incoming

match-take :
    (n : ℕ) (xs ys : List String) → length xs ≡ n → lines_match n xs ys ≡ true → xs ≡ take n ys
unfolding lines_match
match-take zero [] ys l h = refl
match-take zero (x ∷ xs) ys l h = absurd (omega arith)
match-take (suc n) [] ys l h = absurd (omega arith)
match-take (suc n) (x ∷ xs) [] l h = cc
match-take (suc n) (x ∷ xs) (y ∷ ys) l h = ground (arith, match-take n xs ys (omega arith))

take-length : (xs : List String) → take (length xs) xs ≡ xs
take-length [] = refl
take-length (x ∷ xs) = ap (◌∷◌ x) (take-length xs)

none-Overlaid :
    (existing incoming : List String) → Overlaid existing incoming (existing ++ incoming)
none-Overlaid existing incoming =
    let all : length existing - 0 ≡ length existing = omega arith in
    record {
      overlap = 0;
      fits = omega arith;
      starts = refl;
      ends = rw (all, take-length existing) refl;
    }

matched-Overlaid :
    (n : ℕ) (existing incoming : List String)
    → n ≤ length existing
    → lines_match n (drop (length existing - n) existing) incoming ≡ true
    → Overlaid existing incoming (existing ++ drop n incoming)
matched-Overlaid n existing incoming h m =
    let k = length existing - n in
    let shared =
      match-take n (drop k existing) incoming (omega (arith, length-drop k existing)) m in
    record {
      overlap = n;
      fits = h;
      starts = refl;
      ends =
          ap (λ xs. xs ++ drop n incoming) (sym (take-append-drop k existing))
          ∙ append_assoc (take k existing) (drop k existing) (drop n incoming)
          ∙ ap (λ xs. take k existing ++ (xs ++ drop n incoming)) shared
          ∙ ap (λ xs. take k existing ++ xs) (take-append-drop n incoming);
    }

merge_from-Overlaid :
    (n : ℕ) (existing incoming : List String)
    → n ≤ length existing
    → Overlaid existing incoming (merge_from n existing incoming)
unfolding merge_from
merge_from-Overlaid zero existing incoming h = none-Overlaid existing incoming
merge_from-Overlaid (suc n) existing incoming h =
    elim (Bool-cases (lines_match (suc n) (drop (length existing - suc n) existing) incoming)) [
      | inl m ↦ rw m (matched-Overlaid (suc n) existing incoming h m)
      | inr d ↦ rw d (merge_from-Overlaid n existing incoming (omega arith))
    ]

-- No line of two polls is lost: the merge starts with all lines of the first and ends with all lines
-- of the second, over lines that both have.
pub merge-Overlaid :
    (existing incoming : List String)
    → Overlaid existing incoming (merge_container_log_lines existing incoming)
unfolding merge_container_log_lines
merge-Overlaid [] incoming = none-Overlaid [] incoming
merge-Overlaid (x ∷ existing) [] =
    let none_lost = none-Overlaid (x ∷ existing) [] in
    let same = append-nil (x ∷ existing) in
    record {
      overlap = none_lost.overlap;
      fits = none_lost.fits;
      starts = sym same ∙ none_lost.starts;
      ends = sym same ∙ none_lost.ends;
    }
merge-Overlaid (x ∷ existing) (y ∷ incoming) =
    merge_from-Overlaid _ (x ∷ existing) (y ∷ incoming) (omega arith)
