-- ===== src/Workspace/Strip/Positions.antt =====
-- Where a session's tab stands on the strip, and what stands beside it.
use mathlib.Core.List.{append_assoc}
use dolssh.Prelude.{
  ℕ, zero, suc, ◌≡◌, refl, sym, ap, ◌∙◌, String, true, false, none, some, List, [], ◌∷◌, ◌++◌,
  get_elem?, index_by, length, arith, inl, inr, Bool-cases,
}
use dolssh.Workspace.Strip.{DynamicTabStripItem, session, workspace, is_session, item_before}
use dolssh.Workspace.Strip.Reorder.{holds}

-- `x` is the tab right after the session's first tab.
abbrev pub IsNext : List DynamicTabStripItem → String → DynamicTabStripItem → Type 0
IsNext strip s x =
    (xs ys : List DynamicTabStripItem) × (strip ≡ xs ++ session s ∷ x ∷ ys)
    × (holds (session s) xs ≡ false)

-- `x` is the tab right before it.
abbrev pub IsPrevious : List DynamicTabStripItem → String → DynamicTabStripItem → Type 0
IsPrevious strip s x =
    (xs ys : List DynamicTabStripItem) × (strip ≡ xs ++ x ∷ session s ∷ ys)
    × (holds (session s) (xs ++ x ∷ []) ≡ false)

is_session-eq : (s : String) (x : DynamicTabStripItem) → is_session s x ≡ true → x ≡ session s
is_session-eq s (session t) h = ground arith
is_session-eq s (workspace w) h = cc

is_session-holds :
    (s : String) (x : DynamicTabStripItem) (xs : List DynamicTabStripItem)
    → is_session s x ≡ false
    → holds (session s) xs ≡ false
    → holds (session s) (x ∷ xs) ≡ false
is_session-holds s (session t) xs h k = ground (arith, h, k)
is_session-holds s (workspace w) xs h k = k

holds-is_session :
    (s : String) (x : DynamicTabStripItem) (xs : List DynamicTabStripItem)
    → holds (session s) (x ∷ xs) ≡ false
    → (is_session s x ≡ false) × (holds (session s) xs ≡ false)
holds-is_session s (session t) xs h = (ground (arith, h), ground (arith, h))
holds-is_session s (workspace w) xs h = (refl, h)

first-item :
    (xs : List DynamicTabStripItem) (x : DynamicTabStripItem)
    → get_elem? xs 0 ≡ some x
    → (ys : List DynamicTabStripItem) × (xs ≡ x ∷ ys)
first-item [] x h = absurd (cc h)
first-item (y ∷ xs) x h = (xs, ground (arith, h))

module _ (s : String) where
  index-first :
      (strip : List DynamicTabStripItem)
      → index_by (is_session s) strip ≡ some 0
      → (ys : List DynamicTabStripItem) × (strip ≡ session s ∷ ys)
  index-first [] h = absurd (cc h)
  index-first (y ∷ strip) h = elim (Bool-cases (is_session s y)) [
    | inl e ↦ let same = is_session-eq s y e in (strip, ap (λ z. z ∷ strip) same)
    | inr e ↦ absurd (ground (arith, h, e))
  ]

  pub index-IsNext :
      (strip : List DynamicTabStripItem) (i : ℕ) (x : DynamicTabStripItem)
      → index_by (is_session s) strip ≡ some i
      → get_elem? strip (suc i) ≡ some x
      → IsNext strip s x
  index-IsNext [] i x h g = absurd (cc h)
  index-IsNext (y ∷ strip) zero x h g =
      let (ys, e) = index-first (y ∷ strip) h in
      let (zs, f) = first-item strip x g in ([], zs, ground (arith, e, f), refl)
  index-IsNext (y ∷ strip) (suc i) x h g =
      let out : is_session s y ≡ false = ground (arith, h) in
      let (xs, ys, e, f) = index-IsNext strip i x (ground (arith, h)) g in
      (y ∷ xs, ys, ap (◌∷◌ y) e, is_session-holds s y xs out f)

  pub index-IsPrevious :
      (strip : List DynamicTabStripItem) (i : ℕ) (x : DynamicTabStripItem)
      → index_by (is_session s) strip ≡ some (suc i)
      → get_elem? strip i ≡ some x
      → IsPrevious strip s x
  index-IsPrevious [] i x h g = absurd (cc h)
  index-IsPrevious (y ∷ strip) zero x h g =
      let out : is_session s y ≡ false = ground (arith, h) in
      let (ys, e) = index-first strip (ground (arith, h)) in
      let same : y ≡ x = ground (arith, g) in
      rw (sym same) ([], ys, ap (◌∷◌ y) e, is_session-holds s y [] out refl)
  index-IsPrevious (y ∷ strip) (suc i) x h g =
      let out : is_session s y ≡ false = ground (arith, h) in
      let (xs, ys, e, f) = index-IsPrevious strip i x (ground (arith, h)) g in
      (y ∷ xs, ys, ap (◌∷◌ y) e, is_session-holds s y (xs ++ x ∷ []) out f)

  index-append :
      (xs ys : List DynamicTabStripItem)
      → holds (session s) xs ≡ false
      → index_by (is_session s) (xs ++ session s ∷ ys) ≡ some (length xs)
  index-append [] ys h = ground arith
  index-append (x ∷ xs) ys h =
      let (a, b) = holds-is_session s x xs h in let r = index-append xs ys b in rw (a, r) refl

  get-append :
      (xs ys : List DynamicTabStripItem) → get_elem? (xs ++ ys) (length xs) ≡ get_elem? ys 0
  get-append [] ys = refl
  get-append (x ∷ xs) ys = get-append xs ys

  get-after :
      (xs ys : List DynamicTabStripItem) (x : DynamicTabStripItem)
      → get_elem? (xs ++ x ∷ ys) (suc (length xs)) ≡ get_elem? ys 0
  get-after [] ys x = refl
  get-after (y ∷ xs) ys x = get-after xs ys x

  length-last :
      (xs : List DynamicTabStripItem) (x : DynamicTabStripItem)
      → length (xs ++ x ∷ []) ≡ suc (length xs)
  length-last [] x = refl
  length-last (y ∷ xs) x = ap suc (length-last xs x)

  pub next-item :
      (strip : List DynamicTabStripItem) (i : ℕ) (x : DynamicTabStripItem)
      → index_by (is_session s) strip ≡ some i
      → IsNext strip s x
      → get_elem? strip (suc i) ≡ some x
  next-item strip i x h (xs, ys, e, f) =
      let a = ap (index_by (is_session s)) e ∙ index-append xs (x ∷ ys) f in
      let same : i ≡ length xs = ground (arith, a, h) in
      rw (same, e) (get-after xs (x ∷ ys) (session s))

  pub previous-item :
      (strip : List DynamicTabStripItem) (i : ℕ) (x : DynamicTabStripItem)
      → index_by (is_session s) strip ≡ some i
      → IsPrevious strip s x
      → item_before strip i ≡ some x
  previous-item strip i x h (xs, ys, e, f) =
      let g = sym (append_assoc xs (x ∷ []) (session s ∷ ys)) in
      let a = ap (index_by (is_session s)) (e ∙ g) ∙ index-append (xs ++ x ∷ []) ys f in
      let n = length-last xs x in
      let same : i ≡ suc (length xs) = ground (arith, a, h, n) in
      rw (same, e) (get-append xs (x ∷ session s ∷ ys))

  pub unplaced :
      (strip xs ys : List DynamicTabStripItem)
      → index_by (is_session s) strip ≡ none
      → holds (session s) xs ≡ false
      → ¬ (strip ≡ xs ++ session s ∷ ys)
  unplaced strip xs ys h f e =
      let a = ap (index_by (is_session s)) e ∙ index-append xs ys f in absurd (cc (h, a))
