-- ===== src/Workspace/Strip/Reorder.antt =====
-- Reordering the strip of tabs by dragging one tab beside another.
use dolssh.Prelude.{
  ℕ, zero, suc, ◌≡◌, refl, Bool, true, false, not, none, some, List, [], ◌∷◌, ◌&&◌, if◌then◌else◌,
  get_elem?, index_by, any_by, insert_at, arith, inl, inr, Option-cases,
}
use dolssh.Workspace.Strip.{
  DynamicTabStripItem, session, workspace, dynamic_tab_matches, Placement, is_after, remove_at,
  put_beside, reorder_at, reorder_strip,
}

abbrev is_item : DynamicTabStripItem → DynamicTabStripItem → Bool
is_item target item = dynamic_tab_matches item target

is_item-eq : (target item : DynamicTabStripItem) → is_item target item ≡ true → item ≡ target
is_item-eq (session a) (session b) h = ground arith
is_item-eq (workspace a) (workspace b) h = ground arith
is_item-eq (session a) (workspace b) h = cc
is_item-eq (workspace a) (session b) h = cc

is_item_comm : (a b : DynamicTabStripItem) → dynamic_tab_matches a b ≡ dynamic_tab_matches b a
is_item_comm (session a) (session b) = ground arith
is_item_comm (workspace a) (workspace b) = ground arith
is_item_comm (session a) (workspace b) = refl
is_item_comm (workspace a) (session b) = refl

-- The strip without its first tab that is `item`.
abbrev pub take_out : DynamicTabStripItem → List DynamicTabStripItem → List DynamicTabStripItem
take_out item [] = []
take_out item (x ∷ xs) = if dynamic_tab_matches x item then xs else x ∷ take_out item xs

-- The strip with `moved` on one side of its first tab that is `target`.
abbrev pub place :
    Placement
    → (target moved : DynamicTabStripItem) → List DynamicTabStripItem
    → List DynamicTabStripItem
place p target moved [] = []
place p target moved (x ∷ xs) =
    if dynamic_tab_matches x target
    then (if is_after p then x ∷ moved ∷ xs else moved ∷ x ∷ xs)
    else x ∷ place p target moved xs

abbrev pub holds : DynamicTabStripItem → List DynamicTabStripItem → Bool
holds item = any_by (λ x. dynamic_tab_matches x item)

module _ (item : DynamicTabStripItem) where
  index-missing :
      (xs : List DynamicTabStripItem) → index_by (is_item item) xs ≡ none → holds item xs ≡ false
  index-missing [] h = refl
  index-missing (x ∷ xs) h = ground (arith, index-missing xs)

  index-holds :
      (xs : List DynamicTabStripItem) (i : ℕ)
      → index_by (is_item item) xs ≡ some i
      → holds item xs ≡ true
  index-holds [] i h = cc
  index-holds (x ∷ xs) zero h = ground (arith, index-holds xs 0)
  index-holds (x ∷ xs) (suc i) h = ground (arith, index-holds xs i)

  remove_at-index :
      (xs : List DynamicTabStripItem) (i : ℕ)
      → index_by (is_item item) xs ≡ some i
      → remove_at i xs ≡ take_out item xs
  remove_at-index [] i h = cc
  remove_at-index (x ∷ xs) zero h = ground arith
  remove_at-index (x ∷ xs) (suc i) h = ground (arith, remove_at-index xs i)

  get_elem?-index :
      (xs : List DynamicTabStripItem) (i : ℕ)
      → index_by (is_item item) xs ≡ some i
      → get_elem? xs i ≡ some item
  get_elem?-index [] i h = cc
  get_elem?-index (x ∷ xs) zero h = ground (arith, is_item-eq item x)
  get_elem?-index (x ∷ xs) (suc i) h = ground (arith, get_elem?-index xs i)

  insert_at-index :
      (p : Placement) (moved : DynamicTabStripItem) (xs : List DynamicTabStripItem) (i : ℕ)
      → index_by (is_item item) xs ≡ some i
      → insert_at (if is_after p then suc i else i) moved xs ≡ place p item moved xs
  insert_at-index p moved [] i h = cc
  insert_at-index p moved (x ∷ xs) zero h = ground arith
  insert_at-index p moved (x ∷ xs) (suc i) h = ground (arith, insert_at-index p moved xs i)

pub holds-take_out :
    (a b : DynamicTabStripItem) (xs : List DynamicTabStripItem)
    → dynamic_tab_matches a b ≡ false
    → holds b (take_out a xs) ≡ holds b xs
holds-take_out a b [] h = refl
holds-take_out a b (x ∷ xs) h = ground (arith, is_item-eq a x, holds-take_out a b xs)

index-differs :
    (a b : DynamicTabStripItem) (xs : List DynamicTabStripItem) (i : ℕ)
    → dynamic_tab_matches a b ≡ false
    → index_by (is_item a) xs ≡ some i
    → index_by (is_item b) xs ≡ some i
    → ⊥
index-differs a b xs i h p q =
    ground (arith, is_item_comm a b, get_elem?-index a xs i p, get_elem?-index b xs i q)

put_beside_lem :
    (strip : List DynamicTabStripItem) (a b : DynamicTabStripItem) (p : Placement)
    → holds b (take_out a strip) ≡ true
    → put_beside strip (take_out a strip) (some a) (index_by (is_item b) (take_out a strip)) p
      ≡ place p b a (take_out a strip)
put_beside_lem strip a b p h = elim (Option-cases (index_by (is_item b) (take_out a strip))) [
  | inl e ↦ ground (arith, index-missing b (take_out a strip) e)
  | inr (i, e) ↦ rw (e, put_beside) (insert_at-index b p a (take_out a strip) i e)
]

reorder_at_lem :
    (strip : List DynamicTabStripItem) (a b : DynamicTabStripItem) (p : Placement) (i j : ℕ)
    → dynamic_tab_matches a b ≡ false
    → index_by (is_item a) strip ≡ some i
    → index_by (is_item b) strip ≡ some j
    → reorder_at strip b (some i) (some j) p ≡ place p b a (take_out a strip)
reorder_at_lem strip a b p i j h e f = ground (
  arith,
  index-differs a b strip i h e,
  remove_at-index a strip i e,
  get_elem?-index a strip i e,
  holds-take_out a b strip h,
  index-holds b strip j f,
  put_beside_lem strip a b p,
)

-- A tab is moved exactly if it and the target are two tabs of the strip; then it stands right
-- before or right after the target, and the other tabs keep their order.
pub reorder_lem :
    (strip : List DynamicTabStripItem) (a b : DynamicTabStripItem) (p : Placement)
    → reorder_strip strip a b p ≡ (
        if not (dynamic_tab_matches a b) && (holds a strip && holds b strip)
        then place p b a (take_out a strip)
        else strip)
unfolding reorder_strip
reorder_lem strip a b p = elim (Option-cases (index_by (is_item a) strip)) [
  | inl e ↦ ground (arith, index-missing a strip e)
  | inr (i, e) ↦ elim (Option-cases (index_by (is_item b) strip)) [
    | inl f ↦ ground (arith, index-missing b strip f)
    | inr (j, f) ↦
        ground
          (arith, index-holds a strip i e, index-holds b strip j f, reorder_at_lem strip a b p i j)
  ]
]
