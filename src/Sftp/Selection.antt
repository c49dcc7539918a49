-- ===== src/Sftp/Selection.antt =====
-- The selection of a pane.
use dolssh.Prelude.{
  ℕ, zero, suc, ◌≡◌, refl, String, Bool, true, false, not, Option, none, some, List, [], ◌∷◌, ◌==◌,
  min, max, filter_by, includes, includes-append, index_by-place, includes-slice,
  includes-drop-take, arith, inl, inr, Bool-cases, Option-cases,
}
use dolssh.Sftp.Pane.{
  FileEntry, SftpPaneState, SftpEntrySelectionInput, paths, index_of, visible_anchor, select_range,
  anchor_index, toggle_path, is_shown, resolve_sftp_visible_entry_paths, select_visible,
  select_path, resolve_next_sftp_selection,
}

-- Every path of the one list is in the other.
abbrev pub AllIn : List String → List String → Type 0
AllIn xs ys = (s : String) → includes s xs ≡ true → includes s ys ≡ true

filter-AllIn : (ys xs : List String) → AllIn (filter_by (λ x. includes x ys) xs) ys
filter-AllIn ys [] s h = cc
filter-AllIn ys (x ∷ xs) s h = ground (arith, filter-AllIn ys xs s)

shown-AllIn :
    (test : FileEntry → Bool) (es : List FileEntry) → AllIn (paths (filter_by test es)) (paths es)
shown-AllIn test [] s h = h
shown-AllIn test (e ∷ es) s h = ground (arith, shown-AllIn test es s)

without-AllIn : (path : String) (xs : List String) → AllIn (filter_by (λ x. not (x == path)) xs) xs
without-AllIn path [] s h = h
without-AllIn path (x ∷ xs) s h = ground (arith, without-AllIn path xs s)

toggle-AllIn :
    (path : String) (xs ys : List String)
    → includes path ys ≡ true
    → AllIn xs ys
    → AllIn (toggle_path path xs) ys
toggle-AllIn path xs ys h k s e = elim (Bool-cases (includes path xs)) [
  | inl shown ↦ k s (without-AllIn path xs s (ground arith))
  | inr hidden ↦ ground (arith, includes-append s xs (path ∷ []), k s)
]

range-AllIn :
    (path : String) (visible : List String) (anchor : Option String) (i j : Option ℕ)
    (ys : List String)
    → includes path ys ≡ true
    → AllIn visible ys
    → AllIn (select_range path visible anchor i j).selected ys
range-AllIn path visible none i j ys h k s e = ground arith
range-AllIn path visible (some a) none j ys h k s e = ground arith
range-AllIn path visible (some a) (some i) none ys h k s e = ground arith
range-AllIn path visible (some a) (some i) (some j) ys h k s e =
    k s (includes-drop-take (min j i) (suc (max j i)) s visible e)

includes-place :
    (s : String) (xs : List String) (i : ℕ) → index_of s xs ≡ some i → includes s xs ≡ true
includes-place s [] i h = cc
includes-place s (x ∷ xs) zero h = ground arith
includes-place s (x ∷ xs) (suc i) h = ground (arith, includes-place s xs i)

module _ (trim to_lower_case : String → String) (text_includes : String → String → Bool) where
  visible-AllIn :
      (pane : SftpPaneState) (provided : List String)
      → AllIn
          (resolve_sftp_visible_entry_paths trim to_lower_case text_includes pane provided)
          (paths pane.entries)
  unfolding resolve_sftp_visible_entry_paths
  visible-AllIn pane [] =
      shown-AllIn (is_shown trim to_lower_case text_includes pane.filter_query) pane.entries
  visible-AllIn pane (p ∷ provided) = filter-AllIn (paths pane.entries) (p ∷ provided)

  select_visible-AllIn :
      (pane : SftpPaneState) (path : String) (visible : List String)
      → includes path (paths pane.entries) ≡ true
      → AllIn visible (paths pane.entries)
      → AllIn
          (select_visible trim to_lower_case text_includes pane path visible).selected
          (paths pane.entries)
  select_visible-AllIn pane path visible h k =
      let anchor = visible_anchor visible pane.selection_anchor_path in
      range-AllIn path visible anchor (index_of path visible) (anchor_index visible anchor)
        (paths pane.entries) h k

  select_path-AllIn :
      (pane : SftpPaneState) (input : SftpEntrySelectionInput) (path : String)
      → AllIn pane.selected_paths (paths pane.entries)
      → AllIn
          (select_path trim to_lower_case text_includes pane input path).selected
          (paths pane.entries)
  select_path-AllIn pane input path v s e = elim (Bool-cases (includes path (paths pane.entries))) [
    | inr missing ↦ v s (ground arith)
    | inl listed ↦ elim (Bool-cases input.range) [
      | inl range ↦
          select_visible-AllIn pane path _ listed (visible-AllIn pane input.visible_entry_paths) s
            (rw (← e, listed, range) refl)
      | inr no_range ↦ elim (Bool-cases input.toggle) [
        | inl toggle ↦
            toggle-AllIn path pane.selected_paths (paths pane.entries) listed v s
              (rw (← e, listed, no_range, toggle) refl)
        | inr no_toggle ↦ ground arith
      ]
    ]
  ]

  -- In a pane where every selected path is that of an entry, it is so after a click, whatever is
  -- clicked and with whatever keys.
  pub selection-AllIn :
      (pane : SftpPaneState) (input : SftpEntrySelectionInput)
      → AllIn pane.selected_paths (paths pane.entries)
      → AllIn
          (resolve_next_sftp_selection trim to_lower_case text_includes pane input).selected
          (paths pane.entries)
  unfolding resolve_next_sftp_selection
  selection-AllIn pane input v s e = elim (Option-cases input.entry_path) [
    | inl none_clicked ↦ ground arith
    | inr (path, clicked) ↦ elim (Bool-cases (path == "")) [
      | inl empty ↦ ground arith
      | inr named ↦ select_path-AllIn pane input path v s (rw (← e, clicked, named) refl)
    ]
  ]

  -- A click that extends the selection, on a path of an entry, where the anchor and the path are
  -- both visible and not empty: both are selected, and the anchor stays.
  pub selection-range :
      (pane : SftpPaneState) (input : SftpEntrySelectionInput) (path anchor : String) (i j : ℕ)
      → input.entry_path ≡ some path
      → (path == "") ≡ false
      → includes path (paths pane.entries) ≡ true
      → input.range ≡ true
      → pane.selection_anchor_path ≡ some anchor
      → (anchor == "") ≡ false
      → index_of path (
          resolve_sftp_visible_entry_paths trim to_lower_case text_includes pane
            input.visible_entry_paths)
        ≡ some j
      → index_of anchor (
          resolve_sftp_visible_entry_paths trim to_lower_case text_includes pane
            input.visible_entry_paths)
        ≡ some i
      → (includes path
            (resolve_next_sftp_selection trim to_lower_case text_includes pane input).selected
          ≡ true)
        × (includes anchor
              (resolve_next_sftp_selection trim to_lower_case text_includes pane input).selected
            ≡ true)
        × ((resolve_next_sftp_selection trim to_lower_case text_includes pane input).anchor
            ≡ some anchor)
  unfolding resolve_next_sftp_selection
  selection-range pane input path anchor i j clicked named listed range held full at_j at_i =
      let visible =
        resolve_sftp_visible_entry_paths trim to_lower_case text_includes pane
          input.visible_entry_paths in
      rw
        (
          clicked,
          named,
          listed,
          range,
          held,
          full,
          includes-place anchor visible i at_i,
          at_j,
          at_i,
        )
        (
          includes-slice (min i j) (suc (max i j)) j path visible
              (index_by-place path visible j at_j) (omega arith) (omega arith),
          includes-slice (min i j) (suc (max i j)) i anchor visible
              (index_by-place anchor visible i at_i) (omega arith) (omega arith),
          refl,
        )
