-- ===== src/Sftp/History.antt =====
-- The history of a pane: the place after a visit, and the way back and forward.
use dolssh.Prelude.{
  ℕ, zero, suc, ◌≡◌, refl, sym, ap, ◌∙◌, String, true, false, some, List, [], ◌∷◌, ◌++◌, ◌==◌,
  length, take, get_elem?, arith, inl, inr, Bool-cases, length-append, length-take, get_elem?-more,
  get_elem?-last, get_elem?-lt, get_elem?-take,
}
use dolssh.Prelude.Int.{pos}
use dolssh.Sftp.Pane.{
  SftpPaneState, prefix_to, last_index, ends_with, push_history, navigate_sftp_back,
  navigate_sftp_forward,
}

ends_with-place :
    (xs : List String) (n : ℕ) (c path : String)
    → length xs ≡ suc n
    → get_elem? xs n ≡ some c
    → ends_with xs path ≡ (c == path)
ends_with-place [] n c path h e = absurd (omega arith)
ends_with-place (x ∷ []) zero c path h e = let same : x ≡ c = cc in rw same refl
ends_with-place (x ∷ []) (suc n) c path h e = absurd (omega arith)
ends_with-place (x ∷ y ∷ xs) zero c path h e = absurd (omega arith)
ends_with-place (x ∷ y ∷ xs) (suc n) c path h e = ends_with-place (y ∷ xs) n c path (omega arith) e

last_index-append :
    (xs : List String) (path : String) → last_index (xs ++ path ∷ []) ≡ pos (length xs)
last_index-append [] path = refl
last_index-append (x ∷ xs) path = ap pos (omega (arith, length-append xs (path ∷ [])))

ends_with-last :
    (xs : List String) (path : String)
    → ends_with xs path ≡ true
    → (n : ℕ) × (last_index xs ≡ pos n) × (length xs ≡ suc n) × (get_elem? xs n ≡ some path)
ends_with-last [] path h = cc
ends_with-last (x ∷ []) path h = (0, refl, refl, ground arith)
ends_with-last (x ∷ y ∷ xs) path h =
    let (n, e, l, g) = ends_with-last (y ∷ xs) path h in
    (suc n, ap pos (omega arith), omega arith, g)

-- Whatever the history was, after a visit the pane is at its end, and there stands the path.
push_history-last :
    (pane : SftpPaneState) (path : String)
    → (n : ℕ) × ((push_history pane path).history_index ≡ pos n)
      × (length (push_history pane path).history ≡ suc n)
      × (get_elem? (push_history pane path).history n ≡ some path)
unfolding push_history
push_history-last pane path =
    let prefix = prefix_to pane.history_index pane.history in
    elim (Bool-cases (ends_with prefix path)) [
      | inl e ↦ rw e (ends_with-last prefix path e)
      | inr e ↦ rw e (
        length prefix,
        last_index-append prefix path,
        omega (arith, length-append prefix (path ∷ [])),
        get_elem?-last prefix path,
      )
    ]

-- A visit that leads to another path than the current one: going back leads to the current path,
-- and going forward from there leads to the path again, with the pane as it was after the visit.
pub push_history-back_forward :
    (pane : SftpPaneState) (n : ℕ) (current path : String)
    → pane.history_index ≡ pos n
    → get_elem? pane.history n ≡ some current
    → (current == path) ≡ false
    → (navigate_sftp_back (push_history pane path)
        ≡ some (current, record (push_history pane path) { history_index = pos n }))
      × (navigate_sftp_forward record (push_history pane path) { history_index = pos n }
          ≡ some (path, push_history pane path))
unfolding push_history navigate_sftp_back navigate_sftp_forward
push_history-back_forward pane n current path i e d =
    let prefix = take (suc n) pane.history in
    let within = get_elem?-lt pane.history n current e in
    let long : length prefix ≡ suc n = omega (arith, length-take (suc n) pane.history) in
    let place : get_elem? prefix n ≡ some current =
      get_elem?-take (suc n) n pane.history (omega arith) ∙ e in
    let apart = ends_with-place prefix n current path long place ∙ d in
    let back = get_elem?-more prefix (path ∷ []) current n place in
    let end : get_elem? (prefix ++ path ∷ []) (suc n) ≡ some path =
      ap (get_elem? (prefix ++ path ∷ [])) (sym long) ∙ get_elem?-last prefix path in
    let index : last_index (prefix ++ path ∷ []) ≡ pos (suc n) =
      last_index-append prefix path ∙ ap pos long in
    rw (i, apart, index) (rw (back, navigate_sftp_back) refl, rw (end, navigate_sftp_forward) refl)
