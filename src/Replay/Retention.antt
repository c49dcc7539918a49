-- ===== src/Replay/Retention.antt =====
-- Which recordings apps/desktop/src/main/session-replay-service.ts keeps.
use dolssh.Prelude.{
  zero, ℕ, suc, ◌+◌, ◌≤◌, ◌≡◌, refl, String, Bool, true, false, Option, List, [], ◌∷◌, ◌++◌, ==_iff,
  leb, if◌then◌else◌, Bool-cases, inl, inr, length, drop, filter_by, includes, arith,
}
use dolssh.Prelude.Int.{ℤ}
use dolssh.Replay.{
  resolve_retention_count, RecordingMeta, Replays, ended_at, insert_by_end, newest_first,
  recording_ids, is_kept,
}

length-filter-insert :
    (test : RecordingMeta → Bool) (m : RecordingMeta) (ms : List RecordingMeta)
    → length (filter_by test (insert_by_end m ms)) ≡ length (filter_by test (m ∷ ms))
length-filter-insert test m [] = refl
length-filter-insert test m (x ∷ ms) = ground (arith, length-filter-insert test m ms)

pub length-filter-sorted :
    (test : RecordingMeta → Bool) (ms : List RecordingMeta)
    → length (filter_by test (newest_first ms)) ≡ length (filter_by test ms)
length-filter-sorted test [] = refl
length-filter-sorted test (m ∷ ms) =
    let i = length-filter-insert test m (newest_first ms) in
    let r = length-filter-sorted test ms in ground (arith, i, r)

length-filter_le :
    (test : RecordingMeta → Bool) (ms : List RecordingMeta) → length (filter_by test ms) ≤ length ms
length-filter_le test [] = omega arith
length-filter_le test (m ∷ ms) = ground (arith, length-filter_le test ms)

pub filter-append :
    (test : RecordingMeta → Bool) (xs ys : List RecordingMeta)
    → length (filter_by test (xs ++ ys)) ≡ length (filter_by test xs) + length (filter_by test ys)
filter-append test [] ys = omega arith
filter-append test (x ∷ xs) ys = ground (arith, filter-append test xs ys)

-- Of the recordings whose ids are removed, none is kept.
pub none_kept :
    (removed : List String) (ms : List RecordingMeta)
    → ((id : String) → includes id (recording_ids ms) ≡ true → includes id removed ≡ true)
    → length (filter_by (is_kept removed) ms) ≡ 0
none_kept removed [] h = refl
none_kept removed (m ∷ ms) h =
    let id = m.recording.recording_id in
    let here = h id (ground (arith, ==_iff id id)) in
    let rest = none_kept removed ms (λ i e. h i (ground (arith, e))) in ground (arith, here, rest)

-- Recordings that ended no later than `a`.
abbrev pub EndBefore : RecordingMeta → List RecordingMeta → Type 0
EndBefore a [] = Unit
EndBefore a (b ∷ bs) = (ended_at b ≤ ended_at a) × EndBefore a bs

abbrev pub AllNewer : List RecordingMeta → List RecordingMeta → Type 0
AllNewer [] bs = Unit
AllNewer (a ∷ rest) bs = EndBefore a bs × AllNewer rest bs

abbrev IsSorted : List RecordingMeta → Type 0
IsSorted [] = Unit
IsSorted (m ∷ ms) = EndBefore m ms × IsSorted ms

EndBefore-trans :
    (a b : RecordingMeta) (ms : List RecordingMeta)
    → ended_at b ≤ ended_at a
    → EndBefore b ms
    → EndBefore a ms
EndBefore-trans a b [] l h = tt
EndBefore-trans a b (m ∷ ms) l h =
    let x = h.0 in (omega (arith, l, x), EndBefore-trans a b ms l h.1)

EndBefore-insert :
    (a m : RecordingMeta) (ms : List RecordingMeta)
    → ended_at m ≤ ended_at a
    → EndBefore a ms
    → EndBefore a (insert_by_end m ms)
EndBefore-insert a m [] l h = (l, tt)
EndBefore-insert a m (x ∷ ms) l h = elim (Bool-cases (leb (ended_at x) (ended_at m))) [
  | inl e ↦ rw e (l, h)
  | inr e ↦ rw e (h.0, EndBefore-insert a m ms l h.1)
]

insert-IsSorted :
    (m : RecordingMeta) (ms : List RecordingMeta) → IsSorted ms → IsSorted (insert_by_end m ms)
insert-IsSorted m [] h = (tt, tt)
insert-IsSorted m (x ∷ ms) h = elim (Bool-cases (leb (ended_at x) (ended_at m))) [
  | inl e ↦
      let l : ended_at x ≤ ended_at m = ground (arith, e) in
      rw e ((l, EndBefore-trans m x ms l h.0), h)
  | inr e ↦
      let l : ended_at m ≤ ended_at x = ground (arith, e) in
      rw e (EndBefore-insert x m ms l h.0, insert-IsSorted m ms h.1)
]

pub newest_first-IsSorted : (ms : List RecordingMeta) → IsSorted (newest_first ms)
newest_first-IsSorted [] = tt
newest_first-IsSorted (m ∷ ms) = insert-IsSorted m (newest_first ms) (newest_first-IsSorted ms)

-- Those that are kept are newer than those to be removed.
abbrev KeptNewer : (RecordingMeta → Bool) → List RecordingMeta → List RecordingMeta → Type 0
KeptNewer kept bs [] = Unit
KeptNewer kept bs (m ∷ ms) = (kept m ≡ true → EndBefore m bs) × KeptNewer kept bs ms

EndBefore-drop :
    (a : RecordingMeta) (n : ℕ) (ms : List RecordingMeta) → EndBefore a ms → EndBefore a (drop n ms)
EndBefore-drop a zero ms h = h
EndBefore-drop a (suc n) [] h = h
EndBefore-drop a (suc n) (m ∷ ms) h = EndBefore-drop a n ms h.1

removed-KeptNewer :
    (removed : List String) (bs ms : List RecordingMeta)
    → ((id : String) → includes id (recording_ids ms) ≡ true → includes id removed ≡ true)
    → KeptNewer (is_kept removed) bs ms
removed-KeptNewer removed bs [] h = tt
removed-KeptNewer removed bs (m ∷ ms) h =
    let id = m.recording.recording_id in
    let here = h id (ground (arith, ==_iff id id)) in
    (
      λ k. absurd (ground (arith, here, k)),
      removed-KeptNewer removed bs ms (λ i e. h i (ground (arith, e))),
    )

pub sorted-KeptNewer :
    (removed : List String) (n : ℕ) (ms : List RecordingMeta)
    → IsSorted ms
    → ((id : String) → includes id (recording_ids (drop n ms)) ≡ true → includes id removed ≡ true)
    → KeptNewer (is_kept removed) (drop n ms) ms
sorted-KeptNewer removed zero ms s h = removed-KeptNewer removed ms ms h
sorted-KeptNewer removed (suc n) [] s h = tt
sorted-KeptNewer removed (suc n) (m ∷ ms) s h =
    (λ k. EndBefore-drop m n ms s.0, sorted-KeptNewer removed n ms s.1 h)

module _ (kept : RecordingMeta → Bool) (bs : List RecordingMeta) where
  inserted-KeptNewer :
      (b : Bool) (m x : RecordingMeta) (ms : List RecordingMeta)
      → (KeptNewer kept bs (insert_by_end m ms) → KeptNewer kept bs (m ∷ ms))
      → KeptNewer kept bs (if b then m ∷ x ∷ ms else x ∷ insert_by_end m ms)
      → KeptNewer kept bs (m ∷ x ∷ ms)
  inserted-KeptNewer true m x ms rest h = h
  inserted-KeptNewer false m x ms rest h = let r = rest h.1 in (r.0, (h.0, r.1))

  insert-KeptNewer :
      (m : RecordingMeta) (ms : List RecordingMeta)
      → KeptNewer kept bs (insert_by_end m ms)
      → KeptNewer kept bs (m ∷ ms)
  insert-KeptNewer m [] h = h
  insert-KeptNewer m (x ∷ ms) h =
      inserted-KeptNewer (leb (ended_at x) (ended_at m)) m x ms (insert-KeptNewer m ms) h

  pub newest_first-KeptNewer :
      (ms : List RecordingMeta) → KeptNewer kept bs (newest_first ms) → KeptNewer kept bs ms
  newest_first-KeptNewer [] h = tt
  newest_first-KeptNewer (m ∷ ms) h =
      let r = insert-KeptNewer m (newest_first ms) h in (r.0, newest_first-KeptNewer ms r.1)

  pub filter-AllNewer :
      (ms : List RecordingMeta) → KeptNewer kept bs ms → AllNewer (filter_by kept ms) bs
  filter-AllNewer [] h = tt
  filter-AllNewer (m ∷ ms) h = elim (Bool-cases (kept m)) [
    | inl e ↦ rw e (h.0 e, filter-AllNewer ms h.1)
    | inr e ↦ rw e (filter-AllNewer ms h.1)
  ]

-- What is removed: all but the newest.
abbrev pub removed_metas : Option ℤ → Replays → List RecordingMeta
removed_metas setting st = drop (resolve_retention_count setting) (newest_first st.metas)
