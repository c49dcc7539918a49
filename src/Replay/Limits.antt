-- ===== src/Replay/Limits.antt =====
-- How many recordings apps/desktop/src/main/session-replay-service.ts keeps.
use dolssh.Prelude.{
  false, ℕ, suc, ◌+◌, ◌≤◌, ◌≡◌, refl, sym, ap, String, Option, none, some, List, [], ◌∷◌, ◌++◌,
  ◌==◌, ==_iff, Bool-cases, inl, inr, length, min, take, drop, length-take, take-append-drop,
  filter_by, includes, count, arith,
}
use dolssh.Prelude.Int.{ℤ, pos, negsuc}
use dolssh.Replay.{
  clamp_retention_count, resolve_retention_count, RecordingMeta, Replays, insert_by_end,
  newest_first, recording_ids, is_kept, prune,
}
use dolssh.Replay.Retention.{
  AllNewer, length-filter-sorted, filter-append, none_kept, sorted-KeptNewer,
  newest_first-KeptNewer, filter-AllNewer, newest_first-IsSorted,
}

-- How many recordings a setting lets stay.
pub data IsLimit : Option ℤ → ℕ → Type 0 where
  unset : IsLimit none 100
  negative : (n : ℕ) → IsLimit (some (negsuc n)) 10
  too_few : (n : ℕ) → n ≤ 10 → IsLimit (some (pos n)) 10
  within : (n : ℕ) → 10 ≤ n → n ≤ 1000 → IsLimit (some (pos n)) n
  too_many : (n : ℕ) → 1000 ≤ n → IsLimit (some (pos n)) 1000

pub resolve-limit :
    (setting : Option ℤ) (n : ℕ) → IsLimit setting n → resolve_retention_count setting ≡ n
unfolding clamp_retention_count
resolve-limit none _ unset = refl
resolve-limit (some (negsuc _)) _ (negative n) = ground arith
resolve-limit (some (pos _)) _ (too_few n a) = ground (arith, a)
resolve-limit (some (pos _)) _ (within n a b) = ground (arith, a, b)
resolve-limit (some (pos _)) _ (too_many n a) = ground (arith, a)

-- No two recordings have the same id.
abbrev pub AllDistinct : List RecordingMeta → Type 0
AllDistinct [] = Unit
AllDistinct (m ∷ ms) =
    (includes m.recording.recording_id (recording_ids ms) ≡ false) × AllDistinct ms

missing-count : (id : String) (ids : List String) → includes id ids ≡ false → count id ids ≡ 0
missing-count id [] h = refl
missing-count id (x ∷ ids) h = ground (arith, missing-count id ids)

distinct-count :
    (id : String) (ms : List RecordingMeta) → AllDistinct ms → count id (recording_ids ms) ≤ 1
distinct-count id [] d = omega arith
distinct-count id (m ∷ ms) d = elim (Bool-cases (m.recording.recording_id == id)) [
  | inl e ↦
      let same = (==_iff m.recording.recording_id id).0 e in
      let out : includes id (recording_ids ms) ≡ false = rw (sym same) d.0 in
      let z = missing-count id (recording_ids ms) out in ground (arith, e, z)
  | inr e ↦ let r = distinct-count id ms d.1 in ground (arith, e, r)
]

includes-count : (id : String) (ids : List String) → count id ids ≡ 0 → includes id ids ≡ false
includes-count id [] h = refl
includes-count id (x ∷ ids) h = ground (arith, includes-count id ids)

count-insert :
    (id : String) (m : RecordingMeta) (ms : List RecordingMeta)
    → count id (recording_ids (insert_by_end m ms)) ≡ count id (recording_ids (m ∷ ms))
count-insert id m [] = refl
count-insert id m (x ∷ ms) = ground (arith, count-insert id m ms)

count-sorted :
    (id : String) (ms : List RecordingMeta)
    → count id (recording_ids (newest_first ms)) ≡ count id (recording_ids ms)
count-sorted id [] = refl
count-sorted id (m ∷ ms) =
    let a = count-insert id m (newest_first ms) in let b = count-sorted id ms in omega (arith, a, b)

count-ids :
    (id : String) (xs ys : List RecordingMeta)
    → count id (recording_ids (xs ++ ys))
      ≡ count id (recording_ids xs) + count id (recording_ids ys)
count-ids id [] ys = omega arith
count-ids id (x ∷ xs) ys = omega (arith, count-ids id xs ys)

-- Recordings with ids other than the removed ones all stay.
all_kept :
    (removed : List String) (ms : List RecordingMeta)
    → ((id : String) → count id (recording_ids ms) + count id removed ≤ 1)
    → length (filter_by (is_kept removed) ms) ≡ length ms
all_kept removed [] h = refl
all_kept removed (m ∷ ms) h =
    let id = m.recording.recording_id in
    let one = h id in
    let same = (==_iff id id).1 refl in
    let none_left : count id removed ≡ 0 = ground (arith, one, same) in
    let out = includes-count id removed none_left in
    let rest = all_kept removed ms (λ i. let l = h i in omega (arith, l)) in
    ground (arith, out, rest)

length-insert :
    (m : RecordingMeta) (ms : List RecordingMeta) → length (insert_by_end m ms) ≡ suc (length ms)
length-insert m [] = refl
length-insert m (x ∷ ms) = ground (arith, length-insert m ms)

pub length-sorted : (ms : List RecordingMeta) → length (newest_first ms) ≡ length ms
length-sorted [] = refl
length-sorted (m ∷ ms) =
    let a = length-insert m (newest_first ms) in let b = length-sorted ms in omega (arith, a, b)

split-count :
    (id : String) (n : ℕ) (ms : List RecordingMeta)
    → count id (recording_ids ms) ≤ 1
    → count id (recording_ids (take n (newest_first ms)))
        + count id (recording_ids (drop n (newest_first ms)))
      ≤ 1
split-count id n ms h =
    let sorted = newest_first ms in
    let a = count-ids id (take n sorted) (drop n sorted) in
    let b : count id (recording_ids (take n sorted ++ drop n sorted))
        ≡ count id (recording_ids sorted) =
      ap (λ xs. count id (recording_ids xs)) (take-append-drop n sorted) in
    let c = count-sorted id ms in omega (arith, a, b, c, h)

-- Where no two recordings have the same id, what is left once old recordings are removed is all of
-- them, or as many as the setting says: 100 where there is none, 10 where it says less, 1000 where it
-- says more. Each that is left ended no earlier than any past that number in the order of their ends.
pub prune-kept :
    (setting : Option ℤ) (limit : ℕ) (st : Replays)
    → IsLimit setting limit
    → AllDistinct st.metas
    → (length (prune setting st).metas ≡ min limit (length st.metas))
      × AllNewer (prune setting st).metas (drop limit (newest_first st.metas))
unfolding prune
prune-kept setting limit st l d =
    let n = limit in
    let sorted = newest_first st.metas in
    let removed = recording_ids (drop n sorted) in
    let kept = is_kept removed in
    let s = length-filter-sorted kept st.metas in
    let a = filter-append kept (take n sorted) (drop n sorted) in
    let j : length (filter_by kept (take n sorted ++ drop n sorted))
        ≡ length (filter_by kept sorted) =
      ap (λ xs. length (filter_by kept xs)) (take-append-drop n sorted) in
    let z = none_kept removed (drop n sorted) (λ id h. h) in
    let t = length-take n sorted in
    let w = length-sorted st.metas in
    let f =
      all_kept removed (take n sorted)
        (λ id. split-count id n st.metas (distinct-count id st.metas d)) in
    let k = sorted-KeptNewer removed n sorted (newest_first-IsSorted st.metas) (λ id h. h) in
    rw (resolve-limit setting limit l) (
      omega (arith, s, a, j, z, f, t, w),
      filter-AllNewer kept (drop n sorted) st.metas
          (newest_first-KeptNewer kept (drop n sorted) st.metas k),
    )
