-- ===== src/Logs.antt =====
-- The log lines of a container, as they are polled: mergeContainerLogLines of
-- apps/desktop/src/renderer/store/createAppStore.ts.
pub mod Merge
mod Tests
use dolssh.Prelude.{
  ℕ, zero, suc, ◌-◌, String, Bool, true, false, List, [], ◌∷◌, ◌++◌, ◌==◌, if◌then◌else◌, length,
  drop, min,
}

-- The inner loop: the first `n` lines of both lists are the same.
unfoldable pub lines_match : ℕ → List String → List String → Bool
lines_match zero xs ys = true
lines_match (suc n) [] ys = false
lines_match (suc n) (x ∷ xs) [] = false
lines_match (suc n) (x ∷ xs) (y ∷ ys) = if x == y then lines_match n xs ys else false

-- The outer loop, from the longest overlap down.
unfoldable pub merge_from : ℕ → List String → List String → List String
unfolding lines_match
merge_from zero existing incoming = existing ++ incoming
merge_from (suc overlap) existing incoming =
    let shorter = merge_from overlap existing incoming in
    (if lines_match (suc overlap) (drop (length existing - suc overlap) existing) incoming
      then existing ++ drop (suc overlap) incoming
      else shorter)

unfoldable pub merge_container_log_lines : List String → List String → List String
unfolding merge_from
merge_container_log_lines [] incoming = incoming
merge_container_log_lines (x ∷ existing) [] = x ∷ existing
merge_container_log_lines (x ∷ existing) (y ∷ incoming) =
    merge_from (min (length (x ∷ existing)) (length (y ∷ incoming))) (x ∷ existing) (y ∷ incoming)
