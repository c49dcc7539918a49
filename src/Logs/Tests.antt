-- ===== src/Logs/Tests.antt =====
-- Two polls that share a line.
use dolssh.Prelude.{String-discrete, ◌≡◌, refl, [], ◌∷◌}
use dolssh.Logs.{merge_container_log_lines}
use dolssh.Logs.Merge.{Overlaid, merge-Overlaid}

merged : merge_container_log_lines ("a" ∷ "b" ∷ []) ("b" ∷ "c" ∷ []) ≡ "a" ∷ "b" ∷ "c" ∷ []
unfolding merge_container_log_lines String-discrete
merged = refl

merge-Overlaid_example :
    Overlaid
      ("a" ∷ "b" ∷ [])
      ("b" ∷ "c" ∷ [])
      (merge_container_log_lines ("a" ∷ "b" ∷ []) ("b" ∷ "c" ∷ []))
merge-Overlaid_example = merge-Overlaid ("a" ∷ "b" ∷ []) ("b" ∷ "c" ∷ [])
