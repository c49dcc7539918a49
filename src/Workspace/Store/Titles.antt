-- ===== src/Workspace/Store/Titles.antt =====
-- The titles that the store makes up.
use text.Mathlib.TextLemmas.{append_cancel_left, append_cancel_right}
use dolssh.Prelude.{
  ℕ, suc, ◌≡◌, String, false, Option, List, includes, length, arith, Bool-cases, inl, inr,
}
use dolssh.Prelude.Fresh.{first_free_lem}
use dolssh.Prelude.Decimal.{decimal_injective}
use dolssh.Workspace.Strip.{WorkspaceTab}
use dolssh.Workspace.Store.State.{TerminalTab}
use dolssh.Workspace.Store.Drag.{numbered_title, titles, build_workspace_title}
use dolssh.Workspace.Store.Opening.{numbered_label, scope_titles, build_session_title}

numbered_title_injective : (m n : ℕ) → numbered_title m ≡ numbered_title n → m ≡ n
numbered_title_injective m n e =
    decimal_injective m n (append_cancel_right _ _ ")" (append_cancel_left "Workspace (" _ _ e))

numbered_label_injective :
    (label : String) (m n : ℕ) → numbered_label label m ≡ numbered_label label n → m ≡ n
numbered_label_injective label m n e =
    decimal_injective m n
      (append_cancel_right _ _ ")" (append_cancel_left " (" _ _ (append_cancel_left label _ _ e)))

-- The title of a new workspace is none of the titles in use: the search for a number ends.
pub build_workspace_title-new :
    (ws : List WorkspaceTab) → includes (build_workspace_title ws) (titles ws) ≡ false
unfolding build_workspace_title
build_workspace_title-new ws = elim (Bool-cases (includes "Workspace" (titles ws))) [
  | inl used ↦ rw used (
      first_free_lem numbered_title numbered_title_injective (suc (length (titles ws))) 1
        (titles ws) (omega arith))
  | inr free ↦ rw free free
]

-- The title of a new session is none of the titles of its host's sessions, or of the local
-- terminals' where it has no host: the search for a number ends.
pub build_session_title-new :
    (label : String) (scope : Option String) (tabs : List TerminalTab)
    → includes (build_session_title label scope tabs) (scope_titles scope tabs) ≡ false
unfolding build_session_title
build_session_title-new label scope tabs =
    let xs = scope_titles scope tabs in
    elim (Bool-cases (includes label (scope_titles scope tabs))) [
      | inl used ↦ rw used (
          first_free_lem (numbered_label label) (numbered_label_injective label) (suc (length xs)) 1
            xs (omega arith))
      | inr free ↦ rw free free
    ]
