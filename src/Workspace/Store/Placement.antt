-- ===== src/Workspace/Store/Placement.antt =====
-- Where each session stands: at one place, on the strip or in a pane. The invariant of the store,
-- and what dropping one tab beside another does to it.
pub mod Dropped
pub mod Accepted
pub mod Detached
pub mod Shrunk
pub mod Panes
pub mod Strip
pub mod Removed
pub mod Remaining
pub mod Opened
pub mod Renamed
use dolssh.Prelude.{
  ℕ, zero, suc, ◌+◌, ◌≤◌, ◌≡◌, refl, String, Bool, true, false, Option, none, some, List, [], ◌∷◌,
  ◌++◌, ◌==◌, if◌then◌else◌, find_by, count, length, includes, arith,
}
use dolssh.Workspace.Layout.{list_workspace_session_ids}
use dolssh.Workspace.Layout.Ratios.{RatiosInRange}
use dolssh.Workspace.Strip.{DynamicTabStripItem, WorkspaceTab, has_id}
use dolssh.Workspace.Store.State.{AppState, placed, strip_workspaces, workspace_ids}
use dolssh.Workspace.Store.Drag.{update_workspace, drop_workspace}
use dolssh.Workspace.Store.Counting.{update-absent}

-- A workspace has two to four panes, its active session is in one of them, and the ratios of its
-- splits are in range.
pub record IsShown (w : WorkspaceTab) : Type 0 where
  pub several : 2 ≤ length (list_workspace_session_ids w.layout)
  pub few : length (list_workspace_session_ids w.layout) ≤ 4
  pub active : includes w.active_session_id (list_workspace_session_ids w.layout) ≡ true
  pub ratios : RatiosInRange w.layout

abbrev pub AllShown : List WorkspaceTab → Type 0
AllShown [] = Unit
AllShown (w ∷ ws) = IsShown w × AllShown ws

pub record WellPlaced (uuid : ℕ → String) (st : AppState) : Type 0 where
  -- No session has two places.
  pub once : (a : String) → count a (placed st.tab_strip st.workspaces) ≤ 1
  -- No two workspaces have one id, and the strip lists exactly the workspaces there are.
  pub unique : (a : String) → count a (workspace_ids st.workspaces) ≤ 1
  pub listed :
      (a : String) → count a (strip_workspaces st.tab_strip) ≡ count a (workspace_ids st.workspaces)
  -- The ids to be drawn next are not in use.
  pub fresh : (n : ℕ) → st.next_uuid ≤ n → count (uuid n) (workspace_ids st.workspaces) ≡ 0
  pub shown : AllShown st.workspaces

-- How often a session is placed.
abbrev pub places : String → AppState → ℕ
places a st = count a (placed st.tab_strip st.workspaces)

pub find-IsShown :
    (id : String) (ws : List WorkspaceTab) (w : WorkspaceTab)
    → find_by (has_id id) ws ≡ some w
    → AllShown ws
    → IsShown w
find-IsShown id [] w h k = cc
find-IsShown id (x ∷ ws) w h k = ground (arith, find-IsShown id ws w)

pub append-AllShown :
    (ws : List WorkspaceTab) (w : WorkspaceTab) → AllShown ws → IsShown w → AllShown (ws ++ w ∷ [])
append-AllShown [] w h k = (k, tt)
append-AllShown (x ∷ ws) w h k = (h.0, append-AllShown ws w h.1 k)

pub drop-AllShown :
    (id : String) (ws : List WorkspaceTab) → AllShown ws → AllShown (drop_workspace id ws)
drop-AllShown id [] h = tt
drop-AllShown id (x ∷ ws) h = ground (arith, drop-AllShown id ws h.1)

-- A change that keeps every workspace of the id shown.
pub update-AllShown :
    (id : String) (f : WorkspaceTab → WorkspaceTab) (ws : List WorkspaceTab)
    → ((w : WorkspaceTab) → IsShown w → IsShown (f w))
    → AllShown ws
    → AllShown (update_workspace id f ws)
update-AllShown id f [] k h = tt
update-AllShown id f (x ∷ ws) k h = ground (arith, k x h.0, update-AllShown id f ws k h.1)

-- The same for the one workspace that is changed.
pub update-AllShown_one :
    (id : String) (f : WorkspaceTab → WorkspaceTab) (ws : List WorkspaceTab) (w : WorkspaceTab)
    → count id (workspace_ids ws) ≤ 1
    → find_by (has_id id) ws ≡ some w
    → IsShown (f w)
    → AllShown ws
    → AllShown (update_workspace id f ws)
update-AllShown_one id f [] w u h k l = tt
update-AllShown_one id f (x ∷ ws) w u h k l =
    ground (arith, update-AllShown_one id f ws w, update-absent id f ws)
