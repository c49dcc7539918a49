-- ===== src/Workspace/Store/Histories.antt =====
-- Every state that the store's operations on sessions and workspaces lead to, from the empty one.
use dolssh.Prelude.{
  refl, arith, ℕ, ◌≡◌, String, true, Option, none, some, List, [], includes, count, find_by,
}
use dolssh.Prelude.Int.{ℤ}
use dolssh.Workspace.Layout.{WorkspaceDropDirection, list_workspace_session_ids}
use dolssh.Workspace.Strip.{home, DynamicTabStripItem, WorkspaceTab, has_id, Placement}
use dolssh.Workspace.Store.State.{AppState, TerminalTab, PendingConnectionAttempt, pane_sessions}
use dolssh.Workspace.Store.Drag.{split_session_into_workspace}
use dolssh.Workspace.Store.Panes.{
  move_workspace_session, detach_session_from_workspace, reorder_dynamic_tab,
  focus_workspace_session, toggle_workspace_broadcast, resize_workspace_split,
  close_workspace_commit,
}
use dolssh.Workspace.Store.Session.{
  remove_session_from_state, replace_session_references_in_state, activate_session_context_in_state,
}
use dolssh.Workspace.Store.Opening.{open_tab}
use dolssh.Workspace.Store.Placement.{WellPlaced, places}
use dolssh.Workspace.Store.Placement.Accepted.{split-WellPlaced}
use dolssh.Workspace.Store.Placement.Panes.{move-WellPlaced, toggle-WellPlaced, resize-WellPlaced}
use dolssh.Workspace.Store.Placement.Shrunk.{detach-WellPlaced}
use dolssh.Workspace.Store.Placement.Strip.{reorder-WellPlaced, focus-WellPlaced, close-WellPlaced}
use dolssh.Workspace.Store.Placement.Remaining.{remove-WellPlaced}
use dolssh.Workspace.Store.Placement.Renamed.{replace-WellPlaced}
use dolssh.Workspace.Store.Placement.Opened.{open-WellPlaced, activate-WellPlaced}

abbrev pub empty_state : AppState
empty_state = record {
  tabs = [];
  session_share_chat_notifications = [];
  workspaces = [];
  tab_strip = [];
  active_workspace_tab = home;
  pending_host_key_prompt = none;
  pending_credential_retry = none;
  pending_interactive_auth = none;
  pending_connection_attempts = [];
  next_uuid = 0;
}

module _ (uuid : ℕ → String) where
  -- A call of an operation. The conditions are what its callers see to: a tab is opened for a
  -- session that is in no workspace, a pane is detached from or focused in the workspace that shows
  -- it, and a session's id is exchanged for one that has no place yet.
  pub data Step : AppState → AppState → Type 0 where
    opens :
        (st : AppState) (s : String) (tab : TerminalTab) (attempt : PendingConnectionAttempt)
        → count s (pane_sessions st.workspaces) ≡ 0
        → Step st (open_tab st s tab attempt)
    drops :
        (st : AppState) (s : String) (d : WorkspaceDropDirection) (target : Option String)
        → Step st (split_session_into_workspace uuid st s d target).0
    moves :
        (st : AppState) (id s : String) (d : WorkspaceDropDirection) (t : String)
        → Step st (move_workspace_session uuid st id s d t).0
    detaches :
        (st : AppState) (id s : String) (w : WorkspaceTab)
        → find_by (has_id id) st.workspaces ≡ some w
        → includes s (list_workspace_session_ids w.layout) ≡ true
        → Step st (detach_session_from_workspace st id s)
    reorders :
        (st : AppState) (source target : DynamicTabStripItem) (p : Placement)
        → Step st (reorder_dynamic_tab st source target p)
    focuses :
        (st : AppState) (id s : String) (w : WorkspaceTab)
        → find_by (has_id id) st.workspaces ≡ some w
        → includes s (list_workspace_session_ids w.layout) ≡ true
        → Step st (focus_workspace_session st id s)
    toggles : (st : AppState) (id : String) → Step st (toggle_workspace_broadcast st id)
    resizes :
        (st : AppState) (id split_id : String) (ratio : ℤ)
        → Step st (resize_workspace_split st id split_id ratio)
    closes :
        (st : AppState) (id : String) (sessions : List String) (now : String)
        → Step st (close_workspace_commit st id sessions now)
    activates : (st : AppState) (s : String) → Step st (activate_session_context_in_state st s)
    renames :
        (st : AppState) (p n : String) (transform : TerminalTab → TerminalTab)
        → places n st ≡ 0
        → Step st (replace_session_references_in_state st p n transform)
    removes : (st : AppState) (s : String) → Step st (remove_session_from_state st s)

  pub data Reach : AppState → Type 0 where
    start : Reach empty_state
    next : {st st' : AppState} → Reach st → Step st st' → Reach st'

  empty_state-WellPlaced : WellPlaced uuid empty_state
  empty_state-WellPlaced = record {
    once = λ a. omega arith;
    unique = λ a. omega arith;
    listed = λ a. refl;
    fresh = λ n h. refl;
    shown = tt;
  }

  module _ (injective : (m n : ℕ) → uuid m ≡ uuid n → m ≡ n) where
    Step-WellPlaced : {st st' : AppState} → Step st st' → WellPlaced uuid st → WellPlaced uuid st'
    Step-WellPlaced (opens st s tab attempt h) v = open-WellPlaced uuid st s tab attempt h v
    Step-WellPlaced (drops st s d target) v = split-WellPlaced uuid injective st s d target v
    Step-WellPlaced (moves st id s d t) v = move-WellPlaced uuid st id s d t v
    Step-WellPlaced (detaches st id s w f h) v = detach-WellPlaced uuid st id s w f h v
    Step-WellPlaced (reorders st a b p) v = reorder-WellPlaced uuid st a b p v
    Step-WellPlaced (focuses st id s w f h) v = focus-WellPlaced uuid st id s w f h v
    Step-WellPlaced (toggles st id) v = toggle-WellPlaced uuid st id v
    Step-WellPlaced (resizes st id split_id ratio) v = resize-WellPlaced uuid st id split_id ratio v
    Step-WellPlaced (closes st id sessions now) v = close-WellPlaced uuid st id sessions now v
    Step-WellPlaced (activates st s) v = activate-WellPlaced uuid st s v
    Step-WellPlaced (renames st p n transform h) v = replace-WellPlaced p n uuid st transform h v
    Step-WellPlaced (removes st s) v = remove-WellPlaced uuid st s v

    -- Whatever steps, each under its condition, lead on from the empty store, where ids are never
    -- drawn twice, every session has
    -- one place at most, the strip lists exactly the workspaces there are, and each of these has
    -- two to four panes, its active session in one of them and its ratios in range.
    pub Reach-WellPlaced : {st : AppState} → Reach st → WellPlaced uuid st
    Reach-WellPlaced start = empty_state-WellPlaced
    Reach-WellPlaced (next r s) = Step-WellPlaced s (Reach-WellPlaced r)
