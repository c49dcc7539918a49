-- ===== src/Workspace/Store/Tests.antt =====
-- Runs of the store's operations on a small state, and the theorems at it.
use dolssh.Prelude.{
  List, ℕ, ◌≡◌, refl, String, true, false, none, some, [], ◌∷◌, String-discrete, includes, find_by,
  map,
}
use Prim.Native.String
use text.Mathlib.TextLemmas.{append_cancel_left}
use dolssh.Prelude.Decimal.{decimal, decimal_injective}
use dolssh.Prelude.Fresh.{first_free}
use dolssh.Prelude.Int.{pos, negsuc}
use dolssh.Workspace.Layout.{
  left, right, bottom, horizontal, WorkspaceLayoutNode, leaf, split, list_workspace_session_ids,
  insert_session_into_workspace_layout, remove_session_from_workspace_layout,
  move_session_within_workspace_layout, update_workspace_split_ratio,
}
use dolssh.Workspace.Layout.Insert.{list-insert}
use dolssh.Workspace.Layout.Remove.{sessions_of, sessions_of-remove}
use dolssh.Workspace.Layout.Move.{move_lem}
use dolssh.Workspace.Layout.Ratios.{update_ratio_lem}
use dolssh.Workspace.Strip.{
  DynamicTabStripItem, has_id, session, workspace, WorkspaceTab, before, reorder_strip,
  resolve_adjacent_target,
}
use dolssh.Workspace.Strip.Reorder.{reorder_lem}
use dolssh.Workspace.Strip.Joining.{Chosen, adjacent-Chosen}
use dolssh.Workspace.Store.State.{
  AppState, SessionShareChatMessage, TerminalTab, PendingConnectionAttempt, local, pending, placed,
}
use dolssh.Workspace.Store.Drag.{
  pair_sessions, join_workspace, split_session_into_workspace, build_workspace_title, titles,
}
use dolssh.Workspace.Store.Panes.{detach_session_from_workspace}
use dolssh.Workspace.Store.Session.{remove_session_from_state, replace_session_references_in_state}
use dolssh.Workspace.Store.Opening.{open_tab, build_session_title, scope_titles}
use dolssh.Workspace.Store.Placement.{WellPlaced, places}
use dolssh.Workspace.Store.Placement.Dropped.{split-places}
use dolssh.Workspace.Store.Placement.Detached.{detach-places}
use dolssh.Workspace.Store.Placement.Removed.{remove-places}
use dolssh.Workspace.Store.Placement.Renamed.{placed-replace, rename}
use dolssh.Workspace.Store.Histories.{
  empty_state, Reach, start, next, opens, drops, Reach-WellPlaced,
}
use dolssh.Workspace.Store.Titles.{build_workspace_title-new, build_session_title-new}

-- Ids as a counter prints them.
uuid : ℕ → String
uuid n = String.◌++◌ "id-" (decimal n)

uuid_injective : (m n : ℕ) → uuid m ≡ uuid n → m ≡ n
unfolding uuid
uuid_injective m n e = decimal_injective m n (append_cancel_left "id-" _ _ e)

abbrev tab : String → TerminalTab
tab s = record {
  id = s;
  session_id = s;
  source = local;
  host_id = none;
  title = s;
  status = pending;
  error_message = none;
  connection_progress = none;
  session_share = none;
  has_received_output = false;
  last_event_at = "";
}

abbrev attempt : String → PendingConnectionAttempt
attempt s = record {
  session_id = s;
  source = local;
  host_id = none;
  title = s;
  latest_cols = 80;
  latest_rows = 24;
  container_id = none;
}

abbrev opened : AppState
opened =
    open_tab
      (open_tab (open_tab empty_state "a" (tab "a") (attempt "a")) "b" (tab "b") (attempt "b")) "c"
      (tab "c") (attempt "c")

opened_reached : Reach uuid opened
unfolding open_tab String-discrete
opened_reached =
    next
      (next (next start (opens empty_state "a" (tab "a") (attempt "a") refl))
        (opens _ "b" (tab "b") (attempt "b") refl))
      (opens _ "c" (tab "c") (attempt "c") refl)

-- "b" dropped on the left of "c", which follows it.
abbrev paired : AppState
paired = (split_session_into_workspace uuid opened "b" left none).0

paired_reached : Reach uuid paired
paired_reached = next opened_reached (drops opened "b" left none)

store : Unit {0}
unfolding split_session_into_workspace pair_sessions join_workspace open_tab String-discrete
    list_workspace_session_ids resolve_adjacent_target build_workspace_title decimal uuid first_free
    detach_session_from_workspace remove_session_from_state insert_session_into_workspace_layout
    replace_session_references_in_state
store = tt

abbrev message : String → SessionShareChatMessage
message id = record { id = id; nickname = "n"; text = "t"; sent_at = "" }

paired_strip : paired.tab_strip ≡ session "a" ∷ workspace "id-0" ∷ []
unfolding store
paired_strip = refl

paired_panes : placed paired.tab_strip paired.workspaces ≡ "a" ∷ "b" ∷ "c" ∷ []
unfolding store
paired_panes = refl

opened-WellPlaced : WellPlaced uuid opened
opened-WellPlaced = Reach-WellPlaced uuid uuid_injective opened_reached

paired-WellPlaced : WellPlaced uuid paired
paired-WellPlaced = Reach-WellPlaced uuid uuid_injective paired_reached

abbrev two_panes : WorkspaceLayoutNode
two_panes = split "s" horizontal (pos 500) (leaf "l" "b") (leaf "m" "c")

Reach-WellPlaced_example : WellPlaced uuid paired
Reach-WellPlaced_example = Reach-WellPlaced uuid uuid_injective paired_reached

split-places_example :
    places "b" (split_session_into_workspace uuid opened "b" left none).0 ≡ places "b" opened
split-places_example = split-places uuid opened "b" left none "b" opened-WellPlaced

remove-places_example : places "b" (remove_session_from_state paired "b") ≡ 0
unfolding String-discrete
remove-places_example = remove-places uuid paired "b" "b" paired-WellPlaced

list-insert_example :
    list_workspace_session_ids
      (insert_session_into_workspace_layout uuid two_panes "b" "a" right 7).layout
    ≡ "b" ∷ "a" ∷ "c" ∷ []
unfolding store
list-insert_example = list-insert uuid two_panes "b" "a" right 7

sessions_of-remove_example :
    sessions_of (remove_session_from_workspace_layout two_panes "b") ≡ "c" ∷ []
unfolding store
sessions_of-remove_example = sessions_of-remove two_panes "b"

move_lem_example :
    ((move_session_within_workspace_layout uuid two_panes "b" "c" bottom 7).moved ≡ true)
    × (list_workspace_session_ids
          (move_session_within_workspace_layout uuid two_panes "b" "c" bottom 7).layout
        ≡ "c" ∷ "b" ∷ [])
unfolding store
move_lem_example = move_lem uuid two_panes "b" "c" bottom 7

update_ratio_lem_example :
    update_workspace_split_ratio two_panes "s" (negsuc 3)
    ≡ split "s" horizontal (pos 200) (leaf "l" "b") (leaf "m" "c")
unfolding store
update_ratio_lem_example = update_ratio_lem two_panes "s" (negsuc 3)

reorder_lem_example :
    reorder_strip
      (session "a" ∷ workspace "w" ∷ session "b" ∷ [])
      (session "b")
      (session "a")
      before
    ≡ session "b" ∷ session "a" ∷ workspace "w" ∷ []
unfolding store
reorder_lem_example =
    reorder_lem (session "a" ∷ workspace "w" ∷ session "b" ∷ []) (session "b") (session "a") before

placed-replace_example :
    placed
      (replace_session_references_in_state paired "b" "z" (λ t. t)).tab_strip
      (replace_session_references_in_state paired "b" "z" (λ t. t)).workspaces
    ≡ map (rename "b" "z") (placed paired.tab_strip paired.workspaces)
placed-replace_example = placed-replace "b" "z" paired (λ t. t)

build_workspace_title-new_example :
    includes (build_workspace_title paired.workspaces) (titles paired.workspaces) ≡ false
build_workspace_title-new_example = build_workspace_title-new paired.workspaces

build_session_title-new_example :
    includes (build_session_title "c" none opened.tabs) (scope_titles none opened.tabs) ≡ false
build_session_title-new_example = build_session_title-new "c" none opened.tabs

second_title : build_session_title "c" none opened.tabs ≡ "c (1)"
unfolding store build_session_title
second_title = refl

abbrev made_workspace : WorkspaceTab
made_workspace = record {
  id = "id-0";
  title = "Workspace";
  layout = split "id-3" horizontal (pos 500) (leaf "id-2" "b") (leaf "id-1" "c");
  active_session_id = "b";
  broadcast_enabled = false;
}

abbrev four_panes : WorkspaceLayoutNode
four_panes =
    split "r" horizontal (pos 500) (split "s" horizontal (pos 500) (leaf "l" "b") (leaf "m" "c"))
      (split "t" horizontal (pos 500) (leaf "n" "d") (leaf "o" "e"))

abbrev full_workspace : WorkspaceTab
full_workspace = record made_workspace { id = "full"; layout = four_panes }

-- A session between a workspace with room and one without.
abbrev crowded_strip : List DynamicTabStripItem
crowded_strip = workspace "id-0" ∷ session "a" ∷ workspace "full" ∷ []

crowded_strip-adjacent :
    resolve_adjacent_target crowded_strip (full_workspace ∷ made_workspace ∷ []) "a"
    ≡ some (workspace "id-0")
unfolding store
crowded_strip-adjacent = refl

adjacent-Chosen_example :
    Chosen crowded_strip
      (full_workspace ∷ made_workspace ∷ [])
      "a"
      (resolve_adjacent_target crowded_strip (full_workspace ∷ made_workspace ∷ []) "a")
adjacent-Chosen_example = adjacent-Chosen crowded_strip (full_workspace ∷ made_workspace ∷ []) "a"

made_found : find_by (has_id "id-0") paired.workspaces ≡ some made_workspace
unfolding store
made_found = refl

detach-places_example :
    places "b" (detach_session_from_workspace paired "id-0" "b") ≡ places "b" paired
unfolding store
detach-places_example =
    detach-places uuid paired "id-0" "b" made_workspace "b" made_found refl paired-WellPlaced
