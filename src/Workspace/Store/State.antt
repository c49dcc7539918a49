-- ===== src/Workspace/Store/State.antt =====
-- The state: the fields of `AppState` that the operations on sessions and workspaces read or write,
-- from apps/desktop/src/renderer/store/createAppStore.ts and apps/desktop/src/shared/models.ts. What
-- a pending prompt carries besides its session is kept as one text, `rest`, that no operation reads.
use dolssh.Prelude.{ℕ, String, Bool, Option, List, [], ◌∷◌, ◌++◌}
use dolssh.Workspace.Layout.{list_workspace_session_ids}
use dolssh.Workspace.Strip.{WorkspaceTabId, DynamicTabStripItem, session, workspace, WorkspaceTab}

pub data TabStatus : Type 0 where
  pending connecting connected disconnecting closed error : TabStatus

pub data ShareStatus : Type 0 where
  inactive starting active error : ShareStatus

pub record SessionShareState : Type 0 where
  pub status : ShareStatus
  pub share_url : Option String
  pub input_enabled : Bool
  pub viewer_count : ℕ
  pub error_message : Option String

pub data TerminalSource : Type 0 where
  host local container_shell : TerminalSource

pub record TerminalConnectionProgress : Type 0 where
  pub stage : String
  pub message : String
  pub blocking_kind : String
  pub retryable : Bool

pub record TerminalTab : Type 0 where
  pub id : String
  pub session_id : String
  pub source : TerminalSource
  pub host_id : Option String
  pub title : String
  pub status : TabStatus
  pub error_message : Option String
  pub connection_progress : Option TerminalConnectionProgress
  pub session_share : Option SessionShareState
  pub has_received_output : Bool
  pub last_event_at : String

pub record SessionShareChatMessage : Type 0 where
  pub id : String
  pub nickname : String
  pub text : String
  pub sent_at : String

-- A pending host key prompt or credential retry.
pub record PendingPrompt : Type 0 where
  pub session_id : Option String
  pub rest : String

pub data PendingInteractiveAuth : Type 0 where
  ssh : (session_id rest : String) → PendingInteractiveAuth
  other : (rest : String) → PendingInteractiveAuth

pub record PendingConnectionAttempt : Type 0 where
  pub session_id : String
  pub source : TerminalSource
  pub host_id : Option String
  pub title : String
  pub latest_cols : ℕ
  pub latest_rows : ℕ
  pub container_id : Option String

abbrev pub Notifications : Type 0
Notifications = List (String × List SessionShareChatMessage)

pub record AppState : Type 0 where
  pub tabs : List TerminalTab
  pub session_share_chat_notifications : Notifications
  pub workspaces : List WorkspaceTab
  pub tab_strip : List DynamicTabStripItem
  pub active_workspace_tab : WorkspaceTabId
  pub pending_host_key_prompt : Option PendingPrompt
  pub pending_credential_retry : Option PendingPrompt
  pub pending_interactive_auth : Option PendingInteractiveAuth
  pub pending_connection_attempts : List PendingConnectionAttempt
  -- How many ids have been drawn.
  pub next_uuid : ℕ

-- The sessions that have a tab of their own on the strip, and those in the panes of a workspace.
abbrev pub strip_sessions : List DynamicTabStripItem → List String
strip_sessions [] = []
strip_sessions (session s ∷ strip) = s ∷ strip_sessions strip
strip_sessions (workspace w ∷ strip) = strip_sessions strip

abbrev pub strip_workspaces : List DynamicTabStripItem → List String
strip_workspaces [] = []
strip_workspaces (session s ∷ strip) = strip_workspaces strip
strip_workspaces (workspace w ∷ strip) = w ∷ strip_workspaces strip

abbrev pub workspace_ids : List WorkspaceTab → List String
workspace_ids [] = []
workspace_ids (w ∷ ws) = w.id ∷ workspace_ids ws

abbrev pub pane_sessions : List WorkspaceTab → List String
pane_sessions [] = []
pane_sessions (w ∷ ws) = list_workspace_session_ids w.layout ++ pane_sessions ws

abbrev pub placed : List DynamicTabStripItem → List WorkspaceTab → List String
placed strip ws = strip_sessions strip ++ pane_sessions ws
