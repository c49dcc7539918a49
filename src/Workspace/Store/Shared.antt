-- ===== src/Workspace/Store/Shared.antt =====
-- What the store of apps/desktop/src/renderer/store/createAppStore.ts keeps of shared sessions: the state
-- of a share on its tab, and the chat messages to show.
use dolssh.Prelude.{
  String, Bool, true, false, not, Option, none, some, List, if◌then◌else◌, find_by, map_where,
}
use dolssh.Workspace.Store.State.{
  AppState, TerminalTab, SessionShareState, ShareStatus, SessionShareChatMessage,
}
use dolssh.Workspace.Store.Notifications.{
  clear_session_share_chat_notifications, append_session_share_chat_notification,
  dismiss_session_share_chat_notification,
}
use dolssh.Workspace.Store.Session.{is_tab}

abbrev pub inactive_share : SessionShareState
inactive_share = record {
  status = ShareStatus.inactive;
  share_url = none;
  input_enabled = false;
  viewer_count = 0;
  error_message = none;
}

unfoldable pub set_session_share_state :
    List TerminalTab → String → SessionShareState → List TerminalTab
set_session_share_state tabs session_id next =
    map_where (is_tab session_id) (λ tab. record tab { session_share = some next }) tabs

abbrev pub is_active : ShareStatus → Bool
is_active ShareStatus.active = true
is_active _ = false

unfoldable pub handle_session_share_event : AppState → String → SessionShareState → AppState
handle_session_share_event st session_id next = record st {
  tabs = set_session_share_state st.tabs session_id next;
  session_share_chat_notifications =
      if is_active next.status
      then st.session_share_chat_notifications
      else clear_session_share_chat_notifications st.session_share_chat_notifications session_id;
}

abbrev pub share_is_active : Option SessionShareState → Bool
share_is_active none = false
share_is_active (some share) = is_active share.status

abbrev pub tab_shares : Option TerminalTab → Bool
tab_shares none = false
tab_shares (some tab) = share_is_active tab.session_share

unfoldable pub handle_session_share_chat_event :
    AppState → String → SessionShareChatMessage → AppState
handle_session_share_chat_event st session_id message =
    if not (tab_shares (find_by (is_tab session_id) st.tabs)) then st else record st {
      session_share_chat_notifications =
          append_session_share_chat_notification st.session_share_chat_notifications session_id
            message;
    }

unfoldable pub dismiss_notification : AppState → (session_id message_id : String) → AppState
dismiss_notification st session_id message_id = record st {
  session_share_chat_notifications =
      dismiss_session_share_chat_notification st.session_share_chat_notifications session_id
        message_id;
}
