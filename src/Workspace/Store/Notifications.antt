-- ===== src/Workspace/Store/Notifications.antt =====
-- The chat notifications of shared sessions, from
-- apps/desktop/src/renderer/store/createAppStore.ts. The record by session is an association list:
-- a key occurs at most once, and a write to a present key keeps its place.
use dolssh.Prelude.{
  ◌≤◌, ◌≡◌, inl, inr, Option-cases, String, not, Option, none, some, List, [], ◌∷◌, ◌++◌, ◌==◌,
  ◌=ℕ=◌, arith, if◌then◌else◌, filter_by, length, refl,
}
use dolssh.Workspace.Store.State.{SessionShareChatMessage, Notifications}

unfoldable pub lookup_messages : String → Notifications → Option (List SessionShareChatMessage)
lookup_messages k [] = none
lookup_messages k ((j, v) ∷ m) = if j == k then some v else lookup_messages k m

unfoldable pub set_messages : String → List SessionShareChatMessage → Notifications → Notifications
set_messages k v [] = (k, v) ∷ []
set_messages k v ((j, w) ∷ m) = if j == k then (k, v) ∷ m else (j, w) ∷ set_messages k v m

-- `delete next[sessionId]`; a missing key leaves the record as it is.
unfoldable pub clear_session_share_chat_notifications : Notifications → String → Notifications
clear_session_share_chat_notifications [] session_id = []
clear_session_share_chat_notifications ((j, v) ∷ m) session_id =
    if j == session_id
    then clear_session_share_chat_notifications m session_id
    else (j, v) ∷ clear_session_share_chat_notifications m session_id

abbrev pub messages_or_none : Option (List SessionShareChatMessage) → List SessionShareChatMessage
messages_or_none none = []
messages_or_none (some v) = v

unfoldable pub append_session_share_chat_notification :
    Notifications → String → SessionShareChatMessage → Notifications
append_session_share_chat_notification notifications session_id message =
    set_messages session_id
      (messages_or_none (lookup_messages session_id notifications) ++ message ∷ []) notifications

abbrev pub other_messages : String → List SessionShareChatMessage → List SessionShareChatMessage
other_messages message_id = filter_by (λ message. not (message.id == message_id))

abbrev pub dismiss_from :
    Notifications
    → (session_id message_id : String) → Option (List SessionShareChatMessage)
    → Notifications
dismiss_from notifications session_id message_id none = notifications
dismiss_from notifications session_id message_id (some current) =
    let next = other_messages message_id current in
    (if length next =ℕ= length current
      then notifications
      else (if length next =ℕ= 0
          then clear_session_share_chat_notifications notifications session_id
          else set_messages session_id next notifications))

unfoldable pub dismiss_session_share_chat_notification :
    Notifications → (session_id message_id : String) → Notifications
dismiss_session_share_chat_notification notifications session_id message_id =
    dismiss_from notifications session_id message_id (lookup_messages session_id notifications)

pub lookup-set :
    (k j : String) (v : List SessionShareChatMessage) (m : Notifications)
    → lookup_messages j (set_messages k v m) ≡ (if k == j then some v else lookup_messages j m)
unfolding lookup_messages set_messages
lookup-set k j v [] = refl
lookup-set k j v ((i, w) ∷ m) = ground (arith, lookup-set k j v m)

pub lookup-clear :
    (k j : String) (m : Notifications)
    → lookup_messages j (clear_session_share_chat_notifications m k)
      ≡ (if k == j then none else lookup_messages j m)
unfolding lookup_messages clear_session_share_chat_notifications
lookup-clear k j [] = ground arith
lookup-clear k j ((i, w) ∷ m) = ground (arith, lookup-clear k j m)

length-other_messages-le :
    (id : String) (xs : List SessionShareChatMessage) → length (other_messages id xs) ≤ length xs
length-other_messages-le id [] = omega arith
length-other_messages-le id (x ∷ xs) = ground (arith, length-other_messages-le id xs)

unchanged_messages :
    (id : String) (xs : List SessionShareChatMessage)
    → length (other_messages id xs) ≡ length xs
    → other_messages id xs ≡ xs
unchanged_messages id [] h = refl
unchanged_messages id (x ∷ xs) h =
    ground (arith, unchanged_messages id xs, length-other_messages-le id xs)

no_messages : (xs : List SessionShareChatMessage) → length xs ≡ 0 → xs ≡ []
no_messages [] h = refl
no_messages (x ∷ xs) h = absurd (omega arith)

-- What every session still has to show after a message is dismissed: the session named keeps its
-- other messages in their order, and every other session keeps all of its messages.
dismiss_lem :
    (m : Notifications) (k id j : String)
    → messages_or_none (lookup_messages j (dismiss_session_share_chat_notification m k id)) ≡ (
        if k == j
        then other_messages id (messages_or_none (lookup_messages j m))
        else messages_or_none (lookup_messages j m))
unfolding dismiss_session_share_chat_notification
dismiss_lem m k id j = elim (Option-cases (lookup_messages k m)) [
  | inl e ↦ ground arith
  | inr (v, e) ↦ ground (
    arith,
    unchanged_messages id v,
    no_messages (other_messages id v),
    lookup-clear k j m,
    lookup-set k j (other_messages id v) m,
  )
]
