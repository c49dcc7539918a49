-- ===== src/Sharing/Chat.antt =====
-- The bounds that every share keeps: how many messages wait, how many chat messages it remembers,
-- and that it remembers each once.
use dolssh.Prelude.{
  ℕ, zero, suc, ◌+◌, ◌-◌, ◌≤◌, ◌≡◌, refl, ap, String, not, ◌&&◌, List, [], ◌∷◌, ◌++◌, ◌==◌,
  if◌then◌else◌, length, drop, filter_by, arith, last_of, last_of-short, length-last_of, count, inl,
  inr, Bool-cases,
}
use dolssh.Workspace.Store.State.{SessionShareChatMessage}
use dolssh.Sharing.Share.{
  OwnerMessage, ActiveSessionShare, socket_is_open, append_owner_chat_message, send_owner_message,
  enqueue_or_send, greet,
}
use dolssh.Sharing.Queue.{trim_pending_lem, hello_of}

abbrev pub chat_ids : List SessionShareChatMessage → List String
chat_ids [] = []
chat_ids (m ∷ ms) = m.id ∷ chat_ids ms

-- 50 messages at most, no two with one id.
pub record ChatFits (messages : List SessionShareChatMessage) : Type 0 where
  pub few : length messages ≤ 50
  pub once : (id : String) → count id (chat_ids messages) ≤ 1

pub record Fits (share : ActiveSessionShare) : Type 0 where
  pub pending : length share.pending_messages ≤ 512
  pub chat : ChatFits share.owner_chat_messages

count-chat_ids-append :
    (id : String) (xs ys : List SessionShareChatMessage)
    → count id (chat_ids (xs ++ ys)) ≡ count id (chat_ids xs) + count id (chat_ids ys)
count-chat_ids-append id [] ys = omega arith
count-chat_ids-append id (x ∷ xs) ys = omega (arith, count-chat_ids-append id xs ys)

count-chat_ids-drop :
    (id : String) (n : ℕ) (xs : List SessionShareChatMessage)
    → count id (chat_ids (drop n xs)) ≤ count id (chat_ids xs)
count-chat_ids-drop id zero xs = omega arith
count-chat_ids-drop id (suc n) [] = omega arith
count-chat_ids-drop id (suc n) (x ∷ xs) = omega (arith, count-chat_ids-drop id n xs)

count-chat_ids-others :
    (id other : String) (xs : List SessionShareChatMessage)
    → count id (chat_ids (filter_by (λ entry. not (entry.id == other)) xs))
      ≡ (if id == other then 0 else count id (chat_ids xs))
count-chat_ids-others id other [] = ground arith
count-chat_ids-others id other (x ∷ xs) = ground (arith, count-chat_ids-others id other xs)

append_lem :
    (xs : List SessionShareChatMessage) (m : SessionShareChatMessage)
    → append_owner_chat_message xs m
      ≡ last_of 50 (filter_by (λ entry. not (entry.id == m.id)) xs ++ m ∷ [])
unfolding append_owner_chat_message
append_lem xs m =
    ground (arith, last_of-short 50 (filter_by (λ entry. not (entry.id == m.id)) xs ++ m ∷ []))

-- Appending a chat message keeps the bounds of the history.
pub append-ChatFits :
    (xs : List SessionShareChatMessage) (m : SessionShareChatMessage)
    → ChatFits xs
    → ChatFits (append_owner_chat_message xs m)
append-ChatFits xs m v =
    let others = filter_by (λ entry. not (entry.id == m.id)) xs in
    let n = length (others ++ m ∷ []) - 50 in
    rw (append_lem xs m) record {
      few = omega (arith, length-last_of 50 (others ++ m ∷ []));
      once = λ id. ground (
        arith,
        v.once id,
        count-chat_ids-drop id n (others ++ m ∷ []),
        count-chat_ids-append id others (m ∷ []),
        count-chat_ids-others id m.id xs,
      );
    }

-- What a method does to a share, where it keeps the bounds, the session and whether the owner
-- closed it.
abbrev pub Keeps : (ActiveSessionShare → ActiveSessionShare) → Type 0
Keeps f =
    (share : ActiveSessionShare)
    → (Fits share → Fits (f share))
      × ((f share).session_id ≡ share.session_id)
      × ((f share).closed_by_owner ≡ share.closed_by_owner)

-- A change that leaves the pending messages, the chat, the session and the mark alone.
pub same-Fits :
    {s t : ActiveSessionShare}
    → t.pending_messages ≡ s.pending_messages
    → t.owner_chat_messages ≡ s.owner_chat_messages
    → Fits s
    → Fits t
same-Fits p c v = record { pending = rw p v.pending; chat = rw c v.chat }

pub plain-Keeps :
    (f : ActiveSessionShare → ActiveSessionShare)
    → ((s : ActiveSessionShare) → (f s).pending_messages ≡ s.pending_messages)
    → ((s : ActiveSessionShare) → (f s).owner_chat_messages ≡ s.owner_chat_messages)
    → ((s : ActiveSessionShare) → (f s).session_id ≡ s.session_id)
    → ((s : ActiveSessionShare) → (f s).closed_by_owner ≡ s.closed_by_owner)
    → Keeps f
plain-Keeps f p c i m = λ s. (same-Fits {s = s} {t = f s} (p s) (c s), i s, m s)

module _ (encode : OwnerMessage → String) where
  send-Keeps : (m : OwnerMessage) → Keeps (λ s. send_owner_message encode s m)
  unfolding send_owner_message
  send-Keeps m share = elim (Bool-cases (socket_is_open share.socket)) [
    | inl e ↦ rw e (same-Fits refl refl, refl, refl)
    | inr e ↦ rw e ((λ v. v), refl, refl)
  ]

  pub enqueue-Keeps : (m : OwnerMessage) → Keeps (λ s. enqueue_or_send encode s m)
  unfolding enqueue_or_send
  enqueue-Keeps m share =
      let waiting = share.pending_messages ++ encode m ∷ [] in
      elim (Bool-cases (share.owner_socket_open && socket_is_open share.socket)) [
        | inl e ↦ rw e (send-Keeps m share)
        | inr e ↦ rw e (
          (λ v. record {
            pending =
                omega (arith, ap length (trim_pending_lem waiting), length-last_of 512 waiting);
            chat = v.chat;
          }),
          refl,
          refl,
        )
      ]

  pub greet-Keeps : Keeps (greet encode)
  unfolding greet
  greet-Keeps share =
      let (fits, same_id, same_mark) = send-Keeps (hello_of encode share) share in
      ((λ v. record { pending = omega arith; chat = (fits v).chat }), same_id, same_mark)
