-- ===== src/Sharing/Queue.antt =====
-- The messages that wait for the owner's socket.
use dolssh.Prelude.{
  suc, ◌-◌, ◌≤◌, ◌≡◌, refl, ap, ◌∙◌, String, true, false, some, List, [], ◌∷◌, ◌++◌, length, arith,
  map, last_of, last_of-short, length-last_of, last_of-append,
}
use mathlib.Core.List.{append_assoc, append-nil}
use dolssh.Sharing.Share.{
  OwnerMessage, hello, opened, Socket, ActiveSessionShare, is_open, socket_is_open, trim_pending,
  flush, send_owner_message, enqueue_or_send, greet,
}
use dolssh.Sharing.Service.{open_socket}

-- The loop leaves the 512 newest messages.
pub trim_pending_lem : (xs : List String) → trim_pending xs ≡ last_of 512 xs
unfolding trim_pending
trim_pending_lem [] = refl
trim_pending_lem (x ∷ xs) =
    let step : 512 ≤ length xs → suc (length xs) - 512 ≡ suc (length xs - 512) = λ h. omega arith in
    ground (arith, trim_pending_lem xs, step, last_of-short 512 (x ∷ xs))

flush_lem :
    (xs : List String) (socket : Socket)
    → flush xs (some socket) ≡ some record socket { sent = socket.sent ++ xs }
unfolding flush
flush_lem [] socket = rw (append-nil socket.sent) refl
flush_lem (x ∷ xs) socket =
    flush_lem xs record socket { sent = socket.sent ++ x ∷ [] }
    ∙ rw (append_assoc socket.sent (x ∷ []) xs) refl

module _ (encode : OwnerMessage → String) where
  abbrev pub enqueue_all : ActiveSessionShare → List OwnerMessage → ActiveSessionShare
  enqueue_all share [] = share
  enqueue_all share (m ∷ ms) = enqueue_all (enqueue_or_send encode share m) ms

  enqueue-waits :
      (share : ActiveSessionShare) (m : OwnerMessage)
      → socket_is_open share.socket ≡ false
      → enqueue_or_send encode share m
        ≡ record share { pending_messages = last_of 512 (share.pending_messages ++ encode m ∷ []) }
  unfolding enqueue_or_send
  enqueue-waits share m h =
      ground (arith, trim_pending_lem (share.pending_messages ++ encode m ∷ []))

  -- Messages for a share whose socket is not open wait in their order, the 512 newest of them, and
  -- nothing else of the share changes.
  pub enqueue_all-waits :
      (share : ActiveSessionShare) (ms : List OwnerMessage)
      → socket_is_open share.socket ≡ false
      → length share.pending_messages ≤ 512
      → enqueue_all share ms
        ≡ record share { pending_messages = last_of 512 (share.pending_messages ++ map encode ms) }
  enqueue_all-waits share [] h k =
      rw (append-nil share.pending_messages, last_of-short 512 share.pending_messages k) refl
  enqueue_all-waits share (m ∷ ms) h k =
      let waiting = share.pending_messages ++ encode m ∷ [] in
      rw (enqueue-waits share m h) (
        enqueue_all-waits record share { pending_messages = last_of 512 waiting } ms h
          (omega (arith, length-last_of 512 waiting))
        ∙ ap (λ p. record share { pending_messages = p })
            (last_of-append 512 waiting (map encode ms)
              ∙ ap (last_of 512)
                  (append_assoc share.pending_messages (encode m ∷ []) (map encode ms))))

  -- The greeting for a share.
  abbrev pub hello_of : ActiveSessionShare → OwnerMessage
  hello_of share =
      hello share.title share.host_label share.transport share.cols share.rows share.latest_snapshot
        share.appearance share.viewport

  greet_lem :
      (share : ActiveSessionShare) (socket : Socket)
      → share.socket ≡ some socket
      → is_open socket.ready_state ≡ true
      → greet encode share ≡ record share {
        socket = some record socket {
          sent = socket.sent ++ encode (hello_of share) ∷ share.pending_messages;
        };
        pending_messages = [];
      }
  unfolding greet send_owner_message
  greet_lem share socket e o =
      rw (e, o)
        (rw
          (
            flush_lem share.pending_messages
                record socket { sent = socket.sent ++ encode (hello_of share) ∷ [] },
            append_assoc socket.sent (encode (hello_of share) ∷ []) share.pending_messages,
          )
          refl)

  -- Where a share has a socket that is not open and 512 messages at most wait, the messages that
  -- come until it opens are what it is given when it does: the greeting first, then those that
  -- waited and the new ones in their order, the 512 newest of them; and none waits any longer.
  pub greet-enqueue_all :
      (share : ActiveSessionShare) (socket : Socket) (ms : List OwnerMessage)
      → share.socket ≡ some socket
      → is_open socket.ready_state ≡ false
      → length share.pending_messages ≤ 512
      → greet encode (open_socket (enqueue_all share ms)) ≡ record share {
        socket = some record {
          ready_state = opened;
          sent =
              socket.sent
              ++ encode (hello_of share) ∷ last_of 512 (share.pending_messages ++ map encode ms);
        };
        pending_messages = [];
      }
  greet-enqueue_all share socket ms e o k =
      let shut : socket_is_open share.socket ≡ false = ap socket_is_open e ∙ o in
      rw (enqueue_all-waits share ms shut k, e)
        (greet_lem _ record socket { ready_state = opened } refl refl)
