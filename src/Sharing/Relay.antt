-- ===== src/Sharing/Relay.antt =====
-- What viewers may do: the calls of the core that a step of the service makes.
use mathlib.Core.List.{append-nil}
use dolssh.Prelude.{
  arith, get, ◌==◌, ◌∙◌, ℕ, ◌≡◌, refl, ap, String, true, Option, none, some, List, [], ◌∷◌, ◌++◌,
  get_elem?, ◌⊎◌, inl, inr, Bool-cases, Option-cases,
}
use dolssh.Prelude.Int.{pos_part}
use dolssh.Workspace.Store.State.{SessionShareState}
use dolssh.Sharing.Share.{
  Encoding, OwnerServerMessage, viewer_input, control_signal, viewer_count, input_enabled,
  chat_message, share_ended, ActiveSessionShare,
}
use dolssh.Sharing.Service.{
  Output, state_event, chat_event, write_binary, send_control_signal, Service, change, emit,
  clear_chat, is_active, broadcast_state, set_state, is_current, set_input, set_viewer_count,
  Received, broken, message, receive, default_end, failed_state, handle_owner_server_message,
  on_message,
}

-- The calls of the core, out of all that the service puts out.
abbrev pub core_calls : List Output → List Output
core_calls [] = []
core_calls (state_event s state ∷ os) = core_calls os
core_calls (chat_event s m ∷ os) = core_calls os
core_calls (write_binary s e text ∷ os) = write_binary s e text ∷ core_calls os
core_calls (send_control_signal s signal ∷ os) = send_control_signal s signal ∷ core_calls os

-- A call that a share's viewers may make: its input is enabled, and a control signal is for AWS.
pub data Allowed (share : ActiveSessionShare) : Output → Type 0 where
  types :
      (encoding : Encoding) (text : String)
      → share.input_enabled ≡ true
      → Allowed share (write_binary share.session_id encoding text)
  signals :
      (signal : String)
      → share.input_enabled ≡ true
      → (share.transport == "aws-ssm") ≡ true
      → Allowed share (send_control_signal share.session_id signal)

-- A step with one call, allowed by the share that the map has for its session.
pub record Called (sv tv : Service) : Type 0 where
  pub reference : ℕ
  pub share : ActiveSessionShare
  pub call : Output
  pub found : get_elem? sv.objects reference ≡ some share
  pub current : get share.session_id sv.shares ≡ some reference
  pub allowed : Allowed share call
  pub called : core_calls tv.outputs ≡ core_calls sv.outputs ++ call ∷ []

abbrev pub Quiet : Service → Service → Type 0
Quiet sv tv = core_calls tv.outputs ≡ core_calls sv.outputs

core_calls-append : (os ps : List Output) → core_calls (os ++ ps) ≡ core_calls os ++ core_calls ps
core_calls-append [] ps = refl
core_calls-append (state_event s state ∷ os) ps = core_calls-append os ps
core_calls-append (chat_event s m ∷ os) ps = core_calls-append os ps
core_calls-append (write_binary s e text ∷ os) ps =
    ap (◌∷◌ (write_binary s e text)) (core_calls-append os ps)
core_calls-append (send_control_signal s x ∷ os) ps =
    ap (◌∷◌ (send_control_signal s x)) (core_calls-append os ps)

-- What is no call of the core adds none.
silent :
    (os : List Output) (o : Output)
    → core_calls (o ∷ []) ≡ []
    → core_calls (os ++ o ∷ []) ≡ core_calls os
silent os o e = core_calls-append os (o ∷ []) ∙ rw e (append-nil (core_calls os))

clear_chat-outputs : (o : Option ℕ) (sv : Service) → (clear_chat o sv).outputs ≡ sv.outputs
clear_chat-outputs none sv = refl
clear_chat-outputs (some r) sv = refl

pub broadcast-Quiet :
    (s : String) (state : SessionShareState) (sv : Service) → Quiet sv (broadcast_state s state sv)
unfolding broadcast_state
broadcast-Quiet s state sv = elim (Bool-cases (is_active state.status)) [
  | inl e ↦ rw e (silent sv.outputs (state_event s state) refl)
  | inr e ↦
      rw (e, clear_chat-outputs (get s sv.shares) (emit (state_event s state) sv))
        (silent sv.outputs (state_event s state) refl)
]

pub set_state-Quiet :
    (r : ℕ) (s : String) (state : SessionShareState) (sv : Service)
    → Quiet sv (set_state r s state sv)
set_state-Quiet r s state sv =
    broadcast-Quiet s state (change r (λ share. record share { state = state }) sv)

pub is_current-some : (o : Option ℕ) (r : ℕ) → is_current o r ≡ true → o ≡ some r
is_current-some none r h = ground arith
is_current-some (some q) r h = ground arith

-- A message of the server calls the core at most once, and only as its share allows.
abbrev Relayed : Service → Service → ActiveSessionShare → Type 0
Relayed sv tv share =
    Quiet sv tv
    ⊎ ((o : Output) × Allowed share o × (core_calls tv.outputs ≡ core_calls sv.outputs ++ o ∷ []))

handle-relays :
    (sv : Service) (r : ℕ) (m : OwnerServerMessage) (share : ActiveSessionShare)
    → Relayed sv (handle_owner_server_message r m share sv) share
unfolding handle_owner_server_message
handle-relays sv r (viewer_input encoding text) share = elim (Bool-cases share.input_enabled) [
  | inl e ↦
      let call = write_binary share.session_id encoding text in
      inr (call, types encoding text e, rw e (core_calls-append sv.outputs (call ∷ [])))
  | inr e ↦ inl (rw e refl)
]
handle-relays sv r (control_signal signal) share = elim (Bool-cases share.input_enabled) [
  | inl e ↦ elim (Bool-cases (share.transport == "aws-ssm")) [
    | inl t ↦
        let call = send_control_signal share.session_id signal in
        inr (call, signals signal e t, rw (e, t) (core_calls-append sv.outputs (call ∷ [])))
    | inr t ↦ inl (rw (e, t) refl)
  ]
  | inr e ↦ inl (rw e refl)
]
handle-relays sv r (viewer_count n) share = inl (
    set_state-Quiet r share.session_id record share.state { viewer_count = pos_part n }
      (change r (set_viewer_count n) sv))
handle-relays sv r (input_enabled b) share = inl (
    set_state-Quiet r share.session_id record share.state { input_enabled = b }
      (change r (set_input b) sv))
handle-relays sv r (chat_message m) share =
    inl (silent sv.outputs (chat_event share.session_id m) refl)
handle-relays sv r (share_ended m) share =
    inl (set_state-Quiet r share.session_id (failed_state share (default_end m)) sv)

receive-relays :
    (sv : Service) (r : ℕ) (m : Received) (share : ActiveSessionShare)
    → Relayed sv (receive r m share sv) share
receive-relays sv r (broken e) share =
    inl (set_state-Quiet r share.session_id (failed_state share e) sv)
receive-relays sv r (message m) share = handle-relays sv r m share

pub on_message-relays :
    (sv : Service) (r : ℕ) (m : Received)
    → Quiet sv (on_message r m sv) ⊎ Called sv (on_message r m sv)
unfolding on_message
on_message-relays sv r m = elim (Option-cases (get_elem? sv.objects r)) [
  | inl e ↦ inl (rw e refl)
  | inr (share, e) ↦ elim (Bool-cases (is_current (get share.session_id sv.shares) r)) [
    | inr away ↦ inl (rw (e, away) refl)
    | inl here ↦ elim (receive-relays sv r m share) [
      | inl quiet ↦ inl (rw (e, here) quiet)
      | inr (o, allowed, called) ↦ inr record {
        reference = r;
        share = share;
        call = o;
        found = e;
        current = is_current-some _ r here;
        allowed = allowed;
        called = rw (e, here) called;
      }
    ]
  ]
]
