-- ===== src/Sharing/Steps.antt =====
-- The events and calls that the service runs one at a time, and the states they lead to.
use dolssh.Prelude.{
  get-nil, set, get-set, get_elem?-snoc, get_elem?-more, get_elem?-last, ℕ, ◌≡◌, refl, sym, ◌∙◌,
  String, Bool, none, [], ◌∷◌, ◌++◌, ◌==◌, length, arith, inl, inr, Bool-cases,
}
use dolssh.Sharing.Share.{OwnerMessage}
use dolssh.Sharing.Service.{Service, Received, on_open, on_message, on_close, on_error}
use dolssh.Sharing.Methods.{
  StartInput, provisional_share, starting_state, start_provisional, CreateShareResponse,
  start_created, start_failed, stop_begin, stop_finish, set_input_enabled, SnapshotInput, CoreEvent,
  update_snapshot, handle_terminal_stream, handle_terminal_event, open_owner_chat_window,
}
use dolssh.Sharing.Chat.{Fits}
use dolssh.Sharing.Lawful.{Lawful, lawful, broadcast-Lawful}
use dolssh.Sharing.Ownership.{WellKept, empty_chat}

abbrev pub empty_service : Service
empty_service = record { objects = []; shares = []; owner_chat_windows = []; outputs = [] }

module _ (encode : OwnerMessage → String) where
  pub data Step : Service → Service → Type 0 where
    provisions : (sv : Service) (input : StartInput) → Step sv (start_provisional input sv).0
    creates : (sv : Service) (r : ℕ) (c : CreateShareResponse) → Step sv (start_created r c sv)
    fails : (sv : Service) (r : ℕ) (e : String) → Step sv (start_failed r e sv)
    opens : (sv : Service) (r : ℕ) → Step sv (on_open encode r sv)
    receives : (sv : Service) (r : ℕ) (m : Received) → Step sv (on_message r m sv)
    closes : (sv : Service) (r : ℕ) → Step sv (on_close r sv)
    breaks : (sv : Service) (r : ℕ) → Step sv (on_error r sv)
    begins_stop : (sv : Service) (s : String) → Step sv (stop_begin s sv)
    finishes_stop : (sv : Service) (r : ℕ) (s : String) → Step sv (stop_finish r s sv)
    toggles : (sv : Service) (r : ℕ) (b : Bool) → Step sv (set_input_enabled r b sv)
    snapshots : (sv : Service) (i : SnapshotInput) → Step sv (update_snapshot encode i sv)
    streams : (sv : Service) (s chunk : String) → Step sv (handle_terminal_stream encode s chunk sv)
    hears :
        (sv : Service) (s : String) (e : CoreEvent) → Step sv (handle_terminal_event encode s e sv)
    shows : (sv : Service) (s : String) → Step sv (open_owner_chat_window s sv)

  pub data Reach : Service → Type 0 where
    start : Reach empty_service
    next : {sv tv : Service} → Reach sv → Step sv tv → Reach tv

pub empty_service-WellKept : WellKept empty_service
empty_service-WellKept = record {
  fits = λ r share h. cc;
  owned = λ s r h. let e = get-nil {V = ℕ} s in absurd (cc (h, e));
}

provisional-Fits : (input : StartInput) → Fits (provisional_share input)
provisional-Fits input = record { pending = omega arith; chat = empty_chat }

-- The new object at the end, in the map for its session.
abbrev pub placed : Service → StartInput → Service
placed sv input = record sv {
  objects = sv.objects ++ provisional_share input ∷ [];
  shares = set input.session_id (length sv.objects) sv.shares;
}

placed-WellKept : (sv : Service) (input : StartInput) → WellKept sv → WellKept (placed sv input)
placed-WellKept sv input v = record {
  fits = λ r share h. elim (get_elem?-snoc sv.objects (provisional_share input) share r h) [
    | inl old ↦ v.fits r share old
    | inr new ↦ rw new (provisional-Fits input)
  ];
  owned = λ s r h.
      let g = sym (get-set s input.session_id (length sv.objects) sv.shares) ∙ h in
      elim (Bool-cases (input.session_id == s)) [
        | inl same ↦
            let here : length sv.objects ≡ r = ground arith in
            record {
              share = provisional_share input;
              found = rw (← here) (get_elem?-last sv.objects (provisional_share input));
              same_session = ground arith;
              not_closed = refl;
            }
        | inr away ↦
            let o = v.owned s r (ground arith) in
            record {
              share = o.share;
              found = get_elem?-more sv.objects _ o.share r o.found;
              same_session = o.same_session;
              not_closed = o.not_closed;
            }
      ];
}

pub start_provisional-Lawful :
    (sv : Service) (input : StartInput) → Lawful sv (start_provisional input sv).0
unfolding start_provisional
start_provisional-Lawful sv input =
    let started = broadcast-Lawful input.session_id (starting_state none) (placed sv input) in
    lawful (λ v. started.keeps (placed-WellKept sv input v)) started.silent
