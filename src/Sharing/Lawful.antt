-- ===== src/Sharing/Lawful.antt =====
-- Changes of the service that keep its invariant and leave the core alone.
use dolssh.Prelude.{
  get, ℕ, refl, ◌∙◌, String, Bool, true, false, get_elem?, if◌then◌else◌, inl, inr, Option-cases,
}
use dolssh.Workspace.Store.State.{SessionShareState}
use dolssh.Sharing.Share.{ActiveSessionShare}
use dolssh.Sharing.Service.{Service, change, broadcast_state, set_state, with_share, with_session}
use dolssh.Sharing.Chat.{Keeps}
use dolssh.Sharing.Ownership.{WellKept, change-WellKept, broadcast-WellKept, set_state-WellKept}
use dolssh.Sharing.Relay.{Quiet, broadcast-Quiet, set_state-Quiet}

pub record Lawful (sv tv : Service) : Type 0 where
  pub keeps : WellKept sv → WellKept tv
  pub silent : Quiet sv tv

pub lawful : {sv tv : Service} → (WellKept sv → WellKept tv) → Quiet sv tv → Lawful sv tv
lawful k q = record { keeps = k; silent = q }

pub Lawful-refl : (sv : Service) → Lawful sv sv
Lawful-refl sv = lawful (λ v. v) refl

pub Lawful-trans : {sv tv uv : Service} → Lawful sv tv → Lawful tv uv → Lawful sv uv
Lawful-trans p q = lawful (λ v. q.keeps (p.keeps v)) (q.silent ∙ p.silent)

pub Lawful-if :
    {sv tv uv : Service} (b : Bool) → Lawful sv tv → Lawful sv uv → Lawful sv (if b then tv else uv)
Lawful-if true p q = p
Lawful-if false p q = q

pub change-Lawful :
    {f : ActiveSessionShare → ActiveSessionShare} (r : ℕ) (sv : Service)
    → Keeps f
    → Lawful sv (change r f sv)
change-Lawful r sv k = lawful (change-WellKept sv r _ k) refl

pub broadcast-Lawful :
    (s : String) (state : SessionShareState) (sv : Service) → Lawful sv (broadcast_state s state sv)
broadcast-Lawful s state sv = lawful (broadcast-WellKept s state sv) (broadcast-Quiet s state sv)

pub set_state-Lawful :
    (r : ℕ) (s : String) (state : SessionShareState) (sv : Service)
    → Lawful sv (set_state r s state sv)
set_state-Lawful r s state sv =
    lawful (set_state-WellKept r s state sv) (set_state-Quiet r s state sv)

pub with_share-Lawful :
    (r : ℕ) (f : ActiveSessionShare → Service → Service) (sv : Service)
    → ((share : ActiveSessionShare) → Lawful sv (f share sv))
    → Lawful sv (with_share r f sv)
with_share-Lawful r f sv k = elim (Option-cases (get_elem? sv.objects r)) [
  | inl e ↦ rw e (Lawful-refl sv)
  | inr (share, e) ↦ rw e (k share)
]

pub with_session-Lawful :
    (s : String) (f : ℕ → ActiveSessionShare → Service → Service) (sv : Service)
    → ((r : ℕ) (share : ActiveSessionShare) → Lawful sv (f r share sv))
    → Lawful sv (with_session s f sv)
with_session-Lawful s f sv k = elim (Option-cases (get s sv.shares)) [
  | inl e ↦ rw e (Lawful-refl sv)
  | inr (r, e) ↦ rw e (with_share-Lawful r (f r) sv (k r))
]
