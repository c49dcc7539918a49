-- ===== src/Core/Quiet.antt =====
-- Changes of the manager that neither ask the core for an answer nor settle a request.
pub mod Sessions
pub mod Events
use dolssh.Prelude.{
  ℕ, ◌+◌, ◌≤◌, ◌≡◌, refl, ◌∙◌, String, Bool, true, false, Option, none, some, List, [], ◌∷◌, ◌==◌,
  if◌then◌else◌, keys, count, arith,
}
use dolssh.Core.State.{
  CoreEvent, Effect, control, stream, terminal_event, terminal_data, transfer_event,
  port_forward_event, logged, lifecycle_logged, resolved, rejected, thrown, CoreManager,
  CoreRequest, emit, send_control, send_stream,
}

-- How often a request has been settled.
abbrev pub settled : String → List Effect → ℕ
settled k [] = 0
settled k (control request ∷ es) = settled k es
settled k (stream id payload ∷ es) = settled k es
settled k (terminal_event event ∷ es) = settled k es
settled k (terminal_data id payload ∷ es) = settled k es
settled k (transfer_event job ∷ es) = settled k es
settled k (port_forward_event r ∷ es) = settled k es
settled k (logged level message ∷ es) = settled k es
settled k (lifecycle_logged id l now ∷ es) = settled k es
settled k (resolved id payload ∷ es) = (if id == k then 1 else 0) + settled k es
settled k (rejected id message ∷ es) = (if id == k then 1 else 0) + settled k es
settled k (thrown e ∷ es) = settled k es

pub record Quiet (st t : CoreManager) : Type 0 where
  pub next_uuid_le : st.next_uuid ≤ t.next_uuid
  pub same_pending : t.pending_responses ≡ st.pending_responses
  pub same_settled : (k : String) → settled k t.effects ≡ settled k st.effects
  pub same_running : st.is_running ≡ true → t.is_running ≡ true

pub quiet :
    {st t : CoreManager}
    → st.next_uuid ≤ t.next_uuid
    → t.pending_responses ≡ st.pending_responses
    → ((k : String) → settled k t.effects ≡ settled k st.effects)
    → (st.is_running ≡ true → t.is_running ≡ true)
    → Quiet st t
quiet n p s r = record { next_uuid_le = n; same_pending = p; same_settled = s; same_running = r }

pub Quiet-refl : (st : CoreManager) → Quiet st st
Quiet-refl st = quiet (omega arith) refl (λ k. refl) (λ h. h)

pub Quiet-trans : {st t u : CoreManager} → Quiet st t → Quiet t u → Quiet st u
Quiet-trans p q = record {
  next_uuid_le = omega (arith, p.next_uuid_le, q.next_uuid_le);
  same_pending = q.same_pending ∙ p.same_pending;
  same_settled = λ k. q.same_settled k ∙ p.same_settled k;
  same_running = λ h. q.same_running (p.same_running h);
}

pub Quiet-if :
    {st t u : CoreManager} (b : Bool) → Quiet st t → Quiet st u → Quiet st (if b then t else u)
Quiet-if true p q = p
Quiet-if false p q = q

-- One effect more, that settles nothing.
pub send_control-Quiet :
    (request : CoreRequest) (st : CoreManager) → Quiet st (send_control request st)
unfolding send_control
send_control-Quiet request st =
    Quiet-if st.is_running (quiet (omega arith) refl (λ k. refl) (λ h. h))
      (quiet (omega arith) refl (λ k. refl) (λ h. h))

pub send_stream-Quiet :
    (k : String) (payload : List ℕ) (st : CoreManager) → Quiet st (send_stream k payload st)
unfolding send_stream
send_stream-Quiet k payload st =
    Quiet-if st.is_running (quiet (omega arith) refl (λ k. refl) (λ h. h))
      (quiet (omega arith) refl (λ k. refl) (λ h. h))
