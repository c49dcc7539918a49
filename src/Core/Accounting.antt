-- ===== src/Core/Accounting.antt =====
-- What `rejectAllPending` of apps/desktop/src/main/core-manager.ts does to the requests that wait.
pub mod Runs
pub mod Settled
use dolssh.Prelude.{
  ℕ, zero, suc, ◌+◌, ◌≤◌, ◌≡◌, refl, sym, ap, ◌∙◌, String, Bool, true, false, Option, none, some,
  List, [], ◌∷◌, ◌++◌, ◌==◌, ==_iff, if◌then◌else◌, Bool-cases, Option-cases, inl, inr, Map, get,
  set, delete, keys, is_some, count, arith,
}
use dolssh.Core.State.{
  CoreEventType, CoreEvent, Effect, terminal_event, resolved, rejected, Command, CoreRequest,
  CoreManager, PortForwardRuntimeRecord, TransferJob, new_manager, emit, given, send_control,
}
use dolssh.Core.Sessions.{start_process}
use dolssh.Core.Requests.{
  request_response, settle, resolve_pending_response, reject_each, reject_all_pending,
}
use dolssh.Core.Records.{show_runtime}
use dolssh.Core.Endpoints.{
  endpoint_request, TransferStartInput, ForwardInput, request_endpoint, sftp_connect, sftp_list,
  sftp_change, sftp_disconnect, start_sftp_transfer, cancel_sftp_transfer, containers_connect,
  containers_query, containers_disconnect, probe_host_key, start_port_forward,
  start_ssm_port_forward, stop_command, stop_port_forward,
}
use dolssh.Core.Events.{handle_settled, handle_control_event}
use dolssh.Core.Process.{
  broadcast_stream, Metadata, report_stderr, close_each, fail_jobs, fail_forwards, announce_exit,
  clear_runtime_state, core_exited, shutdown, shutdown_finished, process_exited,
}
use dolssh.Core.Calls.{Call, EndpointCall, perform, perform_endpoint, run}
use dolssh.Core.Quiet.{settled, Quiet, quiet, Quiet-refl, Quiet-trans, Quiet-if, send_control-Quiet}
use dolssh.Core.Quiet.Sessions.{perform_session-Quiet}
use dolssh.Core.Quiet.Events.{handle_settled-Quiet}
use dolssh.Core.Idle.{Idle-Quiet, continue-Idle}
use dolssh.Core.Settling.{
  count-keys-delete, get-count, total, IsInjective, Accounts, Moves, new_manager-Accounts,
  Quiet-total, Moves-refl, Moves-trans, Quiet-Moves, settle-Moves, time_out-Moves,
  resolve_pending_response-Moves, request_response-Moves,
}

pub count-get {ℓ} :
    {V : Type ℓ} (k : String) (m : Map V) → 1 ≤ count k (keys m) → is_some (get k m) ≡ true
unfolding get keys
count-get k [] h = absurd (omega (arith, h))
count-get k ((i, w) ∷ m) h = ground (arith, count-get k m)

no_keys {ℓ} : {V : Type ℓ} (m : Map V) → ((k : String) → count k (keys m) ≡ 0) → m ≡ []
unfolding keys
no_keys [] h = refl
no_keys ((i, w) ∷ m) h = let z = h i in let e = (==_iff i i).1 refl in absurd (ground (arith, z, e))

-- One of the keys that are rejected is deleted.
rest-kept {ℓ} :
    {V : Type ℓ} (id : String) (ids : List String) (m : Map V)
    → ((k : String) → count k (keys m) ≤ 1)
    → ((k : String) → count k (id ∷ ids) ≤ count k (keys m))
    → (k : String) → count k ids ≤ count k (keys (delete id m))
rest-kept id ids m u h k =
    let d = count-keys-delete k id m in
    let a = u k in
    let b = h k in
    elim (Bool-cases (id == k)) [
      | inl e ↦ ground (arith, d, a, b, e)
      | inr e ↦ ground (arith, d, a, b, e)
    ]

head-kept {ℓ} :
    {V : Type ℓ} (id : String) (ids : List String) (m : Map V)
    → ((k : String) → count k (id ∷ ids) ≤ count k (keys m))
    → is_some (get id m) ≡ true
head-kept id ids m h =
    let b = h id in let e = (==_iff id id).1 refl in count-get id m (ground (arith, b, e))

module _ {uuid : ℕ → String} where
  waiting_once :
      {st : CoreManager} → Accounts uuid st → (k : String) → count k (keys st.pending_responses) ≤ 1
  waiting_once a k = let b = a.at_most_once k in omega (arith, b)

  reject_each-Moves :
      (ids : List String) (message : String) (st : CoreManager)
      → Accounts uuid st
      → ((k : String) → count k ids ≤ count k (keys st.pending_responses))
      → Moves uuid st (reject_each ids message st)
  unfolding reject_each
  reject_each-Moves [] message st a h = Moves-refl st a
  reject_each-Moves (id ∷ ids) message st a h =
      let m =
        settle-Moves id (rejected id message) st a (λ k es. refl)
          (head-kept id ids st.pending_responses h) in
      Moves-trans m (
        reject_each-Moves ids message (settle id (rejected id message) st) m.accounts
          (rest-kept id ids st.pending_responses (waiting_once a) h))

  reject_each-waiting :
      (ids : List String) (message : String) (st : CoreManager)
      → Accounts uuid st
      → ((k : String) → count k ids ≤ count k (keys st.pending_responses))
      → (k : String)
      → count k (keys (reject_each ids message st).pending_responses) + count k ids
        ≡ count k (keys st.pending_responses)
  unfolding reject_each
  reject_each-waiting [] message st a h k = omega arith
  reject_each-waiting (id ∷ ids) message st a h k =
      let m =
        settle-Moves id (rejected id message) st a (λ k es. refl)
          (head-kept id ids st.pending_responses h) in
      let r =
        reject_each-waiting ids message (settle id (rejected id message) st) m.accounts
          (rest-kept id ids st.pending_responses (waiting_once a) h) k in
      let d = count-keys-delete k id st.pending_responses in
      let b = h k in
      let u = waiting_once a k in
      elim (Bool-cases (id == k)) [
        | inl e ↦ ground (arith, r, d, b, u, e)
        | inr e ↦ ground (arith, r, d, b, u, e)
      ]

  pub reject_all_pending-Moves :
      (message : String) (st : CoreManager)
      → Accounts uuid st
      → Moves uuid st (reject_all_pending message st)
  unfolding reject_all_pending
  reject_all_pending-Moves message st a =
      reject_each-Moves (keys st.pending_responses) message st a (λ k. omega arith)

  pub reject_all_pending-empty :
      (message : String) (st : CoreManager)
      → Accounts uuid st
      → (reject_all_pending message st).pending_responses ≡ []
  unfolding reject_all_pending
  reject_all_pending-empty message st a =
      no_keys (reject_each (keys st.pending_responses) message st).pending_responses (λ k.
        let r = reject_each-waiting (keys st.pending_responses) message st a (λ k. omega arith) k in
        omega (arith, r))
