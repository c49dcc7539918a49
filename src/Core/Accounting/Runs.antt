-- ===== src/Core/Accounting/Runs.antt =====
-- The calls on the manager of apps/desktop/src/main/core-manager.ts, and the requests they settle.
use dolssh.Prelude.{
  ℕ, ◌≡◌, refl, ◌∙◌, String, Bool, true, false, List, [], ◌∷◌, ◌==◌, if◌then◌else◌, get, keys,
  is_some, values, arith,
}
use dolssh.Core.State.{
  CoreEventType, Effect, Command, CoreManager, PortForwardRuntimeRecord, TransferJob,
}
use dolssh.Core.Sessions.{start_process}
use dolssh.Core.Requests.{resolve_pending_response}
use dolssh.Core.Endpoints.{
  endpoint_request, TransferStartInput, request_endpoint, sftp_connect, sftp_list, sftp_change,
  sftp_disconnect, start_sftp_transfer, cancel_sftp_transfer, containers_connect, containers_query,
  containers_disconnect, probe_host_key, start_port_forward, start_ssm_port_forward,
  stop_port_forward,
}
use dolssh.Core.Events.{handle_control_event}
use dolssh.Core.Process.{
  report_stderr, close_each, fail_jobs, fail_forwards, announce_exit, clear_runtime_state,
  core_exited, shutdown, shutdown_finished, process_exited,
}
use dolssh.Core.Calls.{Call, EndpointCall, perform, perform_endpoint, run}
use dolssh.Core.Quiet.{settled, Quiet, quiet, Quiet-refl, Quiet-trans, Quiet-if, send_control-Quiet}
use dolssh.Core.Quiet.Sessions.{perform_session-Quiet}
use dolssh.Core.Quiet.Events.{handle_settled-Quiet}
use dolssh.Core.Idle.{Idle-Quiet, continue-Idle}
use dolssh.Core.Settling.{
  IsInjective, Accounts, Moves, new_manager-Accounts, Moves-refl, Moves-trans, Quiet-Moves,
  time_out-Moves, resolve_pending_response-Moves, request_response-Moves,
}
use dolssh.Core.Accounting.{reject_all_pending-Moves, reject_all_pending-empty}

close_each-settled :
    (ks : List String) (message : String) (es : List Effect) (k : String)
    → settled k (close_each ks message es) ≡ settled k es
close_each-settled [] message es k = refl
close_each-settled (i ∷ ks) message es k = close_each-settled ks message (_ ∷ es) k

fail_jobs-settled :
    (jobs : List TransferJob) (message : String) (now : ℕ) (es : List Effect) (k : String)
    → settled k (fail_jobs jobs message now es) ≡ settled k es
fail_jobs-settled [] message now es k = refl
fail_jobs-settled (job ∷ jobs) message now es k = fail_jobs-settled jobs message now (_ ∷ es) k

fail_forwards-settled :
    (rs : List PortForwardRuntimeRecord) (message : String) (now : ℕ) (es : List Effect)
    (k : String)
    → settled k (fail_forwards rs message now es) ≡ settled k es
fail_forwards-settled [] message now es k = refl
fail_forwards-settled (r ∷ rs) message now es k = fail_forwards-settled rs message now (_ ∷ es) k

announce_exit-Quiet :
    (message : String) (now : ℕ) (st : CoreManager) → Quiet st (announce_exit message now st)
unfolding announce_exit
announce_exit-Quiet message now st =
    quiet (omega arith) refl
      (λ k.
        let closed = close_each (keys st.sessions.tabs) message st.effects in
        let failed = fail_jobs (values st.endpoints.transfer_jobs) message now closed in
        fail_forwards-settled (values st.endpoints.forward_runtimes) message now failed k
        ∙ (fail_jobs-settled (values st.endpoints.transfer_jobs) message now closed k
            ∙ close_each-settled (keys st.sessions.tabs) message st.effects k))
      (λ h. h)

module _ (uuid : ℕ → String) where
  start_sftp_transfer-Quiet :
      (input : TransferStartInput) (now : ℕ) (st : CoreManager)
      → Quiet st (start_sftp_transfer uuid input now st)
  unfolding start_sftp_transfer start_process
  start_sftp_transfer-Quiet input now st =
      Quiet-trans (quiet (omega arith) refl (λ k. refl) (λ h. refl)) (send_control-Quiet _ _)

  cancel_sftp_transfer-Quiet :
      (id : String) (st : CoreManager) → Quiet st (cancel_sftp_transfer uuid id st)
  unfolding cancel_sftp_transfer start_process
  cancel_sftp_transfer-Quiet id st =
      Quiet-if (is_some (get id st.endpoints.transfer_jobs))
        (Quiet-trans (quiet (omega arith) refl (λ k. refl) (λ h. refl)) (send_control-Quiet _ _))
        (Quiet-refl st)

module _ {uuid : ℕ → String} where
  core_exited-Moves :
      (message : String) (now : ℕ) (st : CoreManager)
      → Accounts uuid st
      → Moves uuid st (core_exited message now st)
  unfolding core_exited clear_runtime_state
  core_exited-Moves message now st a =
      let announced = if st.is_shutting_down then st else announce_exit message now st in
      let q : Quiet st announced =
        Quiet-if st.is_shutting_down (Quiet-refl st) (announce_exit-Quiet message now st) in
      let m = Quiet-Moves a q in
      let r = reject_all_pending-Moves message announced m.accounts in
      record {
        accounts = record {
          at_most_once = r.accounts.at_most_once;
          unused = r.accounts.unused;
          idle = λ h. reject_all_pending-empty message announced m.accounts;
        };
        kept = λ k. let b = m.kept k in let c = r.kept k in omega (arith, b, c);
      }

  process_exited-Moves :
      (message : String) (now : ℕ) (st : CoreManager)
      → Accounts uuid st
      → Moves uuid st (process_exited message now st)
  unfolding process_exited shutdown_finished clear_runtime_state core_exited
  process_exited-Moves message now st a =
      let m = core_exited-Moves message now st a in
      let q =
        Quiet-if st.is_shutting_down (quiet (omega arith) refl (λ k. refl) (λ h. h))
          (Quiet-refl _) in
      Moves-trans m (Quiet-Moves m.accounts q)

  request_endpoint-Moves :
      IsInjective uuid
      → (id : String) (command : Command) (types : List CoreEventType) (st : CoreManager)
      → Accounts uuid st
      → Moves uuid st (request_endpoint uuid id command types st)
  unfolding request_endpoint
  request_endpoint-Moves injective id command types st a =
      request_response-Moves injective (endpoint_request (uuid st.next_uuid) id command) types st a
        refl

  Moves-if :
      {st t u : CoreManager} (b : Bool)
      → Moves uuid st t
      → Moves uuid st u
      → Moves uuid st (if b then t else u)
  Moves-if true m n = m
  Moves-if false m n = n

  then_request :
      IsInjective uuid
      → {st t : CoreManager} (id : String) (command : Command) (types : List CoreEventType)
      → Accounts uuid st
      → Quiet st t
      → Moves uuid st (request_endpoint uuid id command types t)
  then_request injective id command types a q =
      let m = Quiet-Moves a q in
      Moves-trans m (request_endpoint-Moves injective id command types _ m.accounts)

  perform_endpoint-Moves :
      IsInjective uuid
      → (c : EndpointCall) (now : ℕ) (st : CoreManager) → Accounts uuid st
      → Moves uuid st (perform_endpoint uuid c now st)
  unfolding perform_endpoint sftp_connect sftp_list sftp_change sftp_disconnect containers_connect
      containers_query containers_disconnect probe_host_key start_port_forward
      start_ssm_port_forward stop_port_forward
  perform_endpoint-Moves i (EndpointCall.sftp_connect e payload) now st a =
      request_endpoint-Moves i _ _ _ st a
  perform_endpoint-Moves i (EndpointCall.sftp_list e path) now st a =
      request_endpoint-Moves i _ _ _ st a
  perform_endpoint-Moves i (EndpointCall.sftp_change type e payload) now st a =
      request_endpoint-Moves i _ _ _ st a
  perform_endpoint-Moves i (EndpointCall.sftp_disconnect e) now st a =
      Moves-if (is_some (get e st.endpoints.sftp)) (request_endpoint-Moves i _ _ _ st a)
        (Moves-refl st a)
  perform_endpoint-Moves i (EndpointCall.start_sftp_transfer input) now st a =
      Quiet-Moves a (start_sftp_transfer-Quiet uuid input now st)
  perform_endpoint-Moves i (EndpointCall.cancel_sftp_transfer id) now st a =
      Quiet-Moves a (cancel_sftp_transfer-Quiet uuid id st)
  perform_endpoint-Moves i (EndpointCall.containers_connect e payload) now st a =
      request_endpoint-Moves i _ _ _ st a
  perform_endpoint-Moves i (EndpointCall.containers_query type answer e payload) now st a =
      request_endpoint-Moves i _ _ _ st a
  perform_endpoint-Moves i (EndpointCall.containers_disconnect e) now st a =
      Moves-if st.is_running
        (then_request i _ _ _ a (quiet (omega arith) refl (λ k. refl) (λ h. h)))
        (Quiet-Moves a (quiet (omega arith) refl (λ k. refl) (λ h. h)))
  perform_endpoint-Moves i (EndpointCall.probe_host_key payload) now st a =
      request_response-Moves i _ _ st a refl
  perform_endpoint-Moves i (EndpointCall.start_port_forward input) now st a =
      then_request i _ _ _ a (quiet (omega arith) refl (λ k. refl) (λ h. h))
  perform_endpoint-Moves i (EndpointCall.start_ssm_port_forward input) now st a =
      then_request i _ _ _ a (quiet (omega arith) refl (λ k. refl) (λ h. h))
  perform_endpoint-Moves i (EndpointCall.stop_port_forward id) now st a =
      Moves-if st.is_running (request_endpoint-Moves i _ _ _ st a)
        (Quiet-Moves a (quiet (omega arith) refl (λ k. refl) (λ h. h)))

  pub perform-Moves :
      IsInjective uuid
      → (c : Call) (now : ℕ) (st : CoreManager) → Accounts uuid st
      → Moves uuid st (perform uuid c now st)
  unfolding perform handle_control_event report_stderr shutdown clear_runtime_state
  perform-Moves i (Call.session c) now st a = Quiet-Moves a (perform_session-Quiet uuid c now st)
  perform-Moves i (Call.endpoint c) now st a = perform_endpoint-Moves i c now st a
  perform-Moves i (Call.continued c) now st a = Quiet-Moves a (Idle-Quiet (continue-Idle c now st))
  perform-Moves i (Call.event e) now st a =
      let m = resolve_pending_response-Moves e st a in
      Moves-trans m
        (Quiet-Moves m.accounts (handle_settled-Quiet uuid e now (resolve_pending_response e st)))
  perform-Moves i (Call.stream_frame metadata payload) now st a = Quiet-Moves a (
      Quiet-if (metadata.type == "data") (quiet (omega arith) refl (λ k. refl) (λ h. h))
        (Quiet-refl st))
  perform-Moves i (Call.stderr trimmed) now st a =
      Quiet-Moves a (quiet (omega arith) refl (λ k. refl) (λ h. h))
  perform-Moves i (Call.timer request) now st a = time_out-Moves request st a
  perform-Moves i Call.shutdown now st a = Quiet-Moves a (
      Quiet-if st.is_running (quiet (omega arith) refl (λ k. refl) (λ h. h))
        (quiet (omega arith) refl (λ k. refl) (λ h. h)))
  perform-Moves i (Call.exited message) now st a = process_exited-Moves message now st a

  pub run-Accounts : IsInjective uuid → (calls : List (ℕ × Call)) → Accounts uuid (run uuid calls)
  unfolding run
  run-Accounts i [] = new_manager-Accounts uuid
  run-Accounts i ((now, c) ∷ calls) =
      (perform-Moves i c now (run uuid calls) (run-Accounts i calls)).accounts
