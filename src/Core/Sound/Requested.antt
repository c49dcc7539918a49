-- ===== src/Core/Sound/Requested.antt =====
-- Requests that are waited for, in apps/desktop/src/main/core-manager.ts, leave the sessions' tabs and
-- sizes alone, and are sent to a process that runs.
use dolssh.Prelude.{
  ℕ, ◌≡◌, refl, String, Option, none, some, List, [], ◌∷◌, get, keys, is_some, arith,
}
use dolssh.Core.State.{
  PortForwardDefinition, CoreEventType, Command, CoreRequest, CoreEvent, CoreManager, given,
  send_control,
}
use dolssh.Core.Sessions.{start_process}
use dolssh.Core.Requests.{
  request_response, is_failure, expects, resolve_at, resolve_for, resolve_pending_response,
  time_out, reject_each, reject_all_pending,
}
use dolssh.Core.Endpoints.{
  stop_command, request_endpoint, sftp_connect, sftp_list, sftp_change, sftp_disconnect,
  start_sftp_transfer, cancel_sftp_transfer, containers_connect, containers_query,
  containers_disconnect, probe_host_key, start_port_forward, start_ssm_port_forward,
  stop_port_forward,
}
use dolssh.Core.Calls.{EndpointCall, perform_endpoint}
use dolssh.Core.Sound.{
  inr, inl, Bool-cases, command_size, Apart, apart, Apart-refl, Apart-trans, Apart-if,
}

resolve_at-Apart :
    (o : Option (List CoreEventType)) (id : String) (event : CoreEvent) (st : CoreManager)
    → Apart st (resolve_at o id event st)
resolve_at-Apart none id event st = Apart-refl st
resolve_at-Apart (some types) id event st =
    Apart-if (is_failure event.type)
      (apart (omega arith) (λ h. h) refl (λ j. (refl, refl, refl, refl)))
      (Apart-if (expects types event.type)
        (apart (omega arith) (λ h. h) refl (λ j. (refl, refl, refl, refl))) (Apart-refl st))

resolve_for-Apart :
    (o : Option String) (event : CoreEvent) (st : CoreManager) → Apart st (resolve_for o event st)
resolve_for-Apart none event st = Apart-refl st
resolve_for-Apart (some id) event st = resolve_at-Apart (get id st.pending_responses) id event st

pub resolve_pending_response-Apart :
    (event : CoreEvent) (st : CoreManager) → Apart st (resolve_pending_response event st)
unfolding resolve_pending_response
resolve_pending_response-Apart event st = resolve_for-Apart (given event.request_id) event st

pub time_out-Apart : (request : CoreRequest) (st : CoreManager) → Apart st (time_out request st)
unfolding time_out
time_out-Apart request st =
    Apart-if (is_some (get request.id st.pending_responses))
      (apart (omega arith) (λ h. h) refl (λ j. (refl, refl, refl, refl))) (Apart-refl st)

reject_each-Apart :
    (ids : List String) (message : String) (st : CoreManager)
    → Apart st (reject_each ids message st)
unfolding reject_each
reject_each-Apart [] message st = Apart-refl st
reject_each-Apart (id ∷ ids) message st =
    Apart-trans (apart (omega arith) (λ h. h) refl (λ j. (refl, refl, refl, refl)))
      (reject_each-Apart ids message _)

pub reject_all_pending-Apart :
    (message : String) (st : CoreManager) → Apart st (reject_all_pending message st)
unfolding reject_all_pending
reject_all_pending-Apart message st = reject_each-Apart (keys st.pending_responses) message st

stop-command_size : (o : Option PortForwardDefinition) → command_size (stop_command o) ≡ none
stop-command_size none = refl
stop-command_size (some d) = elim (Bool-cases d.backend_aws_ssm) [
  | inl e ↦ rw e refl
  | inr e ↦ rw e refl
]

-- A process that has been started takes the request.
module _ (uuid : ℕ → String) where
  request_endpoint-Apart :
      (id : String) (command : Command) (types : List CoreEventType) (st : CoreManager)
      → command_size command ≡ none
      → Apart st (request_endpoint uuid id command types st)
  unfolding request_endpoint request_response send_control start_process
  request_endpoint-Apart id command types st e =
      apart (omega arith) (λ h. refl) refl (λ j. (refl, refl, refl, rw e refl))

  pub perform_endpoint-Apart :
      (c : EndpointCall) (now : ℕ) (st : CoreManager) → Apart st (perform_endpoint uuid c now st)
  unfolding perform_endpoint sftp_connect sftp_list sftp_change sftp_disconnect start_sftp_transfer
      cancel_sftp_transfer containers_connect containers_query containers_disconnect probe_host_key
      start_port_forward start_ssm_port_forward stop_port_forward request_response send_control
      start_process
  perform_endpoint-Apart (EndpointCall.sftp_connect e payload) now st =
      request_endpoint-Apart _ _ _ st refl
  perform_endpoint-Apart (EndpointCall.sftp_list e path) now st =
      request_endpoint-Apart _ _ _ st refl
  perform_endpoint-Apart (EndpointCall.sftp_change type e payload) now st =
      request_endpoint-Apart _ _ _ st refl
  perform_endpoint-Apart (EndpointCall.sftp_disconnect e) now st =
      Apart-if (is_some (get e st.endpoints.sftp)) (request_endpoint-Apart _ _ _ st refl)
        (Apart-refl st)
  perform_endpoint-Apart (EndpointCall.start_sftp_transfer input) now st =
      apart (omega arith) (λ h. refl) refl (λ j. (refl, refl, refl, refl))
  perform_endpoint-Apart (EndpointCall.cancel_sftp_transfer id) now st =
      Apart-if (is_some (get id st.endpoints.transfer_jobs))
        (apart (omega arith) (λ h. refl) refl (λ j. (refl, refl, refl, refl))) (Apart-refl st)
  perform_endpoint-Apart (EndpointCall.containers_connect e payload) now st =
      request_endpoint-Apart _ _ _ st refl
  perform_endpoint-Apart (EndpointCall.containers_query type answer e payload) now st =
      request_endpoint-Apart _ _ _ st refl
  perform_endpoint-Apart (EndpointCall.containers_disconnect e) now st =
      Apart-if st.is_running
        (Apart-trans (apart (omega arith) (λ h. h) refl (λ j. (refl, refl, refl, refl)))
          (request_endpoint-Apart _ _ _ _ refl))
        (apart (omega arith) (λ h. h) refl (λ j. (refl, refl, refl, refl)))
  perform_endpoint-Apart (EndpointCall.probe_host_key payload) now st =
      apart (omega arith) (λ h. refl) refl (λ j. (refl, refl, refl, refl))
  perform_endpoint-Apart (EndpointCall.start_port_forward input) now st =
      Apart-trans (apart (omega arith) (λ h. h) refl (λ j. (refl, refl, refl, refl)))
        (request_endpoint-Apart _ _ _ _ refl)
  perform_endpoint-Apart (EndpointCall.start_ssm_port_forward input) now st =
      Apart-trans (apart (omega arith) (λ h. h) refl (λ j. (refl, refl, refl, refl)))
        (request_endpoint-Apart _ _ _ _ refl)
  perform_endpoint-Apart (EndpointCall.stop_port_forward id) now st =
      Apart-if st.is_running
        (request_endpoint-Apart _ _ _ st
          (stop-command_size (get id st.endpoints.forward_definitions)))
        (apart (omega arith) (λ h. h) refl (λ j. (refl, refl, refl, refl)))
