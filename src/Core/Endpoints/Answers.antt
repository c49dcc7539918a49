-- ===== src/Core/Endpoints/Answers.antt =====
-- What a method of apps/desktop/src/main/core-manager.ts does once its request is settled: with the
-- answer (`…_answered`) and with an error that it catches (`…_failed`). The metadata of a log entry is
-- not modelled.
use dolssh.Prelude.{
  value_or, ◌||◌, some_is, ℕ, String, Bool, Option, none, some, if◌then◌else◌, get, set, delete,
}
use dolssh.Core.State.{
  Payload, ForwardStatus, PortForwardRuntimeRecord, SftpEndpointSummary, ContainersEndpointRuntime,
  LogLevel, logged, CoreManager, emit, given,
}
use dolssh.Core.Records.{
  change_endpoints, forget_forward_definition, forget_container, build_forward_runtime,
  show_runtime,
}

unfoldable pub sftp_connect_answered :
    (endpoint_id host_id title : String) → Payload → ℕ → CoreManager → CoreManager
sftp_connect_answered endpoint_id host_id title response now st =
    let summary : SftpEndpointSummary = record {
      id = endpoint_id;
      host_id = host_id;
      title = title;
      path = value_or response.path "/";
      connected_at = now;
    } in
    emit (logged LogLevel.info "SFTP 연결이 시작되었습니다.")
      (change_endpoints (λ e. record e { sftp = set endpoint_id summary e.sftp }) st)

unfoldable pub sftp_connect_failed : CoreManager → CoreManager
sftp_connect_failed = emit (logged LogLevel.error "SFTP 연결 오류가 발생했습니다.")

unfoldable pub sftp_disconnect_answered : String → CoreManager → CoreManager
sftp_disconnect_answered endpoint_id st =
    emit (logged LogLevel.info "SFTP 연결이 종료되었습니다.")
      (change_endpoints (λ e. record e { sftp = delete endpoint_id e.sftp }) st)

unfoldable pub sftp_disconnect_failed : CoreManager → CoreManager
sftp_disconnect_failed = emit (logged LogLevel.error "SFTP 연결 종료 중 오류가 발생했습니다.")

abbrev pub keep_path :
    Option SftpEndpointSummary → (endpoint_id path : String) → CoreManager → CoreManager
keep_path none endpoint_id path st = st
keep_path (some summary) endpoint_id path st =
    change_endpoints
      (λ e. record e { sftp = set endpoint_id record summary { path = path } e.sftp }) st

-- `toDirectoryListing` takes the path of the answer, or the root.
unfoldable pub sftp_list_answered : String → Payload → CoreManager → CoreManager
sftp_list_answered endpoint_id response st =
    keep_path (get endpoint_id st.endpoints.sftp) endpoint_id (value_or response.path "/") st

-- The command is kept if it is not blank, as the caller's trim finds it.
unfoldable pub containers_connect_answered :
    (endpoint_id host_id : String) → (command_is_blank : Bool) → Payload → CoreManager → CoreManager
containers_connect_answered endpoint_id host_id command_is_blank response =
    let runtime =
      if some_is response.runtime "docker" || some_is response.runtime "podman"
      then response.runtime
      else none in
    let endpoint : ContainersEndpointRuntime = record {
      host_id = host_id;
      runtime = runtime;
      runtime_command = if command_is_blank then none else response.runtime_command;
      unsupported_reason = response.unsupported_reason;
    } in
    change_endpoints (λ e. record e { containers = set endpoint_id endpoint e.containers })

unfoldable pub forward_answered : String → Payload → ℕ → CoreManager → CoreManager
unfolding build_forward_runtime
forward_answered rule_id response now st =
    show_runtime (build_forward_runtime rule_id response ForwardStatus.running now st.endpoints) st

-- The `finally` of `startPortForward`.
abbrev pub forget_given : Option String → CoreManager → CoreManager
forget_given none st = st
forget_given (some endpoint_id) st = forget_container endpoint_id st

unfoldable pub forget_source : Option String → CoreManager → CoreManager
forget_source source_endpoint_id = forget_given (given source_endpoint_id)

abbrev pub show_stopped : Option PortForwardRuntimeRecord → ℕ → String → CoreManager → CoreManager
show_stopped none now rule_id st = st
show_stopped (some r) now rule_id st =
    show_runtime record r { status = ForwardStatus.stopped; updated_at = now; message = none } st

unfoldable pub stop_port_forward_answered : String → ℕ → CoreManager → CoreManager
stop_port_forward_answered rule_id now st =
    show_stopped (get rule_id st.endpoints.forward_runtimes) now rule_id
      (forget_forward_definition rule_id st)
