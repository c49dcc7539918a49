-- ===== src/Core/Phases/Steps.antt =====
-- Every call on the manager of apps/desktop/src/main/core-manager.ts is a step of each session's protocol.
use dolssh.Prelude.{ℕ, ◌≡◌, refl, String, List, ◌==◌, get}
use dolssh.Core.State.{CoreManager, no_sessions}
use dolssh.Core.Process.{
  report_stderr, shutdown, shutdown_finished, core_exited, process_exited, clear_runtime_state,
}
use dolssh.Core.Calls.{Call, perform, run}
use dolssh.Core.Settling.{IsInjective}
use dolssh.Core.Idle.{continue-Idle}
use dolssh.Core.Sound.Requested.{time_out-Apart, perform_endpoint-Apart}
use dolssh.Core.Sound.Runs.{run-Sound}
use dolssh.Core.Phases.{IsStep, SameTabs-IsStep, IsStep-if, SameTabs-if, ended-Allowed}
use dolssh.Core.Turns.{Apart-Turn, Idle-Turn}
use dolssh.Core.Turns.Sessions.{handle_control_event-Turn, perform_session-Turn}

cleared-IsStep : (st t : CoreManager) → t.sessions ≡ no_sessions → IsStep st t
unfolding get
cleared-IsStep st t e = record {
  allowed = λ k. ended-Allowed (get k st.sessions.tabs) (get k t.sessions.tabs) (rw e refl);
}

-- Where ids are never repeated, each call and each event after any calls moves every session as the
-- protocol of phases allows, or leaves it: absent to opening, opening to ready or failed, ready to
-- failed and failed to ready, and any phase to absent.
pub perform-IsStep :
    (uuid : ℕ → String)
    → IsInjective uuid
    → (calls : List (ℕ × Call)) (c : Call) (now : ℕ)
    → IsStep (run uuid calls) (perform uuid c now (run uuid calls))
unfolding perform report_stderr process_exited core_exited shutdown shutdown_finished
    clear_runtime_state
perform-IsStep uuid i calls (Call.session c) now =
    (perform_session-Turn uuid c now (run uuid calls) (run-Sound i calls)).step
perform-IsStep uuid i calls (Call.endpoint c) now =
    (Apart-Turn (perform_endpoint-Apart uuid c now (run uuid calls))).step
perform-IsStep uuid i calls (Call.continued c) now =
    (Idle-Turn (continue-Idle c now (run uuid calls))).step
perform-IsStep uuid i calls (Call.event e) now =
    (handle_control_event-Turn uuid e now (run uuid calls)).step
perform-IsStep uuid i calls (Call.stream_frame metadata payload) now = SameTabs-IsStep (
    SameTabs-if (metadata.type == "data") record { same_tab = λ j. refl }
      record { same_tab = λ j. refl })
perform-IsStep uuid i calls (Call.stderr trimmed) now =
    SameTabs-IsStep record { same_tab = λ j. refl }
perform-IsStep uuid i calls (Call.timer request) now =
    (Apart-Turn (time_out-Apart request (run uuid calls))).step
perform-IsStep uuid i calls Call.shutdown now =
    IsStep-if (run uuid calls).is_running (SameTabs-IsStep record { same_tab = λ j. refl })
      (cleared-IsStep (run uuid calls) _ refl)
perform-IsStep uuid i calls (Call.exited message) now =
    IsStep-if (run uuid calls).is_shutting_down (cleared-IsStep (run uuid calls) _ refl)
      (cleared-IsStep (run uuid calls) _ refl)
