-- ===== src/Core/Closing/Ended.antt =====
-- Every session of apps/desktop/src/main/core-manager.ts that loses its tab is reported as closed.
use dolssh.Prelude.{
  ℕ, ◌≡◌, refl, ap, String, Bool, true, false, List, ◌==◌, if◌then◌else◌, Bool-cases, inl, inr,
  is_some, arith,
}
use dolssh.Core.State.{CoreManager}
use dolssh.Core.Requests.{reject_all_pending}
use dolssh.Core.Process.{
  report_stderr, shutdown, announce_exit, core_exited, process_exited, clear_runtime_state,
}
use dolssh.Core.Calls.{Call, perform, run}
use dolssh.Core.Settling.{IsInjective, get-count}
use dolssh.Core.Idle.{continue-Idle}
use dolssh.Core.Sound.Requested.{time_out-Apart, perform_endpoint-Apart}
use dolssh.Core.Sound.Runs.{run-Sound}
use dolssh.Core.Closing.{closes, Heard, closes-announce_exit, closes-reject_all_pending}
use dolssh.Core.Turns.{Apart-Turn, Idle-Turn, same-Turn, Turn-if}
use dolssh.Core.Turns.Sessions.{handle_control_event-Turn, perform_session-Turn}

Heard-else :
    {st u : CoreManager} (t : CoreManager) (b : Bool)
    → b ≡ false
    → Heard st u
    → Heard st (if b then t else u)
Heard-else t true e h = absurd (cc e)
Heard-else t false e h = h

closes-else :
    (k : String) (b : Bool) (t u : CoreManager)
    → b ≡ false
    → closes k (if b then t else u).effects ≡ closes k u.effects
closes-else k true t u e = absurd (cc e)
closes-else k false t u e = refl

core_exited-Heard :
    (message : String) (now : ℕ) (st : CoreManager)
    → st.is_shutting_down ≡ false
    → Heard st (core_exited message now st)
unfolding core_exited clear_runtime_state reject_all_pending announce_exit
core_exited-Heard message now st h = record {
  heard = λ k tab a b.
      let announced = if st.is_shutting_down then st else announce_exit message now st in
      let r = closes-reject_all_pending k message announced in
      let m = closes-else k st.is_shutting_down st (announce_exit message now st) h in
      let n = closes-announce_exit k message now st in
      let c = get-count k st.sessions.tabs (ap is_some a) in omega (arith, r, m, n, c);
}

-- Where ids are never repeated, each call and each event after any calls, unless the manager is being
-- shut down, reports to the windows every session that loses its tab by it as closed, once at least.
pub perform-Heard :
    (uuid : ℕ → String)
    → IsInjective uuid
    → (calls : List (ℕ × Call)) (c : Call) (now : ℕ) → (run uuid calls).is_shutting_down ≡ false
    → Heard (run uuid calls) (perform uuid c now (run uuid calls))
unfolding perform report_stderr process_exited shutdown clear_runtime_state
perform-Heard uuid i calls (Call.session c) now h =
    (perform_session-Turn uuid c now (run uuid calls) (run-Sound i calls)).hears
perform-Heard uuid i calls (Call.endpoint c) now h =
    (Apart-Turn (perform_endpoint-Apart uuid c now (run uuid calls))).hears
perform-Heard uuid i calls (Call.continued c) now h =
    (Idle-Turn (continue-Idle c now (run uuid calls))).hears
perform-Heard uuid i calls (Call.event e) now h =
    (handle_control_event-Turn uuid e now (run uuid calls)).hears
perform-Heard uuid i calls (Call.stream_frame metadata payload) now h =
    (Turn-if (metadata.type == "data") (same-Turn record { same_tab = λ j. refl })
      (same-Turn record { same_tab = λ j. refl })).hears
perform-Heard uuid i calls (Call.stderr trimmed) now h =
    (same-Turn record { same_tab = λ j. refl }).hears
perform-Heard uuid i calls (Call.timer request) now h =
    (Apart-Turn (time_out-Apart request (run uuid calls))).hears
perform-Heard uuid i calls Call.shutdown now h = elim (Bool-cases (run uuid calls).is_running) [
  | inl e ↦ rw e (same-Turn record { same_tab = λ j. refl }).hears
  | inr e ↦
      let s = run-Sound i calls in
      record { heard = λ k tab a b. let n = s.idle_tabs e k in absurd (cc (a, n)) }
]
perform-Heard uuid i calls (Call.exited message) now h =
    Heard-else _ (run uuid calls).is_shutting_down h
      (core_exited-Heard message now (run uuid calls) h)
