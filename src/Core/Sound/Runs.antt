-- ===== src/Core/Sound/Runs.antt =====
-- The sessions of apps/desktop/src/main/core-manager.ts are in order whatever is called.
use dolssh.Prelude.{
  Option-cases, ℕ, ◌≡◌, refl, ap, ◌∙◌, String, Bool, true, false, not, ◌&&◌, Option, none, some,
  List, [], ◌∷◌, ◌==◌, if◌then◌else◌, Bool-cases, inl, inr, get, keys, values, is_some, arith,
}
use dolssh.Core.State.{
  Effect, CoreManager, PortForwardRuntimeRecord, TransferJob, new_manager, no_sessions, given,
  send_control,
}
use dolssh.Core.Sessions.{
  connect, connect_aws_session, tab_is_live, is_aws, send_control_signal, signal_or_bytes,
  resolve_aws_ssm_control_signal, write_binary, resize, attach_remote_session_recording,
  start_process,
}
use dolssh.Core.Process.{
  report_stderr, close_each, fail_jobs, fail_forwards, announce_exit, clear_runtime_state,
  core_exited, shutdown, shutdown_finished, process_exited, respond_keyboard_interactive,
}
use dolssh.Core.Calls.{Call, SessionCall, perform_session, perform, run}
use dolssh.Core.Settling.{IsInjective}
use dolssh.Core.Sound.{
  Size, misfires, last_size, Sound, Apart, apart, Apart-refl, Apart-trans, Apart-if,
  send_control-Apart, send_stream-Apart,
}
use dolssh.Core.Sound.Sizes.{live-running, resize-Changes, resize-good}
use dolssh.Core.Sound.Told.{resize-ToldAt}
use dolssh.Core.Sound.Tabs.{
  Sound-Apart, Sound-changed, open_remote-Sound, connect_local_session-Sound, disconnect-Sound,
}
use dolssh.Core.Sound.Events.{handle_control_event-Sound}
use dolssh.Core.Idle.{Idle-Apart, attach_at-Idle, continue-Idle}
use dolssh.Core.Sound.Requested.{time_out-Apart, reject_all_pending-Apart, perform_endpoint-Apart}

close_each-misfires :
    (ks : List String) (message : String) (es : List Effect)
    → misfires (close_each ks message es) ≡ misfires es
close_each-misfires [] message es = refl
close_each-misfires (i ∷ ks) message es = close_each-misfires ks message (_ ∷ es)

close_each-last_size :
    (j : String) (ks : List String) (message : String) (es : List Effect)
    → last_size j (close_each ks message es) ≡ last_size j es
close_each-last_size j [] message es = refl
close_each-last_size j (i ∷ ks) message es = close_each-last_size j ks message (_ ∷ es)

fail_jobs-misfires :
    (jobs : List TransferJob) (message : String) (now : ℕ) (es : List Effect)
    → misfires (fail_jobs jobs message now es) ≡ misfires es
fail_jobs-misfires [] message now es = refl
fail_jobs-misfires (job ∷ jobs) message now es = fail_jobs-misfires jobs message now (_ ∷ es)

fail_jobs-last_size :
    (j : String) (jobs : List TransferJob) (message : String) (now : ℕ) (es : List Effect)
    → last_size j (fail_jobs jobs message now es) ≡ last_size j es
fail_jobs-last_size j [] message now es = refl
fail_jobs-last_size j (job ∷ jobs) message now es = fail_jobs-last_size j jobs message now (_ ∷ es)

fail_forwards-misfires :
    (rs : List PortForwardRuntimeRecord) (message : String) (now : ℕ) (es : List Effect)
    → misfires (fail_forwards rs message now es) ≡ misfires es
fail_forwards-misfires [] message now es = refl
fail_forwards-misfires (r ∷ rs) message now es = fail_forwards-misfires rs message now (_ ∷ es)

fail_forwards-last_size :
    (j : String) (rs : List PortForwardRuntimeRecord) (message : String) (now : ℕ)
    (es : List Effect)
    → last_size j (fail_forwards rs message now es) ≡ last_size j es
fail_forwards-last_size j [] message now es = refl
fail_forwards-last_size j (r ∷ rs) message now es =
    fail_forwards-last_size j rs message now (_ ∷ es)

announce_exit-Apart :
    (message : String) (now : ℕ) (st : CoreManager) → Apart st (announce_exit message now st)
unfolding announce_exit
announce_exit-Apart message now st =
    let closed = close_each (keys st.sessions.tabs) message st.effects in
    let failed = fail_jobs (values st.endpoints.transfer_jobs) message now closed in
    apart (omega arith) (λ h. h)
      (fail_forwards-misfires (values st.endpoints.forward_runtimes) message now failed
        ∙ (fail_jobs-misfires (values st.endpoints.transfer_jobs) message now closed
            ∙ close_each-misfires (keys st.sessions.tabs) message st.effects))
      (λ j. (
        refl,
        refl,
        refl,
        fail_forwards-last_size j (values st.endpoints.forward_runtimes) message now failed
            ∙ (fail_jobs-last_size j (values st.endpoints.transfer_jobs) message now closed
                ∙ close_each-last_size j (keys st.sessions.tabs) message st.effects),
      ))

module _ (uuid : ℕ → String) where
  pub respond_keyboard_interactive-Apart :
      (k e : Option String) (payload : String) (st : CoreManager)
      → Apart st (respond_keyboard_interactive uuid k e payload st)
  unfolding respond_keyboard_interactive start_process send_control
  respond_keyboard_interactive-Apart k e payload st =
      Apart-if (if is_some (given k) then is_some (given e) else not (is_some (given e)))
        (apart (omega arith) (λ h. h) refl (λ j. (refl, refl, refl, refl)))
        (apart (omega arith) (λ h. refl) refl (λ j. (refl, refl, refl, refl)))

module _ {uuid : ℕ → String} where
  cleared-Sound :
      (t : CoreManager) → t.sessions ≡ no_sessions → misfires t.effects ≡ 0 → Sound uuid t
  unfolding get
  cleared-Sound t e m = record {
    good = λ k. rw e (refl, refl);
    idle_tabs = λ h k. rw e refl;
    fresh_tabs = λ n h. rw e refl;
    fired = m;
    told =
        λ k size h. let none_sent = ap (λ q. get k q.sent_resize) e in absurd (cc (none_sent, h));
  }

  core_exited-misfires :
      (message : String) (now : ℕ) (st : CoreManager)
      → Sound uuid st
      → misfires (core_exited message now st).effects ≡ 0
  unfolding core_exited clear_runtime_state
  core_exited-misfires message now st s =
      let announced = if st.is_shutting_down then st else announce_exit message now st in
      let a : Apart st announced =
        Apart-if st.is_shutting_down (Apart-refl st) (announce_exit-Apart message now st) in
      (reject_all_pending-Apart message announced).same_misfires ∙ (a.same_misfires ∙ s.fired)

  Sound-if :
      {t u : CoreManager} (b : Bool) → Sound uuid t → Sound uuid u → Sound uuid (if b then t else u)
  Sound-if true p q = p
  Sound-if false p q = q

  process_exited-Sound :
      (message : String) (now : ℕ) (st : CoreManager)
      → Sound uuid st
      → Sound uuid (process_exited message now st)
  unfolding process_exited shutdown_finished clear_runtime_state core_exited
  process_exited-Sound message now st s =
      let m = core_exited-misfires message now st s in
      Sound-if st.is_shutting_down (cleared-Sound _ refl m) (cleared-Sound _ refl m)

  -- What writes needs a live tab, for which a process runs.
  pub send_control_signal-Apart :
      (k signal : String) (st : CoreManager)
      → Sound uuid st
      → Apart st (send_control_signal uuid k signal st)
  unfolding send_control_signal
  send_control_signal-Apart k signal st s =
      elim (Bool-cases
        (tab_is_live (get k st.sessions.tabs) && is_aws (get k st.sessions.transport))) [
          | inl e ↦ rw e (
              Apart-trans (apart (omega arith) (λ h. h) refl (λ j. (refl, refl, refl, refl)))
                (send_control-Apart _ _ (live-running k s (ground (arith, e))) refl))
          | inr e ↦ rw e (Apart-refl st)
        ]

  signal_or_bytes-Apart :
      (o : Option String) (k : String) (bytes : List ℕ) (st : CoreManager)
      → Sound uuid st
      → st.is_running ≡ true
      → Apart st (signal_or_bytes uuid o k bytes st)
  signal_or_bytes-Apart none k bytes st s r = send_stream-Apart k bytes st r
  signal_or_bytes-Apart (some signal) k bytes st s r = send_control_signal-Apart k signal st s

  pub write_binary-Apart :
      (k : String) (bytes : List ℕ) (st : CoreManager)
      → Sound uuid st
      → Apart st (write_binary uuid k bytes st)
  unfolding write_binary
  write_binary-Apart k bytes st s = elim (Bool-cases (tab_is_live (get k st.sessions.tabs))) [
    | inl e ↦ rw e (
        Apart-if (is_aws (get k st.sessions.transport))
          (signal_or_bytes-Apart (resolve_aws_ssm_control_signal bytes) k bytes st s
            (live-running k s e))
          (send_stream-Apart k bytes st (live-running k s e)))
    | inr e ↦ rw e (Apart-refl st)
  ]

  resize-Sound :
      (k : String) (size : Size) (st : CoreManager)
      → Sound uuid st
      → Sound uuid (resize uuid k size st)
  unfolding resize
  resize-Sound k size st s = elim (Option-cases (get k st.sessions.tabs)) [
    | inl e ↦ rw e s
    | inr e ↦
        Sound-changed k s (resize-Changes uuid k size st s) (resize-good uuid k size st s)
          (resize-ToldAt uuid k size st s) (inl e)
  ]

  perform_session-Sound :
      IsInjective uuid
      → (c : SessionCall) (now : ℕ) (st : CoreManager) → Sound uuid st
      → Sound uuid (perform_session uuid c now st)
  unfolding perform_session connect connect_aws_session attach_remote_session_recording
  perform_session-Sound i (SessionCall.connect input) now st s =
      open_remote-Sound i _ _ now st s refl
  perform_session-Sound i (SessionCall.connect_aws_session input) now st s =
      open_remote-Sound i _ _ now st s refl
  perform_session-Sound i (SessionCall.connect_local_session title payload) now st s =
      connect_local_session-Sound i title payload now st s
  perform_session-Sound i (SessionCall.write_binary k bytes) now st s =
      Sound-Apart s (write_binary-Apart k bytes st s)
  perform_session-Sound i (SessionCall.send_control_signal k signal) now st s =
      Sound-Apart s (send_control_signal-Apart k signal st s)
  perform_session-Sound i (SessionCall.resize k size) now st s = resize-Sound k size st s
  perform_session-Sound i (SessionCall.disconnect k) now st s = disconnect-Sound k st s
  perform_session-Sound i (SessionCall.attach_recording k id) now st s =
      Sound-Apart s (Idle-Apart (attach_at-Idle (get k st.sessions.lifecycle) k id now st))
  perform_session-Sound i (SessionCall.respond_keyboard_interactive k e payload) now st s =
      Sound-Apart s (respond_keyboard_interactive-Apart uuid k e payload st)

  shutdown-Sound : (st : CoreManager) → Sound uuid st → Sound uuid (shutdown st)
  unfolding shutdown clear_runtime_state
  shutdown-Sound st s =
      Sound-if st.is_running
        (Sound-Apart s (apart (omega arith) (λ h. h) refl (λ j. (refl, refl, refl, refl))))
        (cleared-Sound _ refl s.fired)

  perform-Sound :
      IsInjective uuid
      → (c : Call) (now : ℕ) (st : CoreManager) → Sound uuid st
      → Sound uuid (perform uuid c now st)
  unfolding perform report_stderr
  perform-Sound i (Call.session c) now st s = perform_session-Sound i c now st s
  perform-Sound i (Call.endpoint c) now st s = Sound-Apart s (perform_endpoint-Apart uuid c now st)
  perform-Sound i (Call.continued c) now st s = Sound-Apart s (Idle-Apart (continue-Idle c now st))
  perform-Sound i (Call.event e) now st s = handle_control_event-Sound e now st s
  perform-Sound i (Call.stream_frame metadata payload) now st s =
      Sound-if (metadata.type == "data")
        (Sound-Apart s (apart (omega arith) (λ h. h) refl (λ j. (refl, refl, refl, refl)))) s
  perform-Sound i (Call.stderr trimmed) now st s =
      Sound-Apart s (apart (omega arith) (λ h. h) refl (λ j. (refl, refl, refl, refl)))
  perform-Sound i (Call.timer request) now st s = Sound-Apart s (time_out-Apart request st)
  perform-Sound i Call.shutdown now st s = shutdown-Sound st s
  perform-Sound i (Call.exited message) now st s = process_exited-Sound message now st s

  pub run-Sound : IsInjective uuid → (calls : List (ℕ × Call)) → Sound uuid (run uuid calls)
  unfolding run
  run-Sound i [] = cleared-Sound new_manager refl refl
  run-Sound i ((now, c) ∷ calls) = perform-Sound i c now (run uuid calls) (run-Sound i calls)
