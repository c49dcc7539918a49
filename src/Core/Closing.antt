-- ===== src/Core/Closing.antt =====
-- The windows hear of every session of apps/desktop/src/main/core-manager.ts that ends.
pub mod Ended
use dolssh.Prelude.{
  ℕ, suc, ◌+◌, ◌≤◌, ◌≡◌, refl, sym, ap, ◌∙◌, String, Bool, true, false, not, ◌&&◌, ◌||◌, Option,
  none, some, some_is, List, [], ◌∷◌, ◌==◌, ==_iff, ◌=ℕ=◌, if◌then◌else◌, Bool-cases, Option-cases,
  inl, inr, get, set, delete, keys, values, count, is_some, set-here, set-other, delete-other,
  arith,
}
use dolssh.Core.State.{
  Effect, control, stream, terminal_event, terminal_data, transfer_event, port_forward_event,
  logged, lifecycle_logged, resolved, rejected, thrown, CoreEvent, CoreEventType, TerminalTab,
  RemoteSessionLifecycleState, LifecycleStatus, SessionTransport, PortForwardRuntimeRecord,
  TransferJob, CoreManager, is_live, given,
}
use dolssh.Core.Sessions.{
  message_payload, session_event, finalize_at, finalize_remote_session_lifecycle, disconnect_tab,
}
use dolssh.Core.Requests.{
  type_code, is_failure, expects, resolve_at, resolve_for, resolve_pending_response, settle,
  reject_each, reject_all_pending,
}
use dolssh.Core.Events.{log_closed, change_session, update_tab, handle_session_event, handle_about}
use dolssh.Core.Process.{close_each, fail_jobs, fail_forwards, announce_exit}

abbrev pub is_closed_of : String → CoreEvent → Bool
is_closed_of k event = (type_code event.type =ℕ= 2) && some_is event.session_id k

-- How often the windows heard that a session is closed.
abbrev pub closes : String → List Effect → ℕ
closes k [] = 0
closes k (control request ∷ es) = closes k es
closes k (stream id payload ∷ es) = closes k es
closes k (terminal_event event ∷ es) = (if is_closed_of k event then 1 else 0) + closes k es
closes k (terminal_data id payload ∷ es) = closes k es
closes k (transfer_event job ∷ es) = closes k es
closes k (port_forward_event r ∷ es) = closes k es
closes k (logged level message ∷ es) = closes k es
closes k (lifecycle_logged id l now ∷ es) = closes k es
closes k (resolved id payload ∷ es) = closes k es
closes k (rejected id message ∷ es) = closes k es
closes k (thrown e ∷ es) = closes k es

-- A change after which every session that lost its tab has been reported as closed once more.
pub record Heard (st t : CoreManager) : Type 0 where
  pub heard :
      (k : String) (tab : TerminalTab)
      → get k st.sessions.tabs ≡ some tab
      → get k t.sessions.tabs ≡ none
      → suc (closes k st.effects) ≤ closes k t.effects

closes-close_each :
    (k : String) (ks : List String) (message : String) (es : List Effect)
    → closes k (close_each ks message es) ≡ count k ks + closes k es
closes-close_each k [] message es = omega arith
closes-close_each k (i ∷ ks) message es =
    let closed = terminal_event (session_event CoreEventType.closed i (message_payload message)) in
    let rest = closes-close_each k ks message (closed ∷ es) in ground (arith, rest)

closes-fail_jobs :
    (k : String) (jobs : List TransferJob) (message : String) (now : ℕ) (es : List Effect)
    → closes k (fail_jobs jobs message now es) ≡ closes k es
closes-fail_jobs k [] message now es = refl
closes-fail_jobs k (job ∷ jobs) message now es = closes-fail_jobs k jobs message now (_ ∷ es)

closes-fail_forwards :
    (k : String) (rs : List PortForwardRuntimeRecord) (message : String) (now : ℕ)
    (es : List Effect)
    → closes k (fail_forwards rs message now es) ≡ closes k es
closes-fail_forwards k [] message now es = refl
closes-fail_forwards k (r ∷ rs) message now es = closes-fail_forwards k rs message now (_ ∷ es)

pub closes-announce_exit :
    (k : String) (message : String) (now : ℕ) (st : CoreManager)
    → closes k (announce_exit message now st).effects
      ≡ count k (keys st.sessions.tabs) + closes k st.effects
unfolding announce_exit
closes-announce_exit k message now st =
    let closed = close_each (keys st.sessions.tabs) message st.effects in
    let failed = fail_jobs (values st.endpoints.transfer_jobs) message now closed in
    let a = closes-fail_forwards k (values st.endpoints.forward_runtimes) message now failed in
    let b = closes-fail_jobs k (values st.endpoints.transfer_jobs) message now closed in
    let c = closes-close_each k (keys st.sessions.tabs) message st.effects in omega (arith, a, b, c)

closes-reject_each :
    (k : String) (ids : List String) (message : String) (st : CoreManager)
    → closes k (reject_each ids message st).effects ≡ closes k st.effects
unfolding reject_each
closes-reject_each k [] message st = refl
closes-reject_each k (id ∷ ids) message st =
    closes-reject_each k ids message (settle id (rejected id message) st)

pub closes-reject_all_pending :
    (k : String) (message : String) (st : CoreManager)
    → closes k (reject_all_pending message st).effects ≡ closes k st.effects
unfolding reject_all_pending
closes-reject_all_pending k message st = closes-reject_each k (keys st.pending_responses) message st

closes-if :
    (k : String) (b : Bool) (t u : CoreManager) (n : ℕ)
    → closes k t.effects ≡ n
    → closes k u.effects ≡ n
    → closes k (if b then t else u).effects ≡ n
closes-if k true t u n p q = p
closes-if k false t u n p q = q

closes-resolve_at :
    (k : String) (o : Option (List CoreEventType)) (id : String) (event : CoreEvent)
    (st : CoreManager)
    → closes k (resolve_at o id event st).effects ≡ closes k st.effects
closes-resolve_at k none id event st = refl
closes-resolve_at k (some types) id event st =
    let n = closes k st.effects in
    closes-if k (is_failure event.type) _ _ n refl
      (closes-if k (expects types event.type) _ st n refl refl)

closes-resolve_for :
    (k : String) (o : Option String) (event : CoreEvent) (st : CoreManager)
    → closes k (resolve_for o event st).effects ≡ closes k st.effects
closes-resolve_for k none event st = refl
closes-resolve_for k (some id) event st =
    closes-resolve_at k (get id st.pending_responses) id event st

pub closes-resolve_pending_response :
    (k : String) (event : CoreEvent) (st : CoreManager)
    → closes k (resolve_pending_response event st).effects ≡ closes k st.effects
unfolding resolve_pending_response
closes-resolve_pending_response k event st = closes-resolve_for k (given event.request_id) event st

closes-finalize_at :
    (k : String) (o : Option RemoteSessionLifecycleState) (id : String) (s : LifecycleStatus)
    (reason : Option String) (now : ℕ) (st : CoreManager)
    → closes k (finalize_at o id s reason now st).effects ≡ closes k st.effects
closes-finalize_at k none id s reason now st = refl
closes-finalize_at k (some l) id s reason now st =
    closes-if k (not (is_some l.connected_at) || is_some l.disconnected_at) st _
      (closes k st.effects) refl refl

pub closes-log_closed :
    (k : String) (o : Option RemoteSessionLifecycleState) (id label : String) (event : CoreEvent)
    (now : ℕ) (st : CoreManager)
    → closes k (log_closed o id label event now st).effects ≡ closes k st.effects
unfolding finalize_remote_session_lifecycle
closes-log_closed k none id label event now st = refl
closes-log_closed k (some l) id label event now st =
    closes-if k (is_some l.disconnected_at) st _ (closes k st.effects) refl (
      closes-finalize_at k (get id st.sessions.lifecycle) id LifecycleStatus.closed
        event.payload.message now st)
