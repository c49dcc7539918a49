-- ===== src/Core/Accounting/Settled.antt =====
-- What becomes of a request that waits, in apps/desktop/src/main/core-manager.ts.
use dolssh.Prelude.{
  leb, ℕ, ◌+◌, ◌≤◌, ◌≡◌, refl, String, true, false, List, [], ◌∷◌, ◌++◌, if◌then◌else◌, Bool-cases,
  inl, inr, get, keys, is_some, count, arith,
}
use dolssh.Core.State.{CoreManager}
use dolssh.Core.Process.{core_exited, process_exited, shutdown_finished}
use dolssh.Core.Calls.{Call, perform, run}
use dolssh.Core.Quiet.{settled}
use dolssh.Core.Settling.{get-count, total, IsInjective, Accounts}
use dolssh.Core.Accounting.{count-get}
use dolssh.Core.Accounting.Runs.{perform-Moves, run-Accounts}

waiting-total :
    (uuid : ℕ → String) (k : String) (st : CoreManager)
    → Accounts uuid st
    → settled k st.effects + (if is_some (get k st.pending_responses) then 1 else 0) ≡ total k st
waiting-total uuid k st a = elim (Bool-cases (is_some (get k st.pending_responses))) [
  | inl e ↦
      let c = get-count k st.pending_responses e in
      let b = a.at_most_once k in rw e (omega (arith, c, b))
  | inr e ↦ elim (Bool-cases (leb 1 (count k (keys st.pending_responses)))) [
    | inl f ↦ let g = count-get k st.pending_responses (ground (arith, f)) in absurd (cc (e, g))
    | inr f ↦ rw e (ground (arith, f))
  ]
]

kept-later :
    (uuid : ℕ → String)
    → IsInjective uuid
    → (more calls : List (ℕ × Call)) (k : String)
    → total k (run uuid calls) ≤ total k (run uuid (more ++ calls))
unfolding run
kept-later uuid i [] calls k = omega arith
kept-later uuid i ((now, c) ∷ more) calls k =
    let m =
      (perform-Moves i c now (run uuid (more ++ calls)) (run-Accounts i (more ++ calls))).kept k in
    let r = kept-later uuid i more calls k in omega (arith, m, r)

-- Where ids are never repeated, no request is resolved or rejected twice, whatever is called.
pub settled_at_most_once :
    (uuid : ℕ → String)
    → IsInjective uuid
    → (calls : List (ℕ × Call)) (k : String) → settled k (run uuid calls).effects ≤ 1
settled_at_most_once uuid i calls k =
    let a = (run-Accounts i calls).at_most_once k in omega (arith, a)

-- Where ids are never repeated, a request that waits is never lost: after any further calls it either
-- still waits and is not settled, or does not wait and has been settled exactly once.
pub waiting-waits_or_settled :
    (uuid : ℕ → String)
    → IsInjective uuid
    → (more calls : List (ℕ × Call)) (k : String)
    → is_some (get k (run uuid calls).pending_responses) ≡ true
    → settled k (run uuid (more ++ calls)).effects
        + (if is_some (get k (run uuid (more ++ calls)).pending_responses) then 1 else 0)
      ≡ 1
waiting-waits_or_settled uuid i more calls k h =
    let later = run-Accounts i (more ++ calls) in
    let w = waiting-total uuid k (run uuid (more ++ calls)) later in
    let c = get-count k (run uuid calls).pending_responses h in
    let b = later.at_most_once k in
    let m = kept-later uuid i more calls k in omega (arith, w, c, b, m)

exited_not_running :
    (message : String) (now : ℕ) (st : CoreManager)
    → (process_exited message now st).is_running ≡ false
unfolding process_exited core_exited shutdown_finished
exited_not_running message now st = elim (Bool-cases st.is_shutting_down) [
  | inl e ↦ rw e refl
  | inr e ↦ rw e refl
]

-- Where ids are never repeated, the end of the core process settles every request that waits, each
-- exactly once, and no request waits afterwards.
pub exited-settled :
    (uuid : ℕ → String)
    → IsInjective uuid
    → (calls : List (ℕ × Call)) (message : String) (now : ℕ) (k : String)
    → is_some (get k (run uuid calls).pending_responses) ≡ true
    → (settled k (perform uuid (Call.exited message) now (run uuid calls)).effects ≡ 1)
      × ((perform uuid (Call.exited message) now (run uuid calls)).pending_responses ≡ [])
unfolding perform keys
exited-settled uuid i calls message now k h =
    let st = run uuid calls in
    let m = perform-Moves i (Call.exited message) now st (run-Accounts i calls) in
    let none_waits = m.accounts.idle (exited_not_running message now st) in
    let c = get-count k st.pending_responses h in
    let p = m.kept k in
    let b = m.accounts.at_most_once k in
    let z : count k (keys (process_exited message now st).pending_responses) ≡ 0 =
      rw none_waits refl in
    (omega (arith, c, p, b, z), none_waits)
