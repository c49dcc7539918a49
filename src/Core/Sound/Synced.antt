-- ===== src/Core/Sound/Synced.antt =====
-- What holds of the sessions of apps/desktop/src/main/core-manager.ts after any calls.
use dolssh.Prelude.{
  ap, ℕ, ◌≡◌, sym, ◌∙◌, String, true, Option, none, some, List, ◌∷◌, get, suc, is_some,
}
use dolssh.Core.State.{TerminalTab, Size, is_live}
use dolssh.Prelude.Int.{pos}
use dolssh.Core.Calls.{Call, SessionCall, perform_session, perform, run}
use dolssh.Core.Sound.Told.{resize-wanted}
use dolssh.Core.Settling.{IsInjective}
use dolssh.Core.Sound.{arith, misfires, last_size, IsGood}
use dolssh.Core.Sound.Sizes.{tab-running}
use dolssh.Core.Sound.Runs.{run-Sound}

IsGood-live :
    (k : String) (o : Option TerminalTab) (desired sent : Option Size) (tab : TerminalTab)
    → o ≡ some tab
    → is_live tab.status ≡ true
    → IsGood k o desired sent
    → sent ≡ desired
IsGood-live k none desired sent tab h l g = absurd (cc h)
IsGood-live k (some old) desired sent tab h l g =
    (let same : old ≡ tab = ground (arith, h) in g.2 (ap (λ t. is_live t.status) same ∙ l))

IsGood-named :
    (k : String) (o : Option TerminalTab) (desired sent : Option Size) (tab : TerminalTab)
    → o ≡ some tab
    → IsGood k o desired sent
    → tab.session_id ≡ k
IsGood-named k none desired sent tab h g = absurd (cc h)
IsGood-named k (some old) desired sent tab h g =
    (let same : old ≡ tab = ground (arith, h) in ap (λ t. t.session_id) (sym same) ∙ g.1)

-- Where ids are never repeated, no call and no event ever makes the manager write to a core process
-- that does not run, so that error is never thrown.
pub misfires-never :
    (uuid : ℕ → String)
    → IsInjective uuid
    → (calls : List (ℕ × Call)) → misfires (run uuid calls).effects ≡ 0
misfires-never uuid i calls = (run-Sound i calls).fired

pub live-told :
    (uuid : ℕ → String)
    → IsInjective uuid
    → (calls : List (ℕ × Call)) (k : String) (tab : TerminalTab) (size : Size)
    → get k (run uuid calls).sessions.tabs ≡ some tab
    → is_live tab.status ≡ true
    → get k (run uuid calls).sessions.desired_resize ≡ some size
    → last_size k (run uuid calls).effects ≡ some size
live-told uuid i calls k tab size h l d =
    let s = run-Sound i calls in
    s.told k size (IsGood-live k (get k (run uuid calls).sessions.tabs) _ _ tab h l (s.good k) ∙ d)

-- Where ids are never repeated, after any calls and events, a connected session that is resized to a
-- positive number of columns and rows has its new size told to the core as the last one, whether the
-- core has to be told again or knows it already.
pub resize-told :
    (uuid : ℕ → String)
    → IsInjective uuid
    → (calls : List (ℕ × Call)) (k : String) (tab : TerminalTab) (m n now : ℕ)
    → get k (run uuid calls).sessions.tabs ≡ some tab
    → is_live tab.status ≡ true
    → last_size k
        (perform uuid
          (Call.session (SessionCall.resize k record { cols = pos (suc m); rows = pos (suc n) }))
          now
          (run uuid calls)).effects
      ≡ some record { cols = pos (suc m); rows = pos (suc n) }
unfolding run perform perform_session
resize-told uuid i calls k tab m n now h l =
    let size : Size = record { cols = pos (suc m); rows = pos (suc n) } in
    let (a, b) = resize-wanted uuid k m n (run uuid calls) (ap is_some h) in
    live-told uuid i ((now, Call.session (SessionCall.resize k size)) ∷ calls) k tab size
      (ap (get k) a ∙ h) l b

-- Where ids are never repeated, after any calls and events a session with a tab has a core process
-- that runs, and its tab stands under its own id.
tab-backed :
    (uuid : ℕ → String)
    → IsInjective uuid
    → (calls : List (ℕ × Call)) (k : String) (tab : TerminalTab)
    → get k (run uuid calls).sessions.tabs ≡ some tab
    → ((run uuid calls).is_running ≡ true) × (tab.session_id ≡ k)
tab-backed uuid i calls k tab h =
    let s = run-Sound i calls in
    (
      tab-running k tab s h,
      IsGood-named k (get k (run uuid calls).sessions.tabs) _ _ tab h (s.good k),
    )
