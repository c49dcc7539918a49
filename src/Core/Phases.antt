-- ===== src/Core/Phases.antt =====
-- What a session of apps/desktop/src/main/core-manager.ts promises to the windows: the phases of its tab.
pub mod Steps
use dolssh.Prelude.{
  ◌≡◌, refl, sym, ◌∙◌, String, Bool, true, false, Option, none, some, ◌==◌, ==_iff, Bool-cases,
  if◌then◌else◌, inl, inr, get,
}
use dolssh.Core.State.{TabStatus, TerminalTab, CoreManager}
use dolssh.Core.Sound.{Apart, Changes}

-- A session is absent, being opened, ready, or has failed.
pub data Phase : Type 0 where
  absent opening ready failed : Phase

abbrev pub status_phase : TabStatus → Phase
status_phase TabStatus.connecting = opening
status_phase TabStatus.connected = ready
status_phase TabStatus.error = failed

abbrev pub phase : Option TerminalTab → Phase
phase none = absent
phase (some tab) = status_phase tab.status

-- The protocol: a session begins by being opened, becomes ready or fails, may fail once it is ready
-- and be ready again, is never opened twice, and may end at any time.
pub data Allowed : Phase → Phase → Type 0 where
  stays : (p : Phase) → Allowed p p
  begins : Allowed absent opening
  succeeds : Allowed opening ready
  fails : Allowed opening failed
  breaks : Allowed ready failed
  recovers : Allowed failed ready
  ends : (p : Phase) → Allowed p absent

abbrev pub phase_at : String → CoreManager → Phase
phase_at k st = phase (get k st.sessions.tabs)

-- A change of the manager after which each session's phase is as the protocol allows.
pub record IsStep (st t : CoreManager) : Type 0 where
  pub allowed : (k : String) → Allowed (phase_at k st) (phase_at k t)

pub record SameTabs (st t : CoreManager) : Type 0 where
  pub same_tab : (k : String) → get k t.sessions.tabs ≡ get k st.sessions.tabs

pub Apart-SameTabs : {st t : CoreManager} → Apart st t → SameTabs st t
Apart-SameTabs a = record { same_tab = λ k. (a.same k).0 }

pub SameTabs-IsStep : {st t : CoreManager} → SameTabs st t → IsStep st t
SameTabs-IsStep {st = st} same = record {
  allowed = λ k. let e = same.same_tab k in rw e (stays (phase_at k st));
}

pub then-IsStep : {st t u : CoreManager} → SameTabs st t → IsStep t u → IsStep st u
then-IsStep same step = record {
  allowed = λ k. let e = same.same_tab k in rw (sym e) (step.allowed k);
}

pub IsStep-if :
    {st t u : CoreManager} (b : Bool) → IsStep st t → IsStep st u → IsStep st (if b then t else u)
IsStep-if true p q = p
IsStep-if false p q = q

pub SameTabs-if :
    {st t u : CoreManager} (b : Bool)
    → SameTabs st t
    → SameTabs st u
    → SameTabs st (if b then t else u)
SameTabs-if true p q = p
SameTabs-if false p q = q

pub SameTabs-trans : {st t u : CoreManager} → SameTabs st t → SameTabs t u → SameTabs st u
SameTabs-trans p q = record { same_tab = λ k. q.same_tab k ∙ p.same_tab k }

-- A change of one session's tab.
pub one-IsStep :
    {st t : CoreManager} (k : String)
    → ((j : String) → (k == j) ≡ false → get j t.sessions.tabs ≡ get j st.sessions.tabs)
    → Allowed (phase_at k st) (phase_at k t)
    → IsStep st t
one-IsStep {st = st} k others here = record {
  allowed = λ j. elim (Bool-cases (k == j)) [
    | inl e ↦ rw (sym ((==_iff k j).0 e)) here
    | inr e ↦ rw (others j e) (stays (phase_at j st))
  ];
}

pub ended-Allowed :
    (before after : Option TerminalTab) → after ≡ none → Allowed (phase before) (phase after)
ended-Allowed before after a = rw a (ends (phase before))

pub connected-Allowed : (s : TabStatus) → Allowed (status_phase s) ready
connected-Allowed TabStatus.connecting = succeeds
connected-Allowed TabStatus.connected = stays ready
connected-Allowed TabStatus.error = recovers

pub failed-Allowed : (s : TabStatus) → Allowed (status_phase s) failed
failed-Allowed TabStatus.connecting = fails
failed-Allowed TabStatus.connected = breaks
failed-Allowed TabStatus.error = stays failed
