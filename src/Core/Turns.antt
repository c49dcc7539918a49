-- ===== src/Core/Turns.antt =====
-- What a call or an event does to the sessions of apps/desktop/src/main/core-manager.ts: how each moves
-- in the protocol of phases, and what the windows hear of it.
pub mod Sessions
use dolssh.Prelude.{
  ℕ, suc, ◌+◌, ◌≤◌, ◌≡◌, refl, sym, ◌∙◌, String, Bool, true, false, Option, none, some, ◌==◌,
  ==_iff, ◌=ℕ=◌, if◌then◌else◌, Bool-cases, inl, inr, get, set, get-set, arith,
}
use dolssh.Core.State.{terminal_event, emit, CoreEvent, TerminalTab, CoreManager, given}
use dolssh.Core.Requests.{type_code}
use dolssh.Core.Sound.{Apart}
use dolssh.Core.Idle.{Idle, Idle-Apart}
use dolssh.Core.Phases.{
  Allowed, IsStep, SameTabs, phase_at, status_phase, stays, Apart-SameTabs, SameTabs-IsStep,
  then-IsStep, one-IsStep, ended-Allowed,
}
use dolssh.Core.Closing.{is_closed_of, closes, Heard}

pub record Turn (st t : CoreManager) : Type 0 where
  pub step : IsStep st t
  pub hears : Heard st t

pub Turn-if :
    {st t u : CoreManager} (b : Bool) → Turn st t → Turn st u → Turn st (if b then t else u)
Turn-if true p q = p
Turn-if false p q = q

-- No tab is lost.
pub same-Turn : {st t : CoreManager} → SameTabs st t → Turn st t
same-Turn same = record {
  step = SameTabs-IsStep same;
  hears = record { heard = λ k tab a b. let e = same.same_tab k in absurd (cc (a, b, e)) };
}

pub Apart-Turn : {st t : CoreManager} → Apart st t → Turn st t
Apart-Turn a = same-Turn (Apart-SameTabs a)

pub Idle-Turn : {st t : CoreManager} → Idle st t → Turn st t
Idle-Turn p = Apart-Turn (Idle-Apart p)

-- One tab is set.
pub set-Turn :
    {st t : CoreManager} (id : String) (newer : TerminalTab)
    → ((k : String) → get k t.sessions.tabs ≡ get k (set id newer st.sessions.tabs))
    → Allowed (phase_at id st) (status_phase newer.status)
    → Turn st t
set-Turn {st = st} {t = t} id newer same allowed = record {
  step =
      one-IsStep id (λ j h. same j ∙ (get-set j id newer st.sessions.tabs ∙ rw h refl))
        (rw (same id, get-set id id newer st.sessions.tabs, (==_iff id id).1 refl) allowed);
  hears = record {
    heard = λ k tab a b.
        let e = same k in
        let g = get-set k id newer st.sessions.tabs in
        elim (Bool-cases (id == k)) [
          | inl h ↦ absurd (ground (arith, a, b, e, g, h))
          | inr h ↦ absurd (ground (arith, a, b, e, g, h))
        ];
  };
}

-- One tab is lost, and reported.
pub lost-Turn :
    {st t : CoreManager} (k : String)
    → ((j : String) → (k == j) ≡ false → get j t.sessions.tabs ≡ get j st.sessions.tabs)
    → get k t.sessions.tabs ≡ none
    → suc (closes k st.effects) ≤ closes k t.effects
    → Turn st t
lost-Turn {st = st} {t = t} k others gone c = record {
  step = one-IsStep k others (ended-Allowed (get k st.sessions.tabs) _ gone);
  hears = record {
    heard = λ j tab a b. elim (Bool-cases (k == j)) [
      | inl h ↦ rw (sym ((==_iff k j).0 h)) c
      | inr h ↦ let e = others j h in absurd (cc (a, b, e))
    ];
  };
}

pub emit-Turn :
    {st t : CoreManager} (event : CoreEvent) → Turn st t → Turn st (emit (terminal_event event) t)
emit-Turn event turn = record {
  step = record { allowed = λ k. turn.step.allowed k };
  hears = record { heard = λ k tab a b. let c = turn.hears.heard k tab a b in omega (arith, c) };
}

pub then-Turn :
    {st t u : CoreManager}
    → SameTabs st t
    → ((k : String) → closes k t.effects ≡ closes k st.effects)
    → Turn t u
    → Turn st u
then-Turn same c turn = record {
  step = then-IsStep same turn.step;
  hears = record {
    heard = λ k tab a b.
        let e = same.same_tab k in
        let n = c k in let later = turn.hears.heard k tab (e ∙ a) b in omega (arith, n, later);
  };
}

given-some : (o : Option String) (k : String) → given o ≡ some k → o ≡ some k
given-some none k h = absurd (cc h)
given-some (some s) k h = elim (Bool-cases (s == "")) [
  | inl e ↦ absurd (ground (arith, h, e))
  | inr e ↦ ground (arith, h, e)
]

pub closed-counts :
    (k : String) (event : CoreEvent)
    → given event.session_id ≡ some k
    → (type_code event.type =ℕ= 2) ≡ true
    → is_closed_of k event ≡ true
closed-counts k event h e =
    let s = given-some event.session_id k h in let r = (==_iff k k).1 refl in rw (e, s, r) refl
