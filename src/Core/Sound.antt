-- ===== src/Core/Sound.antt =====
-- When the sessions of apps/desktop/src/main/core-manager.ts are in order, and the changes that leave
-- their tabs and sizes alone.
pub mod Sizes
pub mod Told
pub mod Tabs
pub mod Events
pub mod Runs
pub mod Synced
pub mod Requested
use dolssh.Prelude.{
  ℕ, suc, ◌+◌, ◌≤◌, ◌≡◌, refl, ◌∙◌, String, Bool, true, false, Option, none, some, List, [], ◌∷◌,
  some_is, ◌==◌, if◌then◌else◌, Bool-cases, inl, inr, get, arith,
}
use dolssh.Core.State.{
  Effect, control, stream, terminal_event, terminal_data, transfer_event, port_forward_event,
  logged, lifecycle_logged, resolved, rejected, thrown, CallError, not_running, one_target,
  TerminalTab, Size, Command, resize, CoreRequest, CoreManager, new_manager, is_live, send_control,
  send_stream,
}

-- How often something was to be written while there was no process.
abbrev pub misfires : List Effect → ℕ
misfires [] = 0
misfires (control request ∷ es) = misfires es
misfires (stream id payload ∷ es) = misfires es
misfires (terminal_event event ∷ es) = misfires es
misfires (terminal_data id payload ∷ es) = misfires es
misfires (transfer_event job ∷ es) = misfires es
misfires (port_forward_event r ∷ es) = misfires es
misfires (logged level message ∷ es) = misfires es
misfires (lifecycle_logged id l now ∷ es) = misfires es
misfires (resolved id payload ∷ es) = misfires es
misfires (rejected id message ∷ es) = misfires es
misfires (thrown not_running ∷ es) = suc (misfires es)
misfires (thrown one_target ∷ es) = misfires es

-- The size that a command tells the core, if it is about one.
abbrev pub command_size : Command → Option Size
command_size (resize size) = some size
command_size _ = none

abbrev pub newer_size : Option Size → Bool → Option Size → Option Size
newer_size none about older = older
newer_size (some size) about older = if about then some size else older

-- The size that the core was told last for a session, in what was written to it.
abbrev pub last_size : String → List Effect → Option Size
last_size k [] = none
last_size k (control request ∷ es) =
    newer_size (command_size request.command) (some_is request.session_id k) (last_size k es)
last_size k (_ ∷ es) = last_size k es

-- What is kept as the size last sent is what the core was told last.
abbrev pub ToldAt : String → CoreManager → Type 0
ToldAt k st =
    (size : Size) → get k st.sessions.sent_resize ≡ some size → last_size k st.effects ≡ some size

pub last-request :
    (k : String) (request : CoreRequest) (es : List Effect)
    → command_size request.command ≡ none
    → last_size k (control request ∷ es) ≡ last_size k es
last-request k request es h = rw h refl

-- The sizes of a session before the newest one is sent.
abbrev pub IsUnsent : String → Option TerminalTab → Option Size → Option Size → Type 0
IsUnsent k none desired sent = (desired ≡ none) × (sent ≡ none)
IsUnsent k (some tab) desired sent = (desired ≡ none → sent ≡ none) × (tab.session_id ≡ k)

-- A live session's core knows the size that the session is to have; no size is kept without a tab.
abbrev pub IsGood : String → Option TerminalTab → Option Size → Option Size → Type 0
IsGood k none desired sent = (desired ≡ none) × (sent ≡ none)
IsGood k (some tab) desired sent =
    (desired ≡ none → sent ≡ none)
    × (tab.session_id ≡ k)
    × (is_live tab.status ≡ true → sent ≡ desired)

abbrev pub GoodAt : String → CoreManager → Type 0
GoodAt k st =
    IsGood k (get k st.sessions.tabs) (get k st.sessions.desired_resize)
      (get k st.sessions.sent_resize)

abbrev pub IsUnsentAt : String → CoreManager → Type 0
IsUnsentAt k st =
    IsUnsent k (get k st.sessions.tabs) (get k st.sessions.desired_resize)
      (get k st.sessions.sent_resize)

pub record Sound (uuid : ℕ → String) (st : CoreManager) : Type 0 where
  pub good : (k : String) → GoodAt k st
  pub idle_tabs : st.is_running ≡ false → (k : String) → get k st.sessions.tabs ≡ none
  pub fresh_tabs : (n : ℕ) → st.next_uuid ≤ n → get (uuid n) st.sessions.tabs ≡ none
  pub fired : misfires st.effects ≡ 0
  pub told : (k : String) → ToldAt k st

-- A change that leaves the tabs and sizes of all sessions alone, or of those but `k`.
abbrev pub SameAt : String → CoreManager → CoreManager → Type 0
SameAt j st t =
    (get j t.sessions.tabs ≡ get j st.sessions.tabs)
    × (get j t.sessions.desired_resize ≡ get j st.sessions.desired_resize)
    × (get j t.sessions.sent_resize ≡ get j st.sessions.sent_resize)
    × (last_size j t.effects ≡ last_size j st.effects)

pub record Changes (k : String) (st t : CoreManager) : Type 0 where
  pub next_uuid_le : st.next_uuid ≤ t.next_uuid
  pub same_running : st.is_running ≡ true → t.is_running ≡ true
  pub same_misfires : misfires t.effects ≡ misfires st.effects
  pub others : (j : String) → (k == j) ≡ false → SameAt j st t

pub record Apart (st t : CoreManager) : Type 0 where
  pub next_uuid_le : st.next_uuid ≤ t.next_uuid
  pub same_running : st.is_running ≡ true → t.is_running ≡ true
  pub same_misfires : misfires t.effects ≡ misfires st.effects
  pub same : (j : String) → SameAt j st t

pub apart :
    {st t : CoreManager}
    → st.next_uuid ≤ t.next_uuid
    → (st.is_running ≡ true → t.is_running ≡ true)
    → misfires t.effects ≡ misfires st.effects
    → ((j : String) → SameAt j st t)
    → Apart st t
apart n r m s = record { next_uuid_le = n; same_running = r; same_misfires = m; same = s }

pub Apart-refl : (st : CoreManager) → Apart st st
Apart-refl st = apart (omega arith) (λ h. h) refl (λ j. (refl, refl, refl, refl))

pub Apart-trans : {st t u : CoreManager} → Apart st t → Apart t u → Apart st u
Apart-trans p q =
    apart (omega (arith, p.next_uuid_le, q.next_uuid_le)) (λ h. q.same_running (p.same_running h))
      (q.same_misfires ∙ p.same_misfires)
      (λ j.
        let (a, b, c, x) = p.same j in let (d, e, f, y) = q.same j in (d ∙ a, e ∙ b, f ∙ c, y ∙ x))

pub Apart-if :
    {st t u : CoreManager} (b : Bool) → Apart st t → Apart st u → Apart st (if b then t else u)
Apart-if true p q = p
Apart-if false p q = q

pub Apart-Changes : {st t : CoreManager} (k : String) → Apart st t → Changes k st t
Apart-Changes k a = record {
  next_uuid_le = a.next_uuid_le;
  same_running = a.same_running;
  same_misfires = a.same_misfires;
  others = λ j h. a.same j;
}

pub Changes-trans :
    {k : String} {st t u : CoreManager} → Changes k st t → Changes k t u → Changes k st u
Changes-trans p q = record {
  next_uuid_le = omega (arith, p.next_uuid_le, q.next_uuid_le);
  same_running = λ h. q.same_running (p.same_running h);
  same_misfires = q.same_misfires ∙ p.same_misfires;
  others = λ j h.
      let (a, b, c, x) = p.others j h in
      let (d, e, f, y) = q.others j h in (d ∙ a, e ∙ b, f ∙ c, y ∙ x);
}

pub Changes-if :
    {k : String} {st t u : CoreManager} (b : Bool)
    → Changes k st t
    → Changes k st u
    → Changes k st (if b then t else u)
Changes-if true p q = p
Changes-if false p q = q

pub Changes-Apart :
    {k : String} {st t u : CoreManager} → Changes k st t → Apart t u → Changes k st u
Changes-Apart {k} p q = Changes-trans p (Apart-Changes k q)

-- A process that runs takes what is written.
pub send_control-Apart :
    (request : CoreRequest) (st : CoreManager)
    → st.is_running ≡ true
    → command_size request.command ≡ none
    → Apart st (send_control request st)
unfolding send_control
send_control-Apart request st h c = rw h (
    apart (omega arith) (λ r. r) refl
      (λ j. (refl, refl, refl, last-request j request st.effects c)))

pub send_stream-Apart :
    (k : String) (payload : List ℕ) (st : CoreManager)
    → st.is_running ≡ true
    → Apart st (send_stream k payload st)
unfolding send_stream
send_stream-Apart k payload st h =
    rw h (apart (omega arith) (λ r. r) refl (λ j. (refl, refl, refl, refl)))
