-- ===== src/Core/Sound/Sizes.antt =====
-- Resizing a session of apps/desktop/src/main/core-manager.ts.
use dolssh.Prelude.{
  ap₂, ℕ, ◌≡◌, refl, ap, String, true, false, ◌&&◌, Option, none, some, if◌then◌else◌, Bool-cases,
  Option-cases, inl, inr, get, set, is_some, set-here, set-other, arith,
}
use dolssh.Prelude.Int.{ℤ, pos, negsuc}
use dolssh.Core.State.{TerminalTab, Size, CoreManager, send_control}
use dolssh.Core.Sessions.{
  change_sessions, tab_is_live, same_number, is_size, flush_size, flush_resize_if_ready,
  is_positive, resize,
}
use dolssh.Core.Sound.{
  Changes-trans, Changes-if, Apart-Changes, IsUnsentAt, IsUnsent, IsGood, GoodAt, Sound, Changes,
  Apart-refl,
}

-- A process runs for every session with a tab.
pub tab-running :
    {uuid : ℕ → String} {st : CoreManager} (k : String) (tab : TerminalTab)
    → Sound uuid st
    → get k st.sessions.tabs ≡ some tab
    → st.is_running ≡ true
tab-running {st = st} k tab s h = elim (Bool-cases st.is_running) [
  | inl e ↦ e
  | inr e ↦ let n = s.idle_tabs e k in absurd (cc (h, n))
]

pub live-running :
    {uuid : ℕ → String} {st : CoreManager} (k : String)
    → Sound uuid st
    → tab_is_live (get k st.sessions.tabs) ≡ true
    → st.is_running ≡ true
live-running {st = st} k s h = elim (Option-cases (get k st.sessions.tabs)) [
  | inl e ↦ let f = ap tab_is_live e in absurd (cc (f, h))
  | inr (tab, e) ↦ tab-running k tab s e
]

same_number_sound : (a b : ℤ) → same_number a b ≡ true → a ≡ b
same_number_sound (pos m) (pos n) h = ap pos (ground (arith, h))
same_number_sound (pos m) (negsuc n) h = absurd (cc h)
same_number_sound (negsuc m) (pos n) h = absurd (cc h)
same_number_sound (negsuc m) (negsuc n) h = ap negsuc (ground (arith, h))

abbrev pub as_size : ℤ → ℤ → Size
as_size c r = record { cols = c; rows = r }

pub is_size_sound : (o : Option Size) (size : Size) → is_size o size ≡ true → o ≡ some size
is_size_sound none size h = absurd (cc h)
is_size_sound (some s) size h =
    let (a, b) : (same_number s.cols size.cols ≡ true) × (same_number s.rows size.rows ≡ true) =
      ground (arith, h) in
    ap some
      (ap₂ as_size (same_number_sound s.cols size.cols a) (same_number_sound s.rows size.rows b))

IsUnsent-sent :
    (k : String) (o : Option TerminalTab) (desired sent : Option Size)
    → IsUnsent k o desired sent
    → desired ≡ none
    → sent ≡ none
IsUnsent-sent k none desired sent u h = u.1
IsUnsent-sent k (some tab) desired sent u h = u.0 h

IsGood-sent :
    (k : String) (o : Option TerminalTab) (desired sent : Option Size)
    → IsUnsent k o desired sent
    → IsGood k o desired desired
IsGood-sent k none desired sent u = (u.0, u.0)
IsGood-sent k (some tab) desired sent u = (λ h. h, u.1, λ l. refl)

IsGood-quiet :
    (k : String) (o : Option TerminalTab) (desired sent : Option Size)
    → IsUnsent k o desired sent
    → tab_is_live o ≡ false
    → IsGood k o desired sent
IsGood-quiet k none desired sent u h = u
IsGood-quiet k (some tab) desired sent u h = (u.0, u.1, λ l. absurd (cc (h, l)))

pub good-IsUnsent :
    (k : String) (o : Option TerminalTab) (desired sent : Option Size)
    → IsGood k o desired sent
    → IsUnsent k o desired sent
good-IsUnsent k none desired sent g = g
good-IsUnsent k (some tab) desired sent g = (g.0, g.1)

wanted-IsUnsent :
    (k : String) (o : Option TerminalTab) (desired sent newer : Option Size) (size : Size)
    → is_some o ≡ true
    → newer ≡ some size
    → IsUnsent k o desired sent
    → IsUnsent k o newer sent
wanted-IsUnsent k none desired sent newer size h e u = absurd (cc h)
wanted-IsUnsent k (some tab) desired sent newer size h e u = (λ n. absurd (cc (e, n)), u.1)

-- What `resize` flushes.
abbrev pub wanted : String → Size → CoreManager → CoreManager
wanted k size st =
    if is_size (get k st.sessions.desired_resize) size
    then st
    else change_sessions (λ s. record s { desired_resize = set k size s.desired_resize }) st

module _ (uuid : ℕ → String) where
  flush_size-Changes :
      (o : Option Size) (k : String) (st : CoreManager)
      → st.is_running ≡ true
      → Changes k st (flush_size uuid o k st)
  unfolding send_control
  flush_size-Changes none k st r = Apart-Changes k (Apart-refl st)
  flush_size-Changes (some size) k st r =
      elim (Bool-cases (is_size (get k st.sessions.sent_resize) size)) [
        | inl e ↦ rw e (Apart-Changes k (Apart-refl st))
        | inr e ↦
            rw (e, r)
              record {
                next_uuid_le = omega arith;
                same_running = λ h. h;
                same_misfires = refl;
                others =
                    λ j h. (refl, refl, set-other j k size st.sessions.sent_resize h, rw h refl);
              }
      ]

  pub flush_resize_if_ready-Changes :
      (k : String) (st : CoreManager)
      → (tab_is_live (get k st.sessions.tabs) ≡ true → st.is_running ≡ true)
      → Changes k st (flush_resize_if_ready uuid k st)
  unfolding flush_resize_if_ready
  flush_resize_if_ready-Changes k st r = elim (Bool-cases (tab_is_live (get k st.sessions.tabs))) [
    | inl e ↦ rw e (flush_size-Changes (get k st.sessions.desired_resize) k st (r e))
    | inr e ↦ rw e (Apart-Changes k (Apart-refl st))
  ]

  -- What flushing leaves of the session itself.
  pub flush_size-tab :
      (o : Option Size) (k : String) (st : CoreManager)
      → ((flush_size uuid o k st).sessions.tabs ≡ st.sessions.tabs)
        × ((flush_size uuid o k st).sessions.desired_resize ≡ st.sessions.desired_resize)
  unfolding send_control
  flush_size-tab none k st = (refl, refl)
  flush_size-tab (some size) k st = ground arith

  flush_size-sent :
      (o : Option Size) (k : String) (st : CoreManager)
      → get k st.sessions.desired_resize ≡ o
      → (o ≡ none → get k st.sessions.sent_resize ≡ none)
      → get k (flush_size uuid o k st).sessions.sent_resize ≡ o
  unfolding send_control
  flush_size-sent none k st d n = n refl
  flush_size-sent (some size) k st d n =
      elim (Bool-cases (is_size (get k st.sessions.sent_resize) size)) [
        | inl e ↦ rw e (is_size_sound (get k st.sessions.sent_resize) size e)
        | inr e ↦ elim (Bool-cases st.is_running) [
          | inl r ↦ rw (e, r) (set-here k size st.sessions.sent_resize)
          | inr r ↦ rw (e, r) (set-here k size st.sessions.sent_resize)
        ]
      ]

  pub flush-good :
      (k : String) (st : CoreManager) → IsUnsentAt k st → GoodAt k (flush_resize_if_ready uuid k st)
  unfolding flush_resize_if_ready
  flush-good k st u =
      let desired = get k st.sessions.desired_resize in
      elim (Bool-cases (tab_is_live (get k st.sessions.tabs))) [
        | inl e ↦
            let (a, b) = flush_size-tab desired k st in
            let c =
              flush_size-sent desired k st refl
                (IsUnsent-sent k (get k st.sessions.tabs) desired _ u) in
            rw e (rw (a, b, c) (IsGood-sent k (get k st.sessions.tabs) desired _ u))
        | inr e ↦ rw e (IsGood-quiet k (get k st.sessions.tabs) desired _ u e)
      ]

  pub wanted-running :
      (k : String) (size : Size) (st : CoreManager)
      → Sound uuid st
      → tab_is_live (get k (wanted k size st).sessions.tabs) ≡ true
      → (wanted k size st).is_running ≡ true
  wanted-running k size st s = elim (Bool-cases (is_size (get k st.sessions.desired_resize) size)) [
    | inl e ↦ rw e (live-running k s)
    | inr e ↦ rw e (live-running k s)
  ]

  pub resize-Changes :
      (k : String) (size : Size) (st : CoreManager)
      → Sound uuid st
      → Changes k st (resize uuid k size st)
  unfolding resize
  resize-Changes k size st s =
      Changes-if
        (is_some (get k st.sessions.tabs) && (is_positive size.cols && is_positive size.rows))
        (Changes-trans
          (Changes-if (is_size (get k st.sessions.desired_resize) size)
            (Apart-Changes k (Apart-refl st))
            record {
              next_uuid_le = omega arith;
              same_running = λ h. h;
              same_misfires = refl;
              others = λ j h. (refl, set-other j k size st.sessions.desired_resize h, refl, refl);
            })
          (flush_resize_if_ready-Changes k _ (wanted-running k size st s)))
        (Apart-Changes k (Apart-refl st))

  pub resize-good :
      (k : String) (size : Size) (st : CoreManager)
      → Sound uuid st
      → GoodAt k (resize uuid k size st)
  unfolding resize
  resize-good k size st s =
      let tabs = get k st.sessions.tabs in
      let desired = get k st.sessions.desired_resize in
      let sent = get k st.sessions.sent_resize in
      let u = good-IsUnsent k tabs desired sent (s.good k) in
      elim (Bool-cases (is_some tabs && (is_positive size.cols && is_positive size.rows))) [
        | inl e ↦ elim (Bool-cases (is_size desired size)) [
          | inl f ↦ rw (e, f) (flush-good k st u)
          | inr f ↦
              let here = set-here k size st.sessions.desired_resize in
              let is_open : is_some tabs ≡ true = ground (arith, e) in
              rw (e, f) (flush-good k _ (wanted-IsUnsent k tabs desired sent _ size is_open here u))
        ]
        | inr e ↦ rw e (s.good k)
      ]
