-- ===== src/Core/Sound/Tabs.antt =====
-- Opening and closing sessions of apps/desktop/src/main/core-manager.ts.
use dolssh.Prelude.{
  ℕ, suc, ◌≤◌, ◌≡◌, ◌⊎◌, refl, sym, ap, ◌∙◌, String, true, false, not, ◌||◌, Option, none, some,
  ◌==◌, ==_iff, Bool-cases, Option-cases, inl, inr, get, set-here, set-other, delete-here,
  delete-other, arith,
}
use dolssh.Core.State.{Command, TerminalTab, Size, CoreManager, is_live, send_control}
use dolssh.Core.Sessions.{
  start_process, request_for, change_sessions, RemoteInput, open_remote, connect_local_session,
  new_tab, disconnect_tab, disconnect, forget_sizes,
}
use dolssh.Core.Settling.{IsInjective}
use dolssh.Core.Sound.{
  Apart-trans, IsGood, GoodAt, ToldAt, command_size, last-request, Sound, Changes, Apart, apart,
  send_control-Apart,
}
use dolssh.Core.Sound.Sizes.{tab-running}

module _ {uuid : ℕ → String} where
  pub Sound-Apart : {st t : CoreManager} → Sound uuid st → Apart st t → Sound uuid t
  Sound-Apart {st = st} s a = record {
    good = λ k. let (x, y, z, w) = a.same k in rw (x, y, z) (s.good k);
    idle_tabs = λ h k.
        let (x, y, z, w) = a.same k in
        elim (Bool-cases st.is_running) [
          | inl e ↦ let r = a.same_running e in absurd (cc (h, r))
          | inr e ↦ x ∙ s.idle_tabs e k
        ];
    fresh_tabs = λ n h.
        let (x, y, z, w) = a.same (uuid n) in
        x ∙ s.fresh_tabs n (let b = a.next_uuid_le in omega (arith, b, h));
    fired = a.same_misfires ∙ s.fired;
    told = λ k size h. let (x, y, z, w) = a.same k in w ∙ s.told k size (sym z ∙ h);
  }

  -- A change of one session, which is in order afterwards, has a tab only while a process runs, and
  -- whose id is no more to come.
  pub Sound-Changes :
      {st t : CoreManager} (k : String)
      → Sound uuid st
      → Changes k st t
      → GoodAt k t
      → ToldAt k t
      → (t.is_running ≡ true) ⊎ (get k t.sessions.tabs ≡ none)
      → ((n : ℕ) → t.next_uuid ≤ n → k ≡ uuid n → get k t.sessions.tabs ≡ none)
      → Sound uuid t
  Sound-Changes {st = st} {t = t} k s c g d r f = record {
    good = λ j. elim (Bool-cases (k == j)) [
      | inl e ↦ let same = (==_iff k j).0 e in rw (sym same) g
      | inr e ↦ let (x, y, z, w) = c.others j e in rw (x, y, z) (s.good j)
    ];
    idle_tabs = λ h j. elim (Bool-cases (k == j)) [
      | inl e ↦
          let same = (==_iff k j).0 e in
          rw (sym same) (elim r [ inl q ↦ absurd (cc (q, h)) | inr q ↦ q ])
      | inr e ↦
          let (x, y, z, w) = c.others j e in
          elim (Bool-cases st.is_running) [
            | inl p ↦ let q = c.same_running p in absurd (cc (q, h))
            | inr p ↦ x ∙ s.idle_tabs p j
          ]
    ];
    fresh_tabs = λ n h. elim (Bool-cases (k == uuid n)) [
      | inl e ↦ let same = (==_iff k (uuid n)).0 e in rw (sym same) (f n h same)
      | inr e ↦
          let (x, y, z, w) = c.others (uuid n) e in
          x ∙ s.fresh_tabs n (let b = c.next_uuid_le in omega (arith, b, h))
    ];
    fired = c.same_misfires ∙ s.fired;
    told = λ j size h. elim (Bool-cases (k == j)) [
      | inl e ↦
          let same = (==_iff k j).0 e in
          let h' : get k t.sessions.sent_resize ≡ some size = rw same h in rw (sym same) (d size h')
      | inr e ↦ let (x, y, z, w) = c.others j e in w ∙ s.told j size (sym z ∙ h)
    ];
  }

  -- The session had a tab, or has none.
  pub Sound-changed :
      {st t : CoreManager} (k : String)
      → Sound uuid st
      → Changes k st t
      → GoodAt k t
      → ToldAt k t
      → ((tab : TerminalTab) × (get k st.sessions.tabs ≡ some tab)) ⊎ (get k t.sessions.tabs ≡ none)
      → Sound uuid t
  Sound-changed {st = st} k s c g d (inr h) = Sound-Changes k s c g d (inr h) (λ n l e. h)
  Sound-changed {st = st} k s c g d (inl (tab, h)) =
      Sound-Changes k s c g d (inl (c.same_running (tab-running k tab s h))) (λ n l e.
        let b = c.next_uuid_le in
        let z = s.fresh_tabs n (omega (arith, b, l)) in
        let z' : get k st.sessions.tabs ≡ none = rw e z in absurd (cc (h, z')))

pub absent-ToldAt :
    (k : String) (st : CoreManager) → get k st.sessions.sent_resize ≡ none → ToldAt k st
absent-ToldAt k st h size e = absurd (cc (h, e))

pub IsGood-absent :
    (k : String) (o : Option TerminalTab) (desired sent : Option Size)
    → o ≡ none
    → IsGood k o desired sent
    → (desired ≡ none) × (sent ≡ none)
IsGood-absent k none desired sent h g = g
IsGood-absent k (some tab) desired sent h g = absurd (cc h)

forgotten-IsGood :
    (k : String) (o : Option TerminalTab) (desired sent desired' sent' : Option Size)
    → desired' ≡ none
    → sent' ≡ none
    → IsGood k o desired sent
    → IsGood k o desired' sent'
forgotten-IsGood k none desired sent desired' sent' d s g = (d, s)
forgotten-IsGood k (some tab) desired sent desired' sent' d s g = (λ h. s, g.1, λ h. s ∙ sym d)

forget_sizes-Changes :
    (k : String) (st : CoreManager) → Changes k st (change_sessions (forget_sizes k) st)
forget_sizes-Changes k st = record {
  next_uuid_le = omega arith;
  same_running = λ h. h;
  same_misfires = refl;
  others = λ j h. (
    refl,
    delete-other j k st.sessions.desired_resize h,
    delete-other j k st.sessions.sent_resize h,
    refl,
  );
}

module _ {uuid : ℕ → String} where
  -- A session with a new id, which neither had a tab nor sizes.
  open-Sound :
      IsInjective uuid
      → (st t : CoreManager) (tab : TerminalTab) → Sound uuid st
      → Changes (uuid st.next_uuid) st t
      → t.is_running ≡ true
      → suc st.next_uuid ≤ t.next_uuid
      → get (uuid st.next_uuid) t.sessions.tabs ≡ some tab
      → tab.session_id ≡ uuid st.next_uuid
      → is_live tab.status ≡ false
      → t.sessions.desired_resize ≡ st.sessions.desired_resize
      → t.sessions.sent_resize ≡ st.sessions.sent_resize
      → Sound uuid t
  open-Sound i st t tab s c r l h id d p q =
      let k = uuid st.next_uuid in
      let z = s.fresh_tabs st.next_uuid (omega arith) in
      let old = IsGood-absent k (get k st.sessions.tabs) _ _ z (s.good k) in
      Sound-Changes k s c (rw (h, p, q) (λ x. old.1, id, λ y. absurd (cc (d, y))))
        (absent-ToldAt k t (ap (get k) q ∙ old.1)) (inl r)
        (λ n m e. let same = i st.next_uuid n e in absurd (omega (arith, same, l, m)))

  pub open_remote-Sound :
      IsInjective uuid
      → (input : RemoteInput) (command : Command) (now : ℕ) (st : CoreManager) → Sound uuid st
      → command_size command ≡ none
      → Sound uuid (open_remote uuid input command now st)
  unfolding open_remote start_process send_control
  open_remote-Sound i input command now st s none_told =
      open-Sound i st _ (new_tab (uuid st.next_uuid) input.title (some input.host_id) now) s
        record {
          next_uuid_le = omega arith;
          same_running = λ h. refl;
          same_misfires = refl;
          others = λ j h. (
            set-other j _ _ st.sessions.tabs h,
            refl,
            refl,
            last-request j (request_for uuid (suc st.next_uuid) (uuid st.next_uuid) command)
                st.effects none_told,
          );
        }
        refl (omega arith) (set-here _ _ st.sessions.tabs) refl refl refl refl

  pub connect_local_session-Sound :
      IsInjective uuid
      → (title payload : String) (now : ℕ) (st : CoreManager) → Sound uuid st
      → Sound uuid (connect_local_session uuid title payload now st)
  unfolding connect_local_session start_process send_control
  connect_local_session-Sound i title payload now st s =
      open-Sound i st _ (new_tab (uuid st.next_uuid) title none now) s
        record {
          next_uuid_le = omega arith;
          same_running = λ h. refl;
          same_misfires = refl;
          others = λ j h. (set-other j _ _ st.sessions.tabs h, refl, refl, refl);
        }
        refl (omega arith) (set-here _ _ st.sessions.tabs) refl refl refl refl

  forgotten :
      (k : String) (st : CoreManager)
      → Sound uuid st
      → Sound uuid (change_sessions (forget_sizes k) st)
  forgotten k st s =
      let d = delete-here k st.sessions.desired_resize in
      let q = delete-here k st.sessions.sent_resize in
      let c = forget_sizes-Changes k st in
      let g = forgotten-IsGood k (get k st.sessions.tabs) _ _ _ _ d q (s.good k) in
      elim (Option-cases (get k st.sessions.tabs)) [
        | inl e ↦
            Sound-changed k s c g (absent-ToldAt k (change_sessions (forget_sizes k) st) q) (inr e)
        | inr e ↦
            Sound-changed k s c g (absent-ToldAt k (change_sessions (forget_sizes k) st) q) (inl e)
      ]

  pub closed-Sound :
      (k : String) (st t : CoreManager)
      → Sound uuid st
      → Changes k st t
      → get k t.sessions.tabs ≡ none
      → get k t.sessions.desired_resize ≡ none
      → get k t.sessions.sent_resize ≡ none
      → Sound uuid t
  closed-Sound k st t s c h d q = Sound-changed k s c (rw h (d, q)) (absent-ToldAt k t q) (inr h)

  disconnect_tab-Sound :
      (o : Option TerminalTab) (k : String) (st : CoreManager)
      → Sound uuid st
      → get k st.sessions.tabs ≡ o
      → get k st.sessions.desired_resize ≡ none
      → get k st.sessions.sent_resize ≡ none
      → Sound uuid (disconnect_tab uuid o k st)
  disconnect_tab-Sound none k st s h d q = s
  disconnect_tab-Sound (some tab) k st s h d q =
      elim (Bool-cases (not st.is_running || not (is_live tab.status))) [
        | inl e ↦ rw e (
            closed-Sound k st _ s
              record {
                next_uuid_le = omega arith;
                same_running = λ r. r;
                same_misfires = refl;
                others = λ j n. (delete-other j k st.sessions.tabs n, refl, refl, refl);
              }
              (delete-here k st.sessions.tabs) d q)
        | inr e ↦ rw e (
            Sound-Apart s (
              Apart-trans (apart (omega arith) (λ r. r) refl (λ j. (refl, refl, refl, refl)))
                (send_control-Apart _ _ (ground (arith, e)) refl)))
      ]

  pub disconnect-Sound :
      (k : String) (st : CoreManager) → Sound uuid st → Sound uuid (disconnect uuid k st)
  unfolding disconnect
  disconnect-Sound k st s =
      disconnect_tab-Sound (get k st.sessions.tabs) k (change_sessions (forget_sizes k) st)
        (forgotten k st s) refl (delete-here k st.sessions.desired_resize)
        (delete-here k st.sessions.sent_resize)
