-- ===== src/Core/Sound/Told.antt =====
-- Which size the core process is told, in apps/desktop/src/main/core-manager.ts.
use dolssh.Prelude.{
  suc, ℕ, ◌≡◌, refl, ap, sym, ◌∙◌, ==_iff, String, true, ◌&&◌, Option, none, some, Bool-cases, inl,
  inr, get, is_some, set-here,
}
use dolssh.Prelude.Int.{pos}
use dolssh.Core.State.{Size, CoreManager, send_control}
use dolssh.Core.Sessions.{
  tab_is_live, is_size, flush_size, flush_resize_if_ready, is_positive, resize,
}
use dolssh.Core.Sound.{ToldAt, Sound}
use dolssh.Core.Sound.Sizes.{as_size, is_size_sound, wanted, wanted-running, flush_size-tab}

wanted-size :
    (k : String) (size : Size) (st : CoreManager)
    → ((wanted k size st).sessions.tabs ≡ st.sessions.tabs)
      × (get k (wanted k size st).sessions.desired_resize ≡ some size)
wanted-size k size st = elim (Bool-cases (is_size (get k st.sessions.desired_resize) size)) [
  | inl e ↦ rw e (refl, is_size_sound (get k st.sessions.desired_resize) size e)
  | inr e ↦ rw e (refl, set-here k size st.sessions.desired_resize)
]

module _ (uuid : ℕ → String) where
  -- A size that is sent is what the core was told last.
  flush_size-ToldAt :
      (o : Option Size) (k : String) (st : CoreManager)
      → st.is_running ≡ true
      → ToldAt k st
      → ToldAt k (flush_size uuid o k st)
  unfolding send_control
  flush_size-ToldAt none k st r t = t
  flush_size-ToldAt (some size) k st r t =
      elim (Bool-cases (is_size (get k st.sessions.sent_resize) size)) [
        | inl e ↦ rw e t
        | inr e ↦
            let here = set-here k size st.sessions.sent_resize in
            let same = (==_iff k k).1 refl in rw (e, r) (λ s h. rw same (sym here ∙ h))
      ]

  pub flush-ToldAt :
      (k : String) (st : CoreManager)
      → (tab_is_live (get k st.sessions.tabs) ≡ true → st.is_running ≡ true)
      → ToldAt k st
      → ToldAt k (flush_resize_if_ready uuid k st)
  unfolding flush_resize_if_ready
  flush-ToldAt k st r t = elim (Bool-cases (tab_is_live (get k st.sessions.tabs))) [
    | inl e ↦ rw e (flush_size-ToldAt (get k st.sessions.desired_resize) k st (r e) t)
    | inr e ↦ rw e t
  ]

  pub resize-ToldAt :
      (k : String) (size : Size) (st : CoreManager)
      → Sound uuid st
      → ToldAt k (resize uuid k size st)
  unfolding resize
  resize-ToldAt k size st s =
      let tabs = get k st.sessions.tabs in
      elim (Bool-cases (is_some tabs && (is_positive size.cols && is_positive size.rows))) [
        | inl e ↦
            let w : ToldAt k (wanted k size st) =
              elim (Bool-cases (is_size (get k st.sessions.desired_resize) size)) [
                | inl f ↦ rw f (s.told k)
                | inr f ↦ rw f (s.told k)
              ] in
            rw e (flush-ToldAt k (wanted k size st) (wanted-running uuid k size st s) w)
        | inr e ↦ rw e (s.told k)
      ]

  flush-kept :
      (k : String) (st : CoreManager)
      → ((flush_resize_if_ready uuid k st).sessions.tabs ≡ st.sessions.tabs)
        × ((flush_resize_if_ready uuid k st).sessions.desired_resize ≡ st.sessions.desired_resize)
  unfolding flush_resize_if_ready
  flush-kept k st = elim (Bool-cases (tab_is_live (get k st.sessions.tabs))) [
    | inl e ↦ rw e (flush_size-tab uuid (get k st.sessions.desired_resize) k st)
    | inr e ↦ rw e (refl, refl)
  ]

  -- Once a tab is resized, its size is the one that is wanted.
  pub resize-wanted :
      (k : String) (m n : ℕ) (st : CoreManager)
      → is_some (get k st.sessions.tabs) ≡ true
      → ((resize uuid k (as_size (pos (suc m)) (pos (suc n))) st).sessions.tabs ≡ st.sessions.tabs)
        × (get k (resize uuid k (as_size (pos (suc m)) (pos (suc n))) st).sessions.desired_resize
            ≡ some (as_size (pos (suc m)) (pos (suc n))))
  unfolding resize
  resize-wanted k m n st h =
      let size = as_size (pos (suc m)) (pos (suc n)) in
      let (a, b) = flush-kept k (wanted k size st) in
      let (c, d) = wanted-size k size st in rw h (a ∙ c, ap (get k) b ∙ d)
