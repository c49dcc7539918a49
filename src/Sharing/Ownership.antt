-- ===== src/Sharing/Ownership.antt =====
-- Which object the map has for a session, and the invariant of the service.
use dolssh.Prelude.{
  delete, get, get-delete, ℕ, zero, suc, ◌≡◌, refl, sym, ap, ◌∙◌, String, Bool, true, false, Option,
  none, some, List, [], ◌∷◌, ◌==◌, ◌=ℕ=◌, if◌then◌else◌, get_elem?, arith, inl, inr, Bool-cases,
  Option-cases,
}
use mathlib.Core.Option
use dolssh.Workspace.Store.State.{SessionShareState}
use dolssh.Sharing.Share.{ActiveSessionShare}
use dolssh.Sharing.Service.{
  Service, Output, state_event, update_at, change, emit, is_active, clear_chat, broadcast_state,
  set_state,
}
use dolssh.Sharing.Chat.{Fits, ChatFits, Keeps, same-Fits}

-- The object of a session's share is the session's, and its owner has not closed it.
pub record Owned (sv : Service) (session_id : String) (r : ℕ) : Type 0 where
  pub share : ActiveSessionShare
  pub found : get_elem? sv.objects r ≡ some share
  pub same_session : share.session_id ≡ session_id
  pub not_closed : share.closed_by_owner ≡ false

pub record WellKept (sv : Service) : Type 0 where
  pub fits : (r : ℕ) (share : ActiveSessionShare) → get_elem? sv.objects r ≡ some share → Fits share
  pub owned :
      (session_id : String) (r : ℕ) → get session_id sv.shares ≡ some r → Owned sv session_id r

get_elem?-update_at {ℓ} :
    {A : Type ℓ} (r q : ℕ) (f : A → A) (xs : List A)
    → get_elem? (update_at r f xs) q
      ≡ (if r =ℕ= q then Option.map f (get_elem? xs q) else get_elem? xs q)
get_elem?-update_at r q f [] = ground arith
get_elem?-update_at zero zero f (x ∷ xs) = ground arith
get_elem?-update_at zero (suc q) f (x ∷ xs) = ground arith
get_elem?-update_at (suc r) zero f (x ∷ xs) = ground arith
get_elem?-update_at (suc r) (suc q) f (x ∷ xs) = ground (arith, get_elem?-update_at r q f xs)

-- A change at one object, as every object sees it.
changed :
    (sv : Service) (r q : ℕ) (f : ActiveSessionShare → ActiveSessionShare)
    (share : ActiveSessionShare)
    → get_elem? (change r f sv).objects q ≡ some share
    → (old : ActiveSessionShare) × (get_elem? sv.objects q ≡ some old)
      × (share ≡ (if r =ℕ= q then f old else old))
changed sv r q f share h =
    let e = get_elem?-update_at r q f sv.objects in
    elim (Option-cases (get_elem? sv.objects q)) [
      | inl g ↦ ground arith
      | inr (old, g) ↦ (old, g, ground arith)
    ]

pub change-found :
    (sv : Service) (r q : ℕ) (f : ActiveSessionShare → ActiveSessionShare)
    (old : ActiveSessionShare)
    → get_elem? sv.objects q ≡ some old
    → get_elem? (change r f sv).objects q ≡ some (if r =ℕ= q then f old else old)
change-found sv r q f old g = let e = get_elem?-update_at r q f sv.objects in ground arith

Keeps-if :
    (b : Bool) (f : ActiveSessionShare → ActiveSessionShare)
    → Keeps f
    → Keeps (λ s. if b then f s else s)
Keeps-if true f k = k
Keeps-if false f k = λ share. ((λ v. v), refl, refl)

pub change-WellKept :
    (sv : Service) (r : ℕ) (f : ActiveSessionShare → ActiveSessionShare)
    → Keeps f
    → WellKept sv
    → WellKept (change r f sv)
change-WellKept sv r f k v = record {
  fits = λ q share h.
      let (old, g, e) = changed sv r q f share h in
      rw e ((Keeps-if (r =ℕ= q) f k old).0 (v.fits q old g));
  owned = λ session_id q h.
      let o = v.owned session_id q h in
      let (fits, same_id, same_mark) = Keeps-if (r =ℕ= q) f k o.share in
      record {
        share = if r =ℕ= q then f o.share else o.share;
        found = change-found sv r q f o.share o.found;
        same_session = same_id ∙ o.same_session;
        not_closed = same_mark ∙ o.not_closed;
      };
}

-- What does not touch the objects and the map.
pub untouched-WellKept :
    (sv : Service) (windows : List String) (outputs : List Output)
    → WellKept sv
    → WellKept record sv { owner_chat_windows = windows; outputs = outputs }
untouched-WellKept sv windows outputs v = record {
  fits = v.fits;
  owned = λ session_id r h.
      let o = v.owned session_id r h in
      record {
        share = o.share;
        found = o.found;
        same_session = o.same_session;
        not_closed = o.not_closed;
      };
}

pub empty_chat : ChatFits []
empty_chat = record { few = omega arith; once = λ id. omega arith }

clear_chat-WellKept : (o : Option ℕ) (sv : Service) → WellKept sv → WellKept (clear_chat o sv)
clear_chat-WellKept none sv v = v
clear_chat-WellKept (some r) sv v =
    change-WellKept sv r _
      (λ share. ((λ w. record { pending = w.pending; chat = empty_chat }), refl, refl)) v

pub broadcast-WellKept :
    (session_id : String) (state : SessionShareState) (sv : Service)
    → WellKept sv
    → WellKept (broadcast_state session_id state sv)
unfolding broadcast_state
broadcast-WellKept session_id state sv v = elim (Bool-cases (is_active state.status)) [
  | inl e ↦ rw e (untouched-WellKept sv sv.owner_chat_windows _ v)
  | inr e ↦ rw e (
      let told = emit (state_event session_id state) sv in
      let cleared = clear_chat (get session_id sv.shares) told in
      untouched-WellKept cleared _ cleared.outputs (
        clear_chat-WellKept (get session_id sv.shares) told
          (untouched-WellKept sv sv.owner_chat_windows _ v)))
]

clear_chat-shares : (o : Option ℕ) (sv : Service) → (clear_chat o sv).shares ≡ sv.shares
clear_chat-shares none sv = refl
clear_chat-shares (some r) sv = refl

pub broadcast-shares :
    (session_id : String) (state : SessionShareState) (sv : Service)
    → (broadcast_state session_id state sv).shares ≡ sv.shares
unfolding broadcast_state
broadcast-shares session_id state sv = elim (Bool-cases (is_active state.status)) [
  | inl e ↦ rw e refl
  | inr e ↦
      rw e (clear_chat-shares (get session_id sv.shares) (emit (state_event session_id state) sv))
]

pub set_state-WellKept :
    (r : ℕ) (session_id : String) (state : SessionShareState) (sv : Service)
    → WellKept sv
    → WellKept (set_state r session_id state sv)
set_state-WellKept r session_id state sv v =
    broadcast-WellKept session_id state _
      (change-WellKept sv r _ (λ share. (same-Fits refl refl, refl, refl)) v)

-- Two sessions have two objects.
two-objects :
    (sv : Service) (s j : String) (r q : ℕ)
    → Owned sv s r
    → Owned sv j q
    → (s == j) ≡ false
    → (r =ℕ= q) ≡ false
two-objects sv s j r q held o other = elim (Bool-cases (r =ℕ= q)) [
  | inl here ↦
      let here : r ≡ q = ground arith in
      let found = held.found in
      let same_session = held.same_session in
      let found' = o.found in
      let same_session' = o.same_session in
      let same_share : held.share ≡ o.share = cc in
      let same : s ≡ j =
        sym held.same_session ∙ ap (λ x. x.session_id) same_share ∙ o.same_session in
      ground arith
  | inr there ↦ there
]

-- A share that leaves the map may be closed.
pub retire-WellKept :
    (sv : Service) (session_id : String) (r : ℕ) (f : ActiveSessionShare → ActiveSessionShare)
    → ((share : ActiveSessionShare) → Fits share → Fits (f share))
    → get session_id sv.shares ≡ some r
    → WellKept sv
    → WellKept (change r f record sv { shares = delete session_id sv.shares })
retire-WellKept sv session_id r f k current v =
    let held = v.owned session_id r current in
    record {
      fits = λ q share h.
          let (old, g, e) = changed sv r q f share h in
          elim (Bool-cases (r =ℕ= q)) [
            | inl here ↦ rw (e, here) (k old (v.fits q old g))
            | inr there ↦ rw (e, there) (v.fits q old g)
          ];
      owned = λ j q h.
          let g = get-delete j session_id sv.shares in
          elim (Bool-cases (session_id == j)) [
            | inl same ↦ ground arith
            | inr other ↦
                let o = v.owned j q (ground arith) in
                let apart = two-objects sv session_id j r q held o other in
                record {
                  share = o.share;
                  found = change-found sv r q f o.share o.found ∙ rw apart refl;
                  same_session = o.same_session;
                  not_closed = o.not_closed;
                }
          ];
    }
