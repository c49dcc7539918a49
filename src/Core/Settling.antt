-- ===== src/Core/Settling.antt =====
-- How often a request of apps/desktop/src/main/core-manager.ts is settled: the requests that wait and
-- those that are settled, counted together.
use dolssh.Prelude.{
  ℕ, suc, ◌+◌, ◌≤◌, ◌≡◌, refl, sym, ap, ◌∙◌, String, true, false, Option, none, some, List, [], ◌∷◌,
  ◌==◌, ==_iff, if◌then◌else◌, Bool-cases, inl, inr, Map, get, set, delete, keys, is_some, count,
  arith,
}
use dolssh.Core.State.{
  CoreEventType, CoreEvent, Effect, CoreRequest, CoreManager, new_manager, given, send_control,
}
use dolssh.Core.Sessions.{start_process}
use dolssh.Core.Requests.{
  is_failure, expects, request_response, settle, time_out, resolve_at, resolve_for,
  resolve_pending_response,
}
use dolssh.Core.Quiet.{settled, Quiet}

count-keys-set {ℓ} :
    {V : Type ℓ} (j k : String) (v : V) (m : Map V)
    → count k (keys m) ≡ 0
    → count j (keys (set k v m)) ≡ (if k == j then 1 else 0) + count j (keys m)
unfolding set keys
count-keys-set j k v [] h = refl
count-keys-set j k v ((i, w) ∷ m) h = ground (arith, count-keys-set j k v m)

pub count-keys-delete {ℓ} :
    {V : Type ℓ} (j k : String) (m : Map V)
    → count j (keys (delete k m)) ≡ (if k == j then 0 else count j (keys m))
unfolding delete keys
count-keys-delete j k [] = ground arith
count-keys-delete j k ((i, w) ∷ m) =
    ground (arith, count-keys-delete j k m, ==_iff i k, ==_iff i j, ==_iff k j)

pub get-count {ℓ} :
    {V : Type ℓ} (k : String) (m : Map V) → is_some (get k m) ≡ true → 1 ≤ count k (keys m)
unfolding get keys
get-count k [] h = ground arith
get-count k ((i, w) ∷ m) h = ground (arith, get-count k m)

-- The times a request has been settled, and whether it waits.
abbrev pub total : String → CoreManager → ℕ
total k st = settled k st.effects + count k (keys st.pending_responses)

abbrev pub IsInjective : (ℕ → String) → Type 0
IsInjective uuid = (m n : ℕ) → uuid m ≡ uuid n → m ≡ n

-- No request waits or is settled twice, ids that are still to come have not been used, and nothing
-- waits where there is no process.
pub record Accounts (uuid : ℕ → String) (st : CoreManager) : Type 0 where
  pub at_most_once : (k : String) → total k st ≤ 1
  pub unused : (n : ℕ) → st.next_uuid ≤ n → total (uuid n) st ≡ 0
  pub idle : st.is_running ≡ false → st.pending_responses ≡ []

-- A change that keeps the accounts, and loses no request.
pub record Moves (uuid : ℕ → String) (st t : CoreManager) : Type 0 where
  pub accounts : Accounts uuid t
  pub kept : (k : String) → total k st ≤ total k t

pub new_manager-Accounts : (uuid : ℕ → String) → Accounts uuid new_manager
unfolding keys
new_manager-Accounts uuid = record {
  at_most_once = λ k. omega arith;
  unused = λ n h. refl;
  idle = λ h. refl;
}

pub Quiet-total : {st t : CoreManager} (k : String) → Quiet st t → total k t ≡ total k st
Quiet-total k q = rw (q.same_pending, q.same_settled k) refl

Quiet-idle :
    {st t : CoreManager}
    → Quiet st t
    → (st.is_running ≡ false → st.pending_responses ≡ [])
    → t.is_running ≡ false
    → t.pending_responses ≡ []
Quiet-idle {st} q idle h = elim (Bool-cases st.is_running) [
  | inl e ↦ let r = q.same_running e in absurd (cc (h, r))
  | inr e ↦ q.same_pending ∙ idle e
]

-- What settles a request that waits.
abbrev Settles : String → Effect → Type 0
Settles id e =
    (k : String) (es : List Effect) → settled k (e ∷ es) ≡ (if id == k then 1 else 0) + settled k es

settle-total :
    (id : String) (e : Effect) (st : CoreManager)
    → Settles id e
    → count id (keys st.pending_responses) ≡ 1
    → settled id st.effects ≡ 0
    → (k : String) → total k (settle id e st) ≡ total k st
settle-total id e st s c z k =
    let t = s k st.effects in
    let d = count-keys-delete k id st.pending_responses in
    elim (Bool-cases (id == k)) [
      | inl h ↦ let same : id ≡ k = (==_iff id k).0 h in ground (arith, t, d, c, z, same, h)
      | inr h ↦ ground (arith, t, d, h)
    ]

module _ {uuid : ℕ → String} where
  pub Moves-refl : (st : CoreManager) → Accounts uuid st → Moves uuid st st
  Moves-refl st a = record { accounts = a; kept = λ k. omega arith }

  pub Moves-trans : {st t u : CoreManager} → Moves uuid st t → Moves uuid t u → Moves uuid st u
  Moves-trans p q = record {
    accounts = q.accounts;
    kept = λ k. let a = p.kept k in let b = q.kept k in omega (arith, a, b);
  }

  pub Quiet-Moves : {st t : CoreManager} → Accounts uuid st → Quiet st t → Moves uuid st t
  Quiet-Moves {st} {t} a q = record {
    accounts = record {
      at_most_once = λ k. rw (Quiet-total {st = st} {t = t} k q) (a.at_most_once k);
      unused = λ n h.
          rw (Quiet-total {st = st} {t = t} (uuid n) q)
            (a.unused n (let b = q.next_uuid_le in omega (arith, h, b)));
      idle = Quiet-idle {st = st} {t = t} q a.idle;
    };
    kept = λ k. let e = Quiet-total {st = st} {t = t} k q in omega (arith, e);
  }

  pub settle-Moves :
      (id : String) (e : Effect) (st : CoreManager)
      → Accounts uuid st
      → Settles id e
      → is_some (get id st.pending_responses) ≡ true
      → Moves uuid st (settle id e st)
  unfolding get delete
  settle-Moves id e st a s h =
      let c = get-count id st.pending_responses h in
      let b = a.at_most_once id in
      let same = settle-total id e st s (omega (arith, b, c)) (omega (arith, b, c)) in
      record {
        accounts = record {
          at_most_once = λ k. rw (same k) (a.at_most_once k);
          unused = λ n l. rw (same (uuid n)) (a.unused n l);
          idle = λ r. ap (delete id) (a.idle r);
        };
        kept = λ k. let w = same k in omega (arith, w);
      }

  pub time_out-Moves :
      (request : CoreRequest) (st : CoreManager)
      → Accounts uuid st
      → Moves uuid st (time_out request st)
  unfolding time_out
  time_out-Moves request st a = elim (Bool-cases (is_some (get request.id st.pending_responses))) [
    | inl h ↦ rw h (settle-Moves request.id _ st a (λ k es. refl) h)
    | inr h ↦ rw h (Moves-refl st a)
  ]

  resolve_at-Moves :
      (o : Option (List CoreEventType)) (id : String) (event : CoreEvent) (st : CoreManager)
      → Accounts uuid st
      → get id st.pending_responses ≡ o
      → Moves uuid st (resolve_at o id event st)
  resolve_at-Moves none id event st a h = Moves-refl st a
  resolve_at-Moves (some types) id event st a h = elim (Bool-cases (is_failure event.type)) [
    | inl e ↦ rw e (settle-Moves id _ st a (λ k es. refl) (ap is_some h))
    | inr e ↦ elim (Bool-cases (expects types event.type)) [
      | inl f ↦ rw (e, f) (settle-Moves id _ st a (λ k es. refl) (ap is_some h))
      | inr f ↦ rw (e, f) (Moves-refl st a)
    ]
  ]

  resolve_for-Moves :
      (o : Option String) (event : CoreEvent) (st : CoreManager)
      → Accounts uuid st
      → Moves uuid st (resolve_for o event st)
  resolve_for-Moves none event st a = Moves-refl st a
  resolve_for-Moves (some id) event st a =
      resolve_at-Moves (get id st.pending_responses) id event st a refl

  pub resolve_pending_response-Moves :
      (event : CoreEvent) (st : CoreManager)
      → Accounts uuid st
      → Moves uuid st (resolve_pending_response event st)
  unfolding resolve_pending_response
  resolve_pending_response-Moves event st a = resolve_for-Moves (given event.request_id) event st a

  -- A request with a new id.
  pub request_response-Moves :
      IsInjective uuid
      → (request : CoreRequest) (types : List CoreEventType) (st : CoreManager) → Accounts uuid st
      → request.id ≡ uuid st.next_uuid
      → Moves uuid st (
          request_response request types record (start_process st) { next_uuid = suc st.next_uuid })
  unfolding request_response send_control start_process
  request_response-Moves injective request types st a h =
      let z = a.unused st.next_uuid (omega arith) in
      let z' : total request.id st ≡ 0 = rw h z in
      let grows : (k : String)
          → count k (keys (set request.id types st.pending_responses))
            ≡ (if request.id == k then 1 else 0) + count k (keys st.pending_responses) =
        λ k. count-keys-set k request.id types st.pending_responses (omega (arith, z')) in
      record {
        accounts = record {
          at_most_once = λ k.
              let g = grows k in
              let b = a.at_most_once k in
              elim (Bool-cases (request.id == k)) [
                | inl e ↦
                    let same : request.id ≡ k = (==_iff request.id k).0 e in
                    ground (arith, g, z', same, e)
                | inr e ↦ ground (arith, g, b, e)
              ];
          unused = λ n l.
              let g = grows (uuid n) in
              let b = a.unused n (omega (arith, l)) in
              elim (Bool-cases (request.id == uuid n)) [
                | inl e ↦
                    let same =
                      injective st.next_uuid n (sym h ∙ (==_iff request.id (uuid n)).0 e) in
                    absurd (omega (arith, same, l))
                | inr e ↦ ground (arith, g, b, e)
              ];
          idle = λ r. absurd (cc r);
        };
        kept = λ k. let g = grows k in omega (arith, g);
      }
