-- ===== src/Core/Environment/Assigning.antt =====
-- Names that differ in case only, in the environments of apps/desktop/src/main/core-manager.ts:
-- lookupEnvValue, resolveExistingEnvKey and assignEnvValue.
use mathlib.Core.Option
use dolssh.Prelude.{
  ◌≡◌, refl, ap, sym, ◌∙◌, String, true, false, not, ◌&&◌, Option, none, some, List, [], ◌∷◌, ◌==◌,
  ==_iff, if◌then◌else◌, Bool-cases, Option-cases, inl, inr, value_or, includes, Map, get, set,
  delete, keys, set-here, set-other, get-delete, is_some, arith,
}
use dolssh.Core.Environment.{
  Runtime, find_lower, lookup_env_value, delete_spellings, assign_env_value, assigned_key, any_case,
}

includes-keys : (j : String) (m : Map String) → includes j (keys m) ≡ is_some (get j m)
unfolding keys get
includes-keys j [] = refl
includes-keys j ((i, v) ∷ m) = ground (arith, includes-keys j m)

differs-sym : (j k : String) → (j == k) ≡ false → (k == j) ≡ false
differs-sym j k h = elim (Bool-cases (k == j)) [
  | inl e ↦ let same = (==_iff j k).1 (sym ((==_iff k j).0 e)) in absurd (cc (same, h))
  | inr e ↦ e
]

module _ (js : Runtime) where
  -- A name that is found is spelled as it was looked for.
  found-spelled :
      (t : String) (env : Map String) (p : String × String)
      → find_lower js t env ≡ some p
      → js.to_lower_case p.0 ≡ t
  unfolding find_lower
  found-spelled t [] p h = absurd (cc h)
  found-spelled t ((c, v) ∷ env) p h = elim (Bool-cases (js.to_lower_case c == t)) [
    | inl e ↦
        let same : (c, v) ≡ p = ground (arith, h, e) in
        rw (← same) ((==_iff (js.to_lower_case c) t).0 e)
    | inr e ↦ found-spelled t env p (ground (arith, h, e))
  ]

  get-delete_spellings :
      (j existing t : String) (ks : List String) (m : Map String)
      → get j (delete_spellings js existing t ks m) ≡ (
          if (not (j == existing) && js.to_lower_case j == t) && includes j ks
          then none
          else get j m)
  unfolding delete_spellings
  get-delete_spellings j existing t [] m = ground arith
  get-delete_spellings j existing t (k ∷ ks) m = elim (Bool-cases (k == j)) [
    | inl e ↦
        let same : k ≡ j = (==_iff k j).0 e in
        elim (Bool-cases (not (k == existing) && js.to_lower_case k == t)) [
          | inl a ↦ rw a (
              get-delete_spellings j existing t ks (delete k m)
              ∙ (let here : (not (j == existing) && js.to_lower_case j == t) ≡ true =
                    rw (← same) a in
                  ground (arith, here, e, get-delete j k m)))
          | inr a ↦ rw a (
              get-delete_spellings j existing t ks m
              ∙ (let here : (not (j == existing) && js.to_lower_case j == t) ≡ false =
                    rw (← same) a in
                  ground (arith, here, e)))
        ]
    | inr e ↦ elim (Bool-cases (not (k == existing) && js.to_lower_case k == t)) [
      | inl a ↦
          rw a (
            get-delete_spellings j existing t ks (delete k m) ∙ ground (arith, e, get-delete j k m))
      | inr a ↦ rw a (get-delete_spellings j existing t ks m ∙ ground (arith, e))
    ]
  ]

  -- Where one spelling is left, it is the one that is found.
  find_lower-only :
      (t existing : String) (m : Map String)
      → (js.to_lower_case existing == t) ≡ true
      → ((c : String) → (c == existing) ≡ false → (js.to_lower_case c == t) ≡ true → get c m ≡ none)
      → Option.map (λ p. p.1) (find_lower js t m) ≡ get existing m
  unfolding find_lower get
  find_lower-only t existing [] l h = refl
  find_lower-only t existing ((c, v) ∷ m) l h = elim (Bool-cases (c == existing)) [
    | inl e ↦ let same = (==_iff c existing).0 e in rw (e, same, l) refl
    | inr e ↦ elim (Bool-cases (js.to_lower_case c == t)) [
      | inl a ↦ let r = (==_iff c c).1 refl in let n = h c e a in absurd (ground (arith, n, r))
      | inr a ↦
          rw (e, a)
            (find_lower-only t existing m l (λ d x y.
              let n = h d x y in
              elim (Bool-cases (c == d)) [
                | inl b ↦ absurd (ground (arith, n, b))
                | inr b ↦ ground (arith, n, b)
              ]))
    ]
  ]

  find_lower-set :
      (t k : String) (v : String) (m : Map String)
      → (js.to_lower_case k == t) ≡ false
      → find_lower js t (set k v m) ≡ find_lower js t m
  unfolding find_lower set
  find_lower-set t k v [] h = rw h refl
  find_lower-set t k v ((i, w) ∷ m) h = elim (Bool-cases (i == k)) [
    | inl e ↦ rw (e, (==_iff i k).0 e, h) refl
    | inr e ↦ rw (e, find_lower-set t k v m h) refl
  ]

  find_lower-delete :
      (t k : String) (m : Map String)
      → (js.to_lower_case k == t) ≡ false
      → find_lower js t (delete k m) ≡ find_lower js t m
  unfolding find_lower delete
  find_lower-delete t k [] h = refl
  find_lower-delete t k ((i, w) ∷ m) h = elim (Bool-cases (i == k)) [
    | inl e ↦ rw (e, (==_iff i k).0 e, h) (find_lower-delete t k m h)
    | inr e ↦ rw (e, find_lower-delete t k m h) refl
  ]

  delete_spellings-other :
      (t existing target : String) (ks : List String) (m : Map String)
      → (target == t) ≡ false
      → find_lower js t (delete_spellings js existing target ks m) ≡ find_lower js t m
  unfolding delete_spellings
  delete_spellings-other t existing target [] m h = refl
  delete_spellings-other t existing target (k ∷ ks) m h =
      delete_spellings-other t existing target ks _ h
      ∙ (elim (Bool-cases (not (k == existing) && js.to_lower_case k == target)) [
        | inl a ↦ rw a (
            find_lower-delete t k m (
              let l : (js.to_lower_case k == target) ≡ true = ground (arith, a) in
              rw ((==_iff (js.to_lower_case k) target).0 l) h))
        | inr a ↦ rw a refl
      ])

  assigned_key-spelled :
      (env : Map String) (key : String) (fallback_key : Option String)
      → js.to_lower_case (value_or fallback_key key) ≡ js.to_lower_case key
      → js.to_lower_case (assigned_key js env key (any_case fallback_key)) ≡ js.to_lower_case key
  assigned_key-spelled env key fallback_key h =
      elim (Option-cases (find_lower js (js.to_lower_case key) env)) [
        | inl e ↦ rw e h
        | inr (p, e) ↦ rw e (found-spelled (js.to_lower_case key) env p e)
      ]

  -- Where the name to use when there is none is a spelling of the key, the assigned value is the only
  -- one that any spelling of the key has, and other names keep theirs.
  pub get-assign_env_value :
      (env : Map String) (key value : String) (fallback_key : Option String)
      → js.to_lower_case (value_or fallback_key key) ≡ js.to_lower_case key
      → (j : String)
      → get j (assign_env_value js env key value (any_case fallback_key)) ≡ (
          if j == assigned_key js env key (any_case fallback_key)
          then some value
          else (if js.to_lower_case j == js.to_lower_case key then none else get j env))
  unfolding assign_env_value
  get-assign_env_value env key value fallback_key h j =
      let existing = assigned_key js env key (any_case fallback_key) in
      let spelled = assigned_key-spelled env key fallback_key h in
      let assigned = set existing value env in
      get-delete_spellings j existing (js.to_lower_case existing) (keys assigned) assigned
      ∙ rw (spelled, includes-keys j assigned)
          (elim (Bool-cases (j == existing)) [
            | inl e ↦
                let here = set-here existing value env in
                let same = (==_iff j existing).0 e in rw (e, same, here) refl
            | inr e ↦
                let kept = set-other j existing value env (differs-sym j existing e) in
                rw (e, kept) (ground arith)
          ])

  find_lower-assign_env_value :
      (env : Map String) (key value : String) (fallback_key : Option String)
      → js.to_lower_case (value_or fallback_key key) ≡ js.to_lower_case key
      → (t : String) → (js.to_lower_case key == t) ≡ false
      → find_lower js t (assign_env_value js env key value (any_case fallback_key))
        ≡ find_lower js t env
  unfolding assign_env_value
  find_lower-assign_env_value env key value fallback_key h t e =
      let existing = assigned_key js env key (any_case fallback_key) in
      let other : (js.to_lower_case existing == t) ≡ false =
        rw (assigned_key-spelled env key fallback_key h) e in
      delete_spellings-other t existing (js.to_lower_case existing) _ _ other
      ∙ find_lower-set t existing value env other

  -- Names are looked up without regard to case as though an environment had each name once: what was
  -- assigned is found by every spelling, and what other names have is found as before.
  pub lookup_env_value-assign_env_value :
      (env : Map String) (key value : String) (fallback_key : Option String)
      → js.to_lower_case (value_or fallback_key key) ≡ js.to_lower_case key
      → (j : String)
      → lookup_env_value js (assign_env_value js env key value (any_case fallback_key)) j true ≡ (
          if js.to_lower_case key == js.to_lower_case j
          then some value
          else lookup_env_value js env j true)
  lookup_env_value-assign_env_value env key value fallback_key h j =
      let existing = assigned_key js env key (any_case fallback_key) in
      let spelled = assigned_key-spelled env key fallback_key h in
      let got = get-assign_env_value env key value fallback_key h in
      elim (Bool-cases (js.to_lower_case key == js.to_lower_case j)) [
        | inl e ↦
            let same = (==_iff (js.to_lower_case key) (js.to_lower_case j)).0 e in
            rw e (
              find_lower-only (js.to_lower_case j) existing _ (rw (spelled, e) refl)
                (λ c x y. got c ∙ rw (x, same, y) refl)
              ∙ (got existing ∙ rw ((==_iff existing existing).1 refl) refl))
        | inr e ↦ rw e (
            ap (Option.map (λ (p : String × String). p.1))
              (find_lower-assign_env_value env key value fallback_key h (js.to_lower_case j) e))
      ]
