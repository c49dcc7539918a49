-- ===== src/Core/Replies/Lines.antt =====
-- The lines of a container's log, in apps/desktop/src/main/core-manager.ts: containersLogs.
use mathlib.Core.Option
use dolssh.Prelude.{
  String-discrete, inr, ==_iff, ◌==◌, inl, Bool-cases, Option-cases, ◌≡◌, refl, ap, sym, ◌∙◌,
  String, Option, none, some, List, [], ◌∷◌, value_or, arith,
}
use dolssh.Core.Replies.Reading.{
  cursor_not_text, lines_not_texts, as_text, Json, null, boolean, number, text, array, object,
  Elements, last, element, Fields, Values, Reply, ok, threw, ◌>>=◌, get_field, text_or,
}
use dolssh.Core.Replies.Types.{
  podman, HostContainerLogsSnapshot, HostContainerRuntime, docker, runtime_of,
}
use dolssh.Core.Replies.Logs.{text_items, text_array, cursor_of, containers_logs}
use dolssh.Core.Replies.Printed.{items}

map-cons :
    (s : String) (o : Option (List String)) (lines : List String)
    → Option.map (◌∷◌ s) o ≡ some lines
    → (rest : List String) × (o ≡ some rest) × (lines ≡ s ∷ rest)
map-cons s none lines h = absurd (cc h)
map-cons s (some rest) lines h = (rest, refl, ground (arith, h))

text_items-items :
    (N : Type 0) (lines : List String) → text_items (items {N = N} text lines) ≡ some lines
text_items-items N [] = refl
text_items-items N (s ∷ lines) = rw (text_items-items N lines) refl

module _ {N : Type 0} where
  -- An array of texts has no other items.
  items-text_items :
      (xs : Elements N) (lines : List String) → text_items xs ≡ some lines → xs ≡ items text lines
  items-text_items last lines h = let e : [] ≡ lines = ground (arith, h) in rw (← e) refl
  items-text_items (element null xs) lines h = absurd (cc h)
  items-text_items (element (boolean b) xs) lines h = absurd (cc h)
  items-text_items (element (number n) xs) lines h = absurd (cc h)
  items-text_items (element (text s) xs) lines h =
      let (rest, e, same) = map-cons s (text_items xs) lines h in
      ap (element (text s)) (items-text_items xs rest e) ∙ ap (items text) (sym same)
  items-text_items (element (array ys) xs) lines h = absurd (cc h)
  items-text_items (element (object fs) xs) lines h = absurd (cc h)

  text_array-some :
      (o : Option (Json N)) (lines : List String)
      → text_array o ≡ some lines
      → o ≡ some (array (items text lines))
  text_array-some none lines h = absurd (cc h)
  text_array-some (some null) lines h = absurd (cc h)
  text_array-some (some (boolean b)) lines h = absurd (cc h)
  text_array-some (some (number n)) lines h = absurd (cc h)
  text_array-some (some (text s)) lines h = absurd (cc h)
  text_array-some (some (array xs)) lines h =
      ap (λ ys. some (array ys)) (items-text_items xs lines h)
  text_array-some (some (object fs)) lines h = absurd (cc h)

text_array-none :
    {N : Type 0} (o : Option (Json N)) (lines : List String)
    → text_array o ≡ none
    → ¬ (o ≡ some (array (items text lines)))
text_array-none {N} o lines h e =
    let a = ap text_array e ∙ text_items-items N lines in absurd (cc (h, a))

-- A cursor as the core sends it, and what it says: nothing, `null` and a blank text say none, any other
-- text is the cursor.
pub data CursorIs {N : Type 0} (js : Values N) : Option (Json N) → Option String → Type 0 where
  missing : CursorIs js none none
  nothing : CursorIs js (some null) none
  blank : (s : String) → js.trim s ≡ "" → CursorIs js (some (text s)) none
  given : (s : String) → ¬ (js.trim s ≡ "") → CursorIs js (some (text s)) (some s)

-- A runtime as the core sends it: Podman by its name, and Docker for anything else.
pub data RuntimeIs {N : Type 0} : Option (Json N) → HostContainerRuntime → Type 0 where
  named : RuntimeIs (some (text "podman")) podman
  other : (o : Option (Json N)) → ¬ (o ≡ some (text "podman")) → RuntimeIs o docker

-- A container's id as the core sends it; without one it is the id that was asked for.
pub data IdIs {N : Type 0} (js : Values N) (asked : String)
    : Option (Json N) → String → Type 0 where
  unsaid : IdIs js asked none asked
  nulled : IdIs js asked (some null) asked
  said : (x : Json N) → ¬ (x ≡ null) → IdIs js asked (some x) (as_text js x)

-- What is made of an answer.
pub data LogRead {N : Type 0} (js : Values N) (host_id asked : String) (response : Fields N)
    : Reply HostContainerLogsSnapshot → Type 0 where
  read :
      (id : String) (runtime : HostContainerRuntime) (lines : List String) (cursor : Option String)
      → IdIs js asked (get_field "containerId" response) id
      → RuntimeIs (get_field "runtime" response) runtime
      → get_field "lines" response ≡ some (array (items text lines))
      → CursorIs js (get_field "cursor" response) cursor
      → LogRead js host_id asked response (
          ok record {
            host_id = host_id;
            container_id = id;
            runtime = runtime;
            lines = lines;
            cursor = cursor;
          })
  bad_lines :
      ((lines : List String) → ¬ (get_field "lines" response ≡ some (array (items text lines))))
      → LogRead js host_id asked response (threw lines_not_texts)
  bad_cursor :
      (lines : List String)
      → get_field "lines" response ≡ some (array (items text lines))
      → ((cursor : Option String) → ¬ CursorIs js (get_field "cursor" response) cursor)
      → LogRead js host_id asked response (threw cursor_not_text)

text-eq :
    {N : Type 0} (o : Option (Json N)) (s t : String)
    → o ≡ some (text s)
    → o ≡ some (text t)
    → s ≡ t
text-eq o s t h g = ground (arith, h, g)

runtime-RuntimeIs :
    {N : Type 0} (o : Option (Json N)) → RuntimeIs o (value_or (runtime_of o) docker)
unfolding String-discrete
runtime-RuntimeIs none = other none (λ e. absurd (cc e))
runtime-RuntimeIs (some null) = other (some null) (λ e. absurd (cc e))
runtime-RuntimeIs (some (boolean b)) = other (some (boolean b)) (λ e. absurd (cc e))
runtime-RuntimeIs (some (number n)) = other (some (number n)) (λ e. absurd (cc e))
runtime-RuntimeIs (some (array xs)) = other (some (array xs)) (λ e. absurd (cc e))
runtime-RuntimeIs (some (object fs)) = other (some (object fs)) (λ e. absurd (cc e))
runtime-RuntimeIs (some (text s)) = elim (Bool-cases (s == "podman")) [
  | inl e ↦ let same = (==_iff s "podman").0 e in rw same named
  | inr e ↦
      let unnamed : ¬ (some (text s) ≡ some (text "podman")) = λ h.
        (let same = text-eq (some (text s)) s "podman" refl h in
          let e' = (==_iff s "podman").1 same in absurd (cc (e, e'))) in
      elim (Bool-cases (s == "docker")) [
        | inl d ↦ rw d (other (some (text s)) unnamed)
        | inr d ↦ rw (d, e) (other (some (text s)) unnamed)
      ]
]

id-IdIs :
    {N : Type 0} (js : Values N) (asked : String) (o : Option (Json N))
    → IdIs js asked o (text_or js asked o)
id-IdIs js asked none = unsaid
id-IdIs js asked (some null) = nulled
id-IdIs js asked (some (boolean b)) = said (boolean b) (λ e. absurd (cc e))
id-IdIs js asked (some (number n)) = said (number n) (λ e. absurd (cc e))
id-IdIs js asked (some (text s)) = said (text s) (λ e. absurd (cc e))
id-IdIs js asked (some (array xs)) = said (array xs) (λ e. absurd (cc e))
id-IdIs js asked (some (object fs)) = said (object fs) (λ e. absurd (cc e))

-- A cursor is read, or it is refused.
data CursorRead {N : Type 0} (js : Values N) (o : Option (Json N))
    : Reply (Option String) → Type 0 where
  taken : (c : Option String) → CursorIs js o c → CursorRead js o (ok c)
  refused : ((c : Option String) → ¬ CursorIs js o c) → CursorRead js o (threw cursor_not_text)

cursor-CursorRead :
    {N : Type 0} (js : Values N) (o : Option (Json N)) → CursorRead js o (cursor_of js o)
cursor-CursorRead js none = taken none missing
cursor-CursorRead js (some null) = taken none nothing
cursor-CursorRead js (some (boolean b)) = refused (λ c x. elim x [ ])
cursor-CursorRead js (some (number n)) = refused (λ c x. elim x [ ])
cursor-CursorRead js (some (text s)) = elim (Bool-cases (js.trim s == "")) [
  | inl e ↦ rw e (taken none (blank s ((==_iff (js.trim s) "").0 e)))
  | inr e ↦
      rw e (
        taken (some s) (given s (λ h. let e' = (==_iff (js.trim s) "").1 h in absurd (cc (e, e')))))
]
cursor-CursorRead js (some (array xs)) = refused (λ c x. elim x [ ])
cursor-CursorRead js (some (object fs)) = refused (λ c x. elim x [ ])

with_cursor :
    {N : Type 0} (js : Values N) (host_id asked : String) (response : Fields N)
    (lines : List String)
    → get_field "lines" response ≡ some (array (items text lines))
    → (c : Reply (Option String)) → CursorRead js (get_field "cursor" response) c
    → LogRead js host_id asked response (
        c >>= (λ cursor. ok record {
          host_id = host_id;
          container_id = text_or js asked (get_field "containerId" response);
          runtime = value_or (runtime_of (get_field "runtime" response)) docker;
          lines = lines;
          cursor = cursor;
        }))
with_cursor js host_id asked response lines h _ (taken c is_cursor) =
    read _ _ lines c (id-IdIs js asked (get_field "containerId" response))
      (runtime-RuntimeIs (get_field "runtime" response)) h is_cursor
with_cursor js host_id asked response lines h _ (refused none_is) = bad_cursor lines h none_is

-- The answer to a request for a container's log gives a log with the texts that the core sent as its
-- lines, all of them and nothing else, with the cursor, the runtime and the id that it says; where what
-- it sent as lines is no array of texts, or the cursor neither is one nor says there is none, the method
-- throws.
pub containers_logs-LogRead :
    {N : Type 0} (js : Values N) (host_id asked : String) (response : Fields N)
    → LogRead js host_id asked response (containers_logs js host_id asked response)
unfolding containers_logs
containers_logs-LogRead js host_id asked response =
    elim (Option-cases (text_array (get_field "lines" response))) [
      | inl h ↦ rw h (bad_lines (λ lines. text_array-none (get_field "lines" response) lines h))
      | inr (lines, h) ↦
          let sent = text_array-some (get_field "lines" response) lines h in
          rw h (
            with_cursor js host_id asked response lines sent
              (cursor_of js (get_field "cursor" response))
              (cursor-CursorRead js (get_field "cursor" response)))
    ]
