-- ===== src/Replay/Notes.antt =====
-- What is written to a recording of apps/desktop/src/main/session-replay-service.ts while its session
-- goes on.
use mathlib.Core.List.{append_assoc, append-nil}
use dolssh.Prelude.{
  Option, ℕ, ◌-◌, ◌≤◌, ◌≡◌, refl, ap, ◌∙◌, String, none, some, List, [], ◌∷◌, ◌++◌, get, set-here,
  arith,
}
use dolssh.Core.State.{Size}
use dolssh.Replay.{
  append_if, ActiveRecording, ReplayEntry, output, resize, Replays, handle_terminal_resize,
  handle_terminal_stream, at_ms, insert_by_time, sort_entries,
}

-- What reaches a session that is recorded.
pub data Note : Type 0 where
  streamed : List ℕ → Note
  resized : Size → Note

abbrev pub take_note : String → Note → ℕ → Replays → Replays
take_note k (streamed chunk) now = handle_terminal_stream k chunk now
take_note k (resized size) now = handle_terminal_resize k size now

-- Notes in the order of their times.
unfoldable pub take_notes : String → List (ℕ × Note) → Replays → Replays
take_notes k [] st = st
take_notes k ((now, note) ∷ notes) st = take_notes k notes (take_note k note now st)

abbrev pub entry_of : (connected_at : ℕ) → ℕ → Note → ReplayEntry
entry_of connected_at now (streamed chunk) = output (now - connected_at) chunk
entry_of connected_at now (resized size) = resize (now - connected_at) size

abbrev pub entries_of : (connected_at : ℕ) → List (ℕ × Note) → List ReplayEntry
entries_of connected_at [] = []
entries_of connected_at ((now, note) ∷ notes) =
    entry_of connected_at now note ∷ entries_of connected_at notes

abbrev pub IsAscending : (from : ℕ) → List (ℕ × Note) → Type 0
IsAscending from [] = Unit
IsAscending from ((now, note) ∷ notes) = (from ≤ now) × IsAscending now notes

abbrev pub AllFrom : ℕ → List ReplayEntry → Type 0
AllFrom t [] = Unit
AllFrom t (e ∷ es) = (t ≤ at_ms e) × AllFrom (at_ms e) es

at-entry : (c now : ℕ) (note : Note) → at_ms (entry_of c now note) ≡ now - c
at-entry c now (streamed chunk) = refl
at-entry c now (resized size) = refl

pub entries-AllFrom :
    (c from : ℕ) (notes : List (ℕ × Note))
    → IsAscending from notes
    → AllFrom (from - c) (entries_of c notes)
entries-AllFrom c from [] h = tt
entries-AllFrom c from ((now, note) ∷ notes) h =
    let e = at-entry c now note in
    let l = h.0 in (omega (arith, e, l), rw e (entries-AllFrom c now notes h.1))

insert-sorted :
    (e : ReplayEntry) (es : List ReplayEntry) → AllFrom (at_ms e) es → insert_by_time e es ≡ e ∷ es
insert-sorted e [] h = refl
insert-sorted e (x ∷ es) h = let l = h.0 in ground (arith, l)

pub sort-sorted : (t : ℕ) (es : List ReplayEntry) → AllFrom t es → sort_entries es ≡ es
sort-sorted t [] h = refl
sort-sorted t (e ∷ es) h = rw (sort-sorted (at_ms e) es h.1) (insert-sorted e es h.1)

module _ (k : String) (active : ActiveRecording) where
  take_note-entry :
      (note : Note) (now : ℕ) (st : Replays) (es : List ReplayEntry)
      → get k st.active_recordings ≡ some active
      → get active.recording_id st.events ≡ some es
      → (get k (take_note k note now st).active_recordings ≡ some active)
        × (get active.recording_id (take_note k note now st).events
            ≡ some (es ++ entry_of active.connected_at now note ∷ []))
  unfolding handle_terminal_stream handle_terminal_resize
  take_note-entry (streamed chunk) now st es h e =
      rw h (h, rw e (set-here active.recording_id _ st.events))
  take_note-entry (resized size) now st es h e =
      rw h (h, rw e (set-here active.recording_id _ st.events))

  pub take_notes-entries :
      (notes : List (ℕ × Note)) (st : Replays) (es : List ReplayEntry)
      → get k st.active_recordings ≡ some active
      → get active.recording_id st.events ≡ some es
      → (get k (take_notes k notes st).active_recordings ≡ some active)
        × (get active.recording_id (take_notes k notes st).events
            ≡ some (es ++ entries_of active.connected_at notes))
  unfolding take_notes
  take_notes-entries [] st es h e = rw (append-nil es) (h, e)
  take_notes-entries ((now, note) ∷ notes) st es h e =
      let (a, b) = take_note-entry note now st es h e in
      let (c, d) = take_notes-entries notes (take_note k note now st) _ a b in
      (
        c,
        d
            ∙ ap some (
                append_assoc es (entry_of active.connected_at now note ∷ [])
                  (entries_of active.connected_at notes)),
      )

append_if-metas :
    (o : Option ActiveRecording) (entry : ActiveRecording → ReplayEntry) (st : Replays)
    → (append_if o entry st).metas ≡ st.metas
append_if-metas none entry st = refl
append_if-metas (some active) entry st = refl

take_note-metas :
    (k : String) (note : Note) (now : ℕ) (st : Replays) → (take_note k note now st).metas ≡ st.metas
unfolding handle_terminal_stream handle_terminal_resize
take_note-metas k (streamed chunk) now st = append_if-metas (get k st.active_recordings) _ st
take_note-metas k (resized size) now st = append_if-metas (get k st.active_recordings) _ _

pub take_notes-metas :
    (k : String) (notes : List (ℕ × Note)) (st : Replays) → (take_notes k notes st).metas ≡ st.metas
unfolding take_notes
take_notes-metas k [] st = refl
take_notes-metas k ((now, note) ∷ notes) st =
    take_notes-metas k notes (take_note k note now st) ∙ take_note-metas k note now st
