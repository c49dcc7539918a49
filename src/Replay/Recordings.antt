-- ===== src/Replay/Recordings.antt =====
-- What a recording of apps/desktop/src/main/session-replay-service.ts gives back once it is finished.
use dolssh.Prelude.{
  ℕ, zero, suc, ◌-◌, ◌<◌, ◌≤◌, ◌≡◌, refl, ap, ◌∙◌, String, false, Option, none, some, List, [], ◌∷◌,
  ◌++◌, ==_iff, length, drop, filter_by, find_by, includes, value_or, get, set-here, arith,
}
use dolssh.Prelude.Int.{ℤ}
use dolssh.Core.State.{Size, RemoteSessionLifecycleState}
use dolssh.Replay.{
  ActiveRecording, RecordingMeta, ReplayEntry, Replays, default_size, start_at, start_with,
  start_recording, finalize_recording, forget_session, newest_first, recording_ids, is_kept,
  is_recording, prune, sort_entries, get_recording,
}
use dolssh.Replay.Notes.{
  Note, IsAscending, entries_of, take_notes, take_notes-entries, take_notes-metas, entries-AllFrom,
  sort-sorted,
}
use dolssh.Replay.Limits.{IsLimit, resolve-limit, length-sorted}

find-missing :
    (id : String) (ms : List RecordingMeta)
    → includes id (recording_ids ms) ≡ false
    → find_by (is_recording id) ms ≡ none
find-missing id [] h = refl
find-missing id (m ∷ ms) h = ground (arith, find-missing id ms)

find-last :
    (meta : RecordingMeta) (ms : List RecordingMeta)
    → includes meta.recording.recording_id (recording_ids ms) ≡ false
    → find_by (is_recording meta.recording.recording_id) (ms ++ meta ∷ []) ≡ some meta
find-last meta [] h = let id = meta.recording.recording_id in rw ((==_iff id id).1 refl) refl
find-last meta (m ∷ ms) h = ground (arith, find-last meta ms)

keep_all : (ms : List RecordingMeta) → filter_by (is_kept []) ms ≡ ms
keep_all [] = refl
keep_all (m ∷ ms) = ap (◌∷◌ m) (keep_all ms)

drop_all : {A : Type 0} (n : ℕ) (xs : List A) → length xs ≤ n → drop n xs ≡ []
drop_all zero [] h = refl
drop_all zero (x ∷ xs) h = absurd (omega (arith, h))
drop_all (suc n) [] h = refl
drop_all (suc n) (x ∷ xs) h = drop_all n xs (omega (arith, h))

length-last :
    (ms : List RecordingMeta) (m : RecordingMeta) → length (ms ++ m ∷ []) ≡ suc (length ms)
length-last [] m = refl
length-last (x ∷ ms) m = ap suc (length-last ms m)

-- Nothing is removed where there are no more than the setting lets stay.
prune-few :
    (setting : Option ℤ) (limit : ℕ) (st : Replays)
    → IsLimit setting limit
    → length st.metas ≤ limit
    → prune setting st ≡ st
unfolding prune
prune-few setting limit st l h =
    let few : length (newest_first st.metas) ≤ limit =
      (let e = length-sorted st.metas in omega (arith, e, h)) in
    rw
      (resolve-limit setting limit l, drop_all limit (newest_first st.metas) few, keep_all st.metas)
      refl

-- The recording of a session, as `start_recording` makes it.
abbrev pub recording_of :
    (recording_id k : String)
    → RemoteSessionLifecycleState
    → (connected_at : ℕ) → Size
    → ActiveRecording
recording_of recording_id k lifecycle connected_at initial = record {
  recording_id = recording_id;
  session_id = k;
  host_id = lifecycle.host_id;
  host_label = lifecycle.host_label;
  title = lifecycle.title;
  connection_details = lifecycle.connection_details;
  connection_kind = lifecycle.connection_kind;
  connected_at = connected_at;
  initial = initial;
}

module _ (k : String) (active : ActiveRecording) where
  finalized :
      (setting : Option ℤ) (limit now : ℕ) (st : Replays) (es : List ReplayEntry)
      → get k st.active_recordings ≡ some active
      → get active.recording_id st.events ≡ some es
      → includes active.recording_id (recording_ids st.metas) ≡ false
      → IsLimit setting limit
      → length st.metas < limit
      → get_recording active.recording_id (finalize_recording setting k now st)
        ≡ some (
          record {
            recording = active;
            disconnected_at = some now;
            duration_ms = now - active.connected_at;
          },
          sort_entries es,
        )
  unfolding get_recording finalize_recording
  finalized setting limit now st es h e m l few =
      let meta : RecordingMeta = record {
        recording = active;
        disconnected_at = some now;
        duration_ms = now - active.connected_at;
      } in
      let small : length (st.metas ++ meta ∷ []) ≤ limit =
        (let n = length-last st.metas meta in omega (arith, n, few)) in
      let ended = forget_session k record st { metas = st.metas ++ meta ∷ [] } in
      let read : get_recording active.recording_id ended ≡ some (meta, sort_entries es) =
        rw (find-last meta st.metas m, e) refl in
      rw h (ap (get_recording active.recording_id) (prune-few setting limit ended l small) ∙ read)

-- A session that the core manager has as connected since `t`, and that is not recorded yet, under an
-- id that no recording has: its recording is started, the session prints and is resized at times that
-- do not go back, and it ends. Until then `get` throws; then it gives back the recording, with what the
-- session was, its first size, its end and how long it took, and each output and each size once, in
-- their order, with the time since `t`. Fewer recordings are kept than the setting lets stay.
pub finalized-get_recording :
    (uuid : ℕ → String) (k : String) (now t end : ℕ) (notes : List (ℕ × Note)) (st : Replays)
    (lifecycle : RemoteSessionLifecycleState) (setting : Option ℤ) (limit : ℕ)
    → get k st.active_recordings ≡ none
    → get k st.core.sessions.lifecycle ≡ some lifecycle
    → lifecycle.connected_at ≡ some t
    → includes (uuid st.next_uuid) (recording_ids st.metas) ≡ false
    → IsAscending now notes
    → IsLimit setting limit
    → length st.metas < limit
    → let noted = take_notes k notes (start_recording uuid k now st) in
      let id = uuid st.next_uuid in
      (get_recording id noted ≡ none)
      × (get_recording id (finalize_recording setting k end noted)
          ≡ some (
            record {
              recording =
                  recording_of id k lifecycle t (value_or (get k st.initial_sizes) default_size);
              disconnected_at = some end;
              duration_ms = end - t;
            },
            entries_of t notes,
          ))
unfolding get_recording start_recording
finalized-get_recording uuid k now t end notes st lifecycle setting limit n l c fresh a limited
      few =
    let id = uuid st.next_uuid in
    let started = start_at k lifecycle (some t) id now st in
    let active = recording_of id k lifecycle t (value_or (get k st.initial_sizes) default_size) in
    let finished : RecordingMeta = record {
      recording = active;
      disconnected_at = some end;
      duration_ms = end - t;
    } in
    let noted = take_notes k notes started in
    let (going, file) =
      take_notes-entries k active notes started [] (set-here k _ st.active_recordings)
        (set-here id [] st.events) in
    let metas : noted.metas ≡ st.metas = take_notes-metas k notes started in
    let unseen : includes id (recording_ids noted.metas) ≡ false = rw metas fresh in
    let room : length noted.metas < limit = rw metas few in
    let sorted = sort-sorted (now - t) (entries_of t notes) (entries-AllFrom t now notes a) in
    let ended =
      finalized k active setting limit end noted (entries_of t notes) going file unseen limited
        room in
    let begun : start_recording uuid k now st ≡ started =
      rw n (ap (λ o. start_with o k id now st) l) ∙ ap (λ o. start_at k lifecycle o id now st) c in
    let absent : get_recording id noted ≡ none = rw (find-missing id noted.metas unseen) refl in
    let found = ended ∙ ap (λ es. some (finished, es)) sorted in
    (
      ap (λ r. get_recording id (take_notes k notes r)) begun ∙ absent,
      ap (λ r. get_recording id (finalize_recording setting k end (take_notes k notes r))) begun
          ∙ found,
    )
