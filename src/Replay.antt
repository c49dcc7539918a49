-- ===== src/Replay.antt =====
-- Recordings of terminal sessions: apps/desktop/src/main/session-replay-service.ts, which takes its
-- sessions from the manager of the core process. A time is a number of milliseconds. The files of the
-- replay directory are the lists `metas`, a file each, and `events`, a file by recording with a line
-- for each entry; the files are those that the service wrote. Bytes stand for their base64.
pub mod Notes
pub mod Retention
pub mod Limits
pub mod Recordings
mod Tests
use dolssh.Prelude.{
  find_by, value_or, ℕ, suc, ◌-◌, ◌≤◌, String, Bool, true, false, not, Option, none, some, List, [],
  ◌∷◌, ◌++◌, ◌==◌, ◌=ℕ=◌, leb, if◌then◌else◌, Map, get, set, delete, is_some, drop, filter_by,
  includes, map,
}
use dolssh.Prelude.Int.{ℤ, pos, negsuc, min_ℤ, max_ℤ, pos_part}
use dolssh.Core.State.{
  CoreEvent, Size, SessionTransport, RemoteSessionLifecycleState, CoreManager, given,
}
use dolssh.Core.Sessions.{attach_remote_session_recording}
use dolssh.Core.Requests.{type_code}

abbrev pub min_retention_count : ℕ
min_retention_count = 10

abbrev pub max_retention_count : ℕ
max_retention_count = 1000

abbrev pub default_retention_count : ℕ
default_retention_count = 100

-- The setting, rounded, or none.
unfoldable pub clamp_retention_count : ℤ → ℕ
clamp_retention_count value =
    pos_part (min_ℤ (pos max_retention_count) (max_ℤ (pos min_retention_count) value))

abbrev pub resolve_retention_count : Option ℤ → ℕ
resolve_retention_count setting =
    clamp_retention_count (value_or setting (pos default_retention_count))

pub record ActiveRecording : Type 0 where
  pub recording_id : String
  pub session_id : String
  pub host_id : String
  pub host_label : String
  pub title : String
  pub connection_details : String
  pub connection_kind : SessionTransport
  pub connected_at : ℕ
  pub initial : Size

pub record RecordingMeta : Type 0 where
  pub recording : ActiveRecording
  pub disconnected_at : Option ℕ
  pub duration_ms : ℕ

pub data ReplayEntry : Type 0 where
  output : (at_ms : ℕ) → List ℕ → ReplayEntry
  resize : (at_ms : ℕ) → Size → ReplayEntry

pub record Replays : Type 0 where
  pub active_recordings : Map ActiveRecording
  pub initial_sizes : Map Size
  pub metas : List RecordingMeta
  pub events : Map (List ReplayEntry)
  pub core : CoreManager
  pub next_uuid : ℕ

abbrev pub append_entry : ActiveRecording → ReplayEntry → Replays → Replays
append_entry active entry st = record st {
  events =
      set active.recording_id (value_or (get active.recording_id st.events) [] ++ entry ∷ [])
        st.events;
}

abbrev pub append_if : Option ActiveRecording → (ActiveRecording → ReplayEntry) → Replays → Replays
append_if none entry st = st
append_if (some active) entry st = append_entry active (entry active) st

unfoldable pub note_session_configured : String → Size → Replays → Replays
note_session_configured k size st = record st { initial_sizes = set k size st.initial_sizes }

unfoldable pub handle_terminal_resize : String → Size → ℕ → Replays → Replays
handle_terminal_resize k size now st =
    append_if (get k st.active_recordings) (λ active. resize (now - active.connected_at) size)
      record st { initial_sizes = set k size st.initial_sizes }

unfoldable pub handle_terminal_stream : String → List ℕ → ℕ → Replays → Replays
handle_terminal_stream k chunk now st =
    append_if (get k st.active_recordings) (λ active. output (now - active.connected_at) chunk) st

abbrev pub default_size : Size
default_size = record { cols = pos 120; rows = pos 32 }

abbrev pub start_at :
    String → RemoteSessionLifecycleState → Option ℕ → String → ℕ → Replays → Replays
start_at k lifecycle none recording_id now st = st
start_at k lifecycle (some connected_at) recording_id now st =
    let active : ActiveRecording = record {
      recording_id = recording_id;
      session_id = k;
      host_id = lifecycle.host_id;
      host_label = lifecycle.host_label;
      title = lifecycle.title;
      connection_details = lifecycle.connection_details;
      connection_kind = lifecycle.connection_kind;
      connected_at = connected_at;
      initial = value_or (get k st.initial_sizes) default_size;
    } in
    record st {
      next_uuid = suc st.next_uuid;
      events = set recording_id [] st.events;
      active_recordings = set k active st.active_recordings;
      core = attach_remote_session_recording k recording_id now st.core;
    }

abbrev pub start_with : Option RemoteSessionLifecycleState → String → String → ℕ → Replays → Replays
start_with none k recording_id now st = st
start_with (some lifecycle) k recording_id now st =
    start_at k lifecycle lifecycle.connected_at recording_id now st

unfoldable pub start_recording : (ℕ → String) → String → ℕ → Replays → Replays
unfolding attach_remote_session_recording
start_recording uuid k now st =
    if is_some (get k st.active_recordings)
    then st
    else start_with (get k st.core.sessions.lifecycle) k (uuid st.next_uuid) now st

-- The recordings, the newest first; of two that ended at the same time the first stays first.
abbrev pub ended_at : RecordingMeta → ℕ
ended_at meta = value_or meta.disconnected_at meta.recording.connected_at

abbrev pub insert_by_end : RecordingMeta → List RecordingMeta → List RecordingMeta
insert_by_end m [] = m ∷ []
insert_by_end m (x ∷ xs) =
    if leb (ended_at x) (ended_at m) then m ∷ x ∷ xs else x ∷ insert_by_end m xs

abbrev pub newest_first : List RecordingMeta → List RecordingMeta
newest_first [] = []
newest_first (m ∷ ms) = insert_by_end m (newest_first ms)

abbrev pub recording_ids : List RecordingMeta → List String
recording_ids [] = []
recording_ids (m ∷ ms) = m.recording.recording_id ∷ recording_ids ms

abbrev pub is_kept : List String → RecordingMeta → Bool
is_kept removed m = not (includes m.recording.recording_id removed)

abbrev pub delete_all : List String → Map (List ReplayEntry) → Map (List ReplayEntry)
delete_all [] files = files
delete_all (id ∷ ids) files = delete_all ids (delete id files)

unfoldable pub prune : Option ℤ → Replays → Replays
unfolding clamp_retention_count
prune setting st =
    let removed = recording_ids (drop (resolve_retention_count setting) (newest_first st.metas)) in
    record st {
      metas = filter_by (is_kept removed) st.metas;
      events = delete_all removed st.events;
    }

abbrev pub forget_session : String → Replays → Replays
forget_session k st = record st {
  active_recordings = delete k st.active_recordings;
  initial_sizes = delete k st.initial_sizes;
}

abbrev pub finalize_at : Option ActiveRecording → Option ℤ → String → ℕ → Replays → Replays
finalize_at none setting k now st = record st { initial_sizes = delete k st.initial_sizes }
finalize_at (some active) setting k now st =
    let meta : RecordingMeta = record {
      recording = active;
      disconnected_at = some now;
      duration_ms = now - active.connected_at;
    } in
    prune setting (forget_session k record st { metas = st.metas ++ meta ∷ [] })

unfoldable pub finalize_recording : Option ℤ → String → ℕ → Replays → Replays
unfolding prune
finalize_recording setting k now st = finalize_at (get k st.active_recordings) setting k now st

abbrev pub handle_event_of :
    (ℕ → String) → Option ℤ → Option String → (type : ℕ) → ℕ → Replays → Replays
handle_event_of uuid setting none type now st = st
handle_event_of uuid setting (some k) type now st =
    if type =ℕ= 1
    then start_recording uuid k now st
    else (if type =ℕ= 2
        then finalize_recording setting k now st
        else (if type =ℕ= 3 then finalize_recording setting k now st else st))

unfoldable pub handle_terminal_event : (ℕ → String) → Option ℤ → CoreEvent → ℕ → Replays → Replays
unfolding start_recording finalize_recording
handle_terminal_event uuid setting event now st =
    handle_event_of uuid setting (given event.session_id) (type_code event.type) now st

-- The entries of a recording, by their times; entries of the same time stay in order.
abbrev pub at_ms : ReplayEntry → ℕ
at_ms (output at chunk) = at
at_ms (resize at size) = at

abbrev pub insert_by_time : ReplayEntry → List ReplayEntry → List ReplayEntry
insert_by_time e [] = e ∷ []
insert_by_time e (x ∷ xs) = if leb (at_ms e) (at_ms x) then e ∷ x ∷ xs else x ∷ insert_by_time e xs

abbrev pub sort_entries : List ReplayEntry → List ReplayEntry
sort_entries [] = []
sort_entries (e ∷ es) = insert_by_time e (sort_entries es)

abbrev pub is_recording : String → RecordingMeta → Bool
is_recording id m = m.recording.recording_id == id

abbrev pub with_entries :
    Option RecordingMeta → List ReplayEntry → Option (RecordingMeta × List ReplayEntry)
with_entries none es = none
with_entries (some meta) es = some (meta, es)

-- `get`, which throws, with `none`, for a recording that has no file with its metadata.
unfoldable pub get_recording : String → Replays → Option (RecordingMeta × List ReplayEntry)
get_recording recording_id st =
    with_entries (find_by (is_recording recording_id) st.metas)
      (sort_entries (value_or (get recording_id st.events) []))
