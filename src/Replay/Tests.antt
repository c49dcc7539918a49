-- ===== src/Replay/Tests.antt =====
-- The theorems of apps/desktop/src/main/session-replay-service.ts on small inputs.
use dolssh.Prelude
use dolssh.Prelude.{
  includes, drop, arith, false, ℕ, ◌≤◌, ◌≡◌, refl, String, Option, none, some, List, [], ◌∷◌, get,
  set, length,
}
use dolssh.Prelude.Decimal.{decimal}
use dolssh.Prelude.Int.{pos, negsuc}
use dolssh.Core.State.{
  SessionTransport, RemoteSessionLifecycleState, CoreManager, new_manager, no_sessions,
}
use dolssh.Replay.{
  newest_first, default_size, RecordingMeta, Replays, start_recording, finalize_recording,
  get_recording, recording_ids, prune,
}
use dolssh.Replay.Notes.{streamed, resized, Note, IsAscending, entries_of, take_notes}
use dolssh.Replay.Retention.{AllNewer}
use dolssh.Replay.Recordings.{recording_of, finalized-get_recording}
use dolssh.Replay.Limits.{within, AllDistinct, negative, prune-kept}

abbrev connected_lifecycle : RemoteSessionLifecycleState
connected_lifecycle = record {
  host_id = "h";
  host_label = "host";
  title = "t";
  connection_details = "";
  connection_kind = SessionTransport.ssh;
  connected_at = some 100;
  disconnected_at = none;
  disconnect_reason = none;
  status = none;
  recording_id = none;
  has_replay = false;
}

abbrev connected_core : CoreManager
connected_core = record new_manager {
  sessions = record no_sessions { lifecycle = ("s", connected_lifecycle) ∷ [] };
}

abbrev no_replays : Replays
no_replays = record {
  active_recordings = [];
  initial_sizes = [];
  metas = [];
  events = [];
  core = connected_core;
  next_uuid = 0;
}

abbrev two_notes : List (ℕ × Note)
two_notes = (105, streamed (104 ∷ 105 ∷ [])) ∷ (107, resized default_size) ∷ []

no_replays-active : get "s" no_replays.active_recordings ≡ none
unfolding get
no_replays-active = refl

connected_core-lifecycle : get "s" no_replays.core.sessions.lifecycle ≡ some connected_lifecycle
unfolding get Prelude.String-discrete
connected_core-lifecycle = refl

two_notes-IsAscending : IsAscending 101 two_notes
two_notes-IsAscending = (omega arith, (omega arith, tt))

two_notes-fresh : includes (decimal 0) (recording_ids no_replays.metas) ≡ false
two_notes-fresh = refl

finalized-get_recording_example :
    (get_recording
        (decimal 0)
        (take_notes "s" two_notes (start_recording decimal "s" 101 no_replays))
      ≡ none)
    × (get_recording (decimal 0) (
          finalize_recording
            (some (pos 12))
            "s"
            150
            (take_notes "s" two_notes (start_recording decimal "s" 101 no_replays)))
        ≡ some (
          record {
            recording = recording_of (decimal 0) "s" connected_lifecycle 100 default_size;
            disconnected_at = some 150;
            duration_ms = 50;
          },
          entries_of 100 two_notes,
        ))
unfolding get
finalized-get_recording_example =
    finalized-get_recording decimal "s" 101 100 150 two_notes no_replays connected_lifecycle
      (some (pos 12)) 12 no_replays-active connected_core-lifecycle refl two_notes-fresh
      two_notes-IsAscending (within 12 (omega arith) (omega arith)) (omega arith)

abbrev recorded : String → ℕ → RecordingMeta
recorded id ended = record {
  recording = record {
    recording_id = id;
    session_id = id;
    host_id = "h";
    host_label = "host";
    title = "t";
    connection_details = "";
    connection_kind = SessionTransport.ssh;
    connected_at = 100;
    initial = default_size;
  };
  disconnected_at = some ended;
  duration_ms = 0;
}

-- Eleven recordings where ten may stay: the one that ended first is removed.
abbrev eleven : Replays
eleven = record no_replays {
  metas =
      recorded "a" 205
      ∷ recorded "b" 201
      ∷ recorded "c" 203
      ∷ recorded "d" 204
      ∷ recorded "e" 206
      ∷ recorded "f" 207
      ∷ recorded "g" 208
      ∷ recorded "h" 209
      ∷ recorded "i" 210
      ∷ recorded "j" 211
      ∷ recorded "k" 212
      ∷ [];
}

eleven-AllDistinct : AllDistinct eleven.metas
unfolding Prelude.String-discrete
eleven-AllDistinct =
    (refl, (refl, (refl, (refl, (refl, (refl, (refl, (refl, (refl, (refl, (refl, tt)))))))))))

prune-kept_example :
    (length (prune (some (negsuc 4)) eleven).metas ≡ 10)
    × AllNewer (prune (some (negsuc 4)) eleven).metas (drop 10 (newest_first eleven.metas))
prune-kept_example = prune-kept (some (negsuc 4)) 10 eleven (negative 4) eleven-AllDistinct
