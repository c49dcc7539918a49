-- ===== src/Core/Tests.antt =====
-- The theorems on the manager of apps/desktop/src/main/core-manager.ts at concrete calls. A frame's
-- metadata is a number here, printed as one byte.
use dolssh.Prelude
use dolssh.Prelude.{
  ℕ, ◌+◌, ◌≤◌, ◌≡◌, refl, String, Bool, true, false, Option, none, some, List, [], ◌∷◌, ◌++◌,
  if◌then◌else◌, get, set, delete, keys, is_some,
}
use dolssh.Prelude.Decimal.{decimal, decimal_injective}
use dolssh.Prelude.Int.{pos}
use dolssh.Framing.{Frame, control, stream, encode_frame}
use dolssh.Framing.Chunks.{encode_all, joined}
use dolssh.Core.State.{CoreManager, CoreEventType, CoreEvent, TabStatus, TerminalTab, new_manager}
use dolssh.Core.Sessions.{message_payload, no_payload, session_event, new_tab}
use dolssh.Core.Process.{Metadata}
use dolssh.Core.Calls.{Call, SessionCall, EndpointCall, perform, run}
use dolssh.Core.Quiet.{settled}
use dolssh.Core.Accounting.Settled.{settled_at_most_once, waiting-waits_or_settled, exited-settled}
use dolssh.Core.Sound.{misfires, last_size}
use dolssh.Core.Sound.Synced.{misfires-never, resize-told}
use dolssh.Core.Phases.{IsStep}
use dolssh.Core.Phases.Steps.{perform-IsStep}
use dolssh.Core.Closing.{Heard}
use dolssh.Core.Closing.Ended.{perform-Heard}
use dolssh.Core.Stream.{reader, consume_chunks, Delivered, consume_chunks-Delivered}

-- A local shell "0" that is opened, resized and ready; its size was request "2".
abbrev open_calls : List (ℕ × Call)
open_calls =
    (3, Call.event (session_event CoreEventType.connected "0" no_payload))
    ∷ (2, Call.session (SessionCall.resize "0" record { cols = pos 80; rows = pos 24 }))
    ∷ (1, Call.session (SessionCall.connect_local_session "shell" ""))
    ∷ []

abbrev waiting_calls : List (ℕ × Call)
waiting_calls = (4, Call.endpoint (EndpointCall.sftp_connect "files" "")) ∷ open_calls

abbrev answer : CoreEvent
answer = record {
  type = CoreEventType.sftp_connected;
  request_id = some "3";
  session_id = none;
  endpoint_id = some "files";
  job_id = none;
  payload = no_payload;
}

abbrev later_calls : List (ℕ × Call)
later_calls = (6, Call.event answer) ∷ (5, Call.event answer) ∷ []

abbrev ready_tab : TerminalTab
ready_tab = record (new_tab "0" "shell" none 1) { status = TabStatus.connected; last_event_at = 3 }

open_calls-tab : get "0" (run decimal open_calls).sessions.tabs ≡ some ready_tab
unfolding run Prelude.String-discrete get set decimal
open_calls-tab = refl

waiting_calls-waits : is_some (get "3" (run decimal waiting_calls).pending_responses) ≡ true
unfolding run Prelude.String-discrete get set decimal
waiting_calls-waits = refl

-- The answer settles the request once, though it comes twice.
later_calls-settled : settled "3" (run decimal (later_calls ++ waiting_calls)).effects ≡ 1
unfolding run Prelude.String-discrete get set delete decimal
later_calls-settled = refl

settled_at_most_once_example : settled "3" (run decimal (later_calls ++ waiting_calls)).effects ≤ 1
settled_at_most_once_example =
    settled_at_most_once decimal decimal_injective (later_calls ++ waiting_calls) "3"

waiting-waits_or_settled_example :
    settled "3" (run decimal (later_calls ++ waiting_calls)).effects
      + (if is_some (get "3" (run decimal (later_calls ++ waiting_calls)).pending_responses)
          then 1
          else 0)
    ≡ 1
waiting-waits_or_settled_example =
    waiting-waits_or_settled decimal decimal_injective later_calls waiting_calls "3"
      waiting_calls-waits

exited-settled_example :
    (settled "3" (perform decimal (Call.exited "gone") 7 (run decimal waiting_calls)).effects ≡ 1)
    × ((perform decimal (Call.exited "gone") 7 (run decimal waiting_calls)).pending_responses ≡ [])
exited-settled_example =
    exited-settled decimal decimal_injective waiting_calls "gone" 7 "3" waiting_calls-waits

misfires-never_example : misfires (run decimal waiting_calls).effects ≡ 0
misfires-never_example = misfires-never decimal decimal_injective waiting_calls

resize-told_example :
    last_size "0"
      (perform decimal
        (Call.session (SessionCall.resize "0" record { cols = pos 100; rows = pos 30 }))
        5
        (run decimal open_calls)).effects
    ≡ some record { cols = pos 100; rows = pos 30 }
resize-told_example =
    resize-told decimal decimal_injective open_calls "0" ready_tab 99 29 5 open_calls-tab refl

perform-IsStep_example :
    IsStep
      (run decimal open_calls)
      (perform decimal (Call.session (SessionCall.disconnect "0")) 5 (run decimal open_calls))
perform-IsStep_example =
    perform-IsStep decimal decimal_injective open_calls (Call.session (SessionCall.disconnect "0"))
      5

open_calls-running : (run decimal open_calls).is_shutting_down ≡ false
unfolding run Prelude.String-discrete get set decimal
open_calls-running = refl

perform-Heard_example :
    Heard (run decimal open_calls) (perform decimal (Call.exited "gone") 5 (run decimal open_calls))
perform-Heard_example =
    perform-Heard decimal decimal_injective open_calls (Call.exited "gone") 5 open_calls-running

abbrev read_metadata : ℕ → Metadata
read_metadata n = record {
  event = session_event CoreEventType.closed (decimal n) (message_payload "bye");
  type = "data";
  session_id = decimal n;
}

abbrev print_number : ℕ → List ℕ
print_number n = n ∷ []

abbrev read_number : List ℕ → Option ℕ
read_number (n ∷ []) = some n
read_number xs = none

read_print : (n : ℕ) → read_number (print_number n) ≡ some n
read_print n = refl

abbrev two_frames : List (Frame ℕ)
two_frames = stream 5 (104 ∷ 105 ∷ []) ∷ control 7 ∷ []

-- The bytes of the two frames, cut inside a header and inside a payload.
abbrev cut_chunks : List (List ℕ)
cut_chunks =
    (2 ∷ 0 ∷ 0 ∷ [])
    ∷ (0 ∷ 1 ∷ 0 ∷ 0 ∷ 0 ∷ 2 ∷ 5 ∷ 104 ∷ [])
    ∷ (105 ∷ 1 ∷ 0 ∷ 0 ∷ 0 ∷ 1 ∷ 0 ∷ 0 ∷ 0 ∷ 0 ∷ 7 ∷ [])
    ∷ []

two_frames-bytes : encode_all print_number two_frames ≡ some (joined cut_chunks)
unfolding encode_frame
two_frames-bytes = refl

consume_chunks-Delivered_example :
    (t : CoreManager) × (consume_chunks decimal read_metadata read_number cut_chunks 9
        (reader new_manager [])
      ≡ reader t [])
    × Delivered decimal read_metadata 9 two_frames new_manager t
consume_chunks-Delivered_example =
    consume_chunks-Delivered decimal read_metadata print_number read_number read_print two_frames
      cut_chunks 9 new_manager two_frames-bytes
