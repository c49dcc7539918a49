-- ===== src/Lib.antt =====
-- A verification library for the desktop application of dolssh, an SSH client: the TypeScript
-- program under apps/desktop/src. Its parts, as they are modelled here:
--
--   * Workspace: the store of the renderer, apps/desktop/src/renderer/store/createAppStore.ts. A
--     session is shown by a tab of the strip or by a pane of a workspace, whose panes are the leaves
--     of a layout tree. Workspace/Layout is the tree with insertion, removal, move, resize and
--     renaming (insertSessionIntoWorkspaceLayout and the functions beside it), Workspace/Strip the
--     order of the tabs (reorderDynamicTab, resolveAdjacentTarget, resolveNextVisibleTab), and
--     Workspace/Store the state with the operations on it: Drag (splitSessionIntoWorkspace), Panes
--     (move, detach, focus, resize and close), Session (removeSessionFromState,
--     replaceSessionReferencesInState), Opening (pending sessions, progress and errors),
--     Shared and Notifications (shared sessions and their chat messages). Placement and Histories
--     are the invariant.
--   * Framing: the frames on the pipe to the core process, apps/desktop/src/main/core-framing.ts.
--     Codec is what is written and read back, Parsing the parser's loop, Pushes one call after the
--     other, Chunks a sequence of chunks.
--   * Sharing: sessions shared with viewers, apps/desktop/src/main/session-share-service.ts. Share is
--     one share with its queue, Service the listeners of its socket, Methods the methods that windows
--     and the core call. The service sends its states to the store, which keeps them by
--     handleSessionShareEvent (Workspace/Store/Shared).
--   * Core: the manager of the core process, apps/desktop/src/main/core-manager.ts. State is its state
--     with the requests, events and effects, Sessions the methods on terminal sessions (connect, write,
--     resize, disconnect and the record of a session's life), Requests those that wait for an answer
--     (requestResponse, resolvePendingResponse, rejectAllPending), Endpoints SFTP, containers and port
--     forwards over the records of Records, Events what an event does (handleControlEvent), Process the
--     reading of the pipe and the end of the process, Environment the environment in which the core
--     is run (buildCoreChildEnv and the functions above it), Replies what its answers about files
--     and containers are read into. Calls lists what can happen, in any order. Quiet, Settling and
--     Accounting are about requests, Sound about tabs and sizes, Idle about what leaves all these
--     alone, Phases is the protocol of a session as the windows see it, Closing the report of its
--     end, Turns both at once, and Stream joins the manager to Framing's parser.
--   * Replay: recordings of sessions, apps/desktop/src/main/session-replay-service.ts, over the core
--     manager's record of a session. Notes is what is written while a session goes on, Recordings what
--     a finished recording gives back, Retention and Limits which are kept.
--   * Sftp: the panes of files, of the same store: selection (resolveNextSftpSelection), history
--     (pushHistory, navigateSftpBack, navigateSftpForward) and what a drag transfers.
--   * Logs: the lines of a container's log, of the same store (mergeContainerLogLines).
--   * Prelude: tests, lists, maps, integers and decimals over the native numbers.
--
-- A method of a class or an action of the store is a function from the state before to the state
-- after. Where a method waits for an answer, each part between two waits is a function of its own, so
-- that other events can come between. Random ids are drawn from a stream `uuid`, by a counter in the
-- state; a theorem that needs them different says so. Texts of JSON are the work of parameters, with
-- the hypothesis that parsing reads back what was printed. Ratios of splits are thousandths. A share
-- is an object that several parties refer to, so that the service has a heap of shares.
--
-- The parser's loop runs on fuel, the length of its buffer: each round takes a header of nine bytes
-- at least, and `parse_loop-fuel` (Framing/Parsing) is that more fuel makes no difference. The search
-- for a free title stops after as many numbers as there are titles.
--
-- Not modelled: user interface components, the calls between Electron's processes, files, windows and
-- network requests, the Go services, and the main process's other services (sync, authentication,
-- repositories, imports, AWS); of the core manager how its process is found and started and the metadata of log
-- entries; of the recordings their windows and paths; and of the store the listing and the transfers
-- of SFTP panes, container tabs and the connection flows.
pub mod Prelude
pub mod Core
pub mod Framing
pub mod Logs
pub mod Replay
pub mod Sftp
pub mod Sharing
pub mod Workspace
