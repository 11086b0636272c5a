-- ===== src/Lib.antt =====
-- The agent of scomp: a program that shares terminal sessions of its host with remote clients
-- through a relay, and the fake shell that it can offer instead of a real one.
--
-- How the parts work together. A session is a process behind a PTY (internal/pty/session.go) or the
-- fake shell (fakeshell/). Its output goes into a ring of the most recent bytes
-- (internal/ring/ring.go) and, as events, to the channels that subscribed
-- (internal/stream/stream.go).
-- The agent (cmd/scomp/main.go) subscribes once for each session, forwards the events to the relay
-- as messages (protocol/protocol.go), and answers a client's attach by a snapshot of the ring, which
-- the stream puts in the channel between the outputs, so that it sits at an exact point of them.
-- Input comes back from the relay, is filtered by the session's mode, and is written to the session;
-- in the fake shell it is decoded into keys (fakeshell/term/keys.go), which a line editor
-- (fakeshell/term/editor.go) turns into lines. The registry (internal/sessions/) knows the running
-- sessions by identifier, and
-- the catalog (cmd/scomp/session_catalog.go) those that could be attached to. The fake shell's
-- commands work on a file tree in memory (fakeshell/vfs/vfs.go).
--
--   Common      numbers, tests, options and byte sequences, and their lemmas
--   Ring        internal/ring/ring.go: `Buffer` and its methods, under the same names
--   Stream      internal/stream/stream.go: `Stream` and its methods; `Stream.Order` runs a sequence
--               of them against one subscriber
--   Pty         internal/pty/session.go: `modeTracker`, `process`, `transformInput`; `Session` has
--               `emit` and `Write`
--   Base64      the standard library's encoding of terminal bytes in a message
--   Protocol    protocol/protocol.go: the messages, as records
--   Agent       cmd/scomp/main.go: `Policy` has `inputAllowed`, `resizeAllowed` and
--               `parseSessionMode`; `Snapshot` has `sendSnapshot`; `Handler` has
--               `handleServerMsg` and the callbacks of `runAgent` that it uses, with a list of what
--               they do to the outside; `Catalog` has `scan`
--               (cmd/scomp/session_catalog.go) and, in `Delivery`, the way of its changes to the
--               main
--               loop of a connection, whose steps may come in any order; `Pairing` has the prompt
--               for a pairing PIN (cmd/scomp/pairing_prompt.go), its steps in any order
--   Sessions    internal/sessions: `Registry`; a terminal is a number. Its methods are split where
--               they let go of the lock; `Attach` has `CreateWithID` with the steps of
--               others between its halves; `Watch` runs all parts in any order, together
--               with the goroutines that wait in `forgetWhenDone`
--   Vfs         fakeshell/vfs/vfs.go: `Paths` has `Resolve` and the package `path`; `Tree` has
--   `Stat`
--               and `ReadFile`; `Write` has `WriteFile`, `Touch`, `Mkdir` without parents, and
--               `Remove` of a file; `Dirs` has `ReadDir` and the recursions of `Mkdir` and `Remove`
--   Shell       fakeshell/: `Words` has `split` and `expand` of shell.go; `Session` and `Tty` have
--               the types of session.go; `Date` has date.go; `Layout` has `wrapText`, `columns` and
--               `stripANSI` of shell.go; `Commands` and `Files` have the commands of commands.go
--               that
--               work on files, directories and variables
--   Mux         internal/tmuxsess and internal/screensess: the parsers of the listings and the
--               arguments of the programs
--   Strings     the functions of Go's `strings` that these call
--   Term        fakeshell/term: `Decoder` has `Decoder.Feed`; `Line`, `Render` and `Editor` have
--               `Editor.ReadLine`, its cases in the order of the source's switch
--
-- Conventions. A byte, a rune and a key are native numbers, a string is the list of its bytes or
-- runes, and a nil slice is the empty one except where the source tells them apart. A method that
-- changes its receiver returns the new one. A mutex makes a method one step; the orders in which
-- steps can happen are lists of operations, and the theorems about runs hold for all of them.
--
-- Fuel. The loop of `sendSnapshot` advances by 48 KiB a round, so the length of the history is
-- enough rounds; the printing of a number has as much fuel as the number and one. The loop of
-- `split`
-- reads a rune at least in each round, so the length of the line is enough. `mkdir -p`
-- climbs by one name in each round, so the length of the path and two is enough, also for the empty
-- path, whose parent is `.`, which is its own parent. `Remove` has as many rounds
-- as there are directories and one; a run that is out of fuel is told apart from one that is done,
-- and that a run never is out of fuel is not proved. Everything else is structural recursion on
-- the input.
--
-- Parameters. The registry takes as arguments which terminals have ended, what starting a process
-- answered, and the time. The file tree takes the base tree's answers (`Base`) and the time.
--
-- Not modelled: JSON, the websocket, goroutines, timers, files and processes, which are I/O around
-- the modelled code; the commands of the fake shell, most of which format invented data; ed25519
-- and key files.
pub mod Common
pub mod Ring
pub mod Pty
pub mod Stream
pub mod Base64
pub mod Protocol
pub mod Agent
pub mod Term
pub mod Sessions
pub mod Vfs
pub mod Shell
pub mod Strings
pub mod Mux
