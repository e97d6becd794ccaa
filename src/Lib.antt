-- ===== src/Lib.antt =====
-- ChannelTerm: device sessions over serial and SSH channels, shared by several clients.
--
-- A Session (internal/core/session) owns a Channel and keeps three bounded histories of it: the
-- bytes received, the write operations with their actors, and the typed events. Each client reads
-- them at its own absolute cursor and never holds up the Channel reader. The Manager
-- registers Sessions under their IDs and short references, and lets concurrent callers share the
-- opening of an endpoint. The application
-- (internal/core/app) decides through its lease coordinator who may write to a Session: a terminal,
-- a debugger or a file transfer takes an expiring lease, and a file transfer can be cancelled by the
-- user in a dialogue of question and answer. Two more parts of the core stand by themselves: the
-- debugger's front end reads and writes the GDB/MI protocol (internal/core/debugger), and the device
-- registry (internal/core/device) scans for endpoints, gives each device an identity that survives a
-- reconnection, and publishes what has changed. Files reach a remote shell by paths that are quoted for
-- it (internal/transport/ssh). The same
-- package carries whole trees of files over the SCP protocol. In a terminal that is attached to a
-- Session, a controller takes the local commands out of the input (internal/cli/interactive), and a
-- renderer highlights complete lines of the output (internal/cli/highlight).
--
-- Which file models what:
-- - Prelude: the names of the libraries in use, Boolean tests, lists over the native numbers, Go's
--   `copy` (`splice`), 64-bit counters (`u64`, `sub64`) and signed arguments. Prelude.Maps has Go's
--   map as a list of keys and values, Prelude.ByteStrings a string as its bytes.
-- - Circular, Circular.Window: circular storage and what it shows of a history.
-- - Session.Stream: errors, results and wakeups that the three histories share.
-- - Session.Receive: internal/core/session/ring_buffer.go. `receiveBuffer` is `Buffer`, and each
--   method is a function of the same name. The two branches of `append` are `append_large` and
--   `append_small`.
-- - Session.Activity: internal/core/session/activity_buffer.go. The loop of `append` is `make_room`,
--   on as much fuel as there are entries; each round removes one, so that is enough.
-- - Session.Events: internal/core/session/event_buffer.go. Metadata is a data type of its own, and
--   the two clone functions are a mutual block.
-- - Session.Lifecycle: internal/core/session/session.go. `Connect` is in the parts between which it
--   leaves `mu`. What the reader's error path and `Close` do behind `mu` is one step for each history
--   and each channel, `read_error_step` and, in Ends, `close_step`: the fields `reader` and `closer`
--   say where they stand. Access has the reads and `PublishEvent`,
--   Writes has `Write` and the pending-input summary, Steps the step relation of all of them. The
--   loop of `Write` runs on the replies of the Channel, one for each call.
-- - Session.Manager: internal/core/session/manager.go. A Session is its ID and its instance; its state
--   is read from a function. Names has the references and keys, Openings `GetOrCreate` in the parts
--   between which it leaves `mu`, Steps the step relation. The loop of `nextReferenceLocked` runs on
--   two rounds for each Session and one more: each round that goes on has met a name in use.
-- - Lease: internal/core/app/lease.go. `Coordinator` is the part of `leaseCoordinator` that belongs
--   to one Session ID, and the counters that all of them share. The operations are in Lease.Requests
--   (acquire, renew, release, status), Lease.Expiry (timers), Lease.Transfer (the cancel dialogue)
--   and Lease.Writes (write, removal); Lease.Steps is the step relation of all of them,
--   Lease.Recovery follows it after an expiry that closes the Session, and Lease.Cancellation goes
--   through one cancellation.
-- - ConnectionPolicy: internal/core/connectionpolicy/policy.go.
-- - Debugger.Mi: internal/core/debugger/mi.go. The function literals of `Parse` are functions of
--   their own on the bytes that are left. `value`, `fields` and `items` run on fuel, twice the number
--   of those bytes and one more: each call that recurs without reading has read before. An error is
--   its kind, without its text.
-- - Device.Store: internal/core/device/state.go. The file is the list of its records, or absent or
--   unreadable; drawing an ID is a function from the number of the draw, which can fail. The eight
--   attempts of `allocateID` are its fuel, as in the source.
-- - Device.Events, Device.Registry: internal/core/device/registry.go. The scanner is a parameter: what
--   a scan finds is an argument of `scan`.
-- - Transport.Scp: internal/transport/ssh/scp.go. `scpPath` is in the file itself, and what a POSIX
--   shell makes of its quotes in Words; Names has `ValidFileName`, Records the control records and
--   `scpAck`, Receive `receiveSCP`, and Upload `scpUploadCommand` and `uploadSCP`. The peer is the list
--   of the bytes that it sends. The loop of `receiveSCP` runs on one round more than there are bytes:
--   each round reads one. `send` recurs on the tree of files. What the caller brings (the results of
--   writes, of `receive`, `verify` and `progress`) is a record of functions.
-- - Cli.Interactive: internal/cli/interactive/controller.go. The loop of `Process` carries the bytes
--   since `remoteStart`.
-- - Cli.Highlight.Vt: internal/cli/highlight/vt.go; Sgr has `applySGR`. An index out of range is `none`.
-- - Cli.Highlight.Matches, Cli.Highlight.Renderer: internal/cli/highlight/highlight.go, `renderMatches`
--   and `Renderer`. What is written is a list of pieces, so that styles and text can be told apart.
--   The loop of `drain` runs on one round more than there are pending bytes, and that of `Write` on two
--   rounds for each byte and two more: each round takes bytes, or begins to pass them through.
--
-- Conventions. A channel that is closed and replaced to wake waiters (`notify`, `changed`) is the
-- number of the present one. A blocking read is a list of what its waits see, and one round of it is
-- `poll`, where `none` is a round that waits. Each reading of the clock is an argument of its own,
-- in nanoseconds. Closing a closed channel is a panic, and then an operation returns `none`. A lock
-- that is held throughout makes an operation one step; the gate of a Session is a field, since a
-- write holds it over several steps. Cursors are 64-bit: where a property needs that a counter has
-- not wrapped, it has a condition. Capacities and sizes are `int`s that stay far below their bound,
-- and have none. A transfer's or a request's ID is the number in its text.
--
-- Not modelled: sockets, processes and the ports themselves; the scanner of devices and the JSON
-- files; the command line and the MCP server, which call what is modelled; the text of messages; the
-- regular expressions of the highlighter, which are given as functions.
pub mod Prelude
pub mod Circular
pub mod Session
pub mod Lease
pub mod ConnectionPolicy
pub mod Debugger
pub mod Device
pub mod Transport
pub mod Cli
