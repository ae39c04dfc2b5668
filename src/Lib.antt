-- ===== src/Lib.antt =====
-- caly: the core of the daemon's control plane.
--
-- A client submits commands under an operation id. The admission controller
-- (crates/caly-application/src/operations/admission.rs) reserves a record in the bounded operation
-- store (operations/store.rs), hands the command to the bounded command queue
-- (command_bus/mod.rs), and takes the reservation back where the queue refuses. The owner of the
-- command moves the record through its states (operations/record.rs); the cancellation token
-- (operations/cancellation.rs) decides between a cancel request and a commit. What the daemon shows
-- is a presentation snapshot: the event sequencer (events/sequencer.rs) numbers each delta, keeps a
-- window of them for replay and sends it to the state projector (projection/projector.rs); the
-- projection runtime (projection/runtime.rs) joins the two and serves the watches of clients.
--
-- Files:
--   Base            shared names, Boolean tests of numbers, results, lists; Base.Table stands for the
--                   HashMap of std (put, get, remove, size), Base.Channel for a bounded std channel.
--   Domain          crates/caly-domain/src: Text is text.rs (BoundedText::new is `new_text`, the
--                   clamp `from_nonempty_clamped`), Identity is identity.rs, Operation is
--                   operation.rs, Event is event.rs, State is state/, capability.rs and node/display.rs.
--   Operations      crates/caly-application/src: Cancellation, Record, Store and Admission are the
--                   files of operations/ under their names, Command is command_bus/mod.rs. A method
--                   of the source is the function of the same name; a part of its body is a helper
--                   next to it. Store.Eviction, Invariant, Insertion, History and Finality hold the
--                   lemmas of the store, Admission.Submit and Admission.Calls those of admission.
--   Events          Sequencer is events/sequencer.rs, with its lemmas on replay and publication;
--                   Bus is events/bus.rs, the bus of daemon events.
--   Projection      Projector and Runtime are projection/projector.rs and projection/runtime.rs;
--                   Projector.Acceptance is on the events that are applied, Runtime.Publish,
--                   Runtime.Sync and Runtime.Watch on publication, on clients that replay events, and
--                   on the answer to each cursor.
--   Protocol        crates/caly-protocol/src: Handshake is protocol/v2/handshake.rs and negotiation.rs,
--                   Budget is protocol/v2/budget.rs, Framing is framing.rs; a peer's bytes are a list
--                   that ends or breaks.
--   Shutdown        crates/caly-application/src/runtime: shutdown.rs, Runner is shutdown_runner.rs,
--                   Fatal is fatal.rs.
--   Supervision     crates/caly-application/src/supervision/topology.rs, the check for wait cycles.
--   Server          Sessions is crates/caly-server/src/json/session.rs.
--   Application     crates/caly-application/src: Routing is routing.rs and routing_fanout.rs; Reporting
--                   is actor_result.rs and actors/reporting.rs with crates/caly-ports/src/error.rs;
--                   Ports holds the traits of crates/caly-ports/src as records of operations;
--                   Actors and Handlers are actors/, one module for the handler of each owner, with
--                   Handlers.Deliver the choice of the handler, which is spawn_handlers of
--                   crates/caly-composition/src/handlers.rs, Handlers.Answers and Handlers.Reports on
--                   what a handler reports, and Handlers.Transaction on the calls that an apply makes; Loop is runtime/actor_loop.rs, and
--                   Loop.Drains is on an actor over its mailbox.
--   Template        crates/caly-template/src/framing.rs, the frames of the template worker: Slices and
--                   Header are on reading a frame's fields, Request and Response on what the encoder
--                   makes, and their Accepted on what the decoder takes.
--   Recovery        CrashLoop is crates/caly-composition/src/recovery.rs, with Backoff on its policy and
--                   Waits on its monitor; AtomicWrite and RestoreFirst are fs/mod.rs and recovery/ of
--                   crates/caly-platform/src.
--   Subscription    Chain is crates/caly-subscription/src/chain.rs; Walk is on one walk, Settled on the
--                   rank of the complete nodes, Ranked on all walks, Accepts on the verdict.
--
-- Conventions. A method of `&mut self` takes the state and returns the new state with the result, so
-- what a failing call leaves behind is visible. Identities of 128 bits and milliseconds are numbers;
-- a u64 that counts carries its bound where the source checks it (`checked_next`). A text is a list
-- of Unicode code points, and its bytes are those of UTF-8. A String call that panics returns none. A
-- usize has 64 bits.
--
-- Hypotheses. The backends stand behind traits: Handlers.PortLaws.FittingFailures says that their
-- failures keep to the bounds of FailureMessage, which is all that is assumed of them: what a rollback
-- restores is theirs, and so is the wording of a failure. Handlers.Tests has backends that meet it.
-- Recovery.RestoreFirst.Laws.Codec says that serde_json reads back a record that it wrote, and that no
-- bytes are no record.
--
-- Fuel. `bisect` takes the length of the list, and each step shrinks the range; `evict` and
-- `trim` recurse on the eviction queue; `run_loop` takes one more than the ten shutdown phases,
-- `remove_ready` one more than the eight components; `pop_to_boundary` takes one
-- more than the bytes that are left; `walk_loop` takes a step for each node and one more.
--
-- Not modelled: sockets, files, processes and the tokio runtime; the adapters to the proxy cores; the
-- subscription crate but its chain check; the profile, DNS and core configuration crates; serde visitors and Display texts.
pub mod Base
pub mod Domain
pub mod Operations
pub mod Events
pub mod Projection
pub mod Protocol
pub mod Shutdown
pub mod Server
pub mod Supervision
pub mod Application
pub mod Template
pub mod Recovery
pub mod Subscription
