-- ===== src/Lib.antt =====
-- The Rust client: authentication, one socket at a time with reconnects, sends with answers, and
-- notifications, over JSON-RPC on a WebSocket.
--
-- Parts and files:
-- - src/types.rs: Types/Options (`Options`, `validate`), Types/Device (enumerations, `Auth`),
--   Types/Messages (records and events), Types/Failure (`Error`, results), Types/Decode (what the
--   serde derives read and write), Types/Text (the parts of `str` that the code uses).
-- - src/protocol.rs: Protocol/Normalize (`normalize`, `decode`), Protocol/Outbound (`request`,
--   `connect`, `send`), Protocol/Inbound (`parse`, `response`, `recv`, `event`).
-- - src/client.rs: Session (`Worker::session`, `write`, `flush`), Worker/Establish
--   (`Worker::establish`), Worker/Supervise (`Worker::supervise`, `Worker::run`), Backoff
--   (`reconnect_delay`), Client/Tls (`tls_config`), Client/Create (`Client::new`), Client/Handle
--   (the other methods of `Client`), System (a client, its callers and its worker together).
-- - examples/group_acceptance.rs, examples/cluster_acceptance.rs: Probe/Observe (`observe`),
--   Probe/Interruption and Probe/Commands (the commands of `control`), Probe/Control (`control`),
--   Probe/Setup (`run`);
--   examples/network_acceptance.rs: Probe/Network (the phases of `Pair`), Probe/Network/Control
--   (`control`);
--   examples/acceptance.rs: Probe/Soak (`run`); examples/roundtrip.rs: Probe/Smoke (`receive`, `run`);
--   examples/chat.rs: Probe/Chat (the loop of `run`).
--
-- A handle puts commands into the queue of its run; the worker establishes a socket, tells the
-- handle's cells, and runs the session, which takes the commands, writes them, and answers them
-- from the frames that arrive. The child modules hold the lemmas: Session/Answers, Balance and
-- Rounds count answers, Session/Deadlines, Wakeups, Liveness and Heartbeat are about time,
-- Session/Leaves, Keys and Size about what stays pending, Session/Receipts about the order of writes,
-- Session/Order about the order in which a hash map holds the pending sends.
-- System takes the rounds of a session as steps among those of the callers, the queue and the end of
-- runs: System/Permits counts permits, System/Accounts tickets, and System/Life is the abstract life
-- of one send that the system refines, System/Fence follows a send of an earlier socket,
-- and System/Sends takes a send on a handle for a run of its steps. Session/Typed and
-- Protocol/Inbound/Ranges are about the ranges of numbers.
--
-- How state is modelled: the local variables of `session` are a record, and an iteration of its
-- loop is a function of that record and of an input that says which branch of `select!` is ready,
-- what the clock reads, and whether a write succeeds. What the code does to the outside is a list
-- of effects, in order. A loop is a recursion over the list of its inputs, so any interleaving of
-- branches is some list. Reply channels are numbers (tickets), instants and durations are
-- nanoseconds, and the maps of pending sends are association lists. `u32`, `u64` and `Duration`
-- arithmetic keeps its wrapping or saturation. UUIDs and random numbers are arguments.
--
-- Parameters: serde_json and base64 are records of operations (Json.antt) with the documented laws
-- that the theorems use; the URI parser and the TLS configuration are arguments of `new`, and
-- the stores of rustls are arguments of `tls_config`.
--
-- Bounds and fuel: `normalize` recurses into the header with the depth of the value as fuel, which
-- is enough because an entry of an object is less deep than the object. Decimal printing has 20
-- digits, as many as a `u64` needs.
--
-- Not modelled: sockets and timers themselves, the capacity of the broadcast channel and its
-- lagging receivers, `subscribe`, the mutex around the run (which only forbids some of the orders of
-- System), the tests, and what else the examples do. The steps of System take no command whose UUID
-- is that of a pending send.
pub mod Base
pub mod Json
pub mod Types
pub mod Protocol
pub mod Backoff
pub mod Session
pub mod Worker
pub mod Client
pub mod Probe
pub mod System
pub mod Tests
