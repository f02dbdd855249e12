-- ===== src/Consensus/Layer.antt =====
-- crates/consensus_layer/src/lib.rs and connection.rs: the stream of payload attributes from the beacon node.
-- Connecting and the streams are of libraries: a poll is a function of what the connection task and
-- the stream have ready. Connections are counted, and a stream is known by its connection.
pub mod Reconnecting
use rs_block_builder.Common.{ℕ, ◌+◌, List, [], ◌∷◌, Option, none, some}

-- What the connection task has: nothing yet, a stream, or its failure.
pub data ConnectionPoll : Type 0 where
  connecting connected connection_failed : ConnectionPoll

-- What a stream has: nothing yet, an item, an error, or its end.
pub data StreamPoll (Item : Type 0) : Type 0 where
  no_event stream_error stream_ended : StreamPoll Item
  event : Item → StreamPoll Item

-- `cl_connection` is the current connection, of which `tasks` have been spawned, and `payload_stream` the
-- connection whose stream is read.
pub record ConsensusLayer : Type 0 where
  pub cl_connection : ℕ
  pub tasks : ℕ
  pub payload_stream : Option ℕ

unfoldable pub new_layer : ConsensusLayer
new_layer = record { cl_connection = 0; tasks = 1; payload_stream = none }

-- `ClConnection::poll`: a failed task is spawned again; whether there is a stream is for the caller.
unfoldable pub restart : ConsensusLayer → ConnectionPoll → ConsensusLayer
restart s connecting = s
restart s connected = s
restart s connection_failed = record s { tasks = s.tasks + 1 }

unfoldable pub poll_connection : ConsensusLayer → ConnectionPoll → ConsensusLayer
unfolding restart
poll_connection s connecting = restart s connecting
poll_connection s connected = record s { payload_stream = some s.cl_connection }
poll_connection s connection_failed = restart s connection_failed

-- A poll of a stream that is there. Behind its end the new connection is polled once, and a stream that
-- it has already is dropped.
unfoldable pub poll_stream :
    {Item : Type 0}
    → ConsensusLayer
    → ConnectionPoll × StreamPoll Item
    → ConsensusLayer × Option Item
unfolding restart
poll_stream s (task, no_event) = (s, none)
poll_stream s (task, stream_error) = (s, none)
poll_stream s (task, stream_ended) =
    (restart (record s { cl_connection = s.cl_connection + 1; tasks = s.tasks + 1 }) task, none)
poll_stream s (task, event item) = (s, some item)

-- `ConsensusLayer::poll_next`: nothing while pending; it never ends.
unfoldable pub poll_next :
    {Item : Type 0}
    → ConsensusLayer
    → ConnectionPoll × StreamPoll Item
    → ConsensusLayer × Option Item
unfolding poll_connection poll_stream
poll_next s found = elim s.payload_stream [
  | some stream ↦ poll_stream s found
  | none ↦ (poll_connection s found.0, none)
]
