-- ===== src/Tests/Layer.antt =====
-- The theorem about crates/consensus_layer/src/lib.rs, applied to a stream that ends after its first event.
use rs_block_builder.Common.{ℕ, ◌≡◌, refl, List, [], ◌∷◌, some, filter_map}
use rs_block_builder.Consensus.Layer.{
  ConnectionPoll, connecting, connected, StreamPoll, no_event, stream_ended, event, ConsensusLayer,
  new_layer, poll_next,
}
use rs_block_builder.Consensus.Layer.Reconnecting.{poll_all, item_of, poll_all-stream}

abbrev layer : ConsensusLayer
layer = (poll_next {Item = ℕ} new_layer (connected, no_event)).0

abbrev polls : List (ConnectionPoll × StreamPoll ℕ)
polls = (connecting, event 7) ∷ (connected, stream_ended) ∷ (connected, stream_ended) ∷ []

reads : layer.payload_stream ≡ some 0
unfolding poll_next new_layer rs_block_builder.Consensus.Layer.poll_connection
reads = refl

poll_all-stream_example :
    ((poll_all layer polls).0.payload_stream ≡ some 0)
    × ((poll_all layer polls).1 ≡ filter_map item_of polls)
poll_all-stream_example = poll_all-stream layer 0 polls reads
