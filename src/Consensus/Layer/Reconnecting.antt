-- ===== src/Consensus/Layer/Reconnecting.antt =====
-- Which stream `ConsensusLayer` of crates/consensus_layer/src/lib.rs reads after one has ended.
use rs_block_builder.Common.{ℕ, ◌≡◌, refl, ◌∙◌, List, [], ◌∷◌, Option, none, some, filter_map}
use rs_block_builder.Consensus.Layer.{
  ConnectionPoll, connecting, connected, connection_failed, restart, StreamPoll, no_event,
  stream_error, stream_ended, event, ConsensusLayer, poll_next, poll_stream,
}

restart-stream :
    (s : ConsensusLayer) (found : ConnectionPoll)
    → (restart s found).payload_stream ≡ s.payload_stream
unfolding restart
restart-stream s connecting = refl
restart-stream s connected = refl
restart-stream s connection_failed = refl

module _ {Item : Type 0} where
  abbrev pub cons_item : Option Item → List Item → List Item
  cons_item none items = items
  cons_item (some item) items = item ∷ items

  -- The items of successive polls, and the layer after them.
  unfoldable pub poll_all :
      ConsensusLayer → List (ConnectionPoll × StreamPoll Item) → ConsensusLayer × List Item
  poll_all s [] = (s, [])
  poll_all s (found ∷ polls) =
      let (next, item) = poll_next s found in
      let (last, items) = poll_all next polls in (last, cons_item item items)

  abbrev pub item_of : ConnectionPoll × StreamPoll Item → Option Item
  item_of (task, no_event) = none
  item_of (task, stream_error) = none
  item_of (task, stream_ended) = none
  item_of (task, event item) = some item

  poll_stream-item :
      (s : ConsensusLayer) (found : ConnectionPoll × StreamPoll Item)
      → ((poll_stream s found).0.payload_stream ≡ s.payload_stream)
        × ((poll_stream s found).1 ≡ item_of found)
  unfolding poll_stream
  poll_stream-item s (task, no_event) = (refl, refl)
  poll_stream-item s (task, stream_error) = (refl, refl)
  poll_stream-item s (task, stream_ended) = (restart-stream _ task, refl)
  poll_stream-item s (task, event item) = (refl, refl)

  poll_next-poll_stream :
      (s : ConsensusLayer) (stream : ℕ) (found : ConnectionPoll × StreamPoll Item)
      → s.payload_stream ≡ some stream
      → poll_next s found ≡ poll_stream s found
  unfolding poll_next
  poll_next-poll_stream s stream found e = rw (e) refl

  cons_item-filter_map :
      (o : Option Item) (items : List Item)
      → cons_item o items ≡ elim o [ none ↦ items | some item ↦ item ∷ items ]
  cons_item-filter_map none items = refl
  cons_item-filter_map (some item) items = refl

  -- Once the consensus layer reads a stream, it reads that one over any polls, whatever its new
  -- connections have and however often the stream ends: its items are exactly the events of that
  -- stream, in their order.
  pub poll_all-stream :
      (s : ConsensusLayer) (stream : ℕ) (polls : List (ConnectionPoll × StreamPoll Item))
      → s.payload_stream ≡ some stream
      → ((poll_all s polls).0.payload_stream ≡ some stream)
        × ((poll_all s polls).1 ≡ filter_map item_of polls)
  unfolding poll_all
  poll_all-stream s stream [] e = (e, refl)
  poll_all-stream s stream (found ∷ polls) e =
      let same = poll_next-poll_stream s stream found e in
      let (kept, is_item) = poll_stream-item s found in
      let (last, items) = poll_all-stream (poll_stream s found).0 stream polls (kept ∙ e) in
      rw (same, items, is_item)
        (last, cons_item-filter_map (item_of found) (filter_map item_of polls))
