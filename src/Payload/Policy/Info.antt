-- ===== src/Payload/Policy/Info.antt =====
-- What `AuctionBidInfo` of crates/payload/src/bidder/policy.rs remembers over any sequence of updates.
use rs_block_builder.Common.{
  ℕ, ◌≡◌, refl, ap, ◌∙◌, List, [], ◌∷◌, Option, none, some, leb, if◌then◌else◌, max, arith,
  Bool-cases, inl, inr,
}
use rs_block_builder.Common.Int.{ℤ}
use rs_block_builder.Payload.State.{BuildState}
use rs_block_builder.Payload.Policy.{
  AuctionBidInfo, new, refresh_time, update_block_info, update_bid_info, update_auction_bid_info,
}

-- A call that changes the information.
pub data Update (Tx : Type 0) : Type 0 where
  at_time : ℤ → Update Tx
  built : BuildState Tx → ℕ → Update Tx
  bid_sent : ℕ → Update Tx
  bid_seen : ℕ → Update Tx

module _ {Tx : Type 0} where
  unfoldable pub apply : AuctionBidInfo Tx → Update Tx → AuctionBidInfo Tx
  apply info (at_time t) = refresh_time info t
  apply info (built s v) = update_block_info info s v
  apply info (bid_sent b) = update_bid_info info b
  apply info (bid_seen b) = update_auction_bid_info info b

  unfoldable pub apply_all : AuctionBidInfo Tx → List (Update Tx) → AuctionBidInfo Tx
  unfolding apply
  apply_all info [] = info
  apply_all info (u ∷ us) = apply_all (apply info u) us

  -- The highest values among the updates.
  unfoldable pub highest_block : ℕ → List (Update Tx) → ℕ
  highest_block m [] = m
  highest_block m (built s v ∷ us) = highest_block (max m v) us
  highest_block m (at_time t ∷ us) = highest_block m us
  highest_block m (bid_sent b ∷ us) = highest_block m us
  highest_block m (bid_seen b ∷ us) = highest_block m us

  unfoldable pub highest_seen : ℕ → List (Update Tx) → ℕ
  highest_seen m [] = m
  highest_seen m (bid_seen b ∷ us) = highest_seen (max m b) us
  highest_seen m (at_time t ∷ us) = highest_seen m us
  highest_seen m (built s v ∷ us) = highest_seen m us
  highest_seen m (bid_sent b ∷ us) = highest_seen m us

  -- The last block of the highest value.
  unfoldable pub best_of : Option (BuildState Tx) → ℕ → List (Update Tx) → Option (BuildState Tx)
  best_of o m [] = o
  best_of o m (built s v ∷ us) =
      let kept = best_of o m us in
      let taken = best_of (some s) v us in if leb m v then taken else kept
  best_of o m (at_time t ∷ us) = best_of o m us
  best_of o m (bid_sent b ∷ us) = best_of o m us
  best_of o m (bid_seen b ∷ us) = best_of o m us

  block_value-built :
      (info : AuctionBidInfo Tx) (s : BuildState Tx) (v : ℕ)
      → (update_block_info info s v).best_block_value ≡ max info.best_block_value v
  unfolding update_block_info
  block_value-built info s v = ground arith

  seen-built :
      (info : AuctionBidInfo Tx) (s : BuildState Tx) (v : ℕ)
      → (update_block_info info s v).best_auction_bid_value ≡ info.best_auction_bid_value
  unfolding update_block_info
  seen-built info s v = ground arith

  apply_all-block_value :
      (info : AuctionBidInfo Tx) (us : List (Update Tx))
      → (apply_all info us).best_block_value ≡ highest_block info.best_block_value us
  unfolding apply_all apply highest_block refresh_time update_bid_info update_auction_bid_info
  apply_all-block_value info [] = refl
  apply_all-block_value info (built s v ∷ us) =
      apply_all-block_value (update_block_info info s v) us
      ∙ ap (λ m. highest_block m us) (block_value-built info s v)
  apply_all-block_value info (at_time t ∷ us) = apply_all-block_value (refresh_time info t) us
  apply_all-block_value info (bid_sent b ∷ us) = apply_all-block_value (update_bid_info info b) us
  apply_all-block_value info (bid_seen b ∷ us) =
      apply_all-block_value (update_auction_bid_info info b) us

  apply_all-seen :
      (info : AuctionBidInfo Tx) (us : List (Update Tx))
      → (apply_all info us).best_auction_bid_value ≡ highest_seen info.best_auction_bid_value us
  unfolding apply_all apply highest_seen refresh_time update_bid_info update_auction_bid_info
  apply_all-seen info [] = refl
  apply_all-seen info (built s v ∷ us) =
      apply_all-seen (update_block_info info s v) us
      ∙ ap (λ m. highest_seen m us) (seen-built info s v)
  apply_all-seen info (at_time t ∷ us) = apply_all-seen (refresh_time info t) us
  apply_all-seen info (bid_sent b ∷ us) = apply_all-seen (update_bid_info info b) us
  apply_all-seen info (bid_seen b ∷ us) = apply_all-seen (update_auction_bid_info info b) us

  apply_all-best :
      (us : List (Update Tx)) (info : AuctionBidInfo Tx)
      → (apply_all info us).best_block ≡ best_of info.best_block info.best_block_value us
  unfolding apply_all apply best_of refresh_time update_bid_info update_auction_bid_info
      update_block_info
  apply_all-best [] info = refl
  apply_all-best (built s v ∷ us) info = elim (Bool-cases (leb info.best_block_value v)) [
    | inl y ↦
        rw (y, apply_all, apply, update_block_info, best_of)
          (apply_all-best us (record info { best_block = some s; best_block_value = v }))
    | inr n ↦ rw (n, apply_all, apply, update_block_info, best_of) (apply_all-best us info)
  ]
  apply_all-best (at_time t ∷ us) info = apply_all-best us (refresh_time info t)
  apply_all-best (bid_sent b ∷ us) info = apply_all-best us (update_bid_info info b)
  apply_all-best (bid_seen b ∷ us) info = apply_all-best us (update_auction_bid_info info b)

  -- After any sequence of updates in a slot, the information has the highest block value built, the
  -- last block built that was worth no less than those before it, and the highest bid seen in the
  -- auction.
  pub apply_all_lem :
      (slot block_number : ℕ) (us : List (Update Tx))
      → ((apply_all (new slot block_number) us).best_block_value ≡ highest_block 0 us)
        × ((apply_all (new slot block_number) us).best_block ≡ best_of none 0 us)
        × ((apply_all (new slot block_number) us).best_auction_bid_value ≡ highest_seen 0 us)
  unfolding new
  apply_all_lem slot block_number us = (
    apply_all-block_value (new slot block_number) us,
    apply_all-best us (new slot block_number),
    apply_all-seen (new slot block_number) us,
  )
