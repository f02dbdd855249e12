-- ===== src/Payload/Bidder/Auction.antt =====
-- The auction that the bidder of crates/payload/src/bidder/service.rs is in, over any polls.
use mathlib.Core.Path.{subst}
use rs_block_builder.Common.{
  ℕ, ◌≤◌, ◌<◌, ◌≡◌, ◌⊎◌, refl, sym, ◌∙◌, List, [], ◌∷◌, Option, none, some, All, arith, inr,
}
use rs_block_builder.Payload.Bidder.{
  BidderService, Events, TopBid, on_new_slot_auction, start_auction, start_auctions, is_new_auction,
  spawn_top_bid_request, see_top_bid, take_top_bid, poll_top_bid, is_better, receive_build,
  receive_builds, before_bidding,
}
use rs_block_builder.Payload.Policy.{
  AuctionBidInfo, new, update_block_info, update_auction_bid_info, BidSelectionPolicies,
  policy_block_value, is_better_block_value,
}
use rs_block_builder.Payload.State.{BuildState}

module _ {Tx : Type 0} (policy : BidSelectionPolicies) where
  -- The best block is one of the slot, kept with its value; without one the value is 0.
  abbrev pub BestMatches : ℕ → Option (BuildState Tx) → ℕ → Type 0
  BestMatches slot none value = value ≡ 0
  BestMatches slot (some best) value =
      (best.build_config.slot ≡ slot) × (value ≡ policy_block_value policy best.exec_details)

  abbrev pub IsAuction : Option (AuctionBidInfo Tx) → Type 0
  IsAuction none = Unit
  IsAuction (some info) = BestMatches info.slot info.best_block info.best_block_value

  -- A later state of the auctions: none ends without a newer one, and blocks only improve in a slot.
  abbrev pub Follows : Option (AuctionBidInfo Tx) → Option (AuctionBidInfo Tx) → Type 0
  Follows none later = Unit
  Follows (some info) none = ⊥
  Follows (some info) (some later) =
      (info.slot < later.slot)
      ⊎ ((later.slot ≡ info.slot) × (info.best_block_value ≤ later.best_block_value))

  -- The same auction, with a block that is worth no less.
  abbrev pub Grows : Option (AuctionBidInfo Tx) → Option (AuctionBidInfo Tx) → Type 0
  Grows none none = Unit
  Grows none (some later) = ⊥
  Grows (some info) none = ⊥
  Grows (some info) (some later) =
      (later.slot ≡ info.slot)
      × (later.block_number ≡ info.block_number)
      × (info.best_block_value ≤ later.best_block_value)

  -- A build that the auction has taken into account.
  abbrev pub IsCovered : Option (AuctionBidInfo Tx) → BuildState Tx → Type 0
  IsCovered none build = Unit
  IsCovered (some info) build =
      build.build_config.slot ≡ info.slot
      → policy_block_value policy build.exec_details ≤ info.best_block_value

  Grows-refl : (o : Option (AuctionBidInfo Tx)) → Grows o o
  Grows-refl none = tt
  Grows-refl (some info) = ground arith

  Grows-trans : (a b c : Option (AuctionBidInfo Tx)) → Grows a b → Grows b c → Grows a c
  Grows-trans none none c h k = k
  Grows-trans none (some y) c h k = absurd h
  Grows-trans (some x) none c h k = absurd h
  Grows-trans (some x) (some y) none h k = absurd k
  Grows-trans (some x) (some y) (some z) h k = ground arith

  pub Follows-refl : (o : Option (AuctionBidInfo Tx)) → Follows o o
  Follows-refl none = tt
  Follows-refl (some info) = inr (refl, ground arith)

  pub Follows-trans : (a b c : Option (AuctionBidInfo Tx)) → Follows a b → Follows b c → Follows a c
  Follows-trans none b c h k = tt
  Follows-trans (some x) none c h k = absurd h
  Follows-trans (some x) (some y) none h k = absurd k
  Follows-trans (some x) (some y) (some z) h k = ground arith

  pub Grows-Follows : (a b : Option (AuctionBidInfo Tx)) → Grows a b → Follows a b
  Grows-Follows none b h = tt
  Grows-Follows (some x) none h = absurd h
  Grows-Follows (some x) (some y) h = ground arith

  IsCovered-Grows :
      (build : BuildState Tx) (a b : Option (AuctionBidInfo Tx))
      → IsCovered a build
      → Grows a b
      → IsCovered b build
  IsCovered-Grows build none none c g = tt
  IsCovered-Grows build none (some y) c g = absurd g
  IsCovered-Grows build (some x) none c g = absurd g
  IsCovered-Grows build (some x) (some y) c g = ground arith

  receive_build-IsAuction :
      (o : Option (AuctionBidInfo Tx)) (build : BuildState Tx)
      → IsAuction o
      → IsAuction (receive_build policy o build)
        × Grows o (receive_build policy o build)
        × IsCovered (receive_build policy o build) build
  unfolding receive_build is_better update_block_info is_better_block_value
  receive_build-IsAuction none build h = (tt, tt, tt)
  receive_build-IsAuction (some info) build h = ground arith

  -- Whatever builds arrive, the best block stays one of the slot with its value, and no build for the
  -- slot is worth more.
  pub receive_builds-IsAuction :
      (builds : List (BuildState Tx)) (o : Option (AuctionBidInfo Tx))
      → IsAuction o
      → IsAuction (receive_builds policy o builds)
        × Grows o (receive_builds policy o builds)
        × All (IsCovered (receive_builds policy o builds)) builds
  unfolding receive_builds
  receive_builds-IsAuction [] o h = (h, Grows-refl o, tt)
  receive_builds-IsAuction (build ∷ builds) o h =
      let (now, grows, covered) = receive_build-IsAuction o build h in
      let next = receive_build policy o build in
      let last = receive_builds policy next builds in
      let (kept, later, others) = receive_builds-IsAuction builds next now in
      (
        kept,
        Grows-trans o next last grows later,
        (IsCovered-Grows build next last covered later, others),
      )

module _ {Tx : Type 0} where
  abbrev pub IsValid : BidderService Tx → Type 0
  IsValid s = IsAuction s.policy s.auction_bid_info

  -- A service that goes on from another with its policy, validly.
  abbrev pub GoesOn : BidderService Tx → BidderService Tx → Type 0
  GoesOn s t =
      (t.policy ≡ s.policy)
      × (t.network_clock ≡ s.network_clock)
      × IsAuction s.policy t.auction_bid_info
      × Follows s.policy s.auction_bid_info t.auction_bid_info

  start_auction-GoesOn :
      (s : BidderService Tx) (start : ℕ × ℕ) → IsValid s → GoesOn s (start_auction s start)
  unfolding start_auction is_new_auction on_new_slot_auction new
  start_auction-GoesOn s (slot, block_number) h = ground arith

  poll_top_bid-GoesOn :
      (s : BidderService Tx) (result : TopBid) → IsValid s → GoesOn s (poll_top_bid s result)
  unfolding poll_top_bid spawn_top_bid_request take_top_bid see_top_bid update_auction_bid_info
  poll_top_bid-GoesOn s result h = ground arith

  pub GoesOn-IsValid : (s t : BidderService Tx) → GoesOn s t → IsValid t
  GoesOn-IsValid s t (same, clock, holds, later) = rw (same) holds

  pub GoesOn-trans : (s t u : BidderService Tx) → GoesOn s t → GoesOn t u → GoesOn s u
  GoesOn-trans s t u (same, clock, holds, later) (same_u, clock_u, holds_u, later_u) = (
    same_u ∙ same,
    clock_u ∙ clock,
    rw (sym same) holds_u,
    Follows-trans s.policy s.auction_bid_info t.auction_bid_info u.auction_bid_info later
        (rw (sym same) later_u),
  )

  start_auctions-GoesOn :
      (starts : List (ℕ × ℕ)) (s : BidderService Tx)
      → IsValid s
      → GoesOn s (start_auctions s starts)
  unfolding start_auctions
  start_auctions-GoesOn [] s h = (refl, refl, h, Follows-refl s.policy s.auction_bid_info)
  start_auctions-GoesOn (start ∷ starts) s h =
      let now = start_auction-GoesOn s start h in
      let t = start_auction s start in
      GoesOn-trans s t (start_auctions t starts) now
        (start_auctions-GoesOn starts t (GoesOn-IsValid s t now))

  pub before_bidding-GoesOn :
      (s : BidderService Tx) (events : Events Tx)
      → IsValid s
      → GoesOn s (before_bidding s events)
        × All (IsCovered s.policy (before_bidding s events).auction_bid_info) events.builds
  unfolding before_bidding
  before_bidding-GoesOn s events h =
      let started = start_auctions s events.auction_starts in
      let seen = poll_top_bid started events.top_bid_result in
      let starting = start_auctions-GoesOn events.auction_starts s h in
      let seeing =
        GoesOn-trans s started seen starting
          (poll_top_bid-GoesOn started events.top_bid_result (GoesOn-IsValid s started starting)) in
      let (kept, grows, covered) =
        receive_builds-IsAuction seen.policy events.builds seen.auction_bid_info
          (GoesOn-IsValid s seen seeing) in
      let building : GoesOn seen (before_bidding s events) =
        (refl, refl, kept, Grows-Follows seen.policy seen.auction_bid_info _ grows) in
      (
        GoesOn-trans s seen (before_bidding s events) seeing building,
        subst (λ p. All (IsCovered p (before_bidding s events).auction_bid_info) events.builds)
            seeing.0 covered,
      )
