-- ===== src/Payload/Bidder/Bidding.antt =====
-- What one poll of crates/payload/src/bidder/service.rs leaves and submits, and what holds after any polls.
use mathlib.Core.Path.{subst}
use rs_block_builder.Common.{ℕ, ◌≡◌, refl, sym, true, Option, none, some, All, All-map, arith, inr}
use rs_block_builder.Consensus.Clock.{NetworkClock, time_until_slot_signed_ms}
use rs_block_builder.Payload.Bidder.{
  BidderService, Events, Polled, pending, terminated, policy_panicked, answered,
  on_new_slot_auction, start_auction, is_new_auction, spawn_top_bid_request, see_top_bid,
  take_top_bid, poll_top_bid, submit_best, bid_with, try_bid, poll, before_bidding,
  PayloadBidderMetrics, on_new_slot_auction,
}
use rs_block_builder.Payload.Bidder.Auction.{
  BestMatches, IsAuction, IsValid, IsCovered, Follows, GoesOn, before_bidding-GoesOn, Follows-refl,
  GoesOn-trans, GoesOn-IsValid,
}
use rs_block_builder.Payload.Policy.{
  AuctionBidInfo, new, refresh_time, update_bid_info, update_auction_bid_info, BidSelectionPolicies,
  Bid, no_bid, panicked, bid, policy_block_value, compute_bid,
}
use rs_block_builder.Payload.State.{BuildState}

module _ {Tx : Type 0} where
  -- A submission is of the best block of the auction, built for its slot, and its value is what the
  -- policy computes from the auction at that time.
  abbrev pub IsSubmission : BidderService Tx → ℕ → Option (BuildState Tx × ℕ) → Type 0
  IsSubmission t now none = Unit
  IsSubmission t now (some (best, value)) =
      (seen : AuctionBidInfo Tx) × (t.auction_bid_info ≡ some (update_bid_info seen value))
      × (seen.best_block ≡ some best)
      × (best.build_config.slot ≡ seen.slot)
      × (seen.best_block_value ≡ policy_block_value t.policy best.exec_details)
      × (seen.auction_time_left ≡ time_until_slot_signed_ms t.network_clock now seen.slot)
      × (compute_bid t.policy seen ≡ bid value)

  -- Bidding changes no best block.
  abbrev Keeps : BidderService Tx → BidderService Tx → Type 0
  Keeps s t =
      (build : BuildState Tx)
      → IsCovered s.policy s.auction_bid_info build
      → IsCovered t.policy t.auction_bid_info build

  abbrev Bids : BidderService Tx → ℕ → Polled Tx → Type 0
  Bids s now policy_panicked = Unit
  Bids s now (terminated t) = Unit
  Bids s now (pending t sub) = GoesOn s t × Keeps s t × IsSubmission t now sub

  -- An information with the slot and the block of the service's.
  goes_on :
      (s : BidderService Tx) (info later : AuctionBidInfo Tx)
      → s.auction_bid_info ≡ some info
      → IsValid s
      → later.slot ≡ info.slot
      → later.best_block ≡ info.best_block
      → later.best_block_value ≡ info.best_block_value
      → let t = record s { auction_bid_info = some later } in GoesOn s t × Keeps s t
  goes_on s info later at h slot block value =
      let holds : IsAuction s.policy (some info) = subst (IsAuction s.policy) at h in
      let kept : IsAuction s.policy (some later) = rw (slot, block, value) holds in
      let follows : Follows s.policy s.auction_bid_info (some later) =
        rw (at) (inr (slot, ground arith)) in
      (
        (refl, refl, kept, follows),
        λ build c. rw (slot, value) (subst (λ o. IsCovered s.policy o build) at c),
      )

  submit_best-Bids :
      (s : BidderService Tx) (now : ℕ) (info : AuctionBidInfo Tx) (b : Bid)
      (o : Option (BuildState Tx))
      → s.auction_bid_info ≡ some info
      → IsValid s
      → info.best_block ≡ o
      → let timed = refresh_time info (time_until_slot_signed_ms s.network_clock now info.slot) in
        compute_bid s.policy timed ≡ b → Bids s now (submit_best s timed b o)
  unfolding submit_best refresh_time update_bid_info
  submit_best-Bids s now info panicked o at h e c = tt
  submit_best-Bids s now info no_bid o at h e c =
      let (goes, keeps) = goes_on s info _ at h refl refl refl in (goes, keeps, tt)
  submit_best-Bids s now info (bid v) none at h e c =
      let (goes, keeps) = goes_on s info _ at h refl refl refl in (goes, keeps, tt)
  submit_best-Bids s now info (bid v) (some best) at h e c =
      let timed = refresh_time info (time_until_slot_signed_ms s.network_clock now info.slot) in
      let (goes, keeps) = goes_on s info (update_bid_info timed v) at h refl refl refl in
      let holds : BestMatches s.policy info.slot (some best) info.best_block_value =
        subst (λ o. BestMatches s.policy info.slot o info.best_block_value) e
          (subst (IsAuction s.policy) at h) in
      (goes, keeps, (timed, refl, e, holds.0, holds.1, refl, c))

  bid_with-Bids :
      (s : BidderService Tx) (now : ℕ) (o : Option (AuctionBidInfo Tx))
      → s.auction_bid_info ≡ o
      → IsValid s
      → Bids s now (bid_with s now o)
  unfolding bid_with refresh_time
  bid_with-Bids s now none at h =
      ((refl, refl, h, Follows-refl s.policy s.auction_bid_info), λ build c. c, tt)
  bid_with-Bids s now (some info) at h =
      submit_best-Bids s now info _ info.best_block at h refl refl

  -- A poll of a valid bidder service that goes on leaves a valid one, with no auction lost and no
  -- best block replaced by one that is worth less in its slot; no build received for the slot of
  -- the auction is worth more than its best block. A submission is of that best block, which was
  -- built for the slot, and its value is what the policy computes from the information at the
  -- clock's time until the slot.
  pub poll-Bids :
      (s t : BidderService Tx) (events : Events Tx) (sub : Option (BuildState Tx × ℕ))
      → IsValid s
      → poll s events ≡ pending t sub
      → GoesOn s t
        × All (IsCovered t.policy t.auction_bid_info) events.builds
        × IsSubmission t events.now sub
  unfolding poll try_bid
  poll-Bids s t events sub h e =
      let u = before_bidding s events in
      let (going, covered) = before_bidding-GoesOn s events h in
      let run : bid_with u events.now u.auction_bid_info ≡ pending t sub = ground arith in
      let (goes, keeps, sent) =
        subst (Bids u events.now) run
          (bid_with-Bids u events.now u.auction_bid_info refl (GoesOn-IsValid s u going)) in
      (
        GoesOn-trans s u t going goes,
        All-map events.builds keeps
            (subst (λ p. All (IsCovered p u.auction_bid_info) events.builds) (sym going.0) covered),
        sent,
      )

  -- The service as `BidderService::new` makes it.
  unfoldable pub new_service :
      BidSelectionPolicies → NetworkClock → PayloadBidderMetrics → BidderService Tx
  new_service policy network_clock metrics = record {
    top_bid = none;
    policy = policy;
    network_clock = network_clock;
    auction_bid_info = none;
    metrics = metrics;
  }

  -- A service that some polls lead to.
  pub data Reaches (s : BidderService Tx) : BidderService Tx → Type 0 where
    here : Reaches s s
    polled :
        {t u : BidderService Tx} (events : Events Tx) (sub : Option (BuildState Tx × ℕ))
        → Reaches s t
        → poll t events ≡ pending u sub
        → Reaches s u

  -- Over any polls from a valid bidder service the best block is one of the auction's slot with its
  -- value, the policy and the clock stay, no auction is lost, its slot only grows, and within a
  -- slot the value of the best block does.
  pub Reaches-GoesOn : {s t : BidderService Tx} → Reaches s t → IsValid s → GoesOn s t
  Reaches-GoesOn {s} here h = (refl, refl, h, Follows-refl s.policy s.auction_bid_info)
  Reaches-GoesOn {s} {t = u} (polled {t} events sub r e) h =
      let before = Reaches-GoesOn r h in
      GoesOn-trans s t u before (poll-Bids t u events sub (GoesOn-IsValid s t before) e).0

  -- If a newer auction starts while a request for a top bid is pending, its answer is taken as a
  -- bid of the new auction, whatever block the request was for.
  pub stale_top_bid :
      (s : BidderService Tx) (asked slot block_number value : ℕ)
      → s.top_bid ≡ some asked
      → is_new_auction s.auction_bid_info slot ≡ true
      → (info : AuctionBidInfo Tx) × ((poll_top_bid
            (start_auction s (slot, block_number))
            (answered (some value))).auction_bid_info
          ≡ some info)
        × (info.slot ≡ slot)
        × (info.block_number ≡ block_number)
        × (info.best_auction_bid_value ≡ value)
  unfolding poll_top_bid start_auction on_new_slot_auction take_top_bid see_top_bid
      spawn_top_bid_request update_auction_bid_info new
  stale_top_bid s asked slot block_number value pend fresh =
      rw (fresh, pend) (_, refl, refl, refl, omega arith)
