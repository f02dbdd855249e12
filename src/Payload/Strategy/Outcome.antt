-- ===== src/Payload/Strategy/Outcome.antt =====
-- The outcome of `try_build` of the two strategies in crates/payload/src/strategy.
use rs_block_builder.Bundles.Bundle.{max_builder_transfer_gas_limit}
use rs_block_builder.Bundles.Pool.{BundlePool}
use rs_block_builder.Common.{
  refl, ℕ, ◌≤◌, ◌<◌, ◌≡◌, sym, Bool, List, [], Option, none, some, Bool-cases, inl, inr, arith, leb,
}
use rs_block_builder.Payload.Evm.{Result, ok, bind_ok, ok_injective, PayloadBuilderError}
use rs_block_builder.Payload.State.{BuildState, BuildConfig, Chain, new, no_details, block_value}
use rs_block_builder.Payload.State.Capacity.{new-HasRoom}
use rs_block_builder.Payload.Loop.{
  BestTransactions, IsFinite, Finished, completed, stopped, unreachable, out_of_fuel, job_cancelled,
  exec_failed,
}
use rs_block_builder.Payload.Loop.Laws.{EndsWith, mempool_loop-EndsWith}
use rs_block_builder.Payload.Strategy.{
  Progress, BuildOutcome, better, aborted, cancelled, no_outcome, decode_and_filter_bundles,
  commit_selected_bundles, execute_mempool_txs, execute_txs, compare_to_best, conclude,
  try_build_bundles, try_build_mempool, handle_mempool_tx, handle_tx,
}
use rs_block_builder.Payload.Strategy.Invariant.{
  IsSound, commit_selected_bundles-IsSound, handle_mempool_tx-IsHandled, handle_tx-IsHandled,
}

abbrev pub value_of : {Tx : Type 0} → Option (BuildState Tx) → ℕ
value_of none = 0
value_of (some s) = block_value s

module _ {Tx Account ExecDb SimDb : Type 0} (chain : Chain Tx Account ExecDb SimDb) where
  -- A better build is sound and worth more than the best one so far; the two other outcomes of the
  -- source are free.
  abbrev pub IsOutcome : ℕ → Option (BuildState Tx) → BuildOutcome Tx → Type 0
  IsOutcome slot best_build (better s) =
      IsSound chain slot s × (value_of best_build < block_value s)
  IsOutcome slot best_build (aborted value) = Unit
  IsOutcome slot best_build cancelled = Unit
  IsOutcome slot best_build no_outcome = ⊥

  pub new-IsSound :
      (config : BuildConfig) (builder : ℕ)
      → max_builder_transfer_gas_limit ≤ config.block_gas_limit
      → IsSound chain config.slot (new config builder)
  unfolding new no_details
  new-IsSound config builder h = record {
    room = new-HasRoom chain config builder h;
    allowed = tt;
    same_slot = refl;
  }

  module _ {Iter : Type 0} (best : BestTransactions Tx Iter) (finite : IsFinite best) where
    compare_to_best-IsOutcome :
        (slot : ℕ) (best_build : Option (BuildState Tx)) (s : BuildState Tx)
        → IsSound chain slot s
        → IsOutcome slot best_build (compare_to_best chain best best_build s)
    unfolding compare_to_best
    compare_to_best-IsOutcome slot none s v = elim (Bool-cases (leb (block_value s) 0)) [
      | inl y ↦ rw (y, compare_to_best) tt
      | inr n ↦ rw (n, compare_to_best) (v, ground arith)
    ]
    compare_to_best-IsOutcome slot (some b) s v =
        elim (Bool-cases (leb (block_value s) (block_value b))) [
          | inl y ↦ rw (y, compare_to_best) tt
          | inr n ↦ rw (n, compare_to_best) (v, ground arith)
        ]

    conclude-IsOutcome :
        (slot : ℕ) (best_build : Option (BuildState Tx)) (f : Finished (Progress Tx ExecDb))
        → EndsWith (λ q. IsSound chain slot q.state) f
        → IsOutcome slot best_build (conclude chain best best_build f)
    unfolding conclude
    conclude-IsOutcome slot best_build (completed p) v =
        compare_to_best-IsOutcome slot best_build p.state v
    conclude-IsOutcome slot best_build (stopped job_cancelled p) v = tt
    conclude-IsOutcome slot best_build (stopped exec_failed p) v = tt
    conclude-IsOutcome slot best_build unreachable v = v
    conclude-IsOutcome slot best_build out_of_fuel v = v

    -- For a gas limit that covers the builder's transfer, a mempool that has finitely many
    -- transactions left to come and more fuel than these, a build of the bundle strategy that
    -- returns no error ends as better, aborted or cancelled: neither the `unreachable!` nor the end
    -- of the fuel is reached. A better build is for the slot of its configuration and worth
    -- strictly more than the best one so far, its gas with the transfer's (added on `u64`) and its
    -- blob gas are within the limits of the block, and each of its transactions has a signer and a
    -- recipient off the blacklist or was signed by the builder.
    pub try_build_bundles-IsOutcome :
        (decode : List ℕ → Option Tx)
        (pre_block : BuildState Tx → Result PayloadBuilderError ExecDb) (config : BuildConfig)
        (builder : ℕ) (locked : Bool) (pool : BundlePool) (is_cancelled : ℕ → Bool) (fuel : ℕ)
        (i : Iter) (best_build : Option (BuildState Tx)) (o : BuildOutcome Tx)
        → max_builder_transfer_gas_limit ≤ config.block_gas_limit
        → finite.remaining i < fuel
        → try_build_bundles chain best decode pre_block config builder locked pool is_cancelled fuel
            i best_build
          ≡ ok o
        → IsOutcome config.slot best_build o
    unfolding try_build_bundles execute_mempool_txs
    try_build_bundles-IsOutcome decode pre_block config builder locked pool is_cancelled fuel i
          best_build o h l e =
        let (db, _, e1) = bind_ok (pre_block (new config builder)) _ o e in
        let start : Progress Tx ExecDb = record {
          state = new config builder;
          db = db;
          committed = [];
        } in
        let (selected, e2, e3) =
          bind_ok
            (commit_selected_bundles chain start
              (decode_and_filter_bundles chain decode db (new config builder) locked pool))
            _ o e1 in
        rw (sym (ok_injective {E = PayloadBuilderError} _ o e3)) (
          conclude-IsOutcome config.slot best_build _ (
            mempool_loop-EndsWith best finite (λ q. IsSound chain config.slot q.state)
              (handle_mempool_tx chain best) is_cancelled
              (handle_mempool_tx-IsHandled chain config.slot best finite) fuel 0 i selected l
              (commit_selected_bundles-IsSound chain config.slot start selected _
                (new-IsSound config builder h) e2)))

    -- For a gas limit that covers the builder's transfer, a mempool that has finitely many
    -- transactions left to come and more fuel than these, a build of the mempool strategy that
    -- returns no error ends as better, aborted or cancelled, and a better one is for the slot of
    -- its configuration, is worth strictly more than the best one so far, is within the gas and
    -- blob gas limits of the block with the transfer's gas added on `u64`, and executes only
    -- transactions with both parties off the blacklist or signed by the builder.
    pub try_build_mempool-IsOutcome :
        (pre_block : BuildState Tx → Result PayloadBuilderError ExecDb) (config : BuildConfig)
        (builder : ℕ) (is_cancelled : ℕ → Bool) (fuel : ℕ) (i : Iter)
        (best_build : Option (BuildState Tx)) (o : BuildOutcome Tx)
        → max_builder_transfer_gas_limit ≤ config.block_gas_limit
        → finite.remaining i < fuel
        → try_build_mempool chain best pre_block config builder is_cancelled fuel i best_build
          ≡ ok o
        → IsOutcome config.slot best_build o
    unfolding try_build_mempool execute_txs
    try_build_mempool-IsOutcome pre_block config builder is_cancelled fuel i best_build o h l e =
        let (db, _, e1) = bind_ok (pre_block (new config builder)) _ o e in
        rw (sym (ok_injective {E = PayloadBuilderError} _ o e1)) (
          conclude-IsOutcome config.slot best_build _ (
            mempool_loop-EndsWith best finite (λ q. IsSound chain config.slot q.state)
              (handle_tx chain best) is_cancelled
              (λ j tx p v. handle_tx-IsHandled chain config.slot best finite j tx p v) fuel 0 i _ l
              (new-IsSound config builder h)))
