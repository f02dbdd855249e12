-- ===== src/Payload/State/Capacity.antt =====
-- The room that the build state of crates/payload/src/strategy/state/mod.rs keeps in a block.
use rs_block_builder.Bundles.Bundle.{max_builder_transfer_gas_limit}
use rs_block_builder.Common.{
  ℕ, ◌<◌, ◌≤◌, ◌≡◌, refl, sym, ap, ◌∙◌, List, [], ◌∷◌, arith, inl, inr, none, Option-cases,
}
use rs_block_builder.Common.Words.{u64_mod, add_u64}
use rs_block_builder.Payload.Evm.{ok, SimulatedTransaction}
use rs_block_builder.Payload.Simulation.{SimulatedBundle}
use rs_block_builder.Payload.State.{
  BuildState, BuildConfig, Chain, new, no_details, commit, verify_capacity,
  verify_simulated_transaction, verify_simulated_bundle,
}
use rs_block_builder.Payload.State.Commit.{
  total, add_u64_lt, total_from_zero, commit-build_config, commit-gas, commit-blob_gas,
}

module _ {Tx Account ExecDb SimDb : Type 0} (chain : Chain Tx Account ExecDb SimDb) where
  open chain use {max_data_gas_per_block}

  -- The gas and the blob gas used are words, and there is room for the builder's transfer below the
  -- gas limit of the block.
  pub record IsWithinLimits (config : BuildConfig) (gas blob_gas : ℕ) : Type 0 where
    pub gas_word : gas < u64_mod
    pub blob_gas_word : blob_gas < u64_mod
    pub gas_fits : add_u64 gas max_builder_transfer_gas_limit ≤ config.block_gas_limit
    pub blob_gas_fits : blob_gas ≤ max_data_gas_per_block

  abbrev pub HasRoom : BuildState Tx → Type 0
  HasRoom s =
      IsWithinLimits s.build_config s.exec_details.cumulative_gas_used
        s.exec_details.cumulative_blob_gas_used

  verify_capacity_cases :
      (s : BuildState Tx) (g b : ℕ)
      → verify_capacity chain s g b ≡ ok tt
      → (add_u64 (add_u64 s.exec_details.cumulative_gas_used g) max_builder_transfer_gas_limit
          ≤ s.build_config.block_gas_limit)
        × (add_u64 s.exec_details.cumulative_blob_gas_used b ≤ max_data_gas_per_block)
  unfolding verify_capacity
  verify_capacity_cases s g b e = ground arith

  commit-HasRoom :
      (s : BuildState Tx) (db : ExecDb) (l : List (SimulatedTransaction Tx Account)) (g b : ℕ)
      → total (λ o. o.gas_used) s.exec_details.cumulative_gas_used l
        ≡ add_u64 s.exec_details.cumulative_gas_used g
      → total (λ o. o.blob_gas_used) s.exec_details.cumulative_blob_gas_used l
        ≡ add_u64 s.exec_details.cumulative_blob_gas_used b
      → verify_capacity chain s g b ≡ ok tt
      → HasRoom (commit chain s db l).0
  commit-HasRoom s db l g b eg eb e =
      let (gas_ok, blob_ok) = verify_capacity_cases s g b e in
      rw
        (
          commit-build_config chain s db l,
          commit-gas chain s db l,
          commit-blob_gas chain s db l,
          eg,
          eb,
        )
        (record {
          gas_word = add_u64_lt s.exec_details.cumulative_gas_used g;
          blob_gas_word = add_u64_lt s.exec_details.cumulative_blob_gas_used b;
          gas_fits = gas_ok;
          blob_gas_fits = blob_ok;
        })

  pub commit_one-HasRoom :
      (s : BuildState Tx) (db : ExecDb) (x : SimulatedTransaction Tx Account)
      → verify_simulated_transaction chain s x ≡ ok tt
      → HasRoom (commit chain s db (x ∷ [])).0
  unfolding verify_simulated_transaction total
  commit_one-HasRoom s db x e =
      commit-HasRoom s db (x ∷ []) x.outcome.gas_used x.outcome.blob_gas_used refl refl e

  pub commit_bundle-HasRoom :
      (s : BuildState Tx) (db : ExecDb) (c : SimulatedBundle Tx Account)
      → (c.outcome.reverted ≡ none
          → (c.outcome.gas_used ≡ total (λ o. o.gas_used) 0 c.simulated_txs)
            × (c.outcome.blob_gas_used ≡ total (λ o. o.blob_gas_used) 0 c.simulated_txs))
      → verify_simulated_bundle chain s c ≡ ok tt
      → HasRoom s
      → HasRoom (commit chain s db c.simulated_txs).0
  unfolding verify_simulated_bundle
  commit_bundle-HasRoom s db c counts e v = elim (Option-cases c.outcome.reverted) [
    | inl n ↦
        let (g, b) = counts n in
        commit-HasRoom s db c.simulated_txs c.outcome.gas_used c.outcome.blob_gas_used
          (total_from_zero (λ o. o.gas_used) s.exec_details.cumulative_gas_used c.simulated_txs
              v.gas_word
            ∙ ap (add_u64 s.exec_details.cumulative_gas_used) (sym g))
          (total_from_zero (λ o. o.blob_gas_used) s.exec_details.cumulative_blob_gas_used
              c.simulated_txs v.blob_gas_word
            ∙ ap (add_u64 s.exec_details.cumulative_blob_gas_used) (sym b))
          (cc)
    | inr (i, r) ↦ cc
  ]

  -- A new build has room when the block has room for the builder's transfer.
  pub new-HasRoom :
      (config : BuildConfig) (builder : ℕ)
      → max_builder_transfer_gas_limit ≤ config.block_gas_limit
      → HasRoom (new config builder)
  unfolding new no_details add_u64 u64_mod
  new-HasRoom config builder h = record {
    gas_word = ground arith;
    blob_gas_word = ground arith;
    gas_fits = h;
    blob_gas_fits = ground arith;
  }
