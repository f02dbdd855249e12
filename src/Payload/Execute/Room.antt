-- ===== src/Payload/Execute/Room.antt =====
-- `execute_transaction` and `execute_bundle` of crates/payload/src/strategy/state/mod.rs keep the
-- build within the limits of the block, and say what they executed.
use rs_block_builder.Bundles.Bundle.{RecoveredBundle}
use rs_block_builder.Common.{◌≡◌, sym, ap, ◌∙◌, List, [], ◌∷◌, ◌++◌, map, ◌⊎◌, inl, inr}
use rs_block_builder.Payload.Evm.{
  ok, map_err, bind_ok, map_err_ok, ok_injective, payload_builder, TxEip1559,
}
use rs_block_builder.Payload.State.{
  BuildState, Chain, verify_simulated_transaction, verify_simulated_bundle, commit,
}
use rs_block_builder.Payload.State.Commit.{commit-build_config, commit-executed_txs}
use rs_block_builder.Payload.State.Capacity.{HasRoom, commit_one-HasRoom, commit_bundle-HasRoom}
use rs_block_builder.Payload.Simulation.{SimulatedBundle, no_outcome}
use rs_block_builder.Payload.Simulate.{simulate_tx, simulate_bundle}
use rs_block_builder.Payload.Simulate.Bundle.{simulate_bundle-Simulates, simulate_tx_on_db-same}
use rs_block_builder.Payload.Execute.{
  execute_transaction, execute_transaction_skip_verify, execute_bundle,
}

module _ {Tx Account ExecDb SimDb : Type 0} (chain : Chain Tx Account ExecDb SimDb) where
  open chain use {evm}

  -- What an execution from `s` to `t` does: afterwards the build has room, and the executed
  -- transactions are those before and `txs`, with at most one of the builder behind them.
  pub record Executes (s t : BuildState Tx) (txs : List Tx) : Type 0 where
    pub room : HasRoom chain t
    pub config : t.build_config ≡ s.build_config
    pub executed :
        (t.exec_details.executed_txs ≡ s.exec_details.executed_txs ++ txs)
        ⊎ ((u : TxEip1559) × (t.exec_details.executed_txs
              ≡ s.exec_details.executed_txs ++ (txs ++ evm.sign u ∷ [])))

  -- A transaction that is executed leaves the gas used with the builder's transfer (added on `u64`)
  -- and the blob gas used within the limits of the block, and is appended, alone, to the executed
  -- transactions.
  pub execute_transaction_appends :
      (s t : BuildState Tx) (db after : ExecDb) (tx : Tx)
      → execute_transaction chain s db tx ≡ ok (t, after)
      → HasRoom chain t
        × (t.exec_details.executed_txs ≡ s.exec_details.executed_txs ++ tx ∷ [])
        × (t.build_config ≡ s.build_config)
  unfolding execute_transaction execute_transaction_skip_verify simulate_tx
  execute_transaction_appends s t db after tx e =
      let (x, e0, e1) =
        bind_ok (map_err payload_builder (simulate_tx chain s db tx)) _ (t, after) e in
      let (_, e2, e3) = bind_ok (verify_simulated_transaction chain s x) _ (t, after) e1 in
      let same =
        simulate_tx_on_db-same chain s (evm.simulation_db db) tx x
          (map_err_ok payload_builder _ x e0) in
      rw (sym (ap (λ q. q.0) (ok_injective _ (t, after) e3))) (
        commit_one-HasRoom chain s db x e2,
        commit-executed_txs chain s db (x ∷ [])
            ∙ ap (λ q. s.exec_details.executed_txs ++ q ∷ []) same,
        commit-build_config chain s db (x ∷ []),
      )

  pub execute_transaction-Executes :
      (s t : BuildState Tx) (db after : ExecDb) (tx : Tx)
      → execute_transaction chain s db tx ≡ ok (t, after)
      → Executes s t (tx ∷ [])
  execute_transaction-Executes s t db after tx e =
      let (room, appended, config) = execute_transaction_appends s t db after tx e in
      record { room = room; config = config; executed = inl appended }

  executed_of :
      (s : BuildState Tx) (db : ExecDb) (b : RecoveredBundle Tx) (c : SimulatedBundle Tx Account)
      → ((map (λ x. x.tx) c.simulated_txs ≡ b.recovered_txs)
          ⊎ ((u : TxEip1559) × (map (λ x. x.tx) c.simulated_txs
                ≡ b.recovered_txs ++ evm.sign u ∷ [])))
      → (((commit chain s db c.simulated_txs).0.exec_details.executed_txs
            ≡ s.exec_details.executed_txs ++ b.recovered_txs)
          ⊎ ((u : TxEip1559) × ((commit chain s db c.simulated_txs).0.exec_details.executed_txs
                ≡ s.exec_details.executed_txs ++ (b.recovered_txs ++ evm.sign u ∷ []))))
  executed_of s db b c (inl e) = inl (
      commit-executed_txs chain s db c.simulated_txs ∙ ap (λ q. s.exec_details.executed_txs ++ q) e)
  executed_of s db b c (inr (u, e)) = inr (
    u,
    commit-executed_txs chain s db c.simulated_txs ∙ ap (λ q. s.exec_details.executed_txs ++ q) e,
  )

  -- A bundle that is executed on a build with room leaves one with room: the gas used with the
  -- builder's transfer (added on `u64`) and the blob gas used are within the limits of the block.
  -- The configuration stays, and the executed transactions are those before and the bundle's in
  -- their order, with at most one behind them that the builder signed.
  pub execute_bundle-Executes :
      (s t : BuildState Tx) (db after : ExecDb) (b : RecoveredBundle Tx)
      → HasRoom chain s
      → execute_bundle chain s db b ≡ ok (t, after)
      → Executes s t b.recovered_txs
  unfolding execute_bundle no_outcome
  execute_bundle-Executes s t db after b v e =
      let (c, e0, e1) = bind_ok (simulate_bundle chain s db b) _ (t, after) e in
      let (_, e2, e3) = bind_ok (verify_simulated_bundle chain s c) _ (t, after) e1 in
      let simulates = simulate_bundle-Simulates chain s db b c e0 in
      rw (sym (ap (λ q. q.0) (ok_injective _ (t, after) e3))) (record {
        room =
            commit_bundle-HasRoom chain s db c
              (λ r. ((simulates.counts r).gas, (simulates.counts r).blob_gas)) e2 v;
        config = commit-build_config chain s db c.simulated_txs;
        executed = executed_of s db b c simulates.executes;
      })
