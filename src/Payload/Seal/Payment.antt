-- ===== src/Payload/Seal/Payment.antt =====
-- The payment in the block that `into_build` of crates/payload/src/strategy/state/mod.rs seals, which is
-- executed without verification, and the room that a build has for it.
use rs_block_builder.Bundles.Bundle.{max_builder_transfer_gas_limit}
use rs_block_builder.Common.{
  ℕ, ◌+◌, ◌≤◌, ◌<◌, ◌≡◌, refl, sym, ap, ◌∙◌, true, List, [], ◌∷◌, ◌++◌, Option, none, some, arith,
}
use rs_block_builder.Common.Words.{u64_mod, add_u64}
use rs_block_builder.Payload.Evm.{
  ok, map_err, bind_ok, map_err_ok, ok_injective, payload_builder, other_payload_error,
  evm_execution_error, TxEip1559, SimulatedTransaction, ExecutionResult,
}
use rs_block_builder.Common.Map.{Map}
use rs_block_builder.Payload.Execute.{execute_transaction_skip_verify}
use rs_block_builder.Payload.Seal.{
  SealConfig, Sealing, SealedBuild, build_of, commit_withdrawals, cancun_fields, pay_proposer,
  seal_build, into_build,
}
use rs_block_builder.Payload.Simulate.{
  transact, outcome_of, simulate_tx, simulate_tx_on_db, create_builder_transfer_transaction,
  value_or_default,
}
use rs_block_builder.Payload.State.{
  BuildState, BuildConfig, ExecutionDetails, Chain, commit, commit_tx, with_payment,
}
use rs_block_builder.Payload.State.Capacity.{HasRoom}
use rs_block_builder.Payload.State.Commit.{add_u64_zero, commit-build_config, commit-executed_txs}
use rs_block_builder.Primitives.Bid.{Bid, new_bid}

add_u64_le :
    (gas used most limit : ℕ)
    → gas + most < u64_mod
    → used ≤ most
    → add_u64 gas most ≤ limit
    → add_u64 gas used ≤ limit
unfolding add_u64 u64_mod
add_u64_le gas used most limit small le fits = omega arith

module _ {Tx Account ExecDb SimDb : Type 0} (chain : Chain Tx Account ExecDb SimDb) where
  open chain use {api, evm, max_data_gas_per_block}

  -- What the EVM and the signing do with the builder's own transactions: such a transaction uses no
  -- more gas than its limit, and it has no blobs.
  pub record TransfersLaws : Type 0 where
    pub gas_used_le :
        (u : TxEip1559) (coinbase basefee : ℕ) (db : SimDb) (r : ExecutionResult)
        (changes : Map Account)
        → evm.transact coinbase basefee db (evm.sign u) ≡ ok (r, changes)
        → r.gas_used ≤ u.gas_limit
    pub no_blobs : (u : TxEip1559) → api.blob_gas (evm.sign u) ≡ none

  -- The state `t` after `s` ends in the transaction `payment` of `value` to `recipient`.
  pub record EndsInPayment (s t : BuildState Tx) (recipient value : ℕ) (payment : TxEip1559)
      : Type 0 where
    pub to : payment.to ≡ recipient
    pub amount : payment.value ≡ value
    pub appended :
        t.exec_details.executed_txs ≡ s.exec_details.executed_txs ++ evm.sign payment ∷ []
    pub config : t.build_config ≡ s.build_config
    pub gas : t.exec_details.cumulative_gas_used ≤ s.build_config.block_gas_limit
    pub blob_gas : t.exec_details.cumulative_blob_gas_used ≤ max_data_gas_per_block

  simulate_tx-signed :
      TransfersLaws
      → (s : BuildState Tx) (db : ExecDb) (u : TxEip1559) (x : SimulatedTransaction Tx Account)
      → simulate_tx chain s db (evm.sign u) ≡ ok x
      → (x.tx ≡ evm.sign u) × (x.outcome.gas_used ≤ u.gas_limit) × (x.outcome.blob_gas_used ≡ 0)
  unfolding simulate_tx simulate_tx_on_db outcome_of
  simulate_tx-signed laws s db u x e =
      let (account, _, e1) = bind_ok (evm.sim_basic _ _) _ x e in
      let ((r, changes), e2, e3) = bind_ok (transact chain s _ (evm.sign u)) _ x e1 in
      rw (sym (ok_injective _ x e3)) (
        refl,
        laws.gas_used_le u _ _ _ r changes (map_err_ok evm_execution_error _ (r, changes) e2),
        ap value_or_default (laws.no_blobs u),
      )

  commit_one-fits :
      (s : BuildState Tx) (db : ExecDb) (x : SimulatedTransaction Tx Account)
      → HasRoom chain s
      → s.exec_details.cumulative_gas_used + max_builder_transfer_gas_limit < u64_mod
      → x.outcome.gas_used ≤ max_builder_transfer_gas_limit
      → x.outcome.blob_gas_used ≡ 0
      → ((commit chain s db (x ∷ [])).0.exec_details.cumulative_gas_used
          ≤ s.build_config.block_gas_limit)
        × ((commit chain s db (x ∷ [])).0.exec_details.cumulative_blob_gas_used
            ≤ max_data_gas_per_block)
  unfolding commit commit_tx
  commit_one-fits s db x room small g b = (
    add_u64_le s.exec_details.cumulative_gas_used x.outcome.gas_used max_builder_transfer_gas_limit
        s.build_config.block_gas_limit small g room.gas_fits,
    rw (b, add_u64_zero s.exec_details.cumulative_blob_gas_used room.blob_gas_word)
        room.blob_gas_fits,
  )

  -- The builder's transaction that is executed without verification on a build with room.
  payment-EndsInPayment :
      TransfersLaws
      → (s t : BuildState Tx) (db after : ExecDb) (u : TxEip1559)
      → u.gas_limit ≡ max_builder_transfer_gas_limit
      → HasRoom chain s
      → s.exec_details.cumulative_gas_used + max_builder_transfer_gas_limit < u64_mod
      → execute_transaction_skip_verify chain s db (evm.sign u) true ≡ ok (t, after)
      → EndsInPayment s t u.to u.value u
  unfolding execute_transaction_skip_verify
  payment-EndsInPayment laws s t db after u limit room small e =
      let (x, e0, e1) =
        bind_ok (map_err payload_builder (simulate_tx chain s db (evm.sign u))) _ (t, after) e in
      let (same, gas, blob_gas) =
        simulate_tx-signed laws s db u x (map_err_ok payload_builder _ x e0) in
      let (gas_fits, blob_gas_fits) =
        commit_one-fits s db x room small (rw (sym limit) gas) blob_gas in
      rw (sym (ap (λ q. q.0) (ok_injective _ (t, after) e1))) (record {
        to = refl;
        amount = refl;
        appended =
            commit-executed_txs chain s db (x ∷ [])
            ∙ ap (λ q. s.exec_details.executed_txs ++ q ∷ []) same;
        config = commit-build_config chain s db (x ∷ []);
        gas = gas_fits;
        blob_gas = blob_gas_fits;
      })

  pub pay_proposer-EndsInPayment :
      TransfersLaws
      → {Changes Sidecar : Type 0} (reth : Sealing ExecDb Changes Sidecar Tx) (s t : BuildState Tx)
        (c : SealConfig) (db after : ExecDb)
      → HasRoom chain s
      → s.exec_details.cumulative_gas_used + max_builder_transfer_gas_limit < u64_mod
      → pay_proposer chain reth s c db ≡ ok (t, after)
      → (u : TxEip1559) × EndsInPayment s t c.validator_info.fee_recipient
          (value_or_default s.exec_details.builder_payment)
          u
  unfolding pay_proposer create_builder_transfer_transaction
  pay_proposer-EndsInPayment laws reth s t c db after room small e =
      let basic = evm.exec_basic db s.builder_address in
      let (tx, e0, e1) =
        bind_ok
          (create_builder_transfer_transaction chain s basic c.validator_info.fee_recipient
            (value_or_default s.exec_details.builder_payment))
          _ (t, after) e in
      let (account, _, e2) = bind_ok basic _ tx e0 in
      let executes = map_err_ok (λ x. other_payload_error) _ (t, after) e1 in
      let signs = ok_injective _ tx e2 in
      (
        _,
        payment-EndsInPayment laws s t db after _ refl room small
            (ap (λ q. execute_transaction_skip_verify chain s db q true) signs ∙ executes),
      )

  -- The blob gas of a sealed block is that of the details.
  cancun_fields-blob_gas :
      {Changes Sidecar : Type 0} (reth : Sealing ExecDb Changes Sidecar Tx) (config : BuildConfig)
      (c : SealConfig) (details : ExecutionDetails Tx) (sidecars : List Sidecar)
      (blob_gas excess : Option ℕ) (gas : ℕ)
      → cancun_fields chain reth config c details ≡ ok (sidecars, blob_gas, excess)
      → blob_gas ≡ some gas
      → gas ≡ details.cumulative_blob_gas_used
  unfolding cancun_fields
  cancun_fields-blob_gas reth config c details sidecars blob_gas excess gas e is_gas = ground arith

  -- The build `b` of the state `s` and the message that bids for it: the message bids `value`, names the
  -- gas of the block, which is within its limit, and the last transaction of the block, which the
  -- builder signed, is of the value and to the proposer's fee recipient of the message. Whether its
  -- execution succeeds or reverts is not said.
  pub record HasPayment {Sidecar : Type 0} (s : BuildState Tx) (value : ℕ)
      (b : SealedBuild Tx Sidecar) (message : Bid) : Type 0 where
    pub bid : message.value ≡ value
    pub block : (message.gas_used ≡ b.header.gas_used) × (message.block_hash ≡ b.hash)
    pub gas : b.header.gas_used ≤ b.header.gas_limit
    pub gas_limit : b.header.gas_limit ≡ s.build_config.block_gas_limit
    pub blob_gas : (gas : ℕ) → b.header.blob_gas_used ≡ some gas → gas ≤ max_data_gas_per_block
    pub payment :
        (u : TxEip1559) × (b.body ≡ s.exec_details.executed_txs ++ evm.sign u ∷ [])
        × (u.to ≡ message.proposer_fee_recipient)
        × (u.value ≡ value)

  pub into_build-HasPayment :
      TransfersLaws
      → {Changes Sidecar : Type 0} (reth : Sealing ExecDb Changes Sidecar Tx) (s : BuildState Tx)
        (value : ℕ) (c : SealConfig) (b : SealedBuild Tx Sidecar) (key : ℕ)
      → HasRoom chain s
      → s.exec_details.cumulative_gas_used + max_builder_transfer_gas_limit < u64_mod
      → into_build chain reth (with_payment s value) c ≡ ok b
      → HasPayment s value b (new_bid (build_of b) key)
  unfolding into_build with_payment seal_build build_of new_bid
  into_build-HasPayment laws reth s value c b key room small e =
      let paying = with_payment s value in
      let (db, _, e0) = bind_ok (reth.execution_db c.parent_block.hash) _ b e in
      let ((t, after), pays, e1) = bind_ok (pay_proposer chain reth paying c db) _ b e0 in
      let ((last, outcome), _, e2) =
        bind_ok (commit_withdrawals chain reth after s.build_config.timestamp c.withdrawals) _ b
          e1 in
      let (root, _, e3) = bind_ok (reth.state_root c.parent_block.hash _) _ b e2 in
      let ((sidecars, blob_gas, excess), cancun, e4) =
        bind_ok (cancun_fields chain reth s.build_config c t.exec_details) _ b e3 in
      let (u, paid) = pay_proposer-EndsInPayment laws reth paying t c db after room small pays in
      rw (sym (ok_injective _ b e4)) (record {
        bid = refl;
        block = (refl, refl);
        gas = paid.gas;
        gas_limit = refl;
        blob_gas = λ gas is_gas.
            rw
              (cancun_fields-blob_gas reth s.build_config c t.exec_details sidecars blob_gas excess
                gas cancun is_gas)
              paid.blob_gas;
        payment = (u, paid.appended, paid.to, paid.amount);
      })
