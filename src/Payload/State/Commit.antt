-- ===== src/Payload/State/Commit.antt =====
-- The effect of `commit` of crates/payload/src/strategy/state/mod.rs on the details of a build, and
-- the sums that `from_txs` of bundle.rs makes beforehand.
use rs_block_builder.Common.{
  ℕ, ◌<◌, ◌≡◌, refl, sym, append-nil, ap, ◌∙◌, List, [], ◌∷◌, ◌++◌, map, append_assoc, arith,
}
use rs_block_builder.Common.Words.{u64_mod, add_u64}
use rs_block_builder.Payload.Evm.{TransactionSimulationOutcome, SimulatedTransaction}
use rs_block_builder.Payload.State.{BuildState, Chain, Receipt, commit_tx, commit}

-- Words.

pub add_u64_assoc : (a b c : ℕ) → add_u64 (add_u64 a b) c ≡ add_u64 a (add_u64 b c)
unfolding add_u64 u64_mod
add_u64_assoc a b c = omega arith

pub add_u64_zero : (a : ℕ) → a < u64_mod → add_u64 a 0 ≡ a
unfolding add_u64 u64_mod
add_u64_zero a w = omega arith

pub add_u64_lt : (a b : ℕ) → add_u64 a b < u64_mod
unfolding add_u64 u64_mod
add_u64_lt a b = omega arith

module _ {Tx Account : Type 0} where
  -- The sum of a number of the outcomes, as `u64` adds them to `n`.
  unfoldable pub total :
      (TransactionSimulationOutcome Account → ℕ) → ℕ → List (SimulatedTransaction Tx Account) → ℕ
  total f n [] = n
  total f n (simulated ∷ rest) = total f (add_u64 n (f simulated.outcome)) rest

  pub total_lt :
      (f : TransactionSimulationOutcome Account → ℕ) (n : ℕ)
      (l : List (SimulatedTransaction Tx Account))
      → n < u64_mod
      → total f n l < u64_mod
  unfolding total
  total_lt f n [] w = w
  total_lt f n (x ∷ l) w = total_lt f (add_u64 n (f x.outcome)) l (add_u64_lt n (f x.outcome))

  total_shift :
      (f : TransactionSimulationOutcome Account → ℕ) (a b : ℕ)
      (l : List (SimulatedTransaction Tx Account))
      → total f (add_u64 a b) l ≡ add_u64 a (total f b l)
  unfolding total
  total_shift f a b [] = refl
  total_shift f a b (x ∷ l) =
      ap (λ n. total f n l) (add_u64_assoc a b (f x.outcome))
      ∙ total_shift f a (add_u64 b (f x.outcome)) l

  pub total_from_zero :
      (f : TransactionSimulationOutcome Account → ℕ) (n : ℕ)
      (l : List (SimulatedTransaction Tx Account))
      → n < u64_mod
      → total f n l ≡ add_u64 n (total f 0 l)
  total_from_zero f n l w = ap (λ k. total f k l) (sym (add_u64_zero n w)) ∙ total_shift f n 0 l

  pub total-append :
      (f : TransactionSimulationOutcome Account → ℕ) (n : ℕ)
      (l : List (SimulatedTransaction Tx Account)) (x : SimulatedTransaction Tx Account)
      → total f n (l ++ x ∷ []) ≡ add_u64 (total f n l) (f x.outcome)
  unfolding total
  total-append f n [] x = refl
  total-append f n (y ∷ l) x = total-append f (add_u64 n (f y.outcome)) l x

  -- The receipts of simulated transactions, after `n` gas.
  unfoldable pub receipts_of : ℕ → List (SimulatedTransaction Tx Account) → List Receipt
  receipts_of n [] = []
  receipts_of n (x ∷ rest) =
      let gas = add_u64 n x.outcome.gas_used in
      record { success = x.outcome.evm_result.is_success; cumulative_gas_used = gas }
      ∷ receipts_of gas rest

module _ {Tx Account ExecDb SimDb : Type 0} (chain : Chain Tx Account ExecDb SimDb) where
  pub commit-build_config :
      (s : BuildState Tx) (db : ExecDb) (l : List (SimulatedTransaction Tx Account))
      → (commit chain s db l).0.build_config ≡ s.build_config
  unfolding commit commit_tx
  commit-build_config s db [] = refl
  commit-build_config s db (x ∷ l) =
      commit-build_config (commit_tx chain s x) (chain.evm.exec_commit db x.outcome.evm_state) l

  pub commit-gas :
      (s : BuildState Tx) (db : ExecDb) (l : List (SimulatedTransaction Tx Account))
      → (commit chain s db l).0.exec_details.cumulative_gas_used
        ≡ total (λ o. o.gas_used) s.exec_details.cumulative_gas_used l
  unfolding commit commit_tx total
  commit-gas s db [] = refl
  commit-gas s db (x ∷ l) =
      commit-gas (commit_tx chain s x) (chain.evm.exec_commit db x.outcome.evm_state) l

  pub commit-blob_gas :
      (s : BuildState Tx) (db : ExecDb) (l : List (SimulatedTransaction Tx Account))
      → (commit chain s db l).0.exec_details.cumulative_blob_gas_used
        ≡ total (λ o. o.blob_gas_used) s.exec_details.cumulative_blob_gas_used l
  unfolding commit commit_tx total
  commit-blob_gas s db [] = refl
  commit-blob_gas s db (x ∷ l) =
      commit-blob_gas (commit_tx chain s x) (chain.evm.exec_commit db x.outcome.evm_state) l

  pub commit-executed_txs :
      (s : BuildState Tx) (db : ExecDb) (l : List (SimulatedTransaction Tx Account))
      → (commit chain s db l).0.exec_details.executed_txs
        ≡ s.exec_details.executed_txs ++ map (λ x. x.tx) l
  unfolding commit commit_tx
  commit-executed_txs s db [] = sym (append-nil s.exec_details.executed_txs)
  commit-executed_txs s db (x ∷ l) =
      commit-executed_txs (commit_tx chain s x) (chain.evm.exec_commit db x.outcome.evm_state) l
      ∙ append_assoc s.exec_details.executed_txs (x.tx ∷ []) _

  pub commit-receipts :
      (s : BuildState Tx) (db : ExecDb) (l : List (SimulatedTransaction Tx Account))
      → (commit chain s db l).0.exec_details.receipts
        ≡ s.exec_details.receipts ++ receipts_of s.exec_details.cumulative_gas_used l
  unfolding commit commit_tx receipts_of
  commit-receipts s db [] = sym (append-nil s.exec_details.receipts)
  commit-receipts s db (x ∷ l) =
      commit-receipts (commit_tx chain s x) (chain.evm.exec_commit db x.outcome.evm_state) l
      ∙ append_assoc s.exec_details.receipts _ _

  -- Committing appends the transactions in their order, one receipt for each with the gas used up
  -- to it, and the gas used is that before and all the gas of the transactions.
  pub commit_records :
      (s : BuildState Tx) (db : ExecDb) (l : List (SimulatedTransaction Tx Account))
      → ((commit chain s db l).0.exec_details.executed_txs
          ≡ s.exec_details.executed_txs ++ map (λ x. x.tx) l)
        × ((commit chain s db l).0.exec_details.receipts
            ≡ s.exec_details.receipts ++ receipts_of s.exec_details.cumulative_gas_used l)
        × ((commit chain s db l).0.exec_details.cumulative_gas_used
            ≡ total (λ o. o.gas_used) s.exec_details.cumulative_gas_used l)
  commit_records s db l = (commit-executed_txs s db l, commit-receipts s db l, commit-gas s db l)
