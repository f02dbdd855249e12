-- ===== src/Bundles/Transaction.antt =====
-- What the source reads of a recovered transaction (`TransactionSignedEcRecovered` of reth): a
-- parameter of the model, since that type is not of this repository. Hashes and addresses are
-- numbers.
use rs_block_builder.Common.{ℕ, Option}

pub record TransactionApi (Tx : Type 0) : Type 0 where
  -- `tx.hash()`, `tx.signer()` and `tx.to()`
  pub hash : Tx → ℕ
  pub signer : Tx → ℕ
  pub to : Tx → Option ℕ
  -- `tx.transaction.as_eip4844().map(|tx| tx.blob_gas())`
  pub blob_gas : Tx → Option ℕ
  -- `tx.effective_tip_per_gas(Some(basefee))`, which is always there for a transaction that the EVM
  -- executed
  pub effective_tip_per_gas : Tx → ℕ → ℕ
