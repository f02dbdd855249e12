-- ===== src/Payload/Strategy/Jobs.antt =====
-- The bundle strategy of crates/payload/src/strategy, as the jobs of crates/payload/src/job run it, in each
-- build with what the job's handles lead to then.
use rs_block_builder.Bundles.Bundle.{max_builder_transfer_gas_limit}
use rs_block_builder.Bundles.Pool.{BundlePool}
use rs_block_builder.Common.{
  ℕ, suc, ◌≤◌, ◌≡◌, refl, sym, ap, ◌∙◌, Bool, false, List, [], ◌∷◌, Option, none, some, Bool-cases,
  inl, inr, contains, arith,
}
use rs_block_builder.Common.Results.{Result, ok, err, bind_ok, ok_injective}
use rs_block_builder.Payload.Evm.{PayloadBuilderError, BuildStateExecutionError}
use rs_block_builder.Payload.Execute.{execute_transaction}
use rs_block_builder.Payload.Jobs.{Strategy}
use rs_block_builder.Payload.Jobs.Improving.{best_value, Improves}
use rs_block_builder.Payload.Loop.{
  BestTransactions, IsFinite, Finished, completed, stopped, job_cancelled, exec_failed, unreachable,
  out_of_fuel,
}
use rs_block_builder.Payload.Loop.Cancelling.{
  NotCancelled, NeverCancels, on_error-NeverCancels, mempool_loop-NotCancelled,
}
use rs_block_builder.Payload.Ofac.{tx_is_ofac}
use rs_block_builder.Payload.State.{Chain, BuildConfig, BuildState, new}
use rs_block_builder.Payload.Strategy.{
  Progress, BuildOutcome, better, aborted, cancelled, no_outcome, after_transaction,
  handle_mempool_tx, execute_mempool_txs, commit_selected_bundles, decode_and_filter_bundles,
  compare_to_best, conclude, try_build_bundles,
}
use rs_block_builder.Payload.Strategy.Outcome.{value_of, try_build_bundles-IsOutcome}

-- What the handles of a job lead to while a build runs: the result of the pre-block call on the client's
-- state, the iterator of the mempool, the bundle pool and whether its lock is got in time, and what
-- the database has cached in the end.
pub record Handles (Tx Cache ExecDb Iter : Type 0) : Type 0 where
  pub client : BuildState Tx → Result PayloadBuilderError ExecDb
  pub pool : Iter
  pub bundle_pool : BundlePool
  pub locked : Bool
  pub reads : Cache

module _ {Tx Account ExecDb SimDb Iter : Type 0} (chain : Chain Tx Account ExecDb SimDb)
    (best : BestTransactions Tx Iter) (finite : IsFinite best) where
  open chain use {api, blacklist}

  after_transaction-NeverCancels :
      (i : Iter) (tx : Tx) (p : Progress Tx ExecDb) (committed : List ℕ)
      (r : Result BuildStateExecutionError (BuildState Tx × ExecDb))
      → NeverCancels (after_transaction chain best i tx p committed r)
  unfolding after_transaction
  after_transaction-NeverCancels i tx p committed (ok (s, db)) = tt
  after_transaction-NeverCancels i tx p committed (err e) = on_error-NeverCancels best i tx p e

  handle_mempool_tx-NeverCancels :
      (i : Iter) (tx : Tx) (p : Progress Tx ExecDb)
      → NeverCancels (handle_mempool_tx chain best i tx p)
  unfolding handle_mempool_tx
  handle_mempool_tx-NeverCancels i tx p = elim (Bool-cases (tx_is_ofac api blacklist tx)) [
    | inl y ↦ rw (y, handle_mempool_tx) tt
    | inr n ↦ elim (Bool-cases (contains p.committed (api.hash tx))) [
      | inl y ↦ rw (n, y, handle_mempool_tx) tt
      | inr m ↦
          rw (n, m, handle_mempool_tx)
            (after_transaction-NeverCancels i tx p (api.hash tx ∷ p.committed)
              (execute_transaction chain p.state p.db tx))
    ]
  ]

  abbrev NotCancelledOutcome : BuildOutcome Tx → Type 0
  NotCancelledOutcome (better s) = Unit
  NotCancelledOutcome (aborted value) = Unit
  NotCancelledOutcome cancelled = ⊥
  NotCancelledOutcome no_outcome = Unit

  conclude-NotCancelled :
      (best_build : Option (BuildState Tx)) (f : Finished (Progress Tx ExecDb))
      → NotCancelled f
      → NotCancelledOutcome (conclude chain best best_build f)
  unfolding conclude compare_to_best
  conclude-NotCancelled best_build (completed p) h = ground arith
  conclude-NotCancelled best_build (stopped job_cancelled p) h = h
  conclude-NotCancelled best_build (stopped exec_failed p) h = tt
  conclude-NotCancelled best_build unreachable h = tt
  conclude-NotCancelled best_build out_of_fuel h = tt

  try_build_bundles-NotCancelled :
      (decode : List ℕ → Option Tx) (pre_block : BuildState Tx → Result PayloadBuilderError ExecDb)
      (config : BuildConfig) (builder : ℕ) (locked : Bool) (pool : BundlePool) (fuel : ℕ) (i : Iter)
      (best_build : Option (BuildState Tx)) (o : BuildOutcome Tx)
      → try_build_bundles chain best decode pre_block config builder locked pool
          (λ r. false)
          fuel
          i
          best_build
        ≡ ok o
      → NotCancelledOutcome o
  unfolding try_build_bundles execute_mempool_txs
  try_build_bundles-NotCancelled decode pre_block config builder locked pool fuel i best_build o e =
      let (db, _, e1) = bind_ok (pre_block (new config builder)) _ o e in
      let start : Progress Tx ExecDb = record {
        state = new config builder;
        db = db;
        committed = [];
      } in
      let (selected, e2, e3) =
        bind_ok
          (commit_selected_bundles chain start
            (decode_and_filter_bundles chain decode db (new config builder) locked pool))
          _ o e1 in
      rw (sym (ok_injective {E = PayloadBuilderError} _ o e3)) (
        conclude-NotCancelled best_build _ (
          mempool_loop-NotCancelled best (handle_mempool_tx chain best)
            handle_mempool_tx-NeverCancels fuel 0 i selected))

  -- A strategy's outcome with what its build has cached.
  abbrev with_cache :
      {Cache : Type 0}
      → Result PayloadBuilderError (BuildOutcome Tx)
      → Cache
      → Result PayloadBuilderError (BuildOutcome Tx × Cache)
  with_cache (ok o) cached = ok (o, cached)
  with_cache (err e) cached = err e

  with_cache-ok :
      {Cache : Type 0} (r : Result PayloadBuilderError (BuildOutcome Tx)) (o : BuildOutcome Tx)
      (read cached : Cache)
      → with_cache r read ≡ ok (o, cached)
      → r ≡ ok o
  with_cache-ok (ok x) o read cached e = cc
  with_cache-ok (err x) o read cached e = cc

  value_of-best_value : (o : Option (BuildState Tx)) → value_of o ≡ best_value o
  value_of-best_value none = refl
  value_of-best_value (some s) = refl

  -- The bundle strategy as a job runs it, with fuel for the whole mempool.
  unfoldable pub bundles_strategy :
      {Cache : Type 0} → (List ℕ → Option Tx) → ℕ → Strategy Tx Cache (Handles Tx Cache ExecDb Iter)
  bundles_strategy decode builder args =
      with_cache
        (try_build_bundles chain best decode args.shared.client args.build_config builder
          args.shared.locked args.shared.bundle_pool (λ r. args.cancel)
          (suc (finite.remaining args.shared.pool)) args.shared.pool args.best_build)
        args.shared.reads

  -- For a gas limit that covers the builder's transfer and a mempool that has finitely many
  -- transactions left to come, the bundle strategy as a job runs it, with fuel for all of them and
  -- whatever the client, the mempool and the bundle pool hold at each build, is not cancelled
  -- without the flag, and a better build is for the slot of its configuration and worth strictly
  -- more than the best build it was given.
  pub bundles_strategy-Improves :
      {Cache : Type 0} (decode : List ℕ → Option Tx) (builder : ℕ) (config : BuildConfig)
      → max_builder_transfer_gas_limit ≤ config.block_gas_limit
      → Improves {Cache = Cache} config (bundles_strategy decode builder)
  unfolding bundles_strategy
  bundles_strategy-Improves decode builder config room = record {
    higher = λ args s cached same e.
        let run = with_cache-ok _ (better s) args.shared.reads cached e in
        let (sound, more) =
          try_build_bundles-IsOutcome chain best finite decode args.shared.client args.build_config
            builder args.shared.locked args.shared.bundle_pool (λ r. args.cancel)
            (suc (finite.remaining args.shared.pool)) args.shared.pool args.best_build (better s)
            (rw (same) room) (omega arith) run in
        (
          rw (sym (value_of-best_value args.best_build)) more,
          sound.same_slot ∙ ap (λ c. c.slot) same,
        );
    not_cancelled = λ args cached same unset e.
        try_build_bundles-NotCancelled decode args.shared.client args.build_config builder
          args.shared.locked args.shared.bundle_pool (suc (finite.remaining args.shared.pool))
          args.shared.pool args.best_build cancelled
          (ap
              (λ flag.
                try_build_bundles chain best decode args.shared.client args.build_config builder
                  args.shared.locked args.shared.bundle_pool (λ r. flag)
                  (suc (finite.remaining args.shared.pool)) args.shared.pool args.best_build)
              (sym unset)
            ∙ with_cache-ok _ cancelled args.shared.reads cached e);
  }
