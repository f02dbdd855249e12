-- ===== src/Payload/Simulate/Bundle.antt =====
-- The simulated bundle that `simulate_bundle` of crates/payload/src/strategy/state/mod.rs returns.
use rs_block_builder.Common.{
  ℕ, ◌≡◌, refl, sym, ap, ◌∙◌, List, [], ◌∷◌, ◌++◌, map, All, ◌==◌, map-append, Option, none, some,
  Bool-cases, Option-cases, ◌⊎◌, inl, inr,
}
use rs_block_builder.Bundles.Bundle.{RecoveredBundle, refund_recipient}
use rs_block_builder.Payload.Evm.{
  Result, ok, err, map_err, ok_injective, bind_ok, map_err_ok, TxEip1559,
  TransactionSimulationOutcome, SimulatedTransaction, payload_builder, PayloadBuilderError,
  BuildStateExecutionError,
}
use rs_block_builder.Payload.Simulation.{
  no_outcome, add_tx_outcome, SimulatedBundle, ofac_address_in, new_simulated, add_tx,
}
use rs_block_builder.Payload.State.{BuildState, Chain}
use rs_block_builder.Payload.Simulate.{
  transact, screen_outcome, simulate_tx_on_db, create_builder_transfer_transaction, check_refund,
  refund_to, simulate_refund_tx, with_refund, simulate_txs, simulate_bundle,
}
use rs_block_builder.Payload.Simulate.Outcome.{Counts, from_txs-Counts, add_tx-Counts}

module _ {Tx Account ExecDb SimDb : Type 0} (chain : Chain Tx Account ExecDb SimDb) where
  open chain use {api, evm, blacklist}

  simulate_txs-txs :
      (s : BuildState Tx) (txs : List Tx) (db last : SimDb) (n : ℕ)
      (l : List (SimulatedTransaction Tx Account))
      → simulate_txs chain s db n txs ≡ ok (l, last)
      → map (λ x. x.tx) l ≡ txs
  unfolding simulate_txs
  simulate_txs-txs s [] db last n l e =
      sym (ap (λ q. map (λ x. x.tx) q.0) (ok_injective ([], db) (l, last) e))
  simulate_txs-txs s (tx ∷ txs) db last n l e =
      let (executed, _, e1) =
        bind_ok (map_err payload_builder (transact chain s db tx)) _ (l, last) e in
      let (screened, _, e2) = bind_ok (screen_outcome chain _) _ (l, last) e1 in
      let ((rest, end), e3, e4) = bind_ok (simulate_txs chain s _ _ txs) _ (l, last) e2 in
      sym (ap (λ q. map (λ x. x.tx) q.0) (ok_injective _ (l, last) e4))
      ∙ ap (λ q. tx ∷ q) (simulate_txs-txs s txs _ end _ rest e3)

  -- No account that the transaction touched is on the blacklist.
  abbrev pub IsScreened : SimulatedTransaction Tx Account → Type 0
  IsScreened x = ofac_address_in blacklist x.outcome.evm_state ≡ none

  screen_outcome-IsScreened :
      (o q : TransactionSimulationOutcome Account)
      → screen_outcome chain o ≡ ok q
      → (ofac_address_in blacklist q.evm_state ≡ none)
  unfolding screen_outcome
  screen_outcome-IsScreened o q e = elim (Option-cases (ofac_address_in blacklist o.evm_state)) [
    | inl n ↦ cc
    | inr (a, y) ↦ cc
  ]

  simulate_txs-IsScreened :
      (s : BuildState Tx) (txs : List Tx) (db last : SimDb) (n : ℕ)
      (l : List (SimulatedTransaction Tx Account))
      → simulate_txs chain s db n txs ≡ ok (l, last)
      → All IsScreened l
  unfolding simulate_txs
  simulate_txs-IsScreened s [] db last n l e =
      rw (sym (ap (λ q. q.0) (ok_injective ([], db) (l, last) e))) tt
  simulate_txs-IsScreened s (tx ∷ txs) db last n l e =
      let (executed, _, e1) =
        bind_ok (map_err payload_builder (transact chain s db tx)) _ (l, last) e in
      let (screened, e0, e2) = bind_ok (screen_outcome chain _) _ (l, last) e1 in
      let ((rest, end), e3, e4) = bind_ok (simulate_txs chain s _ _ txs) _ (l, last) e2 in
      rw (sym (ap (λ q. q.0) (ok_injective _ (l, last) e4)))
        (screen_outcome-IsScreened _ screened e0, simulate_txs-IsScreened s txs _ end _ rest e3)

  -- `c` is the simulation of the bundle `b`, with at most one transaction of the builder added.
  pub record Simulates (b : RecoveredBundle Tx) (c : SimulatedBundle Tx Account) : Type 0 where
    pub same : c.bundle ≡ b
    pub counts : c.outcome.reverted ≡ none → Counts api no_outcome c.outcome c.simulated_txs
    pub executes :
        (map (λ x. x.tx) c.simulated_txs ≡ b.recovered_txs)
        ⊎ ((t : TxEip1559) × (map (λ x. x.tx) c.simulated_txs ≡ b.recovered_txs ++ evm.sign t ∷ []))

  new_simulated-Simulates :
      (s : BuildState Tx) (b : RecoveredBundle Tx) (l : List (SimulatedTransaction Tx Account))
      → map (λ x. x.tx) l ≡ b.recovered_txs
      → Simulates b (new_simulated api b l s.build_config.basefee)
  unfolding new_simulated
  new_simulated-Simulates s b l e = record {
    same = refl;
    counts = λ r. record {
      gas = (from_txs-Counts api b l r).gas;
      blob_gas = (from_txs-Counts api b l r).blob_gas;
    };
    executes = inl e;
  }

  check_refund-same :
      (y : SimulatedTransaction Tx Account) (x : SimulatedTransaction Tx Account)
      → check_refund chain y ≡ ok (some x)
      → y.tx ≡ x.tx
  unfolding check_refund
  check_refund-same y x e = elim (Bool-cases y.outcome.evm_result.is_success) [
    | inl t ↦ cc
    | inr f ↦ cc
  ]

  create-signed :
      (s : BuildState Tx) (basic : Result PayloadBuilderError (Option (ℕ × ℕ)))
      (recipient refund : ℕ) (tx : Tx)
      → create_builder_transfer_transaction chain s basic recipient refund ≡ ok tx
      → (t : TxEip1559) × (tx ≡ evm.sign t)
  unfolding create_builder_transfer_transaction
  create-signed s basic recipient refund tx e =
      let (account, _, e1) = bind_ok basic _ tx e in (_, sym (ok_injective _ tx e1))

  pub simulate_tx_on_db-same :
      (s : BuildState Tx) (db : SimDb) (tx : Tx) (y : SimulatedTransaction Tx Account)
      → simulate_tx_on_db chain s db tx ≡ ok y
      → y.tx ≡ tx
  unfolding simulate_tx_on_db
  simulate_tx_on_db-same s db tx y e =
      let (account, _, e1) = bind_ok (evm.sim_basic db _) _ y e in
      let (executed, _, e2) = bind_ok (transact chain s db tx) _ y e1 in
      sym (ap (λ q. q.tx) (ok_injective _ y e2))

  refund_to-signed :
      (s : BuildState Tx) (db : SimDb) (recipient refund : ℕ) (x : SimulatedTransaction Tx Account)
      → refund_to chain s db recipient refund ≡ ok (some x)
      → (t : TxEip1559) × (x.tx ≡ evm.sign t)
  unfolding refund_to
  refund_to-signed s db recipient refund x e =
      let created =
        create_builder_transfer_transaction chain s (evm.sim_basic db s.builder_address) recipient
          refund in
      let (tx, e0, e1) = bind_ok (map_err payload_builder created) _ (some x) e in
      let (y, e2, e3) =
        bind_ok (map_err payload_builder (simulate_tx_on_db chain s db tx)) _ (some x) e1 in
      let (t, signed) =
        create-signed s _ recipient refund tx (map_err_ok payload_builder created tx e0) in
      (
        t,
        sym (check_refund-same y x e3)
            ∙ simulate_tx_on_db-same s db tx y (map_err_ok payload_builder _ y e2)
            ∙ signed,
      )

  refund_tx_signed :
      (s : BuildState Tx) (db : SimDb) (c : SimulatedBundle Tx Account)
      (x : SimulatedTransaction Tx Account)
      → simulate_refund_tx chain s db c ≡ ok (some x)
      → (t : TxEip1559) × (x.tx ≡ evm.sign t)
  unfolding simulate_refund_tx
  refund_tx_signed s db c x e = elim (Bool-cases (c.outcome.refund == 0)) [
    | inl z ↦ cc
    | inr n ↦ elim (Option-cases (refund_recipient api c.bundle)) [
      | inl k ↦ cc
      | inr (recipient, k) ↦ refund_to-signed s db recipient c.outcome.refund x cc
    ]
  ]

  add_tx-Simulates :
      (b : RecoveredBundle Tx) (c : SimulatedBundle Tx Account)
      (x : SimulatedTransaction Tx Account) (t : TxEip1559)
      → Simulates b c
      → map (λ x. x.tx) c.simulated_txs ≡ b.recovered_txs
      → x.tx ≡ evm.sign t
      → Simulates b (add_tx c x)
  unfolding add_tx add_tx_outcome
  add_tx-Simulates b c x t v e signed = record {
    same = v.same;
    counts = λ r. add_tx-Counts api no_outcome c x (v.counts r);
    executes = inr (
      t,
      map-append (λ (x : SimulatedTransaction Tx Account). x.tx) c.simulated_txs (x ∷ [])
          ∙ ap (λ l. l ++ x.tx ∷ []) e
          ∙ ap (λ q. b.recovered_txs ++ q ∷ []) signed,
    );
  }

  with_refund-Simulates :
      (b : RecoveredBundle Tx) (c d : SimulatedBundle Tx Account)
      (r : Result BuildStateExecutionError (Option (SimulatedTransaction Tx Account)))
      → Simulates b c
      → map (λ x. x.tx) c.simulated_txs ≡ b.recovered_txs
      → ((x : SimulatedTransaction Tx Account)
          → r ≡ ok (some x)
          → (t : TxEip1559) × (x.tx ≡ evm.sign t))
      → with_refund chain c r ≡ ok d
      → Simulates b d
  with_refund-Simulates b c d (ok none) v same h e = rw (sym (ok_injective c d e)) v
  with_refund-Simulates b c d (err x) v same h e = cc
  with_refund-Simulates b c d (ok (some x)) v same h e =
      let (t, signed) = h x refl in
      rw (sym (ok_injective (add_tx c x) d e)) (add_tx-Simulates b c x t v same signed)

  pub simulate_bundle-Simulates :
      (s : BuildState Tx) (db : ExecDb) (b : RecoveredBundle Tx) (c : SimulatedBundle Tx Account)
      → simulate_bundle chain s db b ≡ ok c
      → Simulates b c
  unfolding simulate_bundle new_simulated
  simulate_bundle-Simulates s db b c e =
      let (account, _, e1) =
        bind_ok (map_err payload_builder (evm.sim_basic (evm.simulation_db db) _)) _ c e in
      let ((l, last), e2, e3) = bind_ok (simulate_txs chain s _ _ b.recovered_txs) _ c e1 in
      let same = simulate_txs-txs s b.recovered_txs _ last _ l e2 in
      with_refund-Simulates b (new_simulated api b l s.build_config.basefee) c _
        (new_simulated-Simulates s b l same) same (λ x h. refund_tx_signed s last _ x h) e3

  -- The simulation of a bundle, where it succeeds, is of that bundle and executes its transactions
  -- in their order, and after them at most one transaction, which the builder signed.
  pub simulate_bundle_executes :
      (s : BuildState Tx) (db : ExecDb) (b : RecoveredBundle Tx) (c : SimulatedBundle Tx Account)
      → simulate_bundle chain s db b ≡ ok c
      → (c.bundle ≡ b)
        × ((map (λ x. x.tx) c.simulated_txs ≡ b.recovered_txs)
            ⊎ ((t : TxEip1559) × (map (λ x. x.tx) c.simulated_txs
                  ≡ b.recovered_txs ++ evm.sign t ∷ [])))
  simulate_bundle_executes s db b c e =
      let v = simulate_bundle-Simulates s db b c e in (v.same, v.executes)

  -- The gas and the blob gas of a simulated bundle that did not revert are the sums over all its
  -- simulated transactions, the refund's included.
  pub simulate_bundle-Counts :
      (s : BuildState Tx) (db : ExecDb) (b : RecoveredBundle Tx) (c : SimulatedBundle Tx Account)
      → simulate_bundle chain s db b ≡ ok c
      → c.outcome.reverted ≡ none
      → Counts api no_outcome c.outcome c.simulated_txs
  simulate_bundle-Counts s db b c e r = (simulate_bundle-Simulates s db b c e).counts r
