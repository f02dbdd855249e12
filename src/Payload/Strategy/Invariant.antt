-- ===== src/Payload/Strategy/Invariant.antt =====
-- What the strategies of crates/payload/src/strategy keep true of a build: its room in the block, and
-- what it executes.
use rs_block_builder.Bundles.Bundle.{txs}
use rs_block_builder.Common.{
  ◌∙◌, ℕ, ◌≡◌, refl, sym, ap, false, List, [], ◌∷◌, ◌++◌, Bool-cases, ◌⊎◌, inl, inr, contains, any,
  All,
}
use rs_block_builder.Payload.Evm.{
  Result, ok, err, payload_builder, max_gas_exceeded, max_blob_gas_exceeded, bundle_exection,
  bundle_reverted, ofac_address_detected, builder_refund_tx, bind_ok, ok_injective, Result-cases,
  PayloadBuilderError, BuildStateExecutionError, TxEip1559,
}
use rs_block_builder.Payload.Ofac.{tx_is_ofac}
use rs_block_builder.Payload.Simulation.{
  SimulatedBundle, contains_ofac, contains_committed_transaction,
}
use rs_block_builder.Payload.State.{BuildState, Chain}
use rs_block_builder.Payload.State.Capacity.{HasRoom}
use rs_block_builder.Payload.Execute.{execute_transaction, execute_bundle}
use rs_block_builder.Payload.Execute.Room.{
  Executes, execute_transaction-Executes, execute_bundle-Executes,
}
use rs_block_builder.Payload.Loop.{BestTransactions, IsFinite, Handled}
use rs_block_builder.Payload.Loop.Laws.{StepsWell}
use rs_block_builder.Payload.Loop.Errors.{on_error_cases, self_le}
use rs_block_builder.Payload.Execute.Errors.{execute_transaction-error}
use rs_block_builder.Payload.Strategy.{
  Progress, after_bundle, select_bundle, commit_selected_bundles, after_transaction,
  handle_mempool_tx, handle_tx,
}

module _ {Tx Account ExecDb SimDb : Type 0} (chain : Chain Tx Account ExecDb SimDb) (slot : ℕ) where
  open chain use {api, evm, blacklist}

  -- A transaction that a block may hold: neither its signer nor its recipient is on the blacklist,
  -- or the builder signed it.
  abbrev pub IsAllowed : Tx → Type 0
  IsAllowed tx = (tx_is_ofac api blacklist tx ≡ false) ⊎ ((t : TxEip1559) × (tx ≡ evm.sign t))

  pub record IsSound (s : BuildState Tx) : Type 0 where
    pub room : HasRoom chain s
    pub allowed : All IsAllowed s.exec_details.executed_txs
    pub same_slot : s.build_config.slot ≡ slot

  All-append : (P : Tx → Type 0) (l k : List Tx) → All P l → All P k → All P (l ++ k)
  All-append P [] k a b = b
  All-append P (x ∷ l) k (a, rest) b = (a, All-append P l k rest b)

  Executes-IsSound :
      (s t : BuildState Tx) (l : List Tx)
      → IsSound s
      → All IsAllowed l
      → Executes chain s t l
      → IsSound t
  Executes-IsSound s t l v a x = record {
    room = x.room;
    same_slot = ap (λ c. c.slot) x.config ∙ v.same_slot;
    allowed = elim x.executed [
      | inl e ↦ rw (e) (All-append IsAllowed s.exec_details.executed_txs l v.allowed a)
      | inr (u, e) ↦ rw (e) (
          All-append IsAllowed s.exec_details.executed_txs (l ++ evm.sign u ∷ []) v.allowed
            (All-append IsAllowed l (evm.sign u ∷ []) a (inr (u, refl), tt)))
    ];
  }

  any-IsAllowed : (l : List Tx) → any (tx_is_ofac api blacklist) l ≡ false → All IsAllowed l
  any-IsAllowed [] e = tt
  any-IsAllowed (x ∷ l) e = elim (Bool-cases (tx_is_ofac api blacklist x)) [
    | inl y ↦ cc
    | inr n ↦ (inl n, any-IsAllowed l cc)
  ]

  after_bundle-IsSound :
      (p q : Progress Tx ExecDb) (hashes : List ℕ) (l : List Tx)
      (r : Result BuildStateExecutionError (BuildState Tx × ExecDb))
      → IsSound p.state
      → All IsAllowed l
      → ((t : BuildState Tx) (db : ExecDb) → r ≡ ok (t, db) → Executes chain p.state t l)
      → after_bundle chain p hashes r ≡ ok q
      → IsSound q.state
  unfolding after_bundle
  after_bundle-IsSound p q hashes l (ok (t, db)) v a x e =
      rw (sym (ap (λ z. z.state) (ok_injective _ q e)))
        (Executes-IsSound p.state t l v a (x t db refl))
  after_bundle-IsSound p q hashes l (err (payload_builder y)) v a x e = cc
  after_bundle-IsSound p q hashes l (err max_gas_exceeded) v a x e = rw (sym (ok_injective p q e)) v
  after_bundle-IsSound p q hashes l (err max_blob_gas_exceeded) v a x e =
      rw (sym (ok_injective p q e)) v
  after_bundle-IsSound p q hashes l (err (bundle_exection y)) v a x e =
      rw (sym (ok_injective p q e)) v
  after_bundle-IsSound p q hashes l (err (bundle_reverted i)) v a x e =
      rw (sym (ok_injective p q e)) v
  after_bundle-IsSound p q hashes l (err (ofac_address_detected b)) v a x e =
      rw (sym (ok_injective p q e)) v
  after_bundle-IsSound p q hashes l (err builder_refund_tx) v a x e =
      rw (sym (ok_injective p q e)) v

  select_bundle-IsSound :
      (p q : Progress Tx ExecDb) (b : SimulatedBundle Tx Account)
      → IsSound p.state
      → select_bundle chain p b ≡ ok q
      → IsSound q.state
  unfolding select_bundle contains_ofac
  select_bundle-IsSound p q b v e = elim (Bool-cases (contains_ofac api blacklist b)) [
    | inl y ↦ rw (sym (ok_injective {E = PayloadBuilderError} p q (cc))) v
    | inr n ↦ elim (Bool-cases (contains_committed_transaction api b p.committed)) [
      | inl y ↦ rw (sym (ok_injective {E = PayloadBuilderError} p q (cc))) v
      | inr m ↦
          after_bundle-IsSound p q (txs api b.bundle) b.bundle.recovered_txs
            (execute_bundle chain p.state p.db b.bundle) v (any-IsAllowed b.bundle.recovered_txs n)
            (λ t db x. execute_bundle-Executes chain p.state t p.db db b.bundle v.room x) (cc)
    ]
  ]

  -- The greedy selection, where it returns, leaves a sound build sound: for its slot, within the
  -- limits of the block, with only transactions that have both parties off the blacklist or that
  -- the builder signed.
  pub commit_selected_bundles-IsSound :
      (p q : Progress Tx ExecDb) (l : List (SimulatedBundle Tx Account))
      → IsSound p.state
      → commit_selected_bundles chain p l ≡ ok q
      → IsSound q.state
  unfolding commit_selected_bundles
  commit_selected_bundles-IsSound p q [] v e = rw (sym (ok_injective p q e)) v
  commit_selected_bundles-IsSound p q (b ∷ l) v e =
      let (mid, e0, e1) = bind_ok (select_bundle chain p b) _ q e in
      commit_selected_bundles-IsSound mid q l (select_bundle-IsSound p mid b v e0) e1

  module _ {Iter : Type 0} (best : BestTransactions Tx Iter) (finite : IsFinite best) where
    abbrev pub IsHandled : Iter → Handled Iter (Progress Tx ExecDb) → Type 0
    IsHandled i h = StepsWell best finite (λ q. IsSound q.state) i h

    -- What the match on an executed transaction does: the build moves on, an error leaves it as it is.
    after_transaction_cases :
        (i : Iter) (tx : Tx) (p : Progress Tx ExecDb) (committed : List ℕ)
        → tx_is_ofac api blacklist tx ≡ false
        → IsSound p.state
        → IsHandled i (
            after_transaction chain best i tx p committed
              (execute_transaction chain p.state p.db tx))
    unfolding after_transaction
    after_transaction_cases i tx p committed n v =
        elim (Result-cases (execute_transaction chain p.state p.db tx)) [
          | inl ((t, db), e) ↦
              rw (e, after_transaction)
                (
                  Executes-IsSound p.state t (tx ∷ []) v (inl n, tt)
                      (execute_transaction-Executes chain p.state t p.db db tx e),
                  self_le best finite i,
                )
          | inr (x, e) ↦
              elim (on_error_cases best finite i tx p x
                (execute_transaction-error chain p.state p.db tx x e)) [
                  | inl (j, g, l) ↦ rw (e, after_transaction, g) (v, l)
                  | inr g ↦ rw (e, after_transaction, g) v
                ]
        ]

    pub handle_mempool_tx-IsHandled :
        (i : Iter) (tx : Tx) (p : Progress Tx ExecDb)
        → IsSound p.state
        → IsHandled i (handle_mempool_tx chain best i tx p)
    unfolding handle_mempool_tx
    handle_mempool_tx-IsHandled i tx p v = elim (Bool-cases (tx_is_ofac api blacklist tx)) [
      | inl y ↦ rw (y, handle_mempool_tx) (v, finite.mark_invalid_le i tx)
      | inr n ↦ elim (Bool-cases (contains p.committed (api.hash tx))) [
        | inl y ↦ rw (n, y, handle_mempool_tx) (v, self_le best finite i)
        | inr m ↦
            rw (n, m, handle_mempool_tx)
              (after_transaction_cases i tx p (api.hash tx ∷ p.committed) n v)
      ]
    ]

    pub handle_tx-IsHandled :
        (i : Iter) (tx : Tx) (p : Progress Tx ExecDb)
        → IsSound p.state
        → IsHandled i (handle_tx chain best i tx p)
    unfolding handle_tx
    handle_tx-IsHandled i tx p v = elim (Bool-cases (tx_is_ofac api blacklist tx)) [
      | inl y ↦ rw (y, handle_tx) (v, finite.mark_invalid_le i tx)
      | inr n ↦ rw (n, handle_tx) (after_transaction_cases i tx p p.committed n v)
    ]
