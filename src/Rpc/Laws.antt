-- ===== src/Rpc/Laws.antt =====
-- What a client of crates/rpc can rely on: a request that is refused changes no bundle, and one that
-- is accepted is served.
use rs_block_builder.Bundles.Bundle.{EthSendBundle, of_request}
use rs_block_builder.Bundles.Inner
use rs_block_builder.Bundles.Inner.Invariant.{IsValid, add_bundle-IsValid}
use rs_block_builder.Bundles.Inner.Lookup.{lookup-add_bundle}
use rs_block_builder.Bundles.Inner.Serving.{Fits, AtLeast, AtMost, bundles_exact}
use rs_block_builder.Bundles.Pool.{BundlePool, add_bundle}
use rs_block_builder.Common.{
  ℕ, ◌≡◌, ◌≢◌, refl, Bool, true, false, List, [], ◌∷◌, map, some, arith, contains, ◌⊎◌, inl, inr,
}
use rs_block_builder.Common.Map.{lookup}
use rs_block_builder.Rpc.{
  Codec, EthApiError, EthResult, ok, err, internal_eth_error, recover_transactions, recover_all,
  create_hash, send,
}

EthResult-cases {ℓ} :
    {A : Type ℓ} (r : EthResult A) → ((e : EthApiError) × (r ≡ err e)) ⊎ ((a : A) × (r ≡ ok a))
EthResult-cases (err e) = inl (e, refl)
EthResult-cases (ok a) = inr (a, refl)

of_request-Fits :
    (request : EthSendBundle) (hash t : ℕ)
    → AtLeast request.min_timestamp t
    → AtMost request.max_timestamp t
    → Fits (of_request request hash) request.block_number t
unfolding of_request
of_request-Fits request hash t lo hi = record { block = refl; after = lo; before = hi }

lookup-add_request :
    (p : Inner.BundlePoolInner) (request : EthSendBundle) (hash h : ℕ)
    → hash ≡ h
    → lookup h (Inner.add_bundle p (of_request request hash)).0.bundles
      ≡ some (of_request request hash)
unfolding of_request
lookup-add_request p request hash h e =
    ground (arith, lookup-add_bundle p (of_request request hash) h)

module _ {Pooled Tx : Type 0} (codec : Codec Pooled Tx) where
  recover_transactions-ok :
      (raws : List (List ℕ)) (n : ℕ) (txs : List Tx)
      → recover_transactions codec raws n ≡ ok txs
      → (raws ≢ []) × (n ≢ 0) × (recover_all codec raws ≡ ok txs)
  unfolding recover_transactions
  recover_transactions-ok [] n txs e = cc
  recover_transactions-ok (raw ∷ raws) n txs e = (λ h. cc, ground arith, ground arith)

  -- A request is accepted only with the lock, with some transactions that all decode, and with a
  -- block number. Then its bundle is added under the hash that is returned. Any other request
  -- changes no bundle and no index of the pool.
  pub send_cases :
      (locked : Bool) (p : BundlePool) (request : EthSendBundle)
      → ((e : EthApiError) × ((send codec locked p request).1 ≡ err e)
          × ((send codec locked p request).0.inner ≡ p.inner))
        ⊎ ((txs : List Tx) × (locked ≡ true)
            × (request.txs ≢ [])
            × (request.block_number ≢ 0)
            × (recover_all codec request.txs ≡ ok txs)
            × ((send codec locked p request).1 ≡ ok (create_hash codec txs))
            × ((send codec locked p request).0.inner
                ≡ (Inner.add_bundle p.inner (of_request request (create_hash codec txs))).0))
  unfolding send add_bundle Inner.add_bundle create_hash of_request
  send_cases locked p request =
      elim (EthResult-cases (recover_transactions codec request.txs request.block_number)) [
        | inl (e, refused) ↦ inl (e, rw (refused, send), rw (refused, send))
        | inr (txs, recovered) ↦ added locked txs recovered
      ]
    where
      added :
          (got : Bool) (txs : List Tx)
          → recover_transactions codec request.txs request.block_number ≡ ok txs
          → ((e : EthApiError) × ((send codec got p request).1 ≡ err e)
              × ((send codec got p request).0.inner ≡ p.inner))
            ⊎ ((txs : List Tx) × (got ≡ true)
                × (request.txs ≢ [])
                × (request.block_number ≢ 0)
                × (recover_all codec request.txs ≡ ok txs)
                × ((send codec got p request).1 ≡ ok (create_hash codec txs))
                × ((send codec got p request).0.inner
                    ≡ (Inner.add_bundle p.inner (of_request request (create_hash codec txs))).0))
      added false txs recovered =
          inl (internal_eth_error, rw (recovered, send), rw (recovered, send))
      added true txs recovered =
          let (some_txs, some_block, decoded) =
            recover_transactions-ok request.txs request.block_number txs recovered in
          inr (txs, refl, some_txs, some_block, decoded, rw (recovered, send), rw (recovered, send))

  -- In a valid pool an accepted bundle is in the answer for its block at every timestamp that it
  -- admits.
  pub send_served :
      (locked : Bool) (p : BundlePool) (request : EthSendBundle) (h t : ℕ)
      → IsValid p.inner
      → (send codec locked p request).1 ≡ ok h
      → AtLeast request.min_timestamp t
      → AtMost request.max_timestamp t
      → contains
          (map
            (λ b. b.hash)
            (Inner.bundles (send codec locked p request).0.inner request.block_number t))
          h
        ≡ true
  send_served locked p request h t v e lo hi = elim (send_cases locked p request) [
    | inl (refusal, refused, _) ↦ cc
    | inr (txs, _, _, _, _, accepted, added) ↦
        rw added (served (create_hash codec txs) (ground arith))
  ]
    where
      served :
          (hash : ℕ)
          → hash ≡ h
          → contains
              (map
                (λ b. b.hash)
                (Inner.bundles
                  (Inner.add_bundle p.inner (of_request request hash)).0
                  request.block_number
                  t))
              h
            ≡ true
      served hash same =
          let b = of_request request hash in
          (bundles_exact (Inner.add_bundle p.inner b).0 request.block_number t
              (add_bundle-IsValid p.inner b v)).1
            h b (lookup-add_request p.inner request hash h same)
            (of_request-Fits request hash t lo hi)
