-- ===== src/Tests/Rpc.antt =====
-- The theorems about crates/rpc, applied to a request with two transactions.
use rs_block_builder.Bundles.Bundle.{of_request}
use rs_block_builder.Bundles.Inner
use rs_block_builder.Bundles.Inner.Invariant.{run-IsValid}
use rs_block_builder.Common.{ℕ, ◌≡◌, ◌≢◌, ◌⊎◌, refl, true, List, [], map, contains, arith}
use rs_block_builder.Rpc.{EthApiError, ok, err, recover_all, create_hash, send}
use rs_block_builder.Rpc.Laws.{send_cases, send_served}
use rs_block_builder.Tests.Data.{codec, request, pool, calls}

accepted : (send codec true pool request).1 ≡ ok 64
unfolding send rs_block_builder.Rpc.recover_transactions recover_all
    rs_block_builder.Rpc.recover_raw_transaction rs_block_builder.Bundles.Pool.add_bundle
    Inner.add_bundle of_request create_hash
accepted = refl

send_cases_example :
    ((e : EthApiError) × ((send codec true pool request).1 ≡ err e)
      × ((send codec true pool request).0.inner ≡ pool.inner))
    ⊎ ((txs : List ℕ) × (true ≡ true)
        × (request.txs ≢ [])
        × (request.block_number ≢ 0)
        × (recover_all codec request.txs ≡ ok txs)
        × ((send codec true pool request).1 ≡ ok (create_hash codec txs))
        × ((send codec true pool request).0.inner
            ≡ (Inner.add_bundle pool.inner (of_request request (create_hash codec txs))).0))
send_cases_example = send_cases codec true pool request

send_served_example :
    contains (map (λ b. b.hash) (Inner.bundles (send codec true pool request).0.inner 10 50)) 64
    ≡ true
send_served_example =
    send_served codec true pool request 64 50 (run-IsValid calls) accepted tt (omega arith)
