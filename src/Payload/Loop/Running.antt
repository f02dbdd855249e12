-- ===== src/Payload/Loop/Running.antt =====
-- The `while let` loop over the mempool of crates/payload/src/strategy as a relation without fuel, and the
-- loop of the model against it.
use rs_block_builder.Common.{
  ℕ, zero, suc, ◌+◌, ◌≤◌, ◌<◌, ◌≡◌, refl, Bool, true, false, none, some, Option-cases, Bool-cases,
  inl, inr, arith,
}
use rs_block_builder.Payload.Loop.{
  BestTransactions, IsFinite, TxExecution, job_cancelled, Handled, go_on, stop, bundle_error,
  Finished, completed, stopped, unreachable, mempool_loop,
}
use rs_block_builder.Payload.Loop.Laws.{below}

module _ {Tx Iter P : Type 0} {best : BestTransactions Tx Iter} (finite : IsFinite best) where
  open finite use {remaining}

  -- A step leaves no more transactions than it found.
  abbrev pub AddsNone : Iter → Handled Iter P → Type 0
  AddsNone i (go_on j q) = remaining j ≤ remaining i
  AddsNone i (stop reason q) = Unit
  AddsNone i bundle_error = Unit

module _ {Tx Iter P : Type 0} (best : BestTransactions Tx Iter)
    (handle : Iter → Tx → P → Handled Iter P) (is_cancelled : ℕ → Bool) where
  -- A run from a round, an iterator and a progress on to its end: there is no fuel, and a loop that does
  -- not stop has no derivation.
  pub data Runs : ℕ → Iter → P → Finished P → Type 0 where
    ends : {round : ℕ} {i : Iter} {p : P} → best.next i ≡ none → Runs round i p (completed p)
    cancels :
        {round : ℕ} {i : Iter} {p : P} {tx : Tx} {rest : Iter}
        → best.next i ≡ some (tx, rest)
        → is_cancelled round ≡ true
        → Runs round i p (stopped job_cancelled p)
    stops :
        {round : ℕ} {i : Iter} {p : P} {tx : Tx} {rest : Iter} {reason : TxExecution} {q : P}
        → best.next i ≡ some (tx, rest)
        → is_cancelled round ≡ false
        → handle rest tx p ≡ stop reason q
        → Runs round i p (stopped reason q)
    panics :
        {round : ℕ} {i : Iter} {p : P} {tx : Tx} {rest : Iter}
        → best.next i ≡ some (tx, rest)
        → is_cancelled round ≡ false
        → handle rest tx p ≡ bundle_error
        → Runs round i p unreachable
    goes :
        {round : ℕ} {i : Iter} {p : P} {tx : Tx} {rest j : Iter} {q : P} {f : Finished P}
        → best.next i ≡ some (tx, rest)
        → is_cancelled round ≡ false
        → handle rest tx p ≡ go_on j q
        → Runs (round + 1) j q f
        → Runs round i p f

  module _ (finite : IsFinite best) where
    open finite use {remaining}

    after_handle :
        (fuel round : ℕ) (i rest : Iter) (tx : Tx) (p : P) (h : Handled Iter P)
        → best.next i ≡ some (tx, rest)
        → is_cancelled round ≡ false
        → handle rest tx p ≡ h
        → remaining rest < fuel
        → AddsNone finite rest h
        → ((j : Iter) (q : P)
            → remaining j < fuel
            → Runs (round + 1) j q (mempool_loop best handle is_cancelled fuel (round + 1) j q))
        → Runs round i p (elim h [
          | go_on j q ↦ mempool_loop best handle is_cancelled fuel (round + 1) j q
          | stop reason q ↦ stopped reason q
          | bundle_error ↦ unreachable
        ])
    after_handle fuel round i rest tx p (go_on j q) e c g l adds later =
        goes e c g (later j q (omega arith))
    after_handle fuel round i rest tx p (stop reason q) e c g l adds later = stops e c g
    after_handle fuel round i rest tx p bundle_error e c g l adds later = panics e c g

    pub mempool_loop-Runs :
        ((i : Iter) (tx : Tx) (p : P) → AddsNone finite i (handle i tx p))
        → (fuel round : ℕ) (i : Iter) (p : P) → remaining i < fuel
        → Runs round i p (mempool_loop best handle is_cancelled fuel round i p)
    unfolding mempool_loop
    mempool_loop-Runs adds zero round i p l = ground arith
    mempool_loop-Runs adds (suc fuel) round i p l = elim (Option-cases (best.next i)) [
      | inl e ↦ rw (e, mempool_loop) (ends e)
      | inr ((tx, rest), e) ↦ elim (Bool-cases (is_cancelled round)) [
        | inl c ↦ rw (e, c, mempool_loop) (cancels e c)
        | inr c ↦
            rw (e, c, mempool_loop)
              (after_handle fuel round i rest tx p (handle rest tx p) e c refl
                (below best finite i rest tx fuel e l) (adds rest tx p)
                (λ j q. mempool_loop-Runs adds fuel (round + 1) j q))
      ]
    ]
