-- ===== src/Payload/Loop/Laws.antt =====
-- The loop over the mempool of crates/payload/src/strategy: what holds at its end, and that it has
-- one.
use rs_block_builder.Common.{
  ℕ, zero, suc, ◌+◌, ◌≤◌, ◌<◌, ◌≡◌, Bool, some, Option-cases, Bool-cases, inl, inr, arith,
}
use rs_block_builder.Payload.Loop.{
  BestTransactions, IsFinite, Handled, go_on, stop, bundle_error, Finished, completed, stopped,
  unreachable, out_of_fuel, mempool_loop,
}

-- The loop has come to one of the ends that the source has, with `I` for the progress.
abbrev pub EndsWith : {P : Type 0} → (P → Type 0) → Finished P → Type 0
EndsWith I (completed q) = I q
EndsWith I (stopped reason q) = I q
EndsWith I unreachable = ⊥
EndsWith I out_of_fuel = ⊥

pub below :
    {Tx Iter : Type 0} (best : BestTransactions Tx Iter) (finite : IsFinite best) (i rest : Iter)
    (tx : Tx) (fuel : ℕ)
    → best.next i ≡ some (tx, rest)
    → finite.remaining i < suc fuel
    → finite.remaining rest < fuel
below best finite i rest tx fuel e l = let less = finite.next_lt i rest tx e in omega arith

module _ {Tx Iter P : Type 0} (best : BestTransactions Tx Iter) (finite : IsFinite best)
    (I : P → Type 0) where
  open finite use {remaining}

  -- A step keeps `I`, leaves no more transactions than it found and does not reach the
  -- `unreachable!`.
  abbrev pub StepsWell : Iter → Handled Iter P → Type 0
  StepsWell i (go_on j q) = I q × (remaining j ≤ remaining i)
  StepsWell i (stop reason q) = I q
  StepsWell i bundle_error = ⊥

  -- The match on a handled transaction, with the rest of the loop as `continue`.
  abbrev after_step : (Iter → P → Finished P) → Handled Iter P → Finished P
  after_step continue (go_on j q) = continue j q
  after_step continue (stop reason q) = stopped reason q
  after_step continue bundle_error = unreachable

  after_step-EndsWith :
      (i : Iter) (fuel : ℕ) (continue : Iter → P → Finished P)
      → ((j : Iter) (q : P) → remaining j < fuel → I q → EndsWith I (continue j q))
      → remaining i < fuel
      → (h : Handled Iter P) → StepsWell i h
      → EndsWith I (after_step continue h)
  after_step-EndsWith i fuel continue later l (go_on j q) (v, w) = later j q (omega arith) v
  after_step-EndsWith i fuel continue later l (stop reason q) w = w
  after_step-EndsWith i fuel continue later l bundle_error w = w

  -- With more fuel than transactions are left to come, a loop over the mempool that starts with `I`
  -- ends, completed or stopped, and with `I`, if each step keeps `I`, does not reach the
  -- `unreachable!` and leaves no more transactions than it found.
  pub mempool_loop-EndsWith :
      (handle : Iter → Tx → P → Handled Iter P) (is_cancelled : ℕ → Bool)
      → ((i : Iter) (tx : Tx) (p : P) → I p → StepsWell i (handle i tx p))
      → (fuel round : ℕ) (i : Iter) (p : P) → remaining i < fuel
      → I p
      → EndsWith I (mempool_loop best handle is_cancelled fuel round i p)
  unfolding mempool_loop
  mempool_loop-EndsWith handle is_cancelled steps zero round i p v w = ground arith
  mempool_loop-EndsWith handle is_cancelled steps (suc fuel) round i p v w =
      elim (Option-cases (best.next i)) [
        | inl e ↦ rw (e, mempool_loop) w
        | inr ((tx, rest), e) ↦ elim (Bool-cases (is_cancelled round)) [
          | inl c ↦ rw (e, c, mempool_loop) w
          | inr c ↦
              rw (e, c, mempool_loop)
                (after_step-EndsWith rest fuel
                  (λ j q. mempool_loop best handle is_cancelled fuel (round + 1) j q)
                  (λ j q. mempool_loop-EndsWith handle is_cancelled steps fuel (round + 1) j q)
                  (below best finite i rest tx fuel e v) (handle rest tx p) (steps rest tx p w))
        ]
      ]
