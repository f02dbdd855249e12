-- ===== src/Relay/Cache/Refinement.antt =====
-- The cache against its specification: the log of all submissions, with those of expired blocks out.
use rs_block_builder.Common.{
  ℕ, ◌+◌, ◌≡◌, refl, ap, ◌∙◌, sym, false, List, [], ◌∷◌, ◌++◌, retain, contains, contains-retain,
  Option, none, some, is_some, leb, ◌==◌, if◌then◌else◌, max, arith, Bool-cases, Option-cases, inl,
  inr, append_assoc, append-nil,
}
use rs_block_builder.Common.Map.{Map, lookup, remove, lookup-insert, lookup-remove}
use rs_block_builder.Primitives.Bid.{SignedBid, block_number, to_trace}
use rs_block_builder.Relay.Cache.{
  Entry, RelayBidCache, new, is_expired, keys, remove_all, resize, push, insert_bid, get_all_bids,
  max_cache_block_size,
}

-- A submission: a bid and the time at which it arrives.
abbrev pub Submission : Type 0
Submission = SignedBid × ℕ

unfoldable pub insert_all : RelayBidCache → List Submission → RelayBidCache
insert_all c [] = c
insert_all c ((bid, now_ms) ∷ rest) = insert_all (insert_bid c bid now_ms) rest

-- The entries that the log has for a block, in the order of their arrival.
unfoldable pub submitted_for : ℕ → List Submission → List Entry
submitted_for block [] = []
submitted_for block ((bid, now_ms) ∷ rest) =
    let others = submitted_for block rest in
    if block_number bid == block then (bid, to_trace bid now_ms) ∷ others else others

unfoldable pub highest_submitted : List Submission → ℕ
highest_submitted [] = 0
highest_submitted ((bid, now_ms) ∷ rest) = max (block_number bid) (highest_submitted rest)

abbrev nonempty : List Entry → Option (List Entry)
nonempty [] = none
nonempty (e ∷ es) = some (e ∷ es)

-- What the log answers for a block: nothing if it is at least four blocks older than the highest.
unfoldable pub served : List Submission → ℕ → Option (List Entry)
served log block =
    if leb (block + max_cache_block_size) (highest_submitted log)
    then none
    else nonempty (submitted_for block log)

contains-keys :
    {A : Type 0} (m : Map A) (block : ℕ) → contains (keys m) block ≡ is_some (lookup block m)
unfolding keys lookup
contains-keys [] block = refl
contains-keys ((key, value) ∷ m) block = ground (arith, contains-keys m block)

lookup-remove_all :
    {A : Type 0} (blocks : List ℕ) (m : Map A) (block : ℕ)
    → lookup block (remove_all blocks m) ≡ (if contains blocks block then none else lookup block m)
unfolding remove_all
lookup-remove_all [] m block = refl
lookup-remove_all (b ∷ blocks) m block =
    ground (arith, lookup-remove_all blocks (remove b m) block, lookup-remove b block m)

-- `resize` removes exactly the blocks that are four or more below the last one.
pub lookup-resize :
    (c : RelayBidCache) (block : ℕ)
    → lookup block (resize c).cache
      ≡ (if leb (block + max_cache_block_size) c.last_block then none else lookup block c.cache)
unfolding resize is_expired
lookup-resize c block =
    let gone = lookup-remove_all (retain (is_expired c.last_block) (keys c.cache)) c.cache block in
    let kept = contains-retain (is_expired c.last_block) (keys c.cache) block in
    ground (arith, gone, kept, contains-keys c.cache block)

last_block-resize : (c : RelayBidCache) → (resize c).last_block ≡ c.last_block
unfolding resize
last_block-resize c = ground arith

lookup-push :
    (stored asked : ℕ) (entry : Entry) (m : Map (List Entry))
    → lookup asked (push stored entry m) ≡ (
        if stored == asked
        then elim (lookup asked m) [
          | none ↦ some (entry ∷ [])
          | some bids ↦ some (bids ++ entry ∷ [])
        ]
        else lookup asked m)
unfolding push
lookup-push stored asked entry m = elim (Option-cases (lookup stored m)) [
  | inl e ↦
      rw (e, push)
        (ground (arith, lookup-insert stored asked (entry ∷ []) m, e, ap (λ k. lookup k m)))
  | inr (bids, e) ↦
      rw (e, push)
        (ground (arith, lookup-insert stored asked (bids ++ entry ∷ []) m, e, ap (λ k. lookup k m)))
]

submitted_for-snoc :
    (block : ℕ) (log : List Submission) (bid : SignedBid) (now_ms : ℕ)
    → submitted_for block (log ++ (bid, now_ms) ∷ []) ≡ (
        if block_number bid == block
        then submitted_for block log ++ (bid, to_trace bid now_ms) ∷ []
        else submitted_for block log)
unfolding submitted_for
submitted_for-snoc block [] bid now_ms = ground arith
submitted_for-snoc block ((b, t) ∷ log) bid now_ms =
    ground (arith, submitted_for-snoc block log bid now_ms)

highest_submitted-snoc :
    (log : List Submission) (bid : SignedBid) (now_ms : ℕ)
    → highest_submitted (log ++ (bid, now_ms) ∷ []) ≡ max (highest_submitted log) (block_number bid)
unfolding highest_submitted
highest_submitted-snoc [] bid now_ms = omega arith
highest_submitted-snoc ((b, t) ∷ log) bid now_ms =
    omega (arith, highest_submitted-snoc log bid now_ms)

-- What the refinement relates: the cache of a state and the log of what was submitted.
abbrev pub Implements : RelayBidCache → List Submission → Type 0
Implements c log =
    (c.last_block ≡ highest_submitted log) × ((block : ℕ) → get_all_bids c block ≡ served log block)

-- A push to the entries of a block that is kept, as the log sees it.
pushed_nonempty :
    (es : List Entry) (e : Entry)
    → elim (nonempty es) [ none ↦ some (e ∷ []) | some bids ↦ some (bids ++ e ∷ []) ]
      ≡ nonempty (es ++ e ∷ [])
pushed_nonempty [] e = refl
pushed_nonempty (x ∷ es) e = refl

module _ (stored asked highest : ℕ) (entry : Entry) (es : List Entry)
    (held : Option (List Entry)) where
  served_step :
      held ≡ (if leb (asked + max_cache_block_size) highest then none else nonempty es)
      → (if leb (asked + max_cache_block_size) (max highest stored)
          then none
          else if stored == asked
          then elim held [ none ↦ some (entry ∷ []) | some bids ↦ some (bids ++ entry ∷ []) ]
          else held)
        ≡ (if leb (asked + max_cache_block_size) (max highest stored)
            then none
            else nonempty (if stored == asked then es ++ entry ∷ [] else es))
  served_step h = elim (Bool-cases (leb (asked + max_cache_block_size) (max highest stored))) [
    | inl y ↦ rw (y) refl
    | inr n ↦
        let kept : leb (asked + max_cache_block_size) highest ≡ false = ground arith in
        rw (n, h, kept) (ground (arith, pushed_nonempty es entry))
  ]

insert_bid-Implements :
    (c : RelayBidCache) (log : List Submission) (bid : SignedBid) (now_ms : ℕ)
    → Implements c log
    → Implements (insert_bid c bid now_ms) (log ++ (bid, now_ms) ∷ [])
unfolding insert_bid get_all_bids served
insert_bid-Implements c log bid now_ms (last, holds) = (
  last_block-resize _
      ∙ ap (λ n. max n (block_number bid)) last
      ∙ sym (highest_submitted-snoc log bid now_ms),
  λ block.
      let entry : Entry = (bid, to_trace bid now_ms) in
      let now : RelayBidCache = record {
        last_block = max c.last_block (block_number bid);
        cache = push (block_number bid) entry c.cache;
      } in
      rw
        (
          lookup-resize now block,
          lookup-push (block_number bid) block entry c.cache,
          highest_submitted-snoc log bid now_ms,
          submitted_for-snoc block log bid now_ms,
          last,
        )
        (served_step (block_number bid) block (highest_submitted log) entry
          (submitted_for block log) (lookup block c.cache) (holds block)),
)

insert_all-Implements :
    (rest log : List Submission) (c : RelayBidCache)
    → Implements c log
    → Implements (insert_all c rest) (log ++ rest)
unfolding insert_all
insert_all-Implements [] log c h = rw (append-nil log) h
insert_all-Implements ((bid, now_ms) ∷ rest) log c h =
    rw (sym (append_assoc log ((bid, now_ms) ∷ []) rest)) (
      insert_all-Implements rest (log ++ (bid, now_ms) ∷ []) (insert_bid c bid now_ms)
        (insert_bid-Implements c log bid now_ms h))

-- After any sequence of submissions the cache answers for a block with all bids submitted for it
-- and their traces, in the order of their arrival, unless the block is four or more below the
-- highest one submitted, or no bid was submitted for it: then it has none.
pub insert_all-served :
    (log : List Submission) (block : ℕ) → get_all_bids (insert_all new log) block ≡ served log block
unfolding new get_all_bids served highest_submitted submitted_for lookup
insert_all-served log block = (insert_all-Implements log [] new (refl, λ b. ground arith)).1 block
