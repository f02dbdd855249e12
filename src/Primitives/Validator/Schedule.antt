-- ===== src/Primitives/Validator/Schedule.antt =====
-- The schedule of crates/primitives/src/validator.rs keeps the first entry for each slot.
use rs_block_builder.Common.{
  ℕ, ◌≡◌, refl, ap, ◌∙◌, List, [], ◌∷◌, Option, none, some, ◌==◌, if◌then◌else◌, arith,
}
use rs_block_builder.Common.Map.{lookup, lookup-insert}
use rs_block_builder.Primitives.Validator.{
  ValidatorScheduleSlotInfo, ValidatorSchedule, or_insert, schedule_from, new, get_by_slot,
}

-- The first entry for the slot, or the one there already.
unfoldable pub first_for :
    Option ValidatorScheduleSlotInfo
    → ℕ
    → List ValidatorScheduleSlotInfo
    → Option ValidatorScheduleSlotInfo
first_for found slot [] = found
first_for (some info) slot (other ∷ rest) = some info
first_for none slot (other ∷ rest) =
    first_for (if other.slot == slot then some other else none) slot rest

first_for-found :
    (info : ValidatorScheduleSlotInfo) (slot : ℕ) (l : List ValidatorScheduleSlotInfo)
    → first_for (some info) slot l ≡ some info
unfolding first_for
first_for-found info slot [] = refl
first_for-found info slot (x ∷ l) = refl

lookup-or_insert :
    (m : ValidatorSchedule) (info : ValidatorScheduleSlotInfo) (slot : ℕ)
    → lookup slot (or_insert m info) ≡ elim (lookup slot m) [
      | none ↦ if info.slot == slot then some info else none
      | some x ↦ some x
    ]
unfolding or_insert
lookup-or_insert m info slot = ground (arith, lookup-insert info.slot slot info m)

first_for-step :
    (x : ValidatorScheduleSlotInfo) (slot : ℕ) (l : List ValidatorScheduleSlotInfo)
    (o : Option ValidatorScheduleSlotInfo)
    → first_for (elim o [ none ↦ if x.slot == slot then some x else none | some y ↦ some y ]) slot l
      ≡ first_for o slot (x ∷ l)
unfolding first_for
first_for-step x slot l none = refl
first_for-step x slot l (some y) = first_for-found y slot l

schedule_from_lem :
    (l : List ValidatorScheduleSlotInfo) (m : ValidatorSchedule) (slot : ℕ)
    → lookup slot (schedule_from m l) ≡ first_for (lookup slot m) slot l
unfolding schedule_from first_for
schedule_from_lem [] m slot = refl
schedule_from_lem (x ∷ l) m slot =
    schedule_from_lem l (or_insert m x) slot
    ∙ ap (λ o. first_for o slot l) (lookup-or_insert m x slot)
    ∙ first_for-step x slot l (lookup slot m)

-- The schedule of a list holds for each slot the first of the list's entries for it, or nothing.
pub get_by_slot-new :
    (l : List ValidatorScheduleSlotInfo) (slot : ℕ)
    → get_by_slot (new l) slot ≡ first_for none slot l
unfolding get_by_slot new lookup
get_by_slot-new l slot = schedule_from_lem l [] slot
