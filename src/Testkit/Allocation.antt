-- ===== src/Testkit/Allocation.antt =====
-- crates/testkit/src/allocation.rs: the reference rule for splitting an amount by weights.
use falkr_lite.Base.{
  ℕ, zero, suc, ◌*◌, ◌%◌, Option, none, some, List, [], ◌∷◌, length, get_elem?, is_empty,
  if◌then◌else◌, ltb,
}
use falkr_lite.Base.Int.{pos}
use falkr_lite.Base.Outcome.{Outcome, ok, panic, ok_or, reject_if, ◌>>=◌, ◌>>◌}
use falkr_lite.Decimal.{Arithmetic}
use falkr_lite.Shares.{update_at, Remainder, sort_remainders}

pub data AllocationError (D : Type 0) : Type 0 where
  no_weights : AllocationError D
  negative_weight : D → AllocationError D
  zero_weight : AllocationError D
  overflow : AllocationError D
  scale_too_large : ℕ → AllocationError D

module _ {D : Type 0} ⦃d : Arithmetic D⦄ where
  -- `checked_….ok_or(AllocationError::Overflow)?`
  abbrev pub checked : Option D → Outcome (AllocationError D) D
  checked o = ok_or o overflow

  -- The loop that checks and sums the weights.
  unfoldable pub sum_weights : D → List D → Outcome (AllocationError D) D
  sum_weights acc [] = ok acc
  sum_weights acc (w ∷ ws) = do
    reject_if (d.is_sign_negative w) (negative_weight w)
    next ← checked (d.checked_add acc w)
    sum_weights next ws

  unfoldable pub exact_share : D → D → D → Outcome (AllocationError D) D
  exact_share total weight_total w = do
    product ← checked (d.checked_mul total w)
    checked (d.checked_div product weight_total)

  -- The loop that truncates, from an index and an allocated amount on.
  unfoldable pub truncate_shares :
      D → D → ℕ → ℕ → D → List D → Outcome (AllocationError D) (D × List D × List (Remainder D))
  truncate_shares total weight_total scale i allocated [] = ok (allocated, [], [])
  truncate_shares total weight_total scale i allocated (w ∷ ws) = do
    exact ← exact_share total weight_total w
    next ← checked (d.checked_add allocated (d.truncate_dp scale exact))
    cut ← checked (d.checked_sub exact (d.truncate_dp scale exact))
    rest ← truncate_shares total weight_total scale (suc i) next ws
    ok (rest.0, d.truncate_dp scale exact ∷ rest.1, (i, d.abs cut) ∷ rest.2)

  -- `remainders[cursor % remainders.len()]`
  abbrev pub cursor_index : List (Remainder D) → ℕ → Option ℕ
  cursor_index remainders cursor = elim (get_elem? remainders (cursor % length remainders)) [
    | none ↦ none
    | some r ↦ some r.0
  ]

  abbrev pub bump : D → List (Remainder D) → ℕ → List D → Outcome (AllocationError D) (List D)
  bump step remainders cursor parts_of = elim (cursor_index remainders cursor) [
    | none ↦ panic
    | some i ↦ update_at (λ a. checked (d.checked_add a step)) parts_of i
  ]

  -- `while !leftover.is_zero()`. A round that ends with the cursor beyond twice the number of
  -- remainders returns an error, so `rounds` bounds the number of rounds from the cursor on.
  unfoldable pub distribute :
      ℕ → D → List (Remainder D) → ℕ → D → List D → Outcome (AllocationError D) (List D)
  distribute zero step remainders cursor leftover parts_of =
      if d.is_zero leftover then ok parts_of else panic
  distribute (suc rounds) step remainders cursor leftover parts_of =
      if d.is_zero leftover
      then ok parts_of
      else bump step remainders cursor parts_of >>= λ bumped.
          checked (d.checked_sub leftover step) >>= λ less.
          reject_if (ltb (length remainders * 2) (suc cursor)) overflow
          >> distribute rounds step remainders (suc cursor) less bumped

  unfoldable pub allocate : D → List D → ℕ → Outcome (AllocationError D) (List D)
  allocate total weights scale = do
    reject_if (is_empty weights) no_weights
    reject_if (ltb 28 scale) (scale_too_large scale)
    weight_total ← sum_weights d.zero weights
    reject_if (d.is_zero weight_total) zero_weight
    cut ← truncate_shares total weight_total scale 0 d.zero weights
    leftover ← checked (d.checked_sub total cut.0)
    distribute (suc (length cut.2 * 2))
        (if d.is_sign_negative leftover
          then d.neg (d.of_scaled (pos 1) scale)
          else d.of_scaled (pos 1) scale)
        (sort_remainders cut.2) 0 leftover cut.1

  -- `vec![x; n]`
  abbrev pub repeated : ℕ → D → List D
  repeated zero a = []
  repeated (suc n) a = a ∷ repeated n a

  unfoldable pub allocate_evenly : D → ℕ → ℕ → Outcome (AllocationError D) (List D)
  allocate_evenly total n scale = allocate total (repeated n d.one) scale
