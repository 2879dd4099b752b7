-- ===== src/Testkit/Rng.antt =====
-- `Rng` of crates/testkit/src/generator.rs: splitmix64 on a 64-bit word, with its wrap-around.
use Prim.Native.Nat.{bit_xor}
use falkr_lite.Base.{ℕ, ◌+◌, ◌-◌, ◌*◌, ◌/◌, ◌%◌, ◌^◌, ◌≤◌, arith, leb, ◌==◌, if◌then◌else◌}

abbrev pub u64_mod : ℕ
u64_mod = 2 ^ 64

pub record Rng : Type 0 where
  pub state : ℕ

-- `Rng::new`
unfoldable pub new_rng : ℕ → Rng
new_rng seed = record { state = seed }

-- `z ^ (z >> k)`
abbrev pub fold_down : ℕ → ℕ → ℕ
fold_down z k = bit_xor z (z / 2 ^ k)

-- The mixing of a state into an output.
unfoldable pub mix : ℕ → ℕ
mix state =
    let z = fold_down state 30 * 0xBF58476D1CE4E5B9 % u64_mod in
    let w = fold_down z 27 * 0x94D049BB133111EB % u64_mod in fold_down w 31

-- `Rng::next_u64`: the output, and the generator after it.
unfoldable pub next_u64 : Rng → ℕ × Rng
next_u64 r =
    let state = (r.state + 0x9E3779B97F4A7C15) % u64_mod in (mix state, record { state = state })

unfoldable pub below : ℕ → Rng → ℕ × Rng
below n r = if n == 0 then (0, r) else ((next_u64 r).0 % n, (next_u64 r).1)

-- The width `high - low + 1` wraps to 0 where the bounds are those of `u64`; a build with overflow
-- checks panics there.
unfoldable pub between : ℕ → ℕ → Rng → ℕ × Rng
between low high r =
    let width = (high - low + 1) % u64_mod in
    if leb high low then (low, r) else (low + (below width r).0, (below width r).1)

pub below-le : (n : ℕ) (r : Rng) → (below n r).0 ≤ n - 1
unfolding below
below-le n r = grind arith

-- A value that `between` returns lies between its bounds, whatever the state of the generator.
pub between_bounds :
    (low high : ℕ) (r : Rng)
    → low ≤ high
    → (low ≤ (between low high r).0) × ((between low high r).0 ≤ high)
unfolding between
between_bounds low high r h = ground (arith, below-le ((high - low + 1) % u64_mod) r)
