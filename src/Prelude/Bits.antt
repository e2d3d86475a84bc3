-- ===== src/Prelude/Bits.antt =====
-- Shifts of machine words, and facts of `bit_and` and `bit_or` over small ranges, by evaluation.
use Prim.Native.Nat.{ℕ, zero, suc, ◌*◌, ◌/◌, ◌%◌, ◌^◌, ◌<◌}
use mathlib.Core.Path.{◌≡◌}
use mathlib.Core.Logic.{inl, inr}
use mathlib.Core.Bool.{Bool, true, false}
use native.Mathlib.Decide.{ℕ_discrete}
use wasm_extensions.Prelude.Tests.{Bool-cases, if◌then◌else◌}
use native.Mathlib.Omega.{arith}

abbrev pub shr : ℕ → ℕ → ℕ
shr x k = x / 2 ^ k

abbrev pub shl : ℕ → ℕ → ℕ
shl x k = x * 2 ^ k

-- A conversion to `char` or `uint8_t`.
abbrev pub to_byte : ℕ → ℕ
to_byte x = x % 256

-- A test of every number below a bound, the largest first.
unfoldable pub holds_below : ℕ → (ℕ → Bool) → Bool
holds_below zero test = true
holds_below (suc bound) test = if test bound then holds_below bound test else false

pub test_holds :
    (bound : ℕ) (test : ℕ → Bool) (c : ℕ)
    → holds_below bound test ≡ true
    → c < bound
    → test c ≡ true
unfolding holds_below
test_holds zero test c all below = absurd (omega (arith, below))
test_holds (suc bound) test c all below = elim (Bool-cases (test bound)) [
  | inl here ↦ elim (ℕ_discrete c bound) [
    | yes last ↦ rw last here
    | no earlier ↦ test_holds bound test c (rw here at all) (omega (arith, below, earlier))
  ]
  | inr fails ↦ absurd (cc (rw fails at all))
]
