-- ===== src/Base/Bits.antt =====
-- Facts about bytes, by a check of every value.
use Prim.Native.Nat.{ℕ, zero, suc, ◌+◌, ◌≤◌, ◌<◌}
use mathlib.Core.Path.{◌≡◌, subst}
use mathlib.Core.Logic.{inl, inr}
use mathlib.Core.Bool.{Bool, true, ◌&&◌}
use native.Mathlib.Omega.{arith}
use kindle_myts.Base.Tests.{◌==◌, ==→eq, ==_false→ne, Bool-cases}

-- a test of the values `lo`, `lo + 1`, ..., so many of them
unfoldable pub test_range : (ℕ → Bool) → ℕ → ℕ → Bool
test_range test lo zero = true
test_range test lo (suc count) = test lo && test_range test (suc lo) count

abbrev pub every_below : ℕ → (ℕ → Bool) → Bool
every_below limit test = test_range test 0 limit

test_range_lem :
    (test : ℕ → Bool) (lo count : ℕ) {value : ℕ}
    → lo ≤ value
    → value < lo + count
    → test_range test lo count ≡ true
    → test value ≡ true
unfolding test_range
test_range_lem test lo zero low high passed = absurd (omega arith)
test_range_lem test lo (suc count) {value} low high passed = elim (Bool-cases (lo == value)) [
  | inl here ↦
      let e : lo ≡ value = ==→eq lo value here in
      let now : test lo ≡ true = ground arith in subst (λ v. test v ≡ true) e now
  | inr later ↦
      let n = ==_false→ne lo value later in
      let rest : test_range test (suc lo) count ≡ true = ground arith in
      test_range_lem test (suc lo) count (ground arith) (omega arith) rest
]

pub every_below_lem :
    (limit : ℕ) (test : ℕ → Bool) {value : ℕ}
    → value < limit
    → every_below limit test ≡ true
    → test value ≡ true
every_below_lem limit test high passed =
    test_range_lem test 0 limit (omega arith) (omega arith) passed
