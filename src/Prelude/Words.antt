-- ===== src/Prelude/Words.antt =====
-- The bits of a 64-bit word, which is a number: `w & 1<<b`, `w |= 1<<b`, `w &^= 1<<b` and
-- `bits.OnesCount64`.
use Prim.Native.Nat.{ℕ, zero, suc, ◌+◌, ◌*◌, ◌/◌, ◌%◌, ◌<◌}
use mathlib.Core.Path.{◌≡◌}
use mathlib.Core.Bool.{Bool, true, false}
use native.Mathlib.Omega.{arith}
use emberdb.Prelude.Tests.{◌==◌, if◌then◌else◌}

-- the bit `b` of `w` is set
unfoldable pub test_bit : ℕ → ℕ → Bool
test_bit w zero = w % 2 == 1
test_bit w (suc b) = test_bit (w / 2) b

unfoldable pub set_bit : ℕ → ℕ → ℕ
set_bit w zero = w / 2 * 2 + 1
set_bit w (suc b) = set_bit (w / 2) b * 2 + w % 2

unfoldable pub clear_bit : ℕ → ℕ → ℕ
clear_bit w zero = w / 2 * 2
clear_bit w (suc b) = clear_bit (w / 2) b * 2 + w % 2

-- the number of the bits of `w` below `n` that are set
unfoldable pub ones_count : ℕ → ℕ → ℕ
ones_count zero w = 0
ones_count (suc n) w = w % 2 + ones_count n (w / 2)

pub test_bit-set_bit :
    (w b c : ℕ) → test_bit (set_bit w b) c ≡ (if b == c then true else test_bit w c)
unfolding test_bit set_bit
test_bit-set_bit w zero zero = ground arith
test_bit-set_bit w zero (suc c) =
    let e : (w / 2 * 2 + 1) / 2 ≡ w / 2 = omega arith in rw e (ground arith)
test_bit-set_bit w (suc b) zero = ground arith
test_bit-set_bit w (suc b) (suc c) =
    let e : (set_bit (w / 2) b * 2 + w % 2) / 2 ≡ set_bit (w / 2) b = omega arith in
    rw (e, test_bit-set_bit (w / 2) b c) (ground arith)

pub test_bit-clear_bit :
    (w b c : ℕ) → test_bit (clear_bit w b) c ≡ (if b == c then false else test_bit w c)
unfolding test_bit clear_bit
test_bit-clear_bit w zero zero = ground arith
test_bit-clear_bit w zero (suc c) =
    let e : (w / 2 * 2) / 2 ≡ w / 2 = omega arith in rw e (ground arith)
test_bit-clear_bit w (suc b) zero = ground arith
test_bit-clear_bit w (suc b) (suc c) =
    let e : (clear_bit (w / 2) b * 2 + w % 2) / 2 ≡ clear_bit (w / 2) b = omega arith in
    rw (e, test_bit-clear_bit (w / 2) b c) (ground arith)

pub ones_count-set_bit :
    (n w b : ℕ)
    → b < n
    → ones_count n (set_bit w b) + (if test_bit w b then 1 else 0) ≡ ones_count n w + 1
unfolding ones_count set_bit test_bit
ones_count-set_bit zero w b h = absurd (omega arith)
ones_count-set_bit (suc n) w zero h =
    let e : (w / 2 * 2 + 1) / 2 ≡ w / 2 = omega arith in rw e (ground arith)
ones_count-set_bit (suc n) w (suc b) h =
    let e : (set_bit (w / 2) b * 2 + w % 2) / 2 ≡ set_bit (w / 2) b = omega arith in
    rw e (ground (arith, ones_count-set_bit n (w / 2) b))

pub ones_count-clear_bit :
    (n w b : ℕ)
    → b < n
    → ones_count n (clear_bit w b) + (if test_bit w b then 1 else 0) ≡ ones_count n w
unfolding ones_count clear_bit test_bit
ones_count-clear_bit zero w b h = absurd (omega arith)
ones_count-clear_bit (suc n) w zero h =
    let e : (w / 2 * 2) / 2 ≡ w / 2 = omega arith in rw e (ground arith)
ones_count-clear_bit (suc n) w (suc b) h =
    let e : (clear_bit (w / 2) b * 2 + w % 2) / 2 ≡ clear_bit (w / 2) b = omega arith in
    rw e (ground (arith, ones_count-clear_bit n (w / 2) b))
