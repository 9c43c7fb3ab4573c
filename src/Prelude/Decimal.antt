-- ===== src/Prelude/Decimal.antt =====
-- `strconv.Atoi` and `strconv.Itoa` on 64-bit integers, and their round trip.
use Prim.Native.Nat.{ℕ, zero, suc, ◌+◌, ◌-◌, ◌*◌, ◌/◌, ◌%◌, ◌<◌, ◌≤◌, ◌^◌}
use mathlib.Core.Path.{◌≡◌, refl, ◌∙◌}
use mathlib.Core.Logic.{inl, inr}
use mathlib.Core.Bool.{◌&&◌}
use mathlib.Core.Option.{Option, none, some}
use mathlib.Core.List.{[], ◌∷◌}
use native.Mathlib.Omega.{arith}
use native.Mathlib.Nat.{pow-suc}
use emberdb.Prelude.Tests.{ltb, leb, ◌==◌, if◌then◌else◌, Bool-cases}
use emberdb.Prelude.Bytes.{Str, bytes}
use emberdb.Prelude.Int.{ℤ, pos, negsuc, IsInt64}

-- The value of a run of digits that follows the number `n`; no value where a byte is no digit.
scan : Str → ℕ → Option ℕ
scan [] n = some n
scan (c ∷ s) n =
    let rest = scan s (n * 10 + (c - b'0')) in if leb b'0' c && leb c b'9' then rest else none

scan-nil : (n : ℕ) → scan [] n ≡ some n
unfolding scan
scan-nil n = refl

unfoldable pub digits_value : Str → Option ℕ
unfolding scan
digits_value [] = none
digits_value (c ∷ s) = scan (c ∷ s) 0

in_pos_range : Option ℕ → Option ℤ
in_pos_range none = none
in_pos_range (some n) = if ltb n (2 ^ 63) then some (pos n) else none

negate : ℕ → ℤ
negate zero = pos 0
negate (suc n) = negsuc n

in_neg_range : Option ℕ → Option ℤ
unfolding negate
in_neg_range none = none
in_neg_range (some n) = if leb n (2 ^ 63) then some (negate n) else none

-- `strconv.Atoi`: an optional sign, at least one digit, and a value in the range of int64.
unfoldable pub atoi : Str → Option ℤ
unfolding in_pos_range in_neg_range
atoi [] = none
atoi (c ∷ s) =
    if c == b'-'
    then in_neg_range (digits_value s)
    else if c == b'+'
    then in_pos_range (digits_value s)
    else in_pos_range (digits_value (c ∷ s))

-- The decimal digits of `n` before `out`. The fuel bounds their number.
digits : ℕ → ℕ → Str → Str
digits zero n out = out
digits (suc f) n out =
    let more = digits f (n / 10) ((b'0' + n % 10) ∷ out) in
    if ltb n 10 then (b'0' + n) ∷ out else more

-- `strconv.Itoa`: a number below 2 ^ 64 has at most twenty digits.
unfoldable pub itoa : ℤ → Str
unfolding digits
itoa (pos n) = digits 20 n []
itoa (negsuc n) = b'-' ∷ digits 20 (suc n) []

-- The last digit of `n` after the others.
scan-last : (n : ℕ) (out : Str) → scan ((b'0' + n % 10) ∷ out) (n / 10) ≡ scan out n
unfolding scan
scan-last n out = let e : n / 10 * 10 + (48 + n % 10 - 48) ≡ n = omega arith in rw e (ground arith)

tenth-lt-pow : (f n : ℕ) → n < 10 ^ suc f → n / 10 < 10 ^ f
tenth-lt-pow f n h = let k = rw pow-suc at h in omega arith

scan-digits : (f n : ℕ) (out : Str) → n < 10 ^ suc f → scan (digits (suc f) n out) 0 ≡ scan out n
unfolding scan digits
scan-digits zero n out h = ground arith
scan-digits (suc f) n out h = elim (Bool-cases (ltb n 10)) [
  | inl small ↦ rw small (ground arith)
  | inr large ↦
      rw large (
        scan-digits f (n / 10) ((b'0' + n % 10) ∷ out) (tenth-lt-pow (suc f) n h) ∙ scan-last n out)
]

-- A printed number begins with a digit.
digits-head :
    (f n : ℕ) (out : Str) → (c : ℕ) × (s : Str) × (digits (suc f) n out ≡ c ∷ s) × (b'0' ≤ c)
unfolding digits
digits-head zero n out = elim (Bool-cases (ltb n 10)) [
  | inl small ↦ (b'0' + n, out, rw small, omega arith)
  | inr large ↦ (b'0' + n % 10, out, rw large, omega arith)
]
digits-head (suc f) n out = elim (Bool-cases (ltb n 10)) [
  | inl small ↦ (b'0' + n, out, rw small, omega arith)
  | inr large ↦
      let (c, s, e, h) = digits-head f (n / 10) ((b'0' + n % 10) ∷ out) in (c, s, rw large e, h)
]

digits_value-digits : (n : ℕ) → n < 10 ^ 20 → digits_value (digits 20 n []) ≡ some n
unfolding digits_value
digits_value-digits n h =
    let (c, s, e, big) = digits-head 19 n [] in
    let r : scan (digits 20 n []) 0 ≡ some n = scan-digits 19 n [] h ∙ scan-nil n in
    rw e (rw e at r)

atoi-unsigned :
    (c : ℕ) (s : Str) (n : ℕ)
    → b'0' ≤ c
    → digits_value (c ∷ s) ≡ some n
    → n < 2 ^ 63
    → atoi (c ∷ s) ≡ some (pos n)
unfolding atoi
atoi-unsigned c s n big r h = rw r (ground arith)

-- What `Itoa` prints of an int64, `Atoi` reads back.
pub atoi-itoa : (a : ℤ) → IsInt64 a → atoi (itoa a) ≡ some a
unfolding itoa atoi
atoi-itoa (pos n) h =
    let (c, s, e, big) = digits-head 19 n [] in
    let r = digits_value-digits n (omega arith) in
    rw e (atoi-unsigned c s n big (rw e at r) (omega arith))
atoi-itoa (negsuc n) h = let r = digits_value-digits (suc n) (omega arith) in rw r (ground arith)

itoa_example : itoa (negsuc 41) ≡ bytes "-42"
unfolding itoa
itoa_example = refl

atoi_example :
    (atoi (bytes "+7") ≡ some (pos 7))
    × (atoi (bytes "9223372036854775808") ≡ none)
    × (atoi (bytes "-9223372036854775808") ≡ some (negsuc 9223372036854775807))
    × (atoi (bytes "1x") ≡ none)
unfolding atoi digits_value
atoi_example = (refl, refl, refl, refl)
