-- ===== src/Prelude/Reader.antt =====
-- Reading a buffer from an offset on: the bytes that are left. A read past the end has no value.
use Prim.Native.Nat.{ℕ, zero, suc, ◌+◌, ◌≤◌, ◌<◌, ◌^◌}
use mathlib.Core.Path.{◌≡◌, refl, ap, sym}
use mathlib.Core.Logic.{inl, inr}
use mathlib.Core.Bool.{◌&&◌}
use mathlib.Core.Option.{Option, none, some}
use mathlib.Core.List.{[], ◌∷◌, ◌++◌}
use native.Mathlib.Omega.{arith}
use emberdb.Prelude.Tests.{Option-cases, ◌==◌, if◌then◌else◌}
use emberdb.Prelude.Lists.{All, length}
use emberdb.Prelude.Bytes.{Str}
use emberdb.Prelude.BigEndian.{
  put_u16, get_u16, get_u16-put, put_u16-get, put_u32, get_u32, get_u32-put, put_u32-get, put_u64,
  get_u64, get_u64-put, put_u64-get,
}

infixl 5 ◌>>=◌
abbrev pub ◌>>=◌ {ℓ κ} : {A : Type ℓ} {B : Type κ} → Option A → (A → Option B) → Option B
none >>= f = none
some a >>= f = f a

abbrev pub IsBytes : Str → Type 0
IsBytes s = All (λ b. b < 256) s

unfoldable pub read_bytes : ℕ → Str → Option (Str × Str)
read_bytes zero buf = some ([], buf)
read_bytes (suc n) [] = none
read_bytes (suc n) (b ∷ buf) = do (s, rest) ← read_bytes n buf; some (b ∷ s, rest)

unfoldable pub read_u16 : Str → Option (ℕ × Str)
read_u16 (a ∷ b ∷ rest) = some (get_u16 a b, rest)
read_u16 _ = none

unfoldable pub read_u32 : Str → Option (ℕ × Str)
read_u32 (a ∷ b ∷ c ∷ d ∷ rest) = some (get_u32 a b c d, rest)
read_u32 _ = none

unfoldable pub read_u64 : Str → Option (ℕ × Str)
read_u64 (a ∷ b ∷ c ∷ d ∷ e ∷ f ∷ g ∷ h ∷ rest) = some (get_u64 a b c d e f g h, rest)
read_u64 _ = none

-- `bytes.TrimRight(s, "\x00")`
unfoldable pub trim_right : Str → Str
trim_right [] = []
trim_right (b ∷ s) = let rest = trim_right s in if length rest == 0 && b == 0 then [] else b ∷ rest

-- `make([]byte, n)` and a `copy` of `s` into it
unfoldable pub copy_into : ℕ → Str → Str
copy_into zero s = []
copy_into (suc n) [] = 0 ∷ copy_into n []
copy_into (suc n) (b ∷ s) = b ∷ copy_into n s

pub length-copy_into : (n : ℕ) (s : Str) → length (copy_into n s) ≡ n
unfolding copy_into
length-copy_into zero s = refl
length-copy_into (suc n) [] = ap suc (length-copy_into n [])
length-copy_into (suc n) (b ∷ s) = ap suc (length-copy_into n s)

trim_right-zeros : (n : ℕ) → trim_right (copy_into n []) ≡ []
unfolding trim_right copy_into
trim_right-zeros zero = refl
trim_right-zeros (suc n) = ground (arith, trim_right-zeros n)

-- The zeros that pad a string are trimmed again.
pub trim_right-copy_into :
    (n : ℕ) (s : Str) → length s ≤ n → trim_right (copy_into n s) ≡ trim_right s
unfolding trim_right copy_into
trim_right-copy_into zero [] h = refl
trim_right-copy_into zero (b ∷ s) h = absurd (omega arith)
trim_right-copy_into (suc n) [] h = ground (arith, trim_right-zeros n)
trim_right-copy_into (suc n) (b ∷ s) h = rw (trim_right-copy_into n s (omega arith)) refl

pub length-zero : (s : Str) → length s ≡ 0 → s ≡ []
length-zero [] h = refl
length-zero (b ∷ s) h = absurd (omega arith)

-- The zeros that were trimmed are put back.
pub copy_into-trim_right : (s : Str) → copy_into (length s) (trim_right s) ≡ s
unfolding trim_right copy_into
copy_into-trim_right [] = refl
copy_into-trim_right (b ∷ s) = ground (arith, copy_into-trim_right s, length-zero (trim_right s))

-- What a reader does with what its writer has put in front of a buffer.
pub read_bytes-put : (s rest : Str) → read_bytes (length s) (s ++ rest) ≡ some (s, rest)
unfolding read_bytes
read_bytes-put [] rest = refl
read_bytes-put (b ∷ s) rest = rw (read_bytes-put s rest) refl

pub read_u16-put : (n : ℕ) (rest : Str) → n < 2 ^ 16 → read_u16 (put_u16 n ++ rest) ≡ some (n, rest)
unfolding read_u16
read_u16-put n rest h = rw (get_u16-put n h) refl

pub read_u32-put : (n : ℕ) (rest : Str) → n < 2 ^ 32 → read_u32 (put_u32 n ++ rest) ≡ some (n, rest)
unfolding read_u32
read_u32-put n rest h = rw (get_u32-put n h) refl

pub read_u64-put : (n : ℕ) (rest : Str) → n < 2 ^ 64 → read_u64 (put_u64 n ++ rest) ≡ some (n, rest)
unfolding read_u64
read_u64-put n rest h = rw (get_u64-put n h) refl

-- A reader `r` of `n` bytes reads from a buffer of bytes that is long enough what the writer `w`
-- gives back.
abbrev pub Reads {ℓ} : {A : Type ℓ} → (Str → Option (A × Str)) → (A → Str) → ℕ → Type ℓ
Reads {A = A} r w n =
    (buf : Str)
    → IsBytes buf
    → n ≤ length buf
    → (a : A) × (rest : Str) × (r buf ≡ some (a, rest))
      × (buf ≡ w a ++ rest)
      × (length buf ≡ n + length rest)
      × IsBytes rest

pub read_bytes-Reads : (n : ℕ) → Reads (read_bytes n) (λ s. s) n
unfolding read_bytes
read_bytes-Reads zero buf bs h = ([], buf, refl, refl, omega arith, bs)
read_bytes-Reads (suc n) [] bs h = absurd (omega arith)
read_bytes-Reads (suc n) (b ∷ buf) bs h =
    let (s, rest, e, same, len, bs') = read_bytes-Reads n buf bs.1 (omega arith) in
    (b ∷ s, rest, rw e refl, ap (λ t. b ∷ t) same, omega arith, bs')

-- The read string has the length that was asked for.
pub length-read_bytes :
    (n : ℕ) (buf s rest : Str) → read_bytes n buf ≡ some (s, rest) → length s ≡ n
unfolding read_bytes
length-read_bytes zero buf s rest h = ground arith
length-read_bytes (suc n) [] s rest h = cc
length-read_bytes (suc n) (b ∷ buf) s rest h = elim (Option-cases (read_bytes n buf)) [
  | inl e ↦ cc
  | inr ((s', rest'), e) ↦ let k = length-read_bytes n buf s' rest' e in ground arith
]

-- What was read and what is left are the buffer.
pub length-read_bytes_rest :
    (n : ℕ) (buf s rest : Str) → read_bytes n buf ≡ some (s, rest) → length buf ≡ n + length rest
unfolding read_bytes
length-read_bytes_rest zero buf s rest h = ground arith
length-read_bytes_rest (suc n) [] s rest h = cc
length-read_bytes_rest (suc n) (b ∷ buf) s rest h = elim (Option-cases (read_bytes n buf)) [
  | inl e ↦ cc
  | inr ((s', rest'), e) ↦ let k = length-read_bytes_rest n buf s' rest' e in ground arith
]

-- A buffer that is long enough can be read from.
pub read_bytes-some :
    (n : ℕ) (buf : Str) → n ≤ length buf → (r : Str × Str) × (read_bytes n buf ≡ some r)
unfolding read_bytes
read_bytes-some zero buf h = (([], buf), refl)
read_bytes-some (suc n) [] h = absurd (omega arith)
read_bytes-some (suc n) (b ∷ buf) h =
    let ((s, rest), e) = read_bytes-some n buf (omega arith) in ((b ∷ s, rest), rw e refl)

pub read_u16-Reads : Reads read_u16 put_u16 2
unfolding read_u16
read_u16-Reads [] bs h = absurd (omega arith)
read_u16-Reads (a ∷ []) bs h = absurd (omega arith)
read_u16-Reads (a ∷ b ∷ rest) bs h = (
  get_u16 a b,
  rest,
  refl,
  ap (λ t. t ++ rest) (sym (put_u16-get a b bs.0 bs.1.0)),
  omega arith,
  bs.1.1,
)

pub read_u32-Reads : Reads read_u32 put_u32 4
unfolding read_u32
read_u32-Reads [] bs h = absurd (omega arith)
read_u32-Reads (a ∷ []) bs h = absurd (omega arith)
read_u32-Reads (a ∷ b ∷ []) bs h = absurd (omega arith)
read_u32-Reads (a ∷ b ∷ c ∷ []) bs h = absurd (omega arith)
read_u32-Reads (a ∷ b ∷ c ∷ d ∷ rest) bs h = (
  get_u32 a b c d,
  rest,
  refl,
  ap (λ t. t ++ rest) (sym (put_u32-get a b c d bs.0 bs.1.0 bs.1.1.0 bs.1.1.1.0)),
  omega arith,
  bs.1.1.1.1,
)

pub read_u64-Reads : Reads read_u64 put_u64 8
unfolding read_u64
read_u64-Reads (a ∷ b ∷ c ∷ d ∷ e ∷ f ∷ g ∷ i ∷ rest) bs h = (
  get_u64 a b c d e f g i,
  rest,
  refl,
  ap (λ t. t ++ rest)
      (sym (
        put_u64-get a b c d e f g i bs.0 bs.1.0 bs.1.1.0 bs.1.1.1.0 bs.1.1.1.1.0 bs.1.1.1.1.1.0
          bs.1.1.1.1.1.1.0 bs.1.1.1.1.1.1.1.0)),
  omega arith,
  bs.1.1.1.1.1.1.1.1,
)
read_u64-Reads [] bs h = absurd (omega arith)
read_u64-Reads (a ∷ []) bs h = absurd (omega arith)
read_u64-Reads (a ∷ b ∷ []) bs h = absurd (omega arith)
read_u64-Reads (a ∷ b ∷ c ∷ []) bs h = absurd (omega arith)
read_u64-Reads (a ∷ b ∷ c ∷ d ∷ []) bs h = absurd (omega arith)
read_u64-Reads (a ∷ b ∷ c ∷ d ∷ e ∷ []) bs h = absurd (omega arith)
read_u64-Reads (a ∷ b ∷ c ∷ d ∷ e ∷ f ∷ []) bs h = absurd (omega arith)
read_u64-Reads (a ∷ b ∷ c ∷ d ∷ e ∷ f ∷ g ∷ []) bs h = absurd (omega arith)

-- A proof that goes on with what a reader has read, and with what is left.
pub with_read {ℓ κ} :
    {A : Type ℓ} {r : Str → Option (A × Str)} (w : A → Str) {n : ℕ}
    → Reads r w n
    → (buf : Str) → IsBytes buf
    → n ≤ length buf
    → {G : Type κ}
    → ((a : A) (rest : Str)
        → r buf ≡ some (a, rest)
        → buf ≡ w a ++ rest
        → length buf ≡ n + length rest
        → IsBytes rest
        → G)
    → G
with_read w reads buf bs h next =
    let (a, rest, e, same, len, bs') = reads buf bs h in next a rest e same len bs'
