-- ===== src/Prelude/BigEndian.antt =====
-- `binary.BigEndian` on words of 16, 32 and 64 bits.
use Prim.Native.Nat.{ℕ, ◌+◌, ◌*◌, ◌/◌, ◌%◌, ◌^◌, ◌<◌}
use mathlib.Core.Path.{◌≡◌, ap, ◌∙◌}
use mathlib.Core.List.{[], ◌∷◌, ◌++◌}
use native.Mathlib.Omega.{arith}
use emberdb.Prelude.Bytes.{Str}

-- `PutUint32`, of a number that is converted to uint32
abbrev pub put_u32 : ℕ → Str
put_u32 n = n / 2 ^ 24 % 256 ∷ n / 2 ^ 16 % 256 ∷ n / 2 ^ 8 % 256 ∷ n % 256 ∷ []

-- `Uint32`
abbrev pub get_u32 : ℕ → ℕ → ℕ → ℕ → ℕ
get_u32 a b c d = a * 2 ^ 24 + b * 2 ^ 16 + c * 2 ^ 8 + d

pub get_u32-put :
    (n : ℕ)
    → n < 2 ^ 32
    → get_u32 (n / 2 ^ 24 % 256) (n / 2 ^ 16 % 256) (n / 2 ^ 8 % 256) (n % 256) ≡ n
get_u32-put n h = omega arith

pub put_u32-get :
    (a b c d : ℕ)
    → a < 256
    → b < 256
    → c < 256
    → d < 256
    → put_u32 (get_u32 a b c d) ≡ a ∷ b ∷ c ∷ d ∷ []
put_u32-get a b c d ha hb hc hd =
    let n = get_u32 a b c d in
    let ea : n / 2 ^ 24 % 256 ≡ a = omega arith in
    let eb : n / 2 ^ 16 % 256 ≡ b = omega arith in
    let ec : n / 2 ^ 8 % 256 ≡ c = omega arith in
    let ed : n % 256 ≡ d = omega arith in rw (ea, eb, ec, ed)

-- `AppendUint16`, of a number that is converted to uint16
abbrev pub put_u16 : ℕ → Str
put_u16 n = n / 2 ^ 8 % 256 ∷ n % 256 ∷ []

-- `Uint16`
abbrev pub get_u16 : ℕ → ℕ → ℕ
get_u16 a b = a * 2 ^ 8 + b

pub get_u16-put : (n : ℕ) → n < 2 ^ 16 → get_u16 (n / 2 ^ 8 % 256) (n % 256) ≡ n
get_u16-put n h = omega arith

pub put_u16-get : (a b : ℕ) → a < 256 → b < 256 → put_u16 (get_u16 a b) ≡ a ∷ b ∷ []
put_u16-get a b ha hb =
    let n = get_u16 a b in
    let ea : n / 2 ^ 8 % 256 ≡ a = omega arith in let eb : n % 256 ≡ b = omega arith in rw (ea, eb)

-- `AppendUint64`: the high half and the low one
abbrev pub put_u64 : ℕ → Str
put_u64 n = put_u32 (n / 2 ^ 32) ++ put_u32 (n % 2 ^ 32)

-- `Uint64`
abbrev pub get_u64 : ℕ → ℕ → ℕ → ℕ → ℕ → ℕ → ℕ → ℕ → ℕ
get_u64 a b c d e f g h = get_u32 a b c d * 2 ^ 32 + get_u32 e f g h

pub get_u64-put :
    (n : ℕ)
    → n < 2 ^ 64
    → let hi = n / 2 ^ 32 in
      let lo = n % 2 ^ 32 in
      get_u64
        (hi / 2 ^ 24 % 256)
        (hi / 2 ^ 16 % 256)
        (hi / 2 ^ 8 % 256)
        (hi % 256)
        (lo / 2 ^ 24 % 256)
        (lo / 2 ^ 16 % 256)
        (lo / 2 ^ 8 % 256)
        (lo % 256)
      ≡ n
get_u64-put n h =
    omega (arith, get_u32-put (n / 2 ^ 32) (omega arith), get_u32-put (n % 2 ^ 32) (omega arith))

pub put_u64-get :
    (a b c d e f g h : ℕ)
    → a < 256
    → b < 256
    → c < 256
    → d < 256
    → e < 256
    → f < 256
    → g < 256
    → h < 256
    → put_u64 (get_u64 a b c d e f g h) ≡ a ∷ b ∷ c ∷ d ∷ e ∷ f ∷ g ∷ h ∷ []
put_u64-get a b c d e f g h ha hb hc hd he hf hg hh =
    let hi = get_u32 a b c d in
    let lo = get_u32 e f g h in
    let above : (hi * 2 ^ 32 + lo) / 2 ^ 32 ≡ hi = omega arith in
    let below : (hi * 2 ^ 32 + lo) % 2 ^ 32 ≡ lo = omega arith in
    rw (above, below)
      (ap (λ t. t ++ put_u32 lo) (put_u32-get a b c d ha hb hc hd)
        ∙ ap (λ t. a ∷ b ∷ c ∷ d ∷ t) (put_u32-get e f g h he hf hg hh))
