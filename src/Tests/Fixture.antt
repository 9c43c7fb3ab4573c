-- ===== src/Tests/Fixture.antt =====
-- A concrete runtime and stores in both modes.
use emberdb.Prelude.{ℕ, ◌+◌, ◌*◌, ◌%◌, [], ◌∷◌, Str, bytes, ltb, arith}
use emberdb.Prelude.Decimal.{digits_value}
use emberdb.Prelude.Sort.{IsStrictWeak}
use emberdb.Slot.{Runtime}
use emberdb.SortedSets.{less_score}

unfoldable pub rolling : ℕ → Str → ℕ
rolling h [] = h
rolling h (c ∷ s) = rolling ((h * 31 + c) % 65536) s

-- Scores are numbers, and the checksum is a rolling one.
abbrev pub toy : Runtime ℕ
toy = record { checksum = rolling 0; parse_float = digits_value; less = ltb }

pub toy_order : IsStrictWeak (less_score toy)
toy_order = record { asymm = λ a b h. ground arith; not_less_trans = λ a b c h k. ground arith }

abbrev pub key : Str
key = bytes "k"

abbrev pub other_key : Str
other_key = bytes "j"
