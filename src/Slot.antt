-- ===== src/Slot.antt =====
-- `SlotForKey` of utils/kvstore/kvstore.go: the hash slot of a key, by its `{tag}` if it has one.
-- `crc16.ChecksumXModem` is a third-party function, the field `checksum` of `Runtime`.
pub mod Tag
use emberdb.Prelude.{
  ℕ, suc, ◌+◌, ◌%◌, ◌<◌, ◌≡◌, Option, none, some, [], ◌∷◌, arith, Str, ltb, ◌==◌, if◌then◌else◌,
  take, drop, Bool,
}

-- What the store takes from outside the repository, at the type `F` of float64 values:
-- the CRC16 checksum, `strconv.ParseFloat(s, 64)` (no value for an error) and `<` on scores.
pub record Runtime (F : Type 0) : Type 0 where
  pub checksum : Str → ℕ
  pub parse_float : Str → Option F
  pub less : F → F → Bool

-- `len(kv.slots)`, CLUSTER_SLOTS
abbrev pub slot_count : ℕ
slot_count = 16384

-- `strings.IndexByte`; no value stands for -1
unfoldable pub index_byte : Str → ℕ → Option ℕ
index_byte [] b = none
index_byte (c ∷ s) b =
    if c == b then some 0 else elim (index_byte s b) [ none ↦ none | some i ↦ some (suc i) ]

-- `rest` is `key[start+1:]`
within_braces : Str → Str → Option ℕ → Str
within_braces key rest none = key
within_braces key rest (some end) = if ltb 0 end then take end rest else key

after_brace : Str → Option ℕ → Str
unfolding within_braces
after_brace key none = key
after_brace key (some start) =
    let rest = drop (start + 1) key in within_braces key rest (index_byte rest b'}')

-- The part of the key that is hashed.
unfoldable pub hash_part : Str → Str
unfolding after_brace
hash_part key = after_brace key (index_byte key b'{')

module _ {F : Type 0} (rt : Runtime F) where
  unfoldable pub slot_for_key : Str → ℕ
  slot_for_key key = rt.checksum (hash_part key) % slot_count
