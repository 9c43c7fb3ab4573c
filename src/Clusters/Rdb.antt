-- ===== src/Clusters/Rdb.antt =====
-- utils/clusters/rdb.go: the dump of a string that MIGRATE sends and RESTORE-ASKING reads.
pub mod RoundTrip
use emberdb.Prelude.{ℕ, ◌+◌, ◌%◌, ◌^◌, ◌≡◌, [], ◌∷◌, ◌++◌, Str, ◌==◌, not, if◌then◌else◌, length}
use emberdb.Prelude.BigEndian.{put_u32, get_u32}

-- DUMP_TYPE_STRING
abbrev pub dump_type_string : ℕ
dump_type_string = 0x00

pub data DumpError : Type 0 where
  invalid_dump unsupported_type invalid_length : DumpError

-- `(string, error)`
pub data Restored : Type 0 where
  restored : Str → Restored
  refused : DumpError → Restored

-- The buffer of 1 + 4 + len(value) bytes, filled from the front.
unfoldable pub encode_binary_dump : Str → Str
encode_binary_dump value = dump_type_string ∷ (put_u32 (length value % 2 ^ 32) ++ value)

-- The tests stand in the order of the source: fewer than five bytes, the type, the length.
unfoldable pub restore_data_from_binary_dump : Str → Restored
restore_data_from_binary_dump (t ∷ a ∷ b ∷ c ∷ d ∷ rest) =
    if not (t == dump_type_string)
    then refused unsupported_type
    else if not (length (t ∷ a ∷ b ∷ c ∷ d ∷ rest) == 5 + get_u32 a b c d)
    then refused invalid_length
    else restored rest
restore_data_from_binary_dump _ = refused invalid_dump
