-- ===== src/Tests/Dumps.antt =====
-- Dumps of short strings.
use emberdb.Prelude.{◌≡◌, refl, ◌∷◌, arith, Str, bytes}
use emberdb.Clusters.Rdb.{restored, encode_binary_dump, restore_data_from_binary_dump}
use emberdb.Clusters.Rdb.RoundTrip.{restore-encode}

abbrev dump : Str
dump = 0 ∷ 0 ∷ 0 ∷ 0 ∷ 2 ∷ bytes "ab"

restore-encode_example :
    restore_data_from_binary_dump (encode_binary_dump (bytes "ab")) ≡ restored (bytes "ab")
restore-encode_example = restore-encode (bytes "ab") (omega arith)

read : restore_data_from_binary_dump dump ≡ restored (bytes "ab")
unfolding restore_data_from_binary_dump
read = refl
