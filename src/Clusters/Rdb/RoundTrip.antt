-- ===== src/Clusters/Rdb/RoundTrip.antt =====
-- utils/clusters/rdb.go: dumps and their restoration.
use emberdb.Prelude.{◌%◌, ◌^◌, ◌<◌, ◌≡◌, ap, [], ◌∷◌, ◌++◌, arith, Str, All, length}
use emberdb.Prelude.BigEndian.{get_u32, get_u32-put, put_u32-get}
use emberdb.Clusters.Rdb.{restored, encode_binary_dump, restore_data_from_binary_dump}

-- A string of fewer than 2 ^ 32 bytes is restored from its dump.
pub restore-encode :
    (value : Str)
    → length value < 2 ^ 32
    → restore_data_from_binary_dump (encode_binary_dump value) ≡ restored value
unfolding restore_data_from_binary_dump encode_binary_dump
restore-encode value h =
    let n = length value % 2 ^ 32 in
    let e : n ≡ length value = omega arith in rw (get_u32-put n (omega arith), e) (ground arith)

-- Whatever bytes are restored as a string are the dump of that string.
pub encode-restore :
    (dump value : Str)
    → All (λ b. b < 256) dump
    → restore_data_from_binary_dump dump ≡ restored value
    → encode_binary_dump value ≡ dump
unfolding restore_data_from_binary_dump encode_binary_dump
encode-restore [] value r h = cc
encode-restore (t ∷ []) value r h = cc
encode-restore (t ∷ a ∷ []) value r h = cc
encode-restore (t ∷ a ∷ b ∷ []) value r h = cc
encode-restore (t ∷ a ∷ b ∷ c ∷ []) value r h = cc
encode-restore (t ∷ a ∷ b ∷ c ∷ d ∷ rest) value r h =
    let same : rest ≡ value = ground arith in
    let zero_type : t ≡ 0 = ground arith in
    let len : length rest ≡ get_u32 a b c d = ground arith in
    let small : get_u32 a b c d % 2 ^ 32 ≡ get_u32 a b c d = omega arith in
    rw (← same, zero_type, len, small)
      (ap (λ w. 0 ∷ (w ++ rest)) (put_u32-get a b c d r.1.0 r.1.1.0 r.1.1.1.0 r.1.1.1.1.0))
