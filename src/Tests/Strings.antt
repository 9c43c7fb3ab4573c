-- ===== src/Tests/Strings.antt =====
-- Strings in both modes.
use emberdb.Prelude.{◌≡◌, refl, true, false, some, [], ◌∷◌, arith, bytes, if◌then◌else◌, str_eq}
use emberdb.Dict
use emberdb.Store.{KvStore, new_kv_store}
use emberdb.Store.Cells.{Updates}
use emberdb.Store.Cells.Tables.{string_cell}
use emberdb.Strings.{set, get, mset}
use emberdb.Strings.Reads.{get-set, set-Updates}
use emberdb.Strings.Batch.{set_all, mset-set_all}
use emberdb.Tests.Fixture.{toy, key, other_key}

abbrev cluster : KvStore Prim.Native.Nat.ℕ
cluster = set toy (new_kv_store true) key (bytes "41")

abbrev alone : KvStore Prim.Native.Nat.ℕ
alone = set toy (new_kv_store false) key (bytes "41")

get-set_example :
    get toy (set toy cluster key (bytes "v")) other_key
    ≡ (if str_eq key other_key then bytes "v" else get toy cluster other_key)
get-set_example = get-set toy cluster key (bytes "v") other_key

set-Updates_example :
    Updates (string_cell toy) alone (set toy alone key (bytes "v")) key (some (bytes "v"))
set-Updates_example = set-Updates toy alone key (bytes "v")

standalone : ¬ (alone.cluster_enabled ≡ true)
unfolding set new_kv_store
standalone on = ground arith

mset-set_all_example :
    mset toy alone (key ∷ other_key ∷ []) (bytes "1" ∷ bytes "2" ∷ [])
    ≡ some (set_all toy alone ((key, bytes "1") ∷ (other_key, bytes "2") ∷ []))
mset-set_all_example =
    mset-set_all toy alone key (bytes "1") ((other_key, bytes "2") ∷ [])
      (λ on. absurd (standalone on))

get-alone : get toy alone key ≡ bytes "41"
unfolding get set new_kv_store Dict.get Dict.put Dict.empty str_eq
get-alone = refl
