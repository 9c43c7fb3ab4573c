-- ===== src/Placement/Writes.antt =====
-- Where the keys lie after the operations of utils/kvstore on the five types.
use emberdb.Prelude.{ℕ, ◌≡◌, true, List, arith, Str, is_some, Option-cases, inl, inr}
use emberdb.Prelude.Int.{ℤ, pos, ◌-ℤ◌, wrap64}
use emberdb.Prelude.Decimal.{atoi}
use emberdb.Dict
use emberdb.Dict.{Dict}
use emberdb.Slot.{Runtime, slot_for_key}
use emberdb.Store.{KvStore, Value, put_value, delete_value}
use emberdb.Strings.{set, append, change_integer, incr, decr, incr_by, decr_by, string_value}
use emberdb.Lists.{lpush, rpush, lpop, rpop}
use emberdb.Hashes.{hset, hmset, hdel}
use emberdb.Sets.{sadd, srem}
use emberdb.SortedSets.{zadd, zrem}
use emberdb.Placement.{IsPlaced, put_value-IsPlaced, delete_value-IsPlaced}

module _ {F : Type 0} (rt : Runtime F) (kv : KvStore F) (p : IsPlaced rt kv) (key : Str) where
  placed_put :
      (v : Value F) (i : ℕ) (k : Str)
      → is_some (Dict.get ((put_value rt kv key v).slots i) k) ≡ true
      → slot_for_key rt k ≡ i
  placed_put = put_value-IsPlaced rt kv p key

  placed_delete :
      (i : ℕ) (k : Str)
      → is_some (Dict.get ((delete_value rt kv key).slots i) k) ≡ true
      → slot_for_key rt k ≡ i
  placed_delete = delete_value-IsPlaced rt kv p key

  pub set-IsPlaced : (v : Str) → IsPlaced rt (set rt kv key v)
  unfolding set
  set-IsPlaced v i k h = ground (arith, p i k, put_value-IsPlaced rt kv p key (string_value v) i k)

  pub append-IsPlaced : (s : Str) → IsPlaced rt (append rt kv key s).1
  unfolding append
  append-IsPlaced s i k h = grind (arith, p i k, placed_delete i k, placed_put)

  pub change_integer-IsPlaced : (d : ℤ) → IsPlaced rt (change_integer rt kv key d).1
  unfolding change_integer
  change_integer-IsPlaced d i k h = grind (arith, p i k, placed_delete i k, placed_put)

  pub lpush-IsPlaced : (vs : List Str) → IsPlaced rt (lpush rt kv key vs).1
  unfolding lpush
  lpush-IsPlaced vs i k h = grind (arith, p i k, placed_delete i k, placed_put)

  pub rpush-IsPlaced : (vs : List Str) → IsPlaced rt (rpush rt kv key vs).1
  unfolding rpush
  rpush-IsPlaced vs i k h = grind (arith, p i k, placed_delete i k, placed_put)

  pub lpop-IsPlaced : IsPlaced rt (lpop rt kv key).1
  unfolding lpop
  lpop-IsPlaced i k h = grind (arith, p i k, placed_delete i k, placed_put)

  pub rpop-IsPlaced : IsPlaced rt (rpop rt kv key).1
  unfolding rpop
  rpop-IsPlaced i k h = grind (arith, p i k, placed_delete i k, placed_put)

  pub hmset-IsPlaced : (fs : Dict Str) → IsPlaced rt (hmset rt kv key fs)
  unfolding hmset
  hmset-IsPlaced fs i k h = grind (arith, p i k, placed_delete i k, placed_put)

  pub hdel-IsPlaced : (fs : List Str) → IsPlaced rt (hdel rt kv key fs).1
  unfolding hdel
  hdel-IsPlaced fs i k h = grind (arith, p i k, placed_delete i k, placed_put)

  pub sadd-IsPlaced : (ms : List Str) → IsPlaced rt (sadd rt kv key ms).1
  unfolding sadd
  sadd-IsPlaced ms i k h = grind (arith, p i k, placed_delete i k, placed_put)

  pub srem-IsPlaced : (ms : List Str) → IsPlaced rt (srem rt kv key ms).1
  unfolding srem
  srem-IsPlaced ms i k h = grind (arith, p i k, placed_delete i k, placed_put)

  pub zadd-IsPlaced : (ps : List Str) → IsPlaced rt (zadd rt kv key ps).1
  unfolding zadd
  zadd-IsPlaced ps i k h = grind (arith, p i k, placed_delete i k, placed_put)

  pub zrem-IsPlaced : (ms : List Str) → IsPlaced rt (zrem rt kv key ms).1
  unfolding zrem
  zrem-IsPlaced ms i k h = grind (arith, p i k, placed_delete i k, placed_put)

  pub incr-IsPlaced : IsPlaced rt (incr rt kv key).1
  unfolding incr
  incr-IsPlaced = change_integer-IsPlaced _

  pub decr-IsPlaced : IsPlaced rt (decr rt kv key).1
  unfolding decr
  decr-IsPlaced = change_integer-IsPlaced _

  pub incr_by-IsPlaced : (n : Str) → IsPlaced rt (incr_by rt kv key n).1
  unfolding incr_by
  incr_by-IsPlaced n i k h = elim (Option-cases (atoi n)) [
    | inl bad ↦ ground (arith, p i k)
    | inr (d, good) ↦ ground (arith, change_integer-IsPlaced d i k)
  ]

  pub decr_by-IsPlaced : (n : Str) → IsPlaced rt (decr_by rt kv key n).1
  unfolding decr_by
  decr_by-IsPlaced n i k h = elim (Option-cases (atoi n)) [
    | inl bad ↦ ground (arith, p i k)
    | inr (d, good) ↦ ground (arith, change_integer-IsPlaced (wrap64 (pos 0 -ℤ d)) i k)
  ]

  pub hset-IsPlaced : (f v : Str) → IsPlaced rt (hset rt kv key f v)
  unfolding hset
  hset-IsPlaced f v = hmset-IsPlaced (Dict.put Dict.empty f v)
