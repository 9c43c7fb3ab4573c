-- ===== src/Strings/Batch.antt =====
-- MSET and MGET against one SET or GET after the other.
-- Source: utils/kvstore/strings.go.
use emberdb.Prelude.{
  ℕ, ◌≡◌, refl, sym, ap, ◌∙◌, true, false, some, List, [], ◌∷◌, arith, Str, map, All, Bool-cases,
  inl, inr,
}
use mathlib.Core.Path.{fun_ext}
use emberdb.Dict
use emberdb.Dict.{Dict}
use emberdb.Slot.{Runtime, slot_for_key}
use emberdb.Store.{Value, KvStore, set_slot, find, put_value}
use emberdb.Strings.{
  string_value, pair_up, mset_values, mset_strings, mset_pairs, set, mset, get, mget, mget_values,
  mget_strings,
}

-- the keys and the values of a list of pairs
abbrev pub key_of : List (Str × Str) → List Str
key_of [] = []
key_of ((k, v) ∷ ps) = k ∷ key_of ps

abbrev pub value_of : List (Str × Str) → List Str
value_of [] = []
value_of ((k, v) ∷ ps) = v ∷ value_of ps

pair_up-split : (ps : List (Str × Str)) → pair_up (key_of ps) (value_of ps) ≡ some ps
unfolding pair_up
pair_up-split [] = refl
pair_up-split ((k, v) ∷ ps) = rw (pair_up-split ps, pair_up)

module _ {F : Type 0} where
  set_slot_twice :
      (kv : KvStore F) (i : ℕ) (m n : Dict (Value F))
      → set_slot (set_slot kv i m) i n ≡ set_slot kv i n
  unfolding set_slot
  set_slot_twice kv i m n = ap (λ f. record kv { slots = f }) (fun_ext λ j. ground arith)

  set_slot_same : (kv : KvStore F) (i : ℕ) → set_slot kv i (kv.slots i) ≡ kv
  unfolding set_slot
  set_slot_same kv i = ap (λ f. record kv { slots = f }) (fun_ext λ j. ground arith)

  slots-set_slot : (kv : KvStore F) (i : ℕ) (m : Dict (Value F)) → (set_slot kv i m).slots i ≡ m
  unfolding set_slot
  slots-set_slot kv i m = ground arith

module _ {F : Type 0} (rt : Runtime F) where
  -- All the keys hash to the slot `i`, as the callers of `Mset` and `Mget` check in cluster mode.
  abbrev pub InSlot : ℕ → List Str → Type 0
  InSlot i keys = All (λ k. slot_for_key rt k ≡ i) keys

  -- one SET after the other
  unfoldable pub set_all : KvStore F → List (Str × Str) → KvStore F
  set_all kv [] = kv
  set_all kv ((k, v) ∷ ps) = set_all (set rt kv k v) ps

  set_on :
      (kv : KvStore F) (k v : Str)
      → kv.cluster_enabled ≡ true
      → let i = slot_for_key rt k in
        set rt kv k v ≡ set_slot kv i (Dict.put (kv.slots i) k (string_value v))
  unfolding set put_value
  set_on kv k v on = ground arith

  enabled-set : (kv : KvStore F) (k v : Str) → (set rt kv k v).cluster_enabled ≡ kv.cluster_enabled
  unfolding set put_value
  enabled-set kv k v = ground arith

  set_all_on :
      (kv : KvStore F) (i : ℕ) (ps : List (Str × Str))
      → kv.cluster_enabled ≡ true
      → InSlot i (key_of ps)
      → set_all kv ps ≡ set_slot kv i (mset_values (kv.slots i) ps)
  unfolding set_all mset_values
  set_all_on kv i [] on h = sym (set_slot_same kv i)
  set_all_on kv i ((k, v) ∷ ps) on h =
      let m = Dict.put (kv.slots i) k (string_value v) in
      let step : set rt kv k v ≡ set_slot kv i m = rw (← h.0) (set_on kv k v on) in
      set_all_on (set rt kv k v) i ps (enabled-set kv k v ∙ on) h.1
      ∙ rw (step, slots-set_slot kv i m) (set_slot_twice kv i m (mset_values m ps))

  set_all_off :
      (kv : KvStore F) (ps : List (Str × Str))
      → kv.cluster_enabled ≡ false
      → set_all kv ps ≡ record kv { strings = mset_strings kv.strings ps }
  unfolding set_all mset_strings
  set_all_off kv [] off = refl
  set_all_off kv ((k, v) ∷ ps) off =
      let step : set rt kv k v ≡ record kv { strings = Dict.put kv.strings k v } =
        unfold set in ground arith in
      set_all_off (set rt kv k v) ps (enabled-set kv k v ∙ off) ∙ rw step

  mset_pairs-set_all :
      (kv : KvStore F) (k : Str) (ps : List (Str × Str))
      → (kv.cluster_enabled ≡ true → InSlot (slot_for_key rt k) (key_of ps))
      → mset_pairs rt kv k ps ≡ set_all kv ps
  unfolding mset_pairs
  mset_pairs-set_all kv k ps h = elim (Bool-cases kv.cluster_enabled) [
    | inl on ↦ let e = set_all_on kv (slot_for_key rt k) ps on (h on) in ground arith
    | inr off ↦ let e = set_all_off kv ps off in ground arith
  ]

  -- MSET of keys and as many values is one SET after the other, and does not panic; in cluster mode
  -- this needs that all the keys lie in the slot of the first one.
  pub mset-set_all :
      (kv : KvStore F) (k v : Str) (ps : List (Str × Str))
      → (kv.cluster_enabled ≡ true → InSlot (slot_for_key rt k) (key_of ps))
      → mset rt kv (k ∷ key_of ps) (v ∷ value_of ps) ≡ some (set_all kv ((k, v) ∷ ps))
  unfolding mset
  mset-set_all kv k v ps h =
      rw (pair_up-split ((k, v) ∷ ps), mset)
        (ap some (mset_pairs-set_all kv k ((k, v) ∷ ps) (λ on. (refl, h on))))

  -- It never panics.
  pub mset-some :
      (kv : KvStore F) (k v : Str) (ps : List (Str × Str))
      → (kv' : KvStore F) × (mset rt kv (k ∷ key_of ps) (v ∷ value_of ps) ≡ some kv')
  unfolding mset
  mset-some kv k v ps = (mset_pairs rt kv k ((k, v) ∷ ps), rw (pair_up-split ((k, v) ∷ ps), mset))

  mget_values-get :
      (kv : KvStore F) (i : ℕ) (keys : List Str)
      → kv.cluster_enabled ≡ true
      → InSlot i keys
      → mget_values (kv.slots i) keys ≡ map (get rt kv) keys
  unfolding mget_values get find
  mget_values-get kv i [] on h = refl
  mget_values-get kv i (k ∷ keys) on h =
      let e = mget_values-get kv i keys on h.1 in
      let here : find rt kv k ≡ Dict.get (kv.slots i) k = rw (← h.0) refl in ground (arith, here)

  mget_strings-get :
      (kv : KvStore F) (keys : List Str)
      → kv.cluster_enabled ≡ false
      → mget_strings kv.strings keys ≡ map (get rt kv) keys
  unfolding mget_strings get
  mget_strings-get kv [] off = refl
  mget_strings-get kv (k ∷ keys) off = let e = mget_strings-get kv keys off in ground arith

  -- MGET gives what GET gives at each key in turn; in cluster mode this needs that all the keys lie
  -- in the slot of the first one.
  pub mget-get :
      (kv : KvStore F) (k : Str) (keys : List Str)
      → (kv.cluster_enabled ≡ true → InSlot (slot_for_key rt k) keys)
      → mget rt kv (k ∷ keys) ≡ map (get rt kv) (k ∷ keys)
  unfolding mget
  mget-get kv k keys h = elim (Bool-cases kv.cluster_enabled) [
    | inl on ↦
        let e = mget_values-get kv (slot_for_key rt k) (k ∷ keys) on (refl, h on) in ground arith
    | inr off ↦ let e = mget_strings-get kv (k ∷ keys) off in ground arith
  ]
