-- ===== src/Keys/SlotKeys.antt =====
-- GETKEYSINSLOT against the keys of the slot.
-- Source: utils/kvstore/kvstore.go.
use emberdb.Prelude.{
  ℕ, zero, suc, ◌-◌, ◌≤◌, ◌<◌, ◌≡◌, refl, sym, ap, ◌∙◌, true, false, not, ◌||◌, List, [], ◌∷◌, ◌++◌,
  arith, Str, ◌==◌, ltb, is_some, length, length-append, length-take, take, min, contains, NoDup,
  str_eq_refl, All, lt→ltb, Bool-cases, inl, inr,
}
use mathlib.Core.List.{append-nil, append_assoc}
use emberdb.Prelude.Int.{ℤ, pos, pos_part, ltb_ℤ}
use emberdb.Dict
use emberdb.Dict.{Dict}
use emberdb.Slot.{slot_count}
use emberdb.Store.{KvStore}
use emberdb.Keys.{collect, get_keys_in_slot}

take-nil : (n : ℕ) → take {A = Str} n [] ≡ []
take-nil zero = refl
take-nil (suc n) = refl

-- The loop appends the first keys until there are `count`.
collect-take :
    (count : ℕ) (ks keys : List Str)
    → length keys ≤ count
    → collect count ks keys ≡ keys ++ take (count - length keys) ks
unfolding collect
collect-take count [] keys h = sym (rw (take-nil (count - length keys)) (append-nil keys))
collect-take count (k ∷ ks) keys h = elim (Bool-cases (length keys == count)) [
  | inl full ↦
      let e : count - length keys ≡ 0 = ground arith in rw (full, e) (sym (append-nil keys))
  | inr more ↦
      let n = length-append keys (k ∷ []) in
      let e : count - length keys ≡ suc (count - length (keys ++ k ∷ [])) = ground arith in
      let rest = collect-take count ks (keys ++ k ∷ []) (ground arith) in
      rw (more, e) (rest ∙ append_assoc keys (k ∷ []) (take (count - length (keys ++ k ∷ [])) ks))
]

contains-take :
    (n : ℕ) (ks : List Str) (k : Str) → contains ks k ≡ false → contains (take n ks) k ≡ false
unfolding contains
contains-take zero ks k h = refl
contains-take (suc n) [] k h = refl
contains-take (suc n) (x ∷ ks) k h = ground (arith, contains-take n ks k)

take-NoDup : (n : ℕ) (ks : List Str) → NoDup ks → NoDup (take n ks)
take-NoDup zero ks h = tt
take-NoDup (suc n) [] h = tt
take-NoDup (suc n) (x ∷ ks) h = (contains-take n ks x h.0, take-NoDup n ks h.1)

module _ (P : Str → Type 0) where
  All-take : (n : ℕ) (ks : List Str) → All P ks → All P (take n ks)
  All-take zero ks h = tt
  All-take (suc n) [] h = tt
  All-take (suc n) (x ∷ ks) h = (h.0, All-take n ks h.1)

  All-contains : (ks : List Str) → ((k : Str) → contains ks k ≡ true → P k) → All P ks
  unfolding contains
  All-contains [] h = tt
  All-contains (x ∷ ks) h = (h x (rw (str_eq_refl x)), All-contains ks (λ k e. h k (ground arith)))

module _ {F : Type 0} (kv : KvStore F) (slot : ℕ) (count : ℤ) where
  -- GETKEYSINSLOT of a valid slot and a positive count gives keys of that slot, none of them twice:
  -- all of them if there are no more than `count`, and else `count` of them.
  pub get_keys_in_slot_lem :
      slot < slot_count
      → ltb_ℤ (pos 0) count ≡ true
      → let keys = get_keys_in_slot kv slot count in
        NoDup keys
        × All (λ k. is_some (Dict.get (kv.slots slot) k) ≡ true) keys
        × (length keys ≡ min (pos_part count) (Dict.len (kv.slots slot)))
  unfolding get_keys_in_slot Dict.len
  get_keys_in_slot_lem h positive =
      let m = kv.slots slot in
      let n = pos_part count in
      let ks = Dict.keys m in
      let e : get_keys_in_slot kv slot count ≡ take n ks =
        rw (lt→ltb _ _ h, positive)
          (collect-take n ks [] (omega arith) ∙ ap (λ t. take t ks) (omega arith)) in
      rw e (
        take-NoDup n ks (Dict.keys-NoDup m),
        All-take _ n ks (All-contains _ ks (λ k c. sym (Dict.contains-keys m k) ∙ c)),
        length-take n ks,
      )

  -- For an invalid slot, or a count that is not positive, it gives no key.
  pub get_keys_in_slot_none :
      (not (ltb slot slot_count) || not (ltb_ℤ (pos 0) count)) ≡ true
      → get_keys_in_slot kv slot count ≡ []
  unfolding get_keys_in_slot
  get_keys_in_slot_none h = rw h
