-- ===== src/Server/Routing/Batch.antt =====
-- `handleMSet` of cmd/ember-server/commands_strings.go behind its checks.
use emberdb.Prelude.{
  some, ℕ, ◌%◌, ◌≡◌, refl, ◌∙◌, true, false, not, ◌&&◌, List, [], ◌∷◌, arith, Str, ◌==◌, length,
  inl, inr, Bool-cases,
}
use emberdb.Slot.{Runtime, slot_for_key}
use emberdb.Store.{KvStore}
use emberdb.Strings.{mset}
use emberdb.Strings.Batch.{InSlot, key_of, value_of, set_all, mset-some, mset-set_all}
use emberdb.Server.{ok, served, reply, Server, with_route, to_move_or_not_to_move}
use emberdb.Server.Strings.{split_keys, split_values, cross_slot, mset_reply, handle_mset}
use emberdb.Server.Routing.Shapes.{Shape, Finishes, refused, either, at}

-- the pairs of a list of arguments
unfoldable pub pairs_of : List Str → List (Str × Str)
pairs_of [] = []
pairs_of (k ∷ []) = []
pairs_of (k ∷ v ∷ args) = (k, v) ∷ pairs_of args

split_keys-pairs_of : (args : List Str) → split_keys args ≡ key_of (pairs_of args)
unfolding split_keys pairs_of
split_keys-pairs_of [] = refl
split_keys-pairs_of (k ∷ []) = refl
split_keys-pairs_of (k ∷ v ∷ args) = rw (split_keys-pairs_of args)

split_values-pairs_of : (args : List Str) → split_values args ≡ value_of (pairs_of args)
unfolding split_values pairs_of
split_values-pairs_of [] = refl
split_values-pairs_of (k ∷ []) = refl
split_values-pairs_of (k ∷ v ∷ args) = rw (split_values-pairs_of args)

module _ {F : Type 0} (rt : Runtime F) where
  cross_slot-InSlot : (i : ℕ) (keys : List Str) → cross_slot rt i keys ≡ false → InSlot rt i keys
  unfolding cross_slot
  cross_slot-InSlot i [] h = tt
  cross_slot-InSlot i (k ∷ ks) h = (ground (arith), cross_slot-InSlot i ks (ground arith))

module _ {F : Type 0} (rt : Runtime F) (sv : Server) (kv : KvStore F) (key value : Str) where
  mset_reply-Finishes :
      (more : List Str)
      → Finishes false (
          mset_reply
            (mset rt kv (split_keys (key ∷ value ∷ more)) (split_values (key ∷ value ∷ more))))
  unfolding split_keys split_values
  mset_reply-Finishes more =
      let (kv', e) = mset-some rt kv key value (pairs_of more) in
      rw (split_keys-pairs_of more, split_values-pairs_of more, e) (kv', inl (ok, refl))

  pub handle_mset-Shape :
      (more : List Str)
      → Shape rt sv kv key false (λ s. handle_mset rt (at rt sv kv key s) kv (key ∷ value ∷ more))
  unfolding handle_mset
  handle_mset-Shape more =
      either rt sv kv key false (not (length (key ∷ value ∷ more) % 2 == 0)) _ _
        (refused rt sv kv key false _)
        (either rt sv kv key false
          (sv.cluster_enabled && cross_slot rt (slot_for_key rt key) (split_keys more)) _ _
          (refused rt sv kv key false _) (inr (_, λ s. refl, mset_reply-Finishes more)))

  pub mset-pairs_of :
      (more : List Str)
      → (kv.cluster_enabled ≡ true → cross_slot rt (slot_for_key rt key) (split_keys more) ≡ false)
      → mset rt kv (split_keys (key ∷ value ∷ more)) (split_values (key ∷ value ∷ more))
        ≡ some (set_all rt kv (pairs_of (key ∷ value ∷ more)))
  unfolding split_keys split_values pairs_of
  mset-pairs_of more h =
      rw (split_keys-pairs_of more, split_values-pairs_of more)
        (mset-set_all rt kv key value (pairs_of more) (λ on.
          rw (← split_keys-pairs_of more)
            (cross_slot-InSlot rt (slot_for_key rt key) (split_keys more) (h on))))

  -- MSET of an even number of arguments, whose keys lie in one slot that the node serves if it is in
  -- cluster mode, is one SET after the other, and replies OK.
  pub handle_mset-set_all :
      (more : List Str)
      → length more % 2 ≡ 0
      → sv.cluster_enabled ≡ kv.cluster_enabled
      → (sv.cluster_enabled ≡ true
          → (cross_slot rt (slot_for_key rt key) (split_keys more) ≡ false)
            × (to_move_or_not_to_move rt sv key ≡ served))
      → handle_mset rt sv kv (key ∷ value ∷ more)
        ≡ reply (set_all rt kv (pairs_of (key ∷ value ∷ more))) ok
  unfolding handle_mset with_route
  handle_mset-set_all more even same h =
      let e = mset-pairs_of more (λ on. (h (same ∙ on)).0) in
      elim (Bool-cases sv.cluster_enabled) [
        | inl on ↦ let (one_slot, here) = h on in rw (e, here, one_slot, on) (ground arith)
        | inr off ↦ rw (e, off) (ground arith)
      ]
