-- ===== src/Server/Routing/Shapes.antt =====
-- The shape of what each handler of cmd/ember-server does with its arguments and their key.
use emberdb.Prelude.{
  ◌≡◌, refl, ◌⊎◌, inl, inr, Bool, true, false, ◌&&◌, Option, none, some, bytes, arith, map,
  Bool-cases, if◌then◌else◌, List, [], ◌∷◌, ◌%◌, Str, ◌==◌, length,
}
use emberdb.Prelude.Int.{ℤ}
use emberdb.Prelude.Decimal.{atoi}
use emberdb.Dict
use emberdb.Dict.{Dict}
use emberdb.Slot.{Runtime, slot_for_key}
use emberdb.Clusters.State.{ClusterState}
use emberdb.Lists.Ranges.{lrange-at_positions}
use emberdb.SortedSets.Commands.{zrange-at_positions}
use emberdb.Store.{KvStore}
use emberdb.Strings.{Outcome}
use emberdb.Server.{Reply, ok, failure, array, list_reply, Handled, reply, Server, with_route}
use emberdb.Server.Strings.{
  integer_replies, handle_set, handle_get, handle_append, handle_incr, handle_incr_by, handle_decr,
  handle_decr_by, handle_mget, cross_slot,
}
use emberdb.Server.Lists.{handle_push, handle_pop, handle_lrange, handle_llen, lrange_reply}
use emberdb.Server.Hashes.{
  handle_hset, handle_hget, handle_hmset, handle_hmget, handle_hgetall, handle_hdel, collect_fields,
  hmset_reply,
}
use emberdb.Server.Sets.{handle_set_members, handle_smembers, handle_sismember}
use emberdb.Server.SortedSets.{handle_zadd, handle_zrange, handle_zrem, zrange_reply}

collect_fields-some :
    (fields : Dict Str) (args : List Str)
    → length args % 2 ≡ 0
    → (fields' : Dict Str) × (collect_fields fields args ≡ some fields')
unfolding collect_fields
collect_fields-some fields [] h = (fields, refl)
collect_fields-some fields (f ∷ []) h = absurd (ground arith)
collect_fields-some fields (f ∷ v ∷ args) h =
    collect_fields-some (Dict.put fields f v) args (ground arith)

-- It does not panic, and writes one reply, or as an integer command an error and OK.
module _ {F : Type 0} where
  abbrev pub Finishes : Bool → Handled F → Type 0
  Finishes integer h =
      (kv' : KvStore F) × (((r : Reply) × (h ≡ reply kv' r))
        ⊎ ((integer ≡ true) × ((text : Str) × (h ≡ some (failure text ∷ ok ∷ [], kv')))))

module _ {F : Type 0} (rt : Runtime F) (sv : Server) (kv : KvStore F) (key : Str) where
  -- the server in another state of the cluster
  abbrev pub at : ClusterState → Server
  at s = record sv { state = s }

  -- A command is refused whatever the state of the cluster, or it is routed by the key, with a rest
  -- that does not depend on that state.
  abbrev pub Shape : Bool → (ClusterState → Handled F) → Type 0
  Shape integer h =
      ((text : Str) × ((s : ClusterState) → h s ≡ reply kv (failure text)))
      ⊎ ((rest : Handled F) × ((s : ClusterState) → h s ≡ with_route rt (at s) key kv rest)
          × Finishes integer rest)

  pub refused : (b : Bool) (text : Str) → Shape b (λ s. reply kv (failure text))
  refused b text = inl (text, λ s. refl)

  pub answered :
      (b : Bool) (kv' : KvStore F) (r : Reply)
      → Shape b (λ s. with_route rt (at s) key kv (reply kv' r))
  answered b kv' r = inr (reply kv' r, λ s. refl, (kv', inl (r, refl)))

  pub either :
      (b test : Bool) (h k : ClusterState → Handled F)
      → Shape b h
      → Shape b k
      → Shape b (λ s. if test then h s else k s)
  either b true h k p q = p
  either b false h k p q = q

  -- An argument that is no number is refused after the routing.
  listed :
      (o : Option (List Str)) (list : List Str) → o ≡ some list → Finishes false (list_reply kv o)
  unfolding list_reply
  listed o list e = rw e (kv, inl (array (map some list), refl))

  counted :
      (o : Outcome (KvStore F)) → Shape true (λ s. with_route rt (at s) key kv (integer_replies o))
  counted (none, kv') = inr (_, λ s. refl, (kv', inl (ok, refl)))
  counted (some e, kv') = inr (_, λ s. refl, (kv', inr (refl, (_, refl))))

  pub handle_set-Shape : (args : List Str) → Shape false (λ s. handle_set rt (at s) kv (key ∷ args))
  unfolding handle_set
  handle_set-Shape [] = refused false _
  handle_set-Shape (x ∷ []) = answered false _ _
  handle_set-Shape (x ∷ y ∷ args) = refused false _

  pub handle_get-Shape : (args : List Str) → Shape false (λ s. handle_get rt (at s) kv (key ∷ args))
  unfolding handle_get
  handle_get-Shape [] = answered false _ _
  handle_get-Shape (x ∷ args) = refused false _

  pub handle_append-Shape :
      (args : List Str) → Shape false (λ s. handle_append rt (at s) kv (key ∷ args))
  unfolding handle_append
  handle_append-Shape [] = refused false _
  handle_append-Shape (x ∷ []) = answered false _ _
  handle_append-Shape (x ∷ y ∷ args) = refused false _

  pub handle_incr-Shape :
      (args : List Str) → Shape true (λ s. handle_incr rt (at s) kv (key ∷ args))
  unfolding handle_incr
  handle_incr-Shape [] = counted _
  handle_incr-Shape (x ∷ args) = refused true _

  pub handle_incr_by-Shape :
      (args : List Str) → Shape true (λ s. handle_incr_by rt (at s) kv (key ∷ args))
  unfolding handle_incr_by
  handle_incr_by-Shape [] = refused true _
  handle_incr_by-Shape (x ∷ []) = counted _
  handle_incr_by-Shape (x ∷ y ∷ args) = refused true _

  pub handle_decr-Shape :
      (args : List Str) → Shape true (λ s. handle_decr rt (at s) kv (key ∷ args))
  unfolding handle_decr
  handle_decr-Shape [] = counted _
  handle_decr-Shape (x ∷ args) = refused true _

  pub handle_decr_by-Shape :
      (args : List Str) → Shape true (λ s. handle_decr_by rt (at s) kv (key ∷ args))
  unfolding handle_decr_by
  handle_decr_by-Shape [] = refused true _
  handle_decr_by-Shape (x ∷ []) = counted _
  handle_decr_by-Shape (x ∷ y ∷ args) = refused true _

  pub handle_mget-Shape :
      (args : List Str) → Shape false (λ s. handle_mget rt (at s) kv (key ∷ args))
  unfolding handle_mget
  handle_mget-Shape args =
      either false (sv.cluster_enabled && cross_slot rt (slot_for_key rt key) args) _ _
        (refused false _) (answered false _ _)

  pub handle_push-Shape :
      (cmd : Str) (args : List Str) → Shape false (λ s. handle_push rt (at s) cmd kv (key ∷ args))
  unfolding handle_push
  handle_push-Shape cmd [] = refused false _
  handle_push-Shape cmd (x ∷ args) = answered false _ _

  pub handle_pop-Shape :
      (cmd : Str) (args : List Str) → Shape false (λ s. handle_pop rt (at s) cmd kv (key ∷ args))
  unfolding handle_pop
  handle_pop-Shape cmd [] = answered false _ _
  handle_pop-Shape cmd (x ∷ args) = refused false _

  lrange_reply-Finishes : (o o' : Option ℤ) → Finishes false (lrange_reply rt sv kv key o o')
  unfolding lrange_reply
  lrange_reply-Finishes none o' = (kv, inl (_, refl))
  lrange_reply-Finishes (some start) none = (kv, inl (_, refl))
  lrange_reply-Finishes (some start) (some end) =
      listed _ _ (lrange-at_positions rt kv key start end)

  pub handle_lrange-Shape :
      (args : List Str) → Shape false (λ s. handle_lrange rt (at s) kv (key ∷ args))
  unfolding handle_lrange
  handle_lrange-Shape [] = refused false _
  handle_lrange-Shape (x ∷ []) = refused false _
  handle_lrange-Shape (x ∷ y ∷ []) = inr (_, λ s. refl, lrange_reply-Finishes (atoi x) (atoi y))
  handle_lrange-Shape (x ∷ y ∷ z ∷ args) = refused false _

  pub handle_llen-Shape :
      (args : List Str) → Shape false (λ s. handle_llen rt (at s) kv (key ∷ args))
  unfolding handle_llen
  handle_llen-Shape [] = answered false _ _
  handle_llen-Shape (x ∷ args) = refused false _

  pub handle_hset-Shape :
      (args : List Str) → Shape false (λ s. handle_hset rt (at s) kv (key ∷ args))
  unfolding handle_hset
  handle_hset-Shape [] = refused false _
  handle_hset-Shape (x ∷ []) = refused false _
  handle_hset-Shape (x ∷ y ∷ []) = answered false _ _
  handle_hset-Shape (x ∷ y ∷ z ∷ args) = refused false _

  pub handle_hget-Shape :
      (args : List Str) → Shape false (λ s. handle_hget rt (at s) kv (key ∷ args))
  unfolding handle_hget
  handle_hget-Shape [] = refused false _
  handle_hget-Shape (x ∷ []) = answered false _ _
  handle_hget-Shape (x ∷ y ∷ args) = refused false _

  pub handle_hmset-Shape :
      (args : List Str) → Shape false (λ s. handle_hmset rt (at s) kv (key ∷ args))
  unfolding handle_hmset
  handle_hmset-Shape [] = refused false _
  handle_hmset-Shape (x ∷ []) = refused false _
  handle_hmset-Shape (x ∷ y ∷ args) = elim (Bool-cases (length (key ∷ x ∷ y ∷ args) % 2 == 0)) [
    | inl odd ↦ inl (bytes "ERR HMSET requires field/value pairs", λ s. rw odd refl)
    | inr even ↦
        let (fields, e) = collect_fields-some Dict.empty (x ∷ y ∷ args) (ground arith) in
        inr (
          hmset_reply rt kv key (collect_fields Dict.empty (x ∷ y ∷ args)),
          λ s. rw even refl,
          rw e (unfold hmset_reply in (_, inl (ok, refl))),
        )
  ]

  pub handle_hmget-Shape :
      (args : List Str) → Shape false (λ s. handle_hmget rt (at s) kv (key ∷ args))
  unfolding handle_hmget
  handle_hmget-Shape [] = refused false _
  handle_hmget-Shape (x ∷ args) = answered false _ _

  pub handle_hgetall-Shape :
      (args : List Str) → Shape false (λ s. handle_hgetall rt (at s) kv (key ∷ args))
  unfolding handle_hgetall
  handle_hgetall-Shape [] = answered false _ _
  handle_hgetall-Shape (x ∷ args) = refused false _

  pub handle_hdel-Shape :
      (args : List Str) → Shape false (λ s. handle_hdel rt (at s) kv (key ∷ args))
  unfolding handle_hdel
  handle_hdel-Shape [] = refused false _
  handle_hdel-Shape (x ∷ args) = answered false _ _

  pub handle_set_members-Shape :
      (cmd : Str) (args : List Str)
      → Shape false (λ s. handle_set_members rt (at s) cmd kv (key ∷ args))
  unfolding handle_set_members
  handle_set_members-Shape cmd [] = refused false _
  handle_set_members-Shape cmd (x ∷ args) = answered false _ _

  pub handle_smembers-Shape :
      (args : List Str) → Shape false (λ s. handle_smembers rt (at s) kv (key ∷ args))
  unfolding handle_smembers
  handle_smembers-Shape [] = answered false _ _
  handle_smembers-Shape (x ∷ args) = refused false _

  pub handle_sismember-Shape :
      (args : List Str) → Shape false (λ s. handle_sismember rt (at s) kv (key ∷ args))
  unfolding handle_sismember
  handle_sismember-Shape [] = refused false _
  handle_sismember-Shape (x ∷ []) = answered false _ _
  handle_sismember-Shape (x ∷ y ∷ args) = refused false _

  pub handle_zadd-Shape :
      (args : List Str) → Shape false (λ s. handle_zadd rt (at s) kv (key ∷ args))
  unfolding handle_zadd
  handle_zadd-Shape [] = refused false _
  handle_zadd-Shape (x ∷ []) = refused false _
  handle_zadd-Shape (x ∷ y ∷ args) =
      either false (length (key ∷ x ∷ y ∷ args) % 2 == 0) _ _ (refused false _) (answered false _ _)

  zrange_reply-Finishes : (o o' : Option ℤ) → Finishes false (zrange_reply rt sv kv key o o')
  unfolding zrange_reply
  zrange_reply-Finishes none o' = (kv, inl (_, refl))
  zrange_reply-Finishes (some start) none = (kv, inl (_, refl))
  zrange_reply-Finishes (some start) (some end) =
      listed _ _ (zrange-at_positions rt kv key start end)

  pub handle_zrange-Shape :
      (args : List Str) → Shape false (λ s. handle_zrange rt (at s) kv (key ∷ args))
  unfolding handle_zrange
  handle_zrange-Shape [] = refused false _
  handle_zrange-Shape (x ∷ []) = refused false _
  handle_zrange-Shape (x ∷ y ∷ []) = inr (_, λ s. refl, zrange_reply-Finishes (atoi x) (atoi y))
  handle_zrange-Shape (x ∷ y ∷ z ∷ args) = refused false _

  pub handle_zrem-Shape :
      (args : List Str) → Shape false (λ s. handle_zrem rt (at s) kv (key ∷ args))
  unfolding handle_zrem
  handle_zrem-Shape [] = refused false _
  handle_zrem-Shape (x ∷ args) = answered false _ _
