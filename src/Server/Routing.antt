-- ===== src/Server/Routing.antt =====
-- cmd/ember-server: where a command is carried out, and what it replies.
pub mod Shapes
pub mod Batch
use emberdb.Prelude.{
  ℕ, ◌≡◌, refl, ap, ◌∙◌, Option, none, ◌==◌, Bool-cases, ◌⊎◌, inl, inr, Bool, true, false, some,
  List, [], ◌∷◌, arith, Str, bytes, str_eq_refl,
}
use emberdb.Slot.{Runtime, slot_for_key}
use emberdb.Clusters.State.{ClusterState, owns, get_slot_owner}
use emberdb.Clusters.State.Owners.{Known, Lists, get_slot_owner-some, get_slot_owner-none}
use emberdb.Store.{KvStore, Error}
use emberdb.Strings.{set, get, incr_by}
use emberdb.Strings.Reads.{get-set}
use emberdb.Strings.Integers.{incr_by-failed}
use emberdb.Server.{
  Reply, ok, failure, moved, route_to, elsewhere, served, reply, Server, with_route,
  to_move_or_not_to_move,
}
use emberdb.Server.Strings.{handle_get, handle_set, handle_mset, handle_incr_by, get_reply}
use emberdb.Server.Dispatch.{
  Command, flushall, ping, echo, lpush, rpush, lpop, rpop, lrange, llen, hset, hget, hmset, hmget,
  hgetall, hdel, sadd, srem, smembers, sismember, zadd, zrange, zrem, append, incr, incrby, decr,
  decrby, mset, mget, del, getkeysinslot, restore_asking, run,
}
use emberdb.Server.Dispatch as Dispatch
use Shapes
use Shapes.{Shape, refused, at}
use Batch.{handle_mset-Shape}

-- The commands that look for the node that serves their first argument.
abbrev pub routes : Command → Bool
routes flushall = false
routes ping = false
routes echo = false
routes del = false
routes getkeysinslot = false
routes restore_asking = false
routes _ = true

-- The commands that change an integer.
abbrev pub counts : Command → Bool
counts incr = true
counts incrby = true
counts decr = true
counts decrby = true
counts _ = false

module _ {F : Type 0} (rt : Runtime F) (sv : Server) (kv : KvStore F) (key : Str) where
  mset-Shape :
      (args : List Str)
      → Shape rt sv kv key false (λ s. run rt (at rt sv kv key s) kv mset (key ∷ args))
  unfolding run handle_mset
  mset-Shape [] = refused rt sv kv key false _
  mset-Shape (value ∷ more) = handle_mset-Shape rt sv kv key value more

  run-Shape :
      (c : Command) (args : List Str)
      → routes c ≡ true
      → Shape rt sv kv key (counts c) (λ s. run rt (at rt sv kv key s) kv c (key ∷ args))
  unfolding run
  run-Shape flushall args h = absurd (ground arith)
  run-Shape ping args h = absurd (ground arith)
  run-Shape echo args h = absurd (ground arith)
  run-Shape del args h = absurd (ground arith)
  run-Shape getkeysinslot args h = absurd (ground arith)
  run-Shape restore_asking args h = absurd (ground arith)
  run-Shape lpush args h = Shapes.handle_push-Shape rt sv kv key (bytes "lpush") args
  run-Shape rpush args h = Shapes.handle_push-Shape rt sv kv key (bytes "rpush") args
  run-Shape lpop args h = Shapes.handle_pop-Shape rt sv kv key (bytes "lpop") args
  run-Shape rpop args h = Shapes.handle_pop-Shape rt sv kv key (bytes "rpop") args
  run-Shape sadd args h = Shapes.handle_set_members-Shape rt sv kv key (bytes "sadd") args
  run-Shape srem args h = Shapes.handle_set_members-Shape rt sv kv key (bytes "srem") args
  run-Shape lrange args h = Shapes.handle_lrange-Shape rt sv kv key args
  run-Shape llen args h = Shapes.handle_llen-Shape rt sv kv key args
  run-Shape hset args h = Shapes.handle_hset-Shape rt sv kv key args
  run-Shape hget args h = Shapes.handle_hget-Shape rt sv kv key args
  run-Shape hmset args h = Shapes.handle_hmset-Shape rt sv kv key args
  run-Shape hmget args h = Shapes.handle_hmget-Shape rt sv kv key args
  run-Shape hgetall args h = Shapes.handle_hgetall-Shape rt sv kv key args
  run-Shape hdel args h = Shapes.handle_hdel-Shape rt sv kv key args
  run-Shape smembers args h = Shapes.handle_smembers-Shape rt sv kv key args
  run-Shape sismember args h = Shapes.handle_sismember-Shape rt sv kv key args
  run-Shape zadd args h = Shapes.handle_zadd-Shape rt sv kv key args
  run-Shape zrange args h = Shapes.handle_zrange-Shape rt sv kv key args
  run-Shape zrem args h = Shapes.handle_zrem-Shape rt sv kv key args
  run-Shape Dispatch.set args h = Shapes.handle_set-Shape rt sv kv key args
  run-Shape Dispatch.get args h = Shapes.handle_get-Shape rt sv kv key args
  run-Shape append args h = Shapes.handle_append-Shape rt sv kv key args
  run-Shape incr args h = Shapes.handle_incr-Shape rt sv kv key args
  run-Shape incrby args h = Shapes.handle_incr_by-Shape rt sv kv key args
  run-Shape decr args h = Shapes.handle_decr-Shape rt sv kv key args
  run-Shape decrby args h = Shapes.handle_decr_by-Shape rt sv kv key args
  run-Shape mget args h = Shapes.handle_mget-Shape rt sv kv key args
  run-Shape mset args h = mset-Shape args

  abbrev slot : ℕ
  slot = slot_for_key rt key

  -- The redirection to a known node that has the slot, or the error that there is none among the
  -- nodes that were visited.
  abbrev pub Redirects : Reply → Type 0
  Redirects r =
      ((node : ℕ) × (owns sv.state slot node ≡ true)
        × Known sv.state node
        × (r ≡ moved slot (sv.state.heap node).host (sv.state.heap node).client_port))
      ⊎ ((r ≡ failure (bytes "CLUSTERDOWN Hash slot not served"))
          × ((node : ℕ) → Known sv.state node → owns sv.state slot node ≡ false))

  route-Redirects :
      (me : ℕ) (o : Option ℕ)
      → Lists sv.state (sv.visits 0)
      → sv.state.self ≡ some me
      → owns sv.state slot me ≡ false
      → get_slot_owner sv.state (sv.visits 0) slot ≡ o
      → (r : Reply) × (to_move_or_not_to_move rt sv key ≡ elsewhere r) × Redirects r
  unfolding to_move_or_not_to_move route_to
  route-Redirects me none all self lacks found = (
    _,
    rw found refl,
    inr (refl, λ node known. get_slot_owner-none sv.state (sv.visits 0) slot node all found known),
  )
  route-Redirects me (some node) all self lacks found =
      let (mine, known) = get_slot_owner-some sv.state (sv.visits 0) slot node found in
      let other : (me == node) ≡ false = elim (Bool-cases (me == node)) [
        | inr differs ↦ differs
        | inl e ↦
            let same : me ≡ node = ground arith in
            absurd (cc (ap (owns sv.state slot) same, mine, lacks))
      ] in
      (_, rw (found, self, other) refl, inl (node, mine, known, refl))

  -- A node in cluster mode that has not the slot of the key does not carry out a command that is
  -- routed by that key: the store stays as it is, and one reply is written. Either the command is
  -- refused, for a reason that does not depend on what the node knows of the cluster, or the reply is
  -- the redirection to a known node that has the slot, or the error that no known node has it, for
  -- any order in which GetSlotOwner visits the nodes, all of which it visits.
  pub run-elsewhere :
      (c : Command) (args : List Str) (me : ℕ)
      → routes c ≡ true
      → sv.cluster_enabled ≡ true
      → Lists sv.state (sv.visits 0)
      → sv.state.self ≡ some me
      → owns sv.state slot me ≡ false
      → (r : Reply) × (run rt sv kv c (key ∷ args) ≡ reply kv r)
        × (((text : Str) × (r ≡ failure text)
              × ((s : ClusterState)
                  → run rt (record sv { state = s }) kv c (key ∷ args) ≡ reply kv r))
            ⊎ Redirects r)
  unfolding with_route
  run-elsewhere c args me h on all self lacks = elim (run-Shape c args h) [
    | inl (text, e) ↦ (failure text, e sv.state, inl (text, refl, e))
    | inr (rest, e, f) ↦
        let (r, away, redirects) = route-Redirects me _ all self lacks refl in
        (r, e sv.state ∙ rw (away, on) refl, inr redirects)
  ]

  -- GET after a SET that the node carries out replies with the value that was set, except that the
  -- string "(nil)" is taken for a missing key.
  pub handle_get-handle_set :
      (value : Str)
      → to_move_or_not_to_move rt sv key ≡ served
      → (kv' : KvStore F) × (handle_set rt sv kv (key ∷ value ∷ []) ≡ reply kv' ok)
        × (handle_get rt sv kv' (key ∷ []) ≡ reply kv' (get_reply value))
  unfolding handle_get handle_set with_route
  handle_get-handle_set value here =
      let kv' = set rt kv key value in
      let e : get rt kv' key ≡ value = get-set rt kv key value key ∙ rw (str_eq_refl key) in
      (kv', rw here (ground arith), rw (here, e) (ground arith))

  -- A change of an integer that fails, at a key that the node serves, writes two replies to one
  -- command, an error and OK, and leaves the store as it is.
  pub handle_incr_by-failed :
      (n : Str) (e : Error)
      → to_move_or_not_to_move rt sv key ≡ served
      → (incr_by rt kv key n).0 ≡ some e
      → handle_incr_by rt sv kv (key ∷ n ∷ [])
        ≡ some (failure (bytes "ERR value is not an integer") ∷ ok ∷ [], kv)
  unfolding handle_incr_by with_route
  handle_incr_by-failed n e here h = rw (here, incr_by-failed rt kv key n e h) (ground arith)
