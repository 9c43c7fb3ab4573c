-- ===== src/Server/Connection/Sound.antt =====
-- cmd/ember-server/main.go: what holds of a server at any time.
use emberdb.Prelude.{
  ℕ, ◌≡◌, refl, sym, Option, none, some, List, [], ◌∷◌, arith, Str, bytes, str_eq, if_both,
  if◌then◌else◌, ◌==◌, inl, inr, Option-cases,
}
use emberdb.Prelude.Int.{ℤ}
use mathlib.Core.Path.{subst}
use emberdb.Slot.{Runtime}
use emberdb.PubSub.{PubSub, subscribe}
use emberdb.PubSub.Valid.{IsValid, new_pub_sub-IsValid, subscribe_lem}
use emberdb.PubSub.Publishing.{publish_lem}
use emberdb.Placement.{IsPlaced, new_kv_store-IsPlaced}
use emberdb.Placement.Run.{run-IsPlaced}
use emberdb.Clusters.Node.{ClusterNode}
use emberdb.Clusters.State.{ClusterState}
use emberdb.Server.Dispatch.{Command, command_of, run}
use emberdb.Server.Cluster.{ClusterHandled, handle_set_slot, handle_cluster}
use emberdb.Server.Migrate.{Transfer, handle_migrate}
use emberdb.Server.Migrate.Kept.{handle_migrate-same}
use emberdb.Server.Subscriptions.{
  Subscriptions, handle_publish, subscribe_loop, handle_subscribe, handle_unsubscribe,
}
use emberdb.Server.Subscriptions.Ended.{handle_unsubscribe_lem, end_connection_lem}
use emberdb.Server.Connection.{
  System, Served, server_of, with_store, with_cluster, with_channels, with_subscriptions,
  serve_other, serve_command, serve, close, without_connection, bytes_to_lower, Reaches, starts,
  serves, closes,
}

subscribe_loop-IsValid :
    (ps : PubSub) (subs : Subscriptions) (names : List Str)
    → IsValid ps
    → IsValid (subscribe_loop ps subs names).1
unfolding subscribe_loop
subscribe_loop-IsValid ps subs [] v = v
subscribe_loop-IsValid ps subs (c ∷ names) v =
    subscribe_loop-IsValid (subscribe ps c).1 _ names (subscribe_lem ps c v).0

handle_subscribe-IsValid :
    (ps : PubSub) (subs : Subscriptions) (args : List Str)
    → IsValid ps
    → IsValid (handle_subscribe ps subs args).1
unfolding handle_subscribe
handle_subscribe-IsValid ps subs [] v = v
handle_subscribe-IsValid ps subs (c ∷ names) v = subscribe_loop-IsValid ps subs (c ∷ names) v

module _ {F : Type 0} (rt : Runtime F) where
  -- Each key lies in the shard of its slot, and the subscriptions are right.
  abbrev pub IsSound : System F → Type 0
  IsSound sys = IsPlaced rt sys.kv × IsValid sys.ps

  abbrev Keeps : Served F → Type 0
  Keeps none = Unit
  Keeps (some (rs, sys)) = IsSound sys

  module _ (restore_at : Str → Str → Str → Str → Transfer)
      (marshal : List (Str × ClusterNode) → Option Str)
      (handshake : ClusterState → Str → ℤ → Option (Option Str × ClusterState)) where
    module _ (sys : System F) (h : IsSound sys) (visits : ℕ → List Str) where
      with_cluster-Keeps : (o : ClusterHandled) → Keeps (with_cluster sys o)
      unfolding with_cluster
      with_cluster-Keeps none = tt
      with_cluster-Keeps (some (rs, s)) = h

      publish-Keeps : (args : List Str) → Keeps (with_channels sys (handle_publish sys.ps args))
      unfolding with_channels handle_publish
      publish-Keeps [] = h
      publish-Keeps (a ∷ []) = h
      publish-Keeps (c ∷ m ∷ []) =
          let (n, ps', e, v, _) = publish_lem sys.ps c m h.1 in rw e (h.0, v)
      publish-Keeps (a ∷ b ∷ c ∷ args) = h

      unsubscribe-Keeps :
          (i : ℕ) (subs : Subscriptions) (args : List Str)
          → Keeps (with_subscriptions sys i (handle_unsubscribe sys.ps subs args))
      unfolding with_subscriptions
      unsubscribe-Keeps i subs args =
          let (ps', subs', e, (v, _), _) = handle_unsubscribe_lem sys.ps subs args h.1 in
          rw e (h.0, v)

      subscribe-Keeps :
          (i : ℕ) (args : List Str)
          → Keeps
              (with_subscriptions sys i (some (handle_subscribe sys.ps (sys.connections i) args)))
      unfolding with_subscriptions
      subscribe-Keeps i args = (h.0, handle_subscribe-IsValid sys.ps (sys.connections i) args h.1)

      migrate-Keeps :
          (args : List Str)
          → Keeps (with_store sys (some (handle_migrate rt restore_at sys.kv args)))
      unfolding with_store
      migrate-Keeps args =
          let same = (handle_migrate-same rt restore_at sys.kv args).0 in
          (subst (λ kv. IsPlaced rt kv) (sym same) h.0, h.1)

      run-Keeps :
          (c : Command) (args : List Str)
          → Keeps (with_store sys (run rt (server_of sys visits) sys.kv c args))
      unfolding with_store
      run-Keeps c args = elim (Option-cases (run rt (server_of sys visits) sys.kv c args)) [
        | inl e ↦ rw e tt
        | inr ((rs, kv), e) ↦
            rw e (run-IsPlaced rt (server_of sys visits) sys.kv kv c args rs refl h.0 e, h.1)
      ]

      serve_other-Keeps :
          (i : ℕ) (cmd : Str) (args : List Str)
          → Keeps (serve_other rt restore_at marshal handshake sys visits i cmd args)
      unfolding serve_other
      serve_other-Keeps i cmd args =
          if_both Keeps (str_eq cmd (bytes "publish")) _ _ (λ _. publish-Keeps args)
            λ _.
              if_both Keeps (str_eq cmd (bytes "subscribe")) _ _ (λ _. subscribe-Keeps i args)
                λ _.
                  if_both Keeps (str_eq cmd (bytes "unsubscribe")) _ _
                    (λ _. unsubscribe-Keeps i (sys.connections i) args)
                    λ _.
                      if_both Keeps (str_eq cmd (bytes "setslot")) _ _
                        (λ _. with_cluster-Keeps (handle_set_slot sys.state args))
                        λ _.
                          if_both Keeps (str_eq cmd (bytes "migrate")) _ _ (λ _. migrate-Keeps args)
                            λ _.
                              if_both Keeps (str_eq cmd (bytes "cluster")) _ _
                                (λ _.
                                  with_cluster-Keeps
                                    (handle_cluster marshal handshake (server_of sys visits) args))
                                (λ _. h)

      serve_command-Keeps :
          (i : ℕ) (cmd : Str) (args : List Str) (o : Option Command)
          → Keeps (serve_command rt restore_at marshal handshake sys visits i cmd args o)
      unfolding serve_command
      serve_command-Keeps i cmd args (some c) = run-Keeps c args
      serve_command-Keeps i cmd args none = serve_other-Keeps i cmd args

      serve-Keeps :
          (i : ℕ) (request : List Str)
          → Keeps (serve rt restore_at marshal handshake sys visits i request)
      unfolding serve
      serve-Keeps i [] = tt
      serve-Keeps i (word ∷ args) =
          let cmd = bytes_to_lower word in serve_command-Keeps i cmd args (command_of cmd)

      -- The end of a connection does not panic.
      close-IsSound : (i : ℕ) → (sys' : System F) × (close sys i ≡ some sys') × IsSound sys'
      unfolding close without_connection
      close-IsSound i =
          let (ps', e, (v, _)) = end_connection_lem sys.ps (sys.connections i) h.1 in
          (
            record sys {
              ps = ps';
              connections = λ j. if j == i then emberdb.Dict.empty else sys.connections j;
            },
            rw e refl,
            (h.0, v),
          )

    -- Whatever requests the connections send, in whatever order these are served and connections end,
    -- for as long as no command panics: every key of a shard hashes to the slot of the shard, and the
    -- invariant of the subscriptions holds.
    pub Reaches-IsSound :
        (sys : System F) → Reaches rt restore_at marshal handshake sys → IsSound sys
    Reaches-IsSound _ (starts enabled s) = (new_kv_store-IsPlaced rt enabled, new_pub_sub-IsValid)
    Reaches-IsSound _ (serves {sys} {sys'} visits i request rs r e) =
        subst Keeps e (serve-Keeps sys (Reaches-IsSound sys r) visits i request)
    Reaches-IsSound _ (closes {sys} {sys'} i r e) =
        let (sys'', e', sound) = close-IsSound sys (Reaches-IsSound sys r) (λ k. []) i in
        let same : sys'' ≡ sys' = ground (arith, e, e') in subst IsSound same sound
