-- ===== src/Server/Migrate/Kept.antt =====
-- cmd/ember-server/commands_cluster.go: MIGRATE moves no key.
use emberdb.Prelude.{◌≡◌, refl, inl, inr, List, [], ◌∷◌, arith, Str, ◌==◌, length, drop, Bool-cases}
use emberdb.Slot.{Runtime}
use emberdb.Store.{KvStore}
use emberdb.Server.Migrate.{Transfer, migrate_keys, handle_migrate}

no_keys : (args : List Str) → length args ≡ 6 → drop 6 args ≡ []
no_keys [] h = absurd (omega arith)
no_keys (a ∷ []) h = absurd (omega arith)
no_keys (a ∷ b ∷ []) h = absurd (omega arith)
no_keys (a ∷ b ∷ c ∷ []) h = absurd (omega arith)
no_keys (a ∷ b ∷ c ∷ d ∷ []) h = absurd (omega arith)
no_keys (a ∷ b ∷ c ∷ d ∷ e ∷ []) h = absurd (omega arith)
no_keys (a ∷ b ∷ c ∷ d ∷ e ∷ f ∷ []) h = refl
no_keys (a ∷ b ∷ c ∷ d ∷ e ∷ f ∷ g ∷ args) h = absurd (omega arith)

-- Whatever its arguments and whatever the other server answers, MIGRATE leaves the store as it is and
-- writes one reply: OK or an error.
pub handle_migrate-same :
    {F : Type 0} (rt : Runtime F) (restore_at : Str → Str → Str → Str → Transfer) (kv : KvStore F)
    (args : List Str)
    → ((handle_migrate rt restore_at kv args).1 ≡ kv)
      × (length (handle_migrate rt restore_at kv args).0 ≡ 1)
unfolding handle_migrate migrate_keys
handle_migrate-same rt restore_at kv args = elim (Bool-cases (length args == 6)) [
  | inr other ↦ (ground (arith, other), ground (arith, other))
  | inl six ↦
      let none_left = no_keys args (ground arith) in
      (ground (arith, six, none_left), ground (arith, six, none_left))
]
