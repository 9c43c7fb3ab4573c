-- ===== src/Server/Keys/Restores.antt =====
-- RESTORE-ASKING.
-- Source: cmd/ember-server/commands_cluster.go.
use emberdb.Prelude.{bytes, arith, ◌≡◌, refl, ◌⊎◌, inl, inr, none, List, [], ◌∷◌, Str}
use emberdb.Slot.{Runtime}
use emberdb.Store.{KvStore}
use emberdb.Server.{failure, reply}
use emberdb.Server.Keys.{handle_restore_asking}

-- RESTORE-ASKING never restores a key: it refuses its arguments, or it panics, since the three
-- arguments that it accepts have no fourth one to read the dump from.
pub handle_restore_asking-fails :
    {F : Type 0} (rt : Runtime F) (kv : KvStore F) (args : List Str)
    → (handle_restore_asking rt kv args ≡ none)
      ⊎ ((text : Str) × (handle_restore_asking rt kv args ≡ reply kv (failure text)))
unfolding handle_restore_asking
handle_restore_asking-fails rt kv [] = inr (_, refl)
handle_restore_asking-fails rt kv (a ∷ []) = inr (_, refl)
handle_restore_asking-fails rt kv (a ∷ b ∷ []) = inr (_, refl)
handle_restore_asking-fails rt kv (a ∷ b ∷ c ∷ []) = inl refl
handle_restore_asking-fails rt kv (a ∷ b ∷ c ∷ d ∷ args) =
    inr (bytes "Wrong number of arguments for 'RESTORE-ASKING' command", ground arith)
