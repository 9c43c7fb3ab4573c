-- ===== src/Store/Cells.antt =====
-- One interface for the five tables of the store, and what it is to update the value at one key.
-- Source: utils/kvstore/kvstore.go.
pub mod Tables
use emberdb.Prelude.{
  ◌≡◌, refl, Bool, true, false, Option, none, some, arith, Str, str_eq, str_eq_refl, if◌then◌else◌,
  if_both, ◌⊎◌, inr, unless_true,
}
use emberdb.Dict
use emberdb.Dict.{Dict}
use emberdb.Slot.{Runtime}
use emberdb.Store.{
  Value, KvStore, find, put_value, delete_value, find-put_value, find-delete_value,
  enabled-put_value, enabled-delete_value,
}
use emberdb.Store.Views.{Agrees, put_value-Agrees, delete_value-Agrees}

-- The values of one type: where they lie in cluster mode and in standalone mode.
pub record Cell {F : Type 0} (rt : Runtime F) (A : Type 0) : Type 0 where
  pub view : KvStore F → Str → Option A
  pub inside : Option (Value F) → Option A
  pub table : KvStore F → Dict A
  pub with_table : KvStore F → Dict A → KvStore F
  pub inside_none : inside none ≡ none
  pub view_on :
      (kv : KvStore F) (k : Str) → kv.cluster_enabled ≡ true → view kv k ≡ inside (find rt kv k)
  pub view_off :
      (kv : KvStore F) (k : Str) → kv.cluster_enabled ≡ false → view kv k ≡ Dict.get (table kv) k
  pub table_with : (kv : KvStore F) (m : Dict A) → table (with_table kv m) ≡ m
  pub enabled_with :
      (kv : KvStore F) (m : Dict A) → (with_table kv m).cluster_enabled ≡ kv.cluster_enabled
  pub agrees_with :
      (kv : KvStore F) (m : Dict A) (j : Str)
      → kv.cluster_enabled ≡ false
      → Dict.get m j ≡ Dict.get (table kv) j
      → Agrees rt (with_table kv m) kv j

module _ {F : Type 0} (rt : Runtime F) where
  pub Agrees-refl : (kv : KvStore F) (j : Str) → Agrees rt kv kv j
  Agrees-refl kv j = record {
    strings = refl;
    lists = refl;
    hashes = refl;
    sets = refl;
    zsets = refl;
  }

-- `b` is `a` with the value of the cell at `k` made `o`: at every other key a client reads what it
-- read before, and the mode is the same.
pub record Updates {F A : Type 0} {rt : Runtime F} (c : Cell rt A) (a b : KvStore F) (k : Str)
    (o : Option A) : Type 0 where
  pub at : c.view b k ≡ o
  pub others : (j : Str) → (str_eq k j ≡ true) ⊎ Agrees rt b a j
  pub mode : b.cluster_enabled ≡ a.cluster_enabled

module _ {F A : Type 0} {rt : Runtime F} (c : Cell rt A) (kv : KvStore F) (k : Str) where
  pub Updates-keep : (o : Option A) → c.view kv k ≡ o → Updates c kv kv k o
  Updates-keep o e = record { at = e; others = λ j. inr (Agrees-refl rt kv j); mode = refl }

  -- `s.m[key] = v`
  pub Updates-put_value :
      (v : Value F) (o : Option A)
      → kv.cluster_enabled ≡ true
      → c.inside (some v) ≡ o
      → Updates c kv (put_value rt kv k v) k o
  Updates-put_value v o on e = record {
    at = ground (
      arith,
      c.view_on (put_value rt kv k v) k,
      enabled-put_value rt kv k v,
      find-put_value rt kv k k v,
      str_eq_refl k,
    );
    others = λ j. unless_true (str_eq k j) (λ ne. put_value-Agrees rt kv k j v on ne);
    mode = enabled-put_value rt kv k v;
  }

  -- `delete(s.m, key)`
  pub Updates-delete_value : kv.cluster_enabled ≡ true → Updates c kv (delete_value rt kv k) k none
  Updates-delete_value on = record {
    at = ground (
      arith,
      c.view_on (delete_value rt kv k) k,
      enabled-delete_value rt kv k,
      find-delete_value rt kv k k,
      str_eq_refl k,
      c.inside_none,
    );
    others = λ j. unless_true (str_eq k j) (λ ne. delete_value-Agrees rt kv k j on ne);
    mode = enabled-delete_value rt kv k;
  }

  -- `kv.Table[key] = a`
  pub Updates-put :
      (a : A)
      → kv.cluster_enabled ≡ false
      → Updates c kv (c.with_table kv (Dict.put (c.table kv) k a)) k (some a)
  Updates-put a off =
      let m = Dict.put (c.table kv) k a in
      record {
        at = ground (
          arith,
          c.view_off (c.with_table kv m) k,
          c.enabled_with kv m,
          c.table_with kv m,
          Dict.get-put (c.table kv) k k a,
          str_eq_refl k,
        );
        others = λ j.
            unless_true (str_eq k j)
              (λ ne. c.agrees_with kv m j off (ground (arith, Dict.get-put (c.table kv) k j a)));
        mode = c.enabled_with kv m;
      }

  -- `delete(kv.Table, key)`
  pub Updates-remove :
      kv.cluster_enabled ≡ false
      → Updates c kv (c.with_table kv (Dict.remove (c.table kv) k)) k none
  Updates-remove off =
      let m = Dict.remove (c.table kv) k in
      record {
        at = ground (
          arith,
          c.view_off (c.with_table kv m) k,
          c.enabled_with kv m,
          c.table_with kv m,
          Dict.get-remove (c.table kv) k k,
          str_eq_refl k,
        );
        others = λ j.
            unless_true (str_eq k j)
              (λ ne. c.agrees_with kv m j off (ground (arith, Dict.get-remove (c.table kv) k j)));
        mode = c.enabled_with kv m;
      }

module _ {F A : Type 0} {rt : Runtime F} (c : Cell rt A) (kv : KvStore F) (k : Str) where
  -- The two writes: in cluster mode of the tagged value `v`, in standalone mode of `a`.
  unfoldable pub write : Value F → A → KvStore F
  write v a =
      if kv.cluster_enabled
      then put_value rt kv k v
      else c.with_table kv (Dict.put (c.table kv) k a)

  unfoldable pub erase : KvStore F
  erase =
      if kv.cluster_enabled
      then delete_value rt kv k
      else c.with_table kv (Dict.remove (c.table kv) k)

  pub Updates-write :
      (v : Value F) (a : A)
      → (kv.cluster_enabled ≡ true → c.inside (some v) ≡ some a)
      → Updates c kv (write v a) k (some a)
  unfolding write
  Updates-write v a h =
      if_both (λ t. Updates c kv t k (some a)) kv.cluster_enabled _ _
        (λ on. Updates-put_value c kv k v (some a) on (h on)) (λ off. Updates-put c kv k a off)

  pub Updates-erase : Updates c kv erase k none
  unfolding erase
  Updates-erase =
      if_both (λ t. Updates c kv t k none) kv.cluster_enabled _ _
        (λ on. Updates-delete_value c kv k on) (λ off. Updates-remove c kv k off)

  -- An update that is made unless the test `b` forbids it.
  pub Updates-unless :
      (b : Bool) (kv' : KvStore F) (o : Option A)
      → (b ≡ false → Updates c kv kv' k o)
      → Updates c kv (if b then kv else kv') k (if b then c.view kv k else o)
  Updates-unless true kv' o u = Updates-keep c kv k (c.view kv k) refl
  Updates-unless false kv' o u = u refl

  -- The value is erased if it has become empty, and otherwise written.
  pub Updates-emptied :
      (b : Bool) (v : Value F) (a : A)
      → (kv.cluster_enabled ≡ true → c.inside (some v) ≡ some a)
      → Updates c kv (if b then erase else write v a) k (if b then none else some a)
  Updates-emptied true v a h = Updates-erase
  Updates-emptied false v a h = Updates-write v a h
