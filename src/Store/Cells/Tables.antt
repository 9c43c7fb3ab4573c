-- ===== src/Store/Cells/Tables.antt =====
-- The five tables of kvstore.go as cells.
-- Source: utils/kvstore/kvstore.go.
use emberdb.Prelude.{◌≡◌, refl, true, false, List, arith, Str}
use emberdb.Dict
use emberdb.Dict.{Dict}
use emberdb.Slot.{Runtime}
use emberdb.Store.{SortedSetMember, KvStore, find}
use emberdb.Store.Views.{
  string_in, list_in, hash_in, set_in, zset_in, string_view, list_view, hash_view, set_view,
  zset_view, Agrees,
}
use emberdb.Store.Cells.{Cell}

module _ {F : Type 0} (rt : Runtime F) where
  pub Agrees-strings :
      (kv : KvStore F) (m : Dict Str) (j : Str)
      → kv.cluster_enabled ≡ false
      → Dict.get m j ≡ Dict.get kv.strings j
      → Agrees rt (record kv { strings = m }) kv j
  unfolding string_view list_view hash_view set_view zset_view
  Agrees-strings kv m j off e = record {
    strings = ground arith;
    lists = ground arith;
    hashes = ground arith;
    sets = ground arith;
    zsets = ground arith;
  }

  pub Agrees-lists :
      (kv : KvStore F) (m : Dict (List Str)) (j : Str)
      → kv.cluster_enabled ≡ false
      → Dict.get m j ≡ Dict.get kv.lists j
      → Agrees rt (record kv { lists = m }) kv j
  unfolding string_view list_view hash_view set_view zset_view
  Agrees-lists kv m j off e = record {
    strings = ground arith;
    lists = ground arith;
    hashes = ground arith;
    sets = ground arith;
    zsets = ground arith;
  }

  pub Agrees-hashes :
      (kv : KvStore F) (m : Dict (Dict Str)) (j : Str)
      → kv.cluster_enabled ≡ false
      → Dict.get m j ≡ Dict.get kv.hashes j
      → Agrees rt (record kv { hashes = m }) kv j
  unfolding string_view list_view hash_view set_view zset_view
  Agrees-hashes kv m j off e = record {
    strings = ground arith;
    lists = ground arith;
    hashes = ground arith;
    sets = ground arith;
    zsets = ground arith;
  }

  pub Agrees-sets :
      (kv : KvStore F) (m : Dict (Dict (Unit {0}))) (j : Str)
      → kv.cluster_enabled ≡ false
      → Dict.get m j ≡ Dict.get kv.sets j
      → Agrees rt (record kv { sets = m }) kv j
  unfolding string_view list_view hash_view set_view zset_view
  Agrees-sets kv m j off e = record {
    strings = ground arith;
    lists = ground arith;
    hashes = ground arith;
    sets = ground arith;
    zsets = ground arith;
  }

  pub Agrees-sorted_sets :
      (kv : KvStore F) (m : Dict (List (SortedSetMember F))) (j : Str)
      → kv.cluster_enabled ≡ false
      → Dict.get m j ≡ Dict.get kv.sorted_sets j
      → Agrees rt (record kv { sorted_sets = m }) kv j
  unfolding string_view list_view hash_view set_view zset_view
  Agrees-sorted_sets kv m j off e = record {
    strings = ground arith;
    lists = ground arith;
    hashes = ground arith;
    sets = ground arith;
    zsets = ground arith;
  }

  pub on_string :
      (kv : KvStore F) (k : Str)
      → kv.cluster_enabled ≡ true
      → string_view rt kv k ≡ string_in (find rt kv k)
  unfolding string_view
  on_string kv k on = ground arith

  pub off_string :
      (kv : KvStore F) (k : Str)
      → kv.cluster_enabled ≡ false
      → string_view rt kv k ≡ Dict.get kv.strings k
  unfolding string_view
  off_string kv k off = ground arith

  abbrev pub string_cell : Cell rt Str
  string_cell = record {
    view = string_view rt;
    inside = string_in;
    table = λ kv. kv.strings;
    with_table = λ kv m. record kv { strings = m };
    inside_none = refl;
    view_on = on_string;
    view_off = off_string;
    table_with = λ kv m. refl;
    enabled_with = λ kv m. refl;
    agrees_with = Agrees-strings;
  }

  pub on_list :
      (kv : KvStore F) (k : Str)
      → kv.cluster_enabled ≡ true
      → list_view rt kv k ≡ list_in (find rt kv k)
  unfolding list_view
  on_list kv k on = ground arith

  pub off_list :
      (kv : KvStore F) (k : Str)
      → kv.cluster_enabled ≡ false
      → list_view rt kv k ≡ Dict.get kv.lists k
  unfolding list_view
  off_list kv k off = ground arith

  abbrev pub list_cell : Cell rt (List Str)
  list_cell = record {
    view = list_view rt;
    inside = list_in;
    table = λ kv. kv.lists;
    with_table = λ kv m. record kv { lists = m };
    inside_none = refl;
    view_on = on_list;
    view_off = off_list;
    table_with = λ kv m. refl;
    enabled_with = λ kv m. refl;
    agrees_with = Agrees-lists;
  }

  pub on_hash :
      (kv : KvStore F) (k : Str)
      → kv.cluster_enabled ≡ true
      → hash_view rt kv k ≡ hash_in (find rt kv k)
  unfolding hash_view
  on_hash kv k on = ground arith

  pub off_hash :
      (kv : KvStore F) (k : Str)
      → kv.cluster_enabled ≡ false
      → hash_view rt kv k ≡ Dict.get kv.hashes k
  unfolding hash_view
  off_hash kv k off = ground arith

  abbrev pub hash_cell : Cell rt (Dict Str)
  hash_cell = record {
    view = hash_view rt;
    inside = hash_in;
    table = λ kv. kv.hashes;
    with_table = λ kv m. record kv { hashes = m };
    inside_none = refl;
    view_on = on_hash;
    view_off = off_hash;
    table_with = λ kv m. refl;
    enabled_with = λ kv m. refl;
    agrees_with = Agrees-hashes;
  }

  pub on_set :
      (kv : KvStore F) (k : Str)
      → kv.cluster_enabled ≡ true
      → set_view rt kv k ≡ set_in (find rt kv k)
  unfolding set_view
  on_set kv k on = ground arith

  pub off_set :
      (kv : KvStore F) (k : Str)
      → kv.cluster_enabled ≡ false
      → set_view rt kv k ≡ Dict.get kv.sets k
  unfolding set_view
  off_set kv k off = ground arith

  abbrev pub set_cell : Cell rt (Dict (Unit {0}))
  set_cell = record {
    view = set_view rt;
    inside = set_in;
    table = λ kv. kv.sets;
    with_table = λ kv m. record kv { sets = m };
    inside_none = refl;
    view_on = on_set;
    view_off = off_set;
    table_with = λ kv m. refl;
    enabled_with = λ kv m. refl;
    agrees_with = Agrees-sets;
  }

  pub on_zset :
      (kv : KvStore F) (k : Str)
      → kv.cluster_enabled ≡ true
      → zset_view rt kv k ≡ zset_in (find rt kv k)
  unfolding zset_view
  on_zset kv k on = ground arith

  pub off_zset :
      (kv : KvStore F) (k : Str)
      → kv.cluster_enabled ≡ false
      → zset_view rt kv k ≡ Dict.get kv.sorted_sets k
  unfolding zset_view
  off_zset kv k off = ground arith

  abbrev pub zset_cell : Cell rt (List (SortedSetMember F))
  zset_cell = record {
    view = zset_view rt;
    inside = zset_in;
    table = λ kv. kv.sorted_sets;
    with_table = λ kv m. record kv { sorted_sets = m };
    inside_none = refl;
    view_on = on_zset;
    view_off = off_zset;
    table_with = λ kv m. refl;
    enabled_with = λ kv m. refl;
    agrees_with = Agrees-sorted_sets;
  }
