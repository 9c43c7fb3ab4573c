-- ===== src/Clusters/Bus/Selecting.antt =====
-- utils/clusters/cluster.go: the nodes that a message tells of.
use emberdb.Prelude.{
  ℕ, zero, suc, ◌+◌, ◌-◌, ◌%◌, ◌≤◌, ◌<◌, ◌≡◌, refl, sym, ap, ◌∙◌, inl, inr, false, ◌&&◌, ◌||◌,
  Option, some, List, [], ◌∷◌, ◌++◌, map, arith, Str, All, length, length-append, contains, NoDup,
  str_eq, str_eq_iff, ltb, if_both, Bool-cases,
}
use emberdb.Clusters.State.{ClusterState}
use emberdb.Clusters.Message.{Gossip, ClusterMsg}
use emberdb.Clusters.Gossip.{gossip_of, cluster_set_gossip_entry}
use emberdb.Clusters.Bus.{
  Selection, all_nodes, count_down, get_random_node, same_pointer, select_node, select_nodes,
}

-- The names that the entries tell of.
abbrev pub names : List Gossip → List Str
names gs = map (λ (g : Gossip). g.node_name) gs

contains-append :
    (xs : List Str) (y k : Str) → contains (xs ++ (y ∷ [])) k ≡ (contains xs k || str_eq y k)
unfolding contains
contains-append [] y k = ground arith
contains-append (x ∷ xs) y k = ground (arith, contains-append xs y k)

NoDup-append : (xs : List Str) (y : Str) → NoDup xs → contains xs y ≡ false → NoDup (xs ++ (y ∷ []))
unfolding contains
NoDup-append [] y h e = (refl, tt)
NoDup-append (x ∷ xs) y h e =
    ground (arith, NoDup-append xs y h.1, contains-append xs y x, str_eq_iff x y, str_eq_iff y x)

names-append :
    (gs : List Gossip) (g : Gossip) → names (gs ++ (g ∷ [])) ≡ names gs ++ (g.node_name ∷ [])
names-append [] g = refl
names-append (x ∷ gs) g = ap (λ t. x.node_name ∷ t) (names-append gs g)

All-append_one {ℓ} :
    {A : Type ℓ} (P : A → Type 0) (xs : List A) (y : A) → All P xs → P y → All P (xs ++ (y ∷ []))
All-append_one P [] y h p = (p, tt)
All-append_one P (x ∷ xs) y h p = (h.0, All-append_one P xs y h.1 p)

count_down-lt : (ps : List ℕ) (n : ℕ) → n < length ps → (p : ℕ) × (count_down ps n ≡ some p)
unfolding count_down
count_down-lt [] n h = absurd (omega arith)
count_down-lt (p ∷ ps) zero h = (p, refl)
count_down-lt (p ∷ ps) (suc n) h = count_down-lt ps n (omega arith)

-- A map that is not empty has a random node.
get_random_node-some :
    (ps : List ℕ) (draw : ℕ) → 0 < length ps → (p : ℕ) × (get_random_node ps draw ≡ some p)
unfolding get_random_node
get_random_node-some ps draw h = count_down-lt ps (draw % length ps) (omega arith)

module _ (s : ClusterState) (link_node : Option ℕ) where
  -- The entry tells of a node that is neither this one nor that of the link.
  abbrev pub IsOther : Gossip → Type 0
  IsOther g =
      (p : ℕ) × (g ≡ gossip_of (s.heap p))
      × (same_pointer s.self p ≡ false)
      × (same_pointer link_node p ≡ false)

  -- At most `wanted` entries, of other nodes and with different names, in the header `hdr`.
  pub record IsSelection (hdr : ClusterMsg) (wanted : ℕ) (sel : Selection) : Type 0 where
    pub same_header : sel.hdr ≡ record hdr { gossip = sel.hdr.gossip }
    pub counted : length sel.hdr.gossip ≡ sel.count
    pub bounded : sel.count ≤ wanted
    pub left_over : sel.fresh ≤ length (all_nodes s) - 1
    pub others : All IsOther sel.hdr.gossip
    pub seen : (k : Str) → contains sel.selected k ≡ contains (names sel.hdr.gossip) k
    pub distinct : NoDup (names sel.hdr.gossip)

  module _ (draws : ℕ → ℕ) (hdr : ClusterMsg) (wanted : ℕ) where
    select_node-IsSelection :
        (sel : Selection) (p : ℕ)
        → IsSelection hdr wanted sel
        → sel.count < wanted
        → IsSelection hdr wanted (select_node s draws link_node sel p)
    unfolding select_node cluster_set_gossip_entry gossip_of contains
    select_node-IsSelection sel p h room =
        let g = gossip_of (s.heap p) in
        if_both (IsSelection hdr wanted) (same_pointer s.self p || same_pointer link_node p) sel _
          (λ _. h)
          λ other.
            if_both (IsSelection hdr wanted) (contains sel.selected (s.heap p).name) sel _ (λ _. h)
              λ new. record {
                same_header =
                    ap (λ (m : ClusterMsg). record m { gossip = sel.hdr.gossip ++ (g ∷ []) })
                      h.same_header;
                counted = omega (arith, length-append sel.hdr.gossip (g ∷ []), h.counted);
                bounded = omega arith;
                left_over = omega (arith, h.left_over);
                others =
                    All-append_one IsOther sel.hdr.gossip g h.others
                      (p, refl, ground arith, ground arith);
                seen = λ k.
                    rw
                      (
                        names-append sel.hdr.gossip g,
                        contains-append (names sel.hdr.gossip) g.node_name k,
                      )
                      (ground (arith, h.seen k));
                distinct = rw (names-append sel.hdr.gossip g) (
                    NoDup-append (names sel.hdr.gossip) g.node_name h.distinct
                      (sym (h.seen g.node_name) ∙ new));
              }

    -- The loop ends with a selection: no random node is nil where the map is not empty.
    pub select_nodes-IsSelection :
        (left k : ℕ) (sel : Selection)
        → IsSelection hdr wanted sel
        → (sel' : Selection) × (select_nodes s draws link_node wanted left k sel ≡ some sel')
          × IsSelection hdr wanted sel'
    unfolding select_nodes
    select_nodes-IsSelection zero k sel h = (sel, refl, h)
    select_nodes-IsSelection (suc left) k sel h =
        elim (Bool-cases (ltb 0 sel.fresh && ltb sel.count wanted)) [
          | inr done ↦ (sel, ground (arith, done), h)
          | inl more ↦
              let room = h.left_over in
              let (p, e) = get_random_node-some (all_nodes s) (draws k) (ground arith) in
              let (sel', e', h') =
                select_nodes-IsSelection left (k + 1) (select_node s draws link_node sel p)
                  (select_node-IsSelection sel p h (ground arith)) in
              (sel', ground (arith, more, e, e'), h')
        ]
