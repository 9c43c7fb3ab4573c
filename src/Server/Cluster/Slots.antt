-- ===== src/Server/Cluster/Slots.antt =====
-- cmd/ember-server/commands_cluster.go: the ranges that CLUSTER SLOTS replies.
use emberdb.Prelude.{
  ℕ, zero, suc, ◌+◌, ◌-◌, ◌*◌, Str, ◌<◌, ◌≤◌, ◌≡◌, ◌≢◌, refl, sym, ap, ◌∙◌, inl, inr, true, false,
  ◌&&◌, Option, none, some, List, [], ◌∷◌, arith, ltb, leb, ◌==◌, if◌then◌else◌, Bool-cases,
  Option-cases,
}
use emberdb.Slot.{slot_count}
use emberdb.Clusters.State.{ClusterState, get_slot_owner}
use emberdb.Clusters.State.Owners.{Lists, IsSingle, get_slot_owner-order}
use emberdb.Server.Cluster.{Range, is_owner, range_end, cluster_ranges}

-- the node of the first range that has the slot
abbrev pub owner_in : List Range → ℕ → Option ℕ
owner_in [] t = none
owner_in (r ∷ rs) t =
    let rest = owner_in rs t in if leb r.first t && leb t r.last then some r.node else rest

-- A range that follows at once has another node.
abbrev pub Apart : Range → List Range → Type 0
Apart r [] = Unit
Apart r (q ∷ rs) = q.first ≡ r.last + 1 → q.node ≢ r.node

-- The ranges ascend from the slot `low` on without touching, unless the node changes.
abbrev pub Ascending : ℕ → List Range → Type 0
Ascending low [] = Unit
Ascending low (r ∷ rs) =
    (low ≤ r.first)
    × (r.first ≤ r.last)
    × (r.last < slot_count)
    × Apart r rs
    × Ascending (r.last + 1) rs

is_owner-some : (o : Option ℕ) (owner : ℕ) → is_owner owner o ≡ true → o ≡ some owner
is_owner-some none owner h = cc
is_owner-some (some p) owner h = ground arith

Ascending-low : (low low' : ℕ) (rs : List Range) → low ≤ low' → Ascending low' rs → Ascending low rs
Ascending-low low low' [] h a = tt
Ascending-low low low' (r ∷ rs) h (a, b, c, d, e) = (omega arith, b, c, d, e)

owner_in-below : (low t : ℕ) (rs : List Range) → t < low → Ascending low rs → owner_in rs t ≡ none
owner_in-below low t [] h a = refl
owner_in-below low t (r ∷ rs) h (below, fits, _, _, rest) =
    let none_after = owner_in-below (r.last + 1) t rs (omega arith) rest in ground arith

module _ (s : ClusterState) (visits : ℕ → List Str) (order : List Str)
    (all : (k : ℕ) → Lists s (visits k)) (all_named : Lists s order)
    (single : (t : ℕ) → t < slot_count → IsSingle s t) where
  -- the owner that a routed command finds
  abbrev own : ℕ → Option ℕ
  own t = get_slot_owner s order t

  same : (k t : ℕ) → t < slot_count → get_slot_owner s (visits k) t ≡ own t
  same k t small = get_slot_owner-order s (visits k) order t (single t small) (all k) all_named

  range_end_lem :
      (owner left end : ℕ)
      → end + left < slot_count
      → (end ≤ range_end s visits owner left end)
        × (range_end s visits owner left end ≤ end + left)
        × ((t : ℕ) → end < t → t ≤ range_end s visits owner left end → own t ≡ some owner)
        × (range_end s visits owner left end < end + left
            → is_owner owner (own (range_end s visits owner left end + 1)) ≡ false)
  unfolding range_end
  range_end_lem owner zero end small =
      (omega arith, omega arith, λ t h k. absurd (omega arith), λ h. absurd (omega arith))
  range_end_lem owner (suc left) end small =
      let here = same (2 * (end + 1) + 1) (end + 1) (omega arith) in
      elim (Bool-cases (is_owner owner (own (end + 1)))) [
        | inr stop ↦
            rw (here, stop) (omega arith, omega arith, λ t h k. absurd (omega arith), λ h. stop)
        | inl matches ↦
            let (low, high, inside, outside) = range_end_lem owner left (end + 1) (omega arith) in
            rw (here, matches)
              (
                omega arith,
                omega arith,
                λ t h k. elim (Bool-cases (t == end + 1)) [
                  | inl e ↦
                      let at_end : t ≡ end + 1 = ground arith in
                      ap own at_end ∙ is_owner-some _ owner matches
                  | inr other ↦ inside t (ground arith) k
                ],
                λ h. outside (omega arith),
              )
      ]

  -- The ranges of the slots from `start` on.
  abbrev Right : ℕ → List Range → Type 0
  Right start rs =
      Ascending start rs × ((t : ℕ) → start ≤ t → t < slot_count → owner_in rs t ≡ own t)

  ranges-Apart :
      (owner start end : ℕ) (rs : List Range)
      → Right (end + 1) rs
      → (end + 1 < slot_count → is_owner owner (own (end + 1)) ≡ false)
      → Apart (record { first = start; last = end; node = owner }) rs
  ranges-Apart owner start end [] h other = tt
  ranges-Apart owner start end (q ∷ rs) h other = λ first same.
      let (low, fits, inside, _, _) = h.0 in
      let here = h.1 (end + 1) (omega arith) (omega arith) in
      ground (arith, other (omega arith), here)

  abbrev last_of : ℕ → ℕ → ℕ
  last_of start owner = range_end s visits owner (slot_count - 1 - start) start

  module _ (fuel start : ℕ) where
    cluster_ranges-past :
        ltb start slot_count ≡ false → cluster_ranges s visits (suc fuel) start ≡ []
    unfolding cluster_ranges
    cluster_ranges-past past = ground (arith, past)

    cluster_ranges-free :
        ltb start slot_count ≡ true
        → own start ≡ none
        → cluster_ranges s visits (suc fuel) start ≡ cluster_ranges s visits fuel (start + 1)
    unfolding cluster_ranges
    cluster_ranges-free more free =
        let here = same (2 * start) start (ground arith) in ground (arith, more, free, here)

    cluster_ranges-owned :
        (owner : ℕ)
        → ltb start slot_count ≡ true
        → own start ≡ some owner
        → cluster_ranges s visits (suc fuel) start
          ≡ record { first = start; last = last_of start owner; node = owner }
            ∷ cluster_ranges s visits fuel (last_of start owner + 1)
    unfolding cluster_ranges
    cluster_ranges-owned owner more owned =
        let here = same (2 * start) start (ground arith) in ground (arith, more, owned, here)

  Right-free :
      (start : ℕ) (rs : List Range) → own start ≡ none → Right (start + 1) rs → Right start rs
  Right-free start rs free h = (
    Ascending-low start (start + 1) rs (omega arith) h.0,
    λ t low high. elim (Bool-cases (t == start)) [
      | inl e ↦
          let here : t ≡ start = ground arith in
          rw here (owner_in-below (start + 1) start rs (omega arith) h.0 ∙ sym free)
      | inr other ↦ h.1 t (ground arith) high
    ],
  )

  Right-owned :
      (start owner : ℕ) (rs : List Range)
      → start < slot_count
      → own start ≡ some owner
      → Right (last_of start owner + 1) rs
      → Right start (record { first = start; last = last_of start owner; node = owner } ∷ rs)
  Right-owned start owner rs small owned h =
      let (low, high, inside, outside) =
        range_end_lem owner (slot_count - 1 - start) start (ground arith) in
      (
        (
          omega arith,
          low,
          omega arith,
          ranges-Apart owner start _ rs h (λ k. outside (omega arith)),
          h.0,
        ),
        λ t k l. elim (Bool-cases (leb t (last_of start owner))) [
          | inr after ↦ ground (arith, after, h.1 t (ground arith) l)
          | inl within ↦ elim (Bool-cases (t == start)) [
            | inl e ↦
                let here : t ≡ start = ground arith in
                let mine : own t ≡ some owner = ap own here ∙ owned in ground (arith, within, mine)
            | inr other ↦ ground (arith, within, inside t (ground arith) (ground arith))
          ]
        ],
      )

  cluster_ranges-Right :
      (fuel start : ℕ)
      → slot_count ≤ fuel + start
      → Right start (cluster_ranges s visits fuel start)
  cluster_ranges-Right zero start h = unfold cluster_ranges in (tt, λ t k l. absurd (omega arith))
  cluster_ranges-Right (suc fuel) start h = elim (Bool-cases (ltb start slot_count)) [
    | inr past ↦ rw (cluster_ranges-past fuel start past) (tt, λ t k l. absurd (ground arith))
    | inl more ↦ elim (Option-cases (own start)) [
      | inl free ↦
          rw (cluster_ranges-free fuel start more free)
            (Right-free start _ free (cluster_ranges-Right fuel (start + 1) (omega arith)))
      | inr (owner, owned) ↦
          let (low, _, _, _) = range_end_lem owner (slot_count - 1 - start) start (ground arith) in
          rw (cluster_ranges-owned fuel start owner more owned) (
            Right-owned start owner _ (ground arith) owned
              (cluster_ranges-Right fuel (last_of start owner + 1) (omega arith)))
    ]
  ]

  -- Where no two known nodes claim one slot, the ranges of CLUSTER SLOTS tell for every slot the owner
  -- that a command on one of its keys is routed to, and no node for a slot without an owner, in
  -- whatever orders the lookups of the one and the other visit the nodes. They ascend and do not
  -- overlap, and two that touch have different nodes.
  pub cluster_ranges_lem :
      Ascending 0 (cluster_ranges s visits slot_count 0)
      × ((t : ℕ)
          → t < slot_count
          → owner_in (cluster_ranges s visits slot_count 0) t ≡ get_slot_owner s order t)
  cluster_ranges_lem =
      let r = cluster_ranges-Right slot_count 0 (omega arith) in (r.0, λ t h. r.1 t (omega arith) h)
