-- ===== src/Clusters/Cron/Pinged.antt =====
-- utils/clusters/cluster.go: what a tick of `ClusterCron` sends.
use emberdb.Prelude.{
  ℕ, zero, suc, ◌%◌, ◌<◌, ◌≡◌, refl, sym, ap, ◌∙◌, Bool, true, false, Option, none, some, List, [],
  ◌∷◌, ◌++◌, arith, Str, ◌==◌, if◌then◌else◌, length, drop, is_some, Option-cases, Bool-cases, inl,
  inr,
}
use emberdb.Clusters.State.{ClusterState}
use emberdb.Clusters.Message.{ClusterMsg, message, deserialize_cluster_msg}
use emberdb.Clusters.Bus.{Link, ping, note_ping, all_nodes}
use emberdb.Clusters.Bus.Wire.{name_read}
use emberdb.Clusters.Bus.Sending.{CanSend, cluster_send_ping_lem}
use emberdb.Clusters.Cron.{Links, can_ping, choose_node, ping_node, cluster_cron}

-- the first element that a test accepts
abbrev pub first_in : (ℕ → Bool) → List ℕ → Option ℕ
first_in test [] = none
first_in test (p ∷ ps) = let rest = first_in test ps in if test p then some p else rest

-- The node that a tick pings: on each tenth one the first that can be pinged, from the drawn one on.
abbrev pub pinged : ClusterState → Links → ℕ → ℕ → Option ℕ
pinged s links draw iterations =
    if iterations % 10 == 0
    then first_in (can_ping s links) (drop (draw % length (all_nodes s)) (all_nodes s))
    else none

-- The link of the node, if there is one, has one message more, a PING of the node `self`, and every
-- other link is as it was.
abbrev pub Pings : ClusterState → ℕ → Links → Links → Option ℕ → Type 0
Pings s self links links' none = (q : ℕ) → links' q ≡ links q
Pings s self links links' (some p) =
    (link : Link) × (buf : Str) × (m : ClusterMsg) × (links p ≡ some link)
    × ((q : ℕ)
        → links' q
          ≡ (if q == p then some (record link { sent = link.sent ++ (buf ∷ []) }) else links q))
    × (deserialize_cluster_msg buf ≡ some (message m))
    × (m.type ≡ ping)
    × (m.sender ≡ name_read (s.heap self).name)

choose_node_lem :
    (s : ClusterState) (links : Links) (n : ℕ) (ps : List ℕ)
    → choose_node s links n ps ≡ first_in (can_ping s links) (drop n ps)
unfolding choose_node
choose_node_lem s links zero [] = refl
choose_node_lem s links (suc n) [] = refl
choose_node_lem s links (suc n) (p ∷ ps) = choose_node_lem s links n ps
choose_node_lem s links zero (p ∷ ps) =
    let rest = choose_node_lem s links zero ps in ground (arith, rest)

first_in-test : (test : ℕ → Bool) (ps : List ℕ) (p : ℕ) → first_in test ps ≡ some p → test p ≡ true
first_in-test test [] p h = absurd (ground arith)
first_in-test test (x ∷ ps) p h = elim (Bool-cases (test x)) [
  | inl good ↦ let same : x ≡ p = ground (arith, good, h) in ap test (sym same) ∙ good
  | inr bad ↦ first_in-test test ps p (rw bad at h)
]

module _ (s : ClusterState) (self : ℕ) (can : CanSend s self) (links : Links)
    (outbound : (p : ℕ) (link : Link) → links p ≡ some link → link.inbound ≡ false) (draws : ℕ → ℕ)
    (now : ℕ) where
  ping_node-Pings :
      (o : Option ℕ)
      → ((p : ℕ) → o ≡ some p → is_some (links p) ≡ true)
      → (links' : Links) × (ping_node s links draws now o ≡ some (s, links'))
        × Pings s self links links' o
  unfolding ping_node
  ping_node-Pings none h = (links, refl, λ q. refl)
  ping_node-Pings (some p) h = elim (Option-cases (links p)) [
    | inl e ↦ absurd (let t = h p refl in ground (arith, e, t))
    | inr (link, e) ↦
        let out = outbound p link e in
        let noted : note_ping s link ping now ≡ some s = unfold note_ping in ground (arith, out) in
        let (buf, m, sent, read, type, sender, _, _, _, _, _, _) =
          cluster_send_ping_lem s s self link draws ping now can noted in
        (
          λ q. if q == p then some (record link { sent = link.sent ++ (buf ∷ []) }) else links q,
          ground (arith, e, sent),
          (link, buf, m, e, λ q. refl, read, type, sender),
        )
  ]

  -- For a node that knows itself, whose bitmap is of 64-bit words and whose state is a 16-bit one, at
  -- least one node and fewer than 2^20 in the map, with any names, and outbound links that are
  -- outbound, a tick leaves the state and ends without a panic. Each tenth tick sends a PING of this node on the link
  -- of the first node, from the drawn one on, that is another one, has a link, no PING under way and
  -- no flag of a handshake; where there is none, and on every other tick, nothing is sent.
  pub cluster_cron_lem :
      (draw iterations : ℕ)
      → 0 < length (all_nodes s)
      → (links' : Links) × (cluster_cron s links draw draws now iterations ≡ some (s, links'))
        × Pings s self links links' (pinged s links draw iterations)
  unfolding cluster_cron
  cluster_cron_lem draw iterations some_node = elim (Bool-cases (iterations % 10 == 0)) [
    | inr other ↦ (links, ground (arith, other), rw other (λ q. refl))
    | inl tenth ↦
        let nodes = all_nodes s in
        let n = draw % length nodes in
        let chosen = choose_node_lem s links n nodes in
        let (links', run, sent) =
          ping_node-Pings (first_in (can_ping s links) (drop n nodes)) λ p e.
            let t = first_in-test (can_ping s links) (drop n nodes) p e in ground (arith, t) in
        let filled : (length nodes == 0) ≡ false = ground arith in
        (links', rw (tenth, filled, chosen) run, rw tenth sent)
  ]
