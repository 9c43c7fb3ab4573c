-- ===== src/Clusters/Message/Gossips.antt =====
-- utils/clusters/message.go: names and gossip entries, written and read back.
use emberdb.Prelude.{
  ℕ, zero, suc, ◌*◌, ◌^◌, ◌≤◌, ◌<◌, ◌≡◌, refl, sym, ap, ◌∙◌, some, List, [], ◌∷◌, ◌++◌, arith, Str,
  All, length, length-append,
}
use emberdb.Prelude.Reader.{
  Reads, with_read, read_bytes, read_bytes-Reads, length-read_bytes, read_bytes-put, read_u16-Reads,
  read_u32-Reads, read_u16-put, read_u32-put, trim_right, trim_right-copy_into, copy_into,
  copy_into-trim_right, length-copy_into,
}
use emberdb.Clusters.Message.{
  Gossip, name_size, gossip_size, read_name, read_gossip, read_gossips, put_gossip, put_gossips,
}
use mathlib.Core.List.{append_assoc}
use emberdb.Prelude.BigEndian.{put_u16, put_u32}

-- A name that fits and does not end in a zero byte is what a reader finds.
abbrev pub IsName : Str → Type 0
IsName s = (length s ≤ name_size) × (trim_right s ≡ s)

pub read_name-put :
    (s rest : Str) → IsName s → read_name (copy_into name_size s ++ rest) ≡ some (s, rest)
unfolding read_name
read_name-put s rest h =
    let padded = copy_into name_size s in
    let e : read_bytes name_size (padded ++ rest) ≡ some (padded, rest) =
      rw (length-copy_into name_size s) at (read_bytes-put padded rest) in
    rw (e, trim_right-copy_into name_size s h.0, h.1) refl

pub read_name-Reads : Reads read_name (copy_into name_size) name_size
unfolding read_name
read_name-Reads buf bs h =
    let (s, rest, e, same, len, bs') = read_bytes-Reads name_size buf bs h in
    let size : length s ≡ name_size = length-read_bytes name_size buf s rest e in
    let back : copy_into name_size (trim_right s) ≡ s = rw size at (copy_into-trim_right s) in
    (trim_right s, rest, rw e refl, same ∙ ap (λ t. t ++ rest) (sym back), len, bs')

-- An entry as Go stores it: a name that fits, numbers of 16 and of 32 bits.
abbrev pub IsGossip : Gossip → Type 0
IsGossip g =
    IsName g.node_name
    × (g.ping_sent < 2 ^ 32)
    × (g.pong_received < 2 ^ 32)
    × (g.port < 2 ^ 16)
    × (g.cport < 2 ^ 16)
    × (g.flags < 2 ^ 16)

read_gossip-put :
    (g : Gossip) (rest : Str) → IsGossip g → read_gossip (put_gossip g ++ rest) ≡ some (g, rest)
unfolding read_gossip put_gossip
read_gossip-put g rest (name, sent, received, port, cport, flags) =
    let tail =
      put_u32 g.ping_sent
      ++ (put_u32 g.pong_received
          ++ (put_u16 g.port ++ (put_u16 g.cport ++ (put_u16 g.flags ++ rest)))) in
    rw (append_assoc (copy_into name_size g.node_name)) (
      rw
        (
          read_name-put g.node_name tail name,
          read_u32-put g.ping_sent _ sent,
          read_u32-put g.pong_received _ received,
          read_u16-put g.port _ port,
          read_u16-put g.cport _ cport,
          read_u16-put g.flags rest flags,
        )
        refl)

pub read_gossips-put :
    (gs : List Gossip) (rest : Str)
    → All IsGossip gs
    → read_gossips (length gs) (put_gossips gs ++ rest) ≡ some (gs, rest)
unfolding read_gossips put_gossips
read_gossips-put [] rest h = refl
read_gossips-put (g ∷ gs) rest h =
    rw
      (
        append_assoc (put_gossip g) (put_gossips gs) rest,
        read_gossip-put g (put_gossips gs ++ rest) h.0,
        read_gossips-put gs rest h.1,
      )
      refl

read_gossip-Reads : Reads read_gossip put_gossip gossip_size
unfolding read_gossip put_gossip
read_gossip-Reads buf bs h =
    with_read (copy_into name_size) read_name-Reads buf bs (omega arith) λ name b1 e1 s1 l1 k1.
      with_read put_u32 read_u32-Reads b1 k1 (omega arith) λ sent b2 e2 s2 l2 k2.
        with_read put_u32 read_u32-Reads b2 k2 (omega arith) λ received b3 e3 s3 l3 k3.
          with_read put_u16 read_u16-Reads b3 k3 (omega arith) λ port b4 e4 s4 l4 k4.
            with_read put_u16 read_u16-Reads b4 k4 (omega arith) λ cport b5 e5 s5 l5 k5.
              with_read put_u16 read_u16-Reads b5 k5 (omega arith) λ flags b6 e6 s6 l6 k6. (
                record {
                  node_name = name;
                  cport = cport;
                  port = port;
                  flags = flags;
                  ping_sent = sent;
                  pong_received = received;
                },
                b6,
                rw (e1, e2, e3, e4, e5, e6) refl,
                rw (append_assoc (copy_into name_size name))
                    (s1 ∙ ap (λ t. copy_into name_size name ++ t) (rw (s2, s3, s4, s5, s6) refl)),
                omega arith,
                k6,
              )

pub read_gossips-Reads : (n : ℕ) → Reads (read_gossips n) put_gossips (n * gossip_size)
unfolding read_gossips put_gossips
read_gossips-Reads zero buf bs h = ([], buf, refl, refl, omega arith, bs)
read_gossips-Reads (suc n) buf bs h =
    let (g, b1, e1, s1, l1, k1) = read_gossip-Reads buf bs (omega arith) in
    let (gs, b2, e2, s2, l2, k2) = read_gossips-Reads n b1 k1 (omega arith) in
    (
      g ∷ gs,
      b2,
      rw (e1, e2) refl,
      s1 ∙ ap (λ t. put_gossip g ++ t) s2 ∙ sym (append_assoc (put_gossip g) (put_gossips gs) b2),
      omega arith,
      k2,
    )

pub length-put_gossips : (gs : List Gossip) → length (put_gossips gs) ≡ length gs * gossip_size
unfolding put_gossips put_gossip
length-put_gossips [] = refl
length-put_gossips (g ∷ gs) = omega (
  arith,
  length-append (put_gossip g) (put_gossips gs),
  length-append (copy_into name_size g.node_name),
  length-copy_into name_size g.node_name,
  length-put_gossips gs,
)
