-- ===== src/Clusters/Bus/Wire.antt =====
-- utils/clusters/message.go: what becomes of names on the wire, where 40 bytes hold each.
use emberdb.Prelude.{◌≤◌, ◌≡◌, refl, sym, ap, ◌∙◌, List, [], ◌∷◌, arith, Str, length, map}
use emberdb.Prelude.Reader.{
  trim_right, copy_into, length-copy_into, copy_into-trim_right, trim_right-copy_into,
}
use emberdb.Clusters.Message.{
  Gossip, ClusterMsg, name_size, put_gossip, put_gossips, put_fields, encode_cluster_msg,
  serialize_cluster_msg,
}
use emberdb.Clusters.Message.Gossips.{IsName}

-- The name that is read where `s` is sent: its first 40 bytes without zeros at the end.
abbrev pub name_read : Str → Str
name_read s = trim_right (copy_into name_size s)

length-trim_right : (s : Str) → length (trim_right s) ≤ length s
unfolding trim_right
length-trim_right [] = omega arith
length-trim_right (b ∷ s) = ground (arith, length-trim_right s)

copy_into-name_read : (s : Str) → copy_into name_size (name_read s) ≡ copy_into name_size s
copy_into-name_read s =
    rw (length-copy_into name_size s) at (copy_into-trim_right (copy_into name_size s))

pub name_read-IsName : (s : Str) → IsName (name_read s)
name_read-IsName s =
    let short : length (name_read s) ≤ name_size =
      omega (arith, length-trim_right (copy_into name_size s), length-copy_into name_size s) in
    (
      short,
      sym (trim_right-copy_into name_size (name_read s) short)
          ∙ ap trim_right (copy_into-name_read s),
    )

abbrev pub entry_read : Gossip → Gossip
entry_read g = record g { node_name = name_read g.node_name }

abbrev pub msg_read : ClusterMsg → ClusterMsg
msg_read m = record m { sender = name_read m.sender; gossip = map entry_read m.gossip }

put_gossips-entry_read : (gs : List Gossip) → put_gossips (map entry_read gs) ≡ put_gossips gs
unfolding put_gossips put_gossip
put_gossips-entry_read [] = refl
put_gossips-entry_read (g ∷ gs) =
    rw (copy_into-name_read g.node_name, put_gossips-entry_read gs) refl

-- The message with the names that are read has the same bytes.
encode-msg_read : (m : ClusterMsg) → encode_cluster_msg (msg_read m) ≡ encode_cluster_msg m
unfolding encode_cluster_msg put_fields
encode-msg_read m = rw (copy_into-name_read m.sender, put_gossips-entry_read m.gossip) refl

pub serialize-msg_read :
    (m : ClusterMsg) → serialize_cluster_msg (msg_read m) ≡ serialize_cluster_msg m
unfolding serialize_cluster_msg
serialize-msg_read m = rw (encode-msg_read m) refl
