-- ===== src/Slot/Tag.antt =====
-- Which part of a key decides its slot.
-- Source: utils/kvstore/kvstore.go.
use emberdb.Prelude.{
  ℕ, suc, ◌+◌, ◌%◌, ◌<◌, ◌≡◌, ◌≢◌, ◌⊎◌, inl, inr, refl, none, some, [], ◌∷◌, ◌++◌, arith, Str, All,
  drop, length, take-length-append,
}
use emberdb.Slot.{Runtime, slot_count, index_byte, hash_part, slot_for_key}

abbrev pub Lacks : ℕ → Str → Type 0
Lacks b s = All (λ c. c ≢ b) s

index_byte-append : (b : ℕ) (s t : Str) → Lacks b s → index_byte (s ++ b ∷ t) b ≡ some (length s)
unfolding index_byte
index_byte-append b [] t h = ground arith
index_byte-append b (c ∷ s) t h = ground (arith, index_byte-append b s t h.1)

index_byte-none : (b : ℕ) (s : Str) → Lacks b s → index_byte s b ≡ none
unfolding index_byte
index_byte-none b [] h = refl
index_byte-none b (c ∷ s) h = ground (arith, index_byte-none b s h.1)

drop_past : (s : Str) (b : ℕ) (t : Str) → drop (length s + 1) (s ++ b ∷ t) ≡ t
drop_past [] b t = refl
drop_past (c ∷ s) b t =
    let e : suc (length s) + 1 ≡ suc (length s + 1) = omega arith in rw e (drop_past s b t)

hash_part-tagged :
    (before tag rest : Str)
    → Lacks b'{' before
    → Lacks b'}' tag
    → 0 < length tag
    → hash_part (before ++ b'{' ∷ (tag ++ b'}' ∷ rest)) ≡ tag
unfolding hash_part
hash_part-tagged before tag rest p t h =
    rw
      (
        index_byte-append b'{' before (tag ++ b'}' ∷ rest) p,
        drop_past,
        index_byte-append b'}' tag rest t,
      )
      (ground (arith, take-length-append tag (b'}' ∷ rest)))

-- A key whose braces, if any, hold no tag.
abbrev pub Untagged : Str → Type 0
Untagged key =
    Lacks b'{' key
    ⊎ ((before after : Str) × (key ≡ before ++ b'{' ∷ after)
        × Lacks b'{' before
        × (Lacks b'}' after ⊎ ((rest : Str) × (after ≡ b'}' ∷ rest))))

empty_tag : (rest : Str) → index_byte (b'}' ∷ rest) b'}' ≡ some 0
unfolding index_byte
empty_tag rest = refl

hash_part-Untagged : (key : Str) → Untagged key → hash_part key ≡ key
unfolding hash_part
hash_part-Untagged key (inl none_open) = rw (index_byte-none b'{' key none_open)
hash_part-Untagged key (inr (before, after, e, p, inl open_only)) =
    rw e
      (rw (index_byte-append b'{' before after p, drop_past, index_byte-none b'}' after open_only))
hash_part-Untagged key (inr (before, after, e, p, inr (rest, e'))) =
    rw (e, e') (rw (index_byte-append b'{' before (b'}' ∷ rest) p, drop_past, empty_tag rest))

module _ {F : Type 0} (rt : Runtime F) where
  -- A slot number is always a valid index of the slot array.
  pub slot_for_key-lt : (key : Str) → slot_for_key rt key < slot_count
  unfolding slot_for_key
  slot_for_key-lt key = omega arith

  -- A key of the form `before{tag}rest`, where the first `{` opens a nonempty tag that the next
  -- `}` closes, lies in the slot of its tag; so keys with one tag share a slot.
  pub slot_tagged :
      (before tag rest : Str)
      → Lacks b'{' before
      → Lacks b'}' tag
      → 0 < length tag
      → slot_for_key rt (before ++ b'{' ∷ (tag ++ b'}' ∷ rest)) ≡ rt.checksum tag % slot_count
  unfolding slot_for_key
  slot_tagged before tag rest p t h = rw (hash_part-tagged before tag rest p t h)

  -- A key with no `{`, with no `}` behind its first `{`, or with the two side by side, is hashed
  -- whole.
  pub slot-Untagged :
      (key : Str) → Untagged key → slot_for_key rt key ≡ rt.checksum key % slot_count
  unfolding slot_for_key
  slot-Untagged key u = rw (hash_part-Untagged key u)
