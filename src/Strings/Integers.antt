-- ===== src/Strings/Integers.antt =====
-- INCR, DECR, INCRBY and DECRBY as SET of the changed integer.
-- Source: utils/kvstore/strings.go.
use emberdb.Prelude.{
  ◌≡◌, refl, sym, ◌∙◌, false, Option, none, some, arith, Str, if◌then◌else◌, str_eq_refl,
  Option-cases, Bool-cases, inl, inr,
}
use emberdb.Prelude.Int.{ℤ, pos, ◌+ℤ◌, wrap64, IsInt64, wrap64-IsInt64, wrap64-add}
use emberdb.Prelude.Decimal.{atoi, itoa, atoi-itoa}
use emberdb.Slot.{Runtime}
use emberdb.Store.{Error, KvStore, wrong_type, string_type, find-put_value, enabled-put_value}
use emberdb.Store.Views.{string_view, other_kind}
use emberdb.Strings.{
  incr_by, Delta, next, failed, Outcome, string_value, apply_delta, set, change_integer,
  not_integer,
}
use emberdb.Strings.Reads.{view-set}

module _ {F : Type 0} (rt : Runtime F) where
  -- the store after `applyDelta`, with its error
  abbrev pub applied : KvStore F → Str → Delta → Outcome (KvStore F)
  applied kv k (failed e) = (some e, kv)
  applied kv k (next s) = (none, set rt kv k s)

  -- A change by an integer is SET of what `applyDelta` makes of the string at the key. Where that
  -- fails, or the key holds another type, it is an error and the store is unchanged.
  pub change_integer-eq-set :
      (kv : KvStore F) (k : Str) (d : ℤ)
      → change_integer rt kv k d ≡ (
          if other_kind rt string_type kv k
          then (some wrong_type, kv)
          else applied kv k (apply_delta (string_view rt kv k) d))
  unfolding change_integer other_kind string_view set
  change_integer-eq-set kv k d = ground arith

  other_kind-set :
      (kv : KvStore F) (k v : Str) → other_kind rt string_type (set rt kv k v) k ≡ false
  unfolding other_kind set
  other_kind-set kv k v = ground (
    arith,
    enabled-put_value rt kv k (string_value v),
    find-put_value rt kv k k (string_value v),
    str_eq_refl k,
  )

-- the integer that the string at a key, or none, stands for
abbrev pub base : Option Str → Option ℤ
base none = some (pos 0)
base (some s) = atoi s

-- The integer that the string at a key stands for, where `applyDelta` accepts it.
number_of :
    (o : Option Str) (d : ℤ) (s : Str)
    → apply_delta o d ≡ next s
    → (n : ℤ) × ((e : ℤ) → apply_delta o e ≡ next (itoa (wrap64 (n +ℤ e))))
unfolding apply_delta
number_of none d s h = (pos 0, λ e. refl)
number_of (some t) d s h = elim (Option-cases (atoi t)) [
  | inl bad ↦ absurd (ground arith)
  | inr (n, good) ↦ (n, λ e. rw (good, apply_delta))
]

apply_delta-itoa :
    (n e : ℤ) → IsInt64 n → apply_delta (some (itoa n)) e ≡ next (itoa (wrap64 (n +ℤ e)))
unfolding apply_delta
apply_delta-itoa n e h = rw (atoi-itoa n h, apply_delta)

-- Two deltas in turn are one.
apply_delta-add :
    (o : Option Str) (d e : ℤ) (s : Str)
    → apply_delta o d ≡ next s
    → apply_delta (some s) e ≡ apply_delta o (d +ℤ e)
apply_delta-add o d e s h =
    let (n, value) = number_of o d s h in
    let same : s ≡ itoa (wrap64 (n +ℤ d)) = cc (value d) in
    rw (same, apply_delta-itoa (wrap64 (n +ℤ d)) e (wrap64-IsInt64 (n +ℤ d)), wrap64-add n d e)
      (sym (value (d +ℤ e)))

module _ {F : Type 0} (rt : Runtime F) where
  applied_failed :
      (kv : KvStore F) (k : Str) (r : Delta) (e : Error)
      → (applied rt kv k r).0 ≡ some e
      → applied rt kv k r ≡ (some e, kv)
  applied_failed kv k (failed e') e h = ground arith
  applied_failed kv k (next s) e h = absurd (ground arith)

  change_integer-failed :
      (kv : KvStore F) (k : Str) (d : ℤ) (e : Error)
      → (change_integer rt kv k d).0 ≡ some e
      → change_integer rt kv k d ≡ (some e, kv)
  change_integer-failed kv k d e h =
      let r = apply_delta (string_view rt kv k) d in
      ground (arith, change_integer-eq-set rt kv k d, applied_failed kv k r e)

  -- INCRBY that fails leaves the store as it is.
  pub incr_by-failed :
      (kv : KvStore F) (k n : Str) (e : Error)
      → (incr_by rt kv k n).0 ≡ some e
      → incr_by rt kv k n ≡ (some e, kv)
  unfolding incr_by
  incr_by-failed kv k n e h = elim (Option-cases (atoi n)) [
    | inl bad ↦ ground arith
    | inr (d, good) ↦ ground (arith, change_integer-failed kv k d e)
  ]

  applied_next :
      (kv kv' : KvStore F) (k : Str) (r : Delta)
      → applied rt kv k r ≡ (none, kv')
      → (s : Str) × (r ≡ next s) × (kv' ≡ set rt kv k s)
  applied_next kv kv' k (failed e) h = absurd (ground arith)
  applied_next kv kv' k (next s) h = (s, refl, ground arith)

  -- What a change that succeeds has found and done.
  changed :
      (kv kv' : KvStore F) (k : Str) (d : ℤ)
      → change_integer rt kv k d ≡ (none, kv')
      → (s : Str) × (apply_delta (string_view rt kv k) d ≡ next s)
        × (kv' ≡ set rt kv k s)
        × (other_kind rt string_type kv k ≡ false)
  changed kv kv' k d h = elim (Bool-cases (other_kind rt string_type kv k)) [
    | inl other ↦ absurd (ground (arith, change_integer-eq-set rt kv k d))
    | inr mine ↦
        let e : applied rt kv k (apply_delta (string_view rt kv k) d) ≡ (none, kv') =
          ground (arith, change_integer-eq-set rt kv k d) in
        let (s, found, done) = applied_next kv kv' k (apply_delta (string_view rt kv k) d) e in
        (s, found, done, mine)
  ]

  change_integer_next :
      (kv : KvStore F) (k : Str) (d : ℤ) (s : Str)
      → other_kind rt string_type kv k ≡ false
      → apply_delta (string_view rt kv k) d ≡ next s
      → change_integer rt kv k d ≡ (none, set rt kv k s)
  change_integer_next kv k d s mine found = rw (change_integer-eq-set rt kv k d, mine, found)

  view-set_self : (kv : KvStore F) (k v : Str) → string_view rt (set rt kv k v) k ≡ some v
  view-set_self kv k v = view-set rt kv k v k ∙ rw (str_eq_refl k)

  -- Where a change by `d` succeeds, a second change by `e` succeeds and leaves at the key what one
  -- change by `d + e` would have left, with the 64-bit wrap-around.
  pub change_integer-add :
      (kv kv' : KvStore F) (k : Str) (d e : ℤ)
      → change_integer rt kv k d ≡ (none, kv')
      → ((change_integer rt kv' k e).0 ≡ none)
        × (string_view rt (change_integer rt kv' k e).1 k
            ≡ string_view rt (change_integer rt kv k (d +ℤ e)).1 k)
  change_integer-add kv kv' k d e h =
      let (s, found, done, mine) = changed kv kv' k d h in
      let (n, value) = number_of (string_view rt kv k) d s found in
      let t = itoa (wrap64 (n +ℤ (d +ℤ e))) in
      let sum : apply_delta (some s) e ≡ next t =
        apply_delta-add (string_view rt kv k) d e s found ∙ value (d +ℤ e) in
      let seen : apply_delta (string_view rt (set rt kv k s) k) e ≡ next t =
        rw (view-set_self kv k s) sum in
      let second = change_integer_next (set rt kv k s) k e t (other_kind-set rt kv k s) seen in
      let once = change_integer_next kv k (d +ℤ e) t mine (value (d +ℤ e)) in
      rw (done, second, once) (refl, view-set_self (set rt kv k s) k t ∙ sym (view-set_self kv k t))

  -- the outcome of a change by `d` where the string at the key, or none, stands for `n`
  abbrev pub changed_by : KvStore F → Str → ℤ → Option ℤ → Outcome (KvStore F)
  changed_by kv k d none = (some not_integer, kv)
  changed_by kv k d (some n) = (none, set rt kv k (itoa (wrap64 (n +ℤ d))))
