-- ===== src/PubSub/Valid.antt =====
-- The invariant of the subscriptions of utils/pubsub/pubsub.go, and `Subscribe`.
use emberdb.Prelude.{
  ℕ, suc, ◌≡◌, refl, true, false, List, [], ◌∷◌, ◌++◌, arith, Str, str_eq, str_eq_iff, ◌==◌, ltb,
  if◌then◌else◌, if_both,
}
use emberdb.Dict
use emberdb.PubSub.{new_pub_sub, PubSub, subscribers, subscribe, has}
use emberdb.PubSub.Subscribers.{Distinct, has-append, append-Distinct}

-- Every subscriber of a channel is an open Go channel that was made before, it stands once in the
-- list of that channel, and in no list of another one.
pub record IsValid (ps : PubSub) : Type 0 where
  pub live :
      (c : Str) (i : ℕ)
      → has i (subscribers ps c) ≡ true
      → ((ps.heap i).is_open ≡ true) × (ltb i ps.next ≡ true)
  pub distinct : (c : Str) → Distinct (subscribers ps c)
  pub apart :
      (c d : Str) (i : ℕ)
      → has i (subscribers ps c) ≡ true
      → has i (subscribers ps d) ≡ true
      → str_eq c d ≡ true

-- Every list of subscribers is empty.
pub empty-IsValid : (ps : PubSub) → ((c : Str) → subscribers ps c ≡ []) → IsValid ps
unfolding has
empty-IsValid ps h =
    let none_in : (c : Str) (i : ℕ) → has i (subscribers ps c) ≡ false = λ c i. rw (h c) in
    record {
      live = λ c i k. absurd (ground (arith, none_in c i));
      distinct = λ c. rw (h c) tt;
      apart = λ c d i k l. absurd (ground (arith, none_in c i));
    }

pub new_pub_sub-IsValid : IsValid new_pub_sub
new_pub_sub-IsValid =
    empty-IsValid new_pub_sub
      (λ c. unfold new_pub_sub in unfold subscribers in rw (Dict.get-empty {V = List ℕ} c))

subscribers-subscribe :
    (ps : PubSub) (c d : Str)
    → subscribers (subscribe ps c).1 d
      ≡ (if str_eq c d then subscribers ps c ++ ps.next ∷ [] else subscribers ps d)
unfolding subscribers subscribe
subscribers-subscribe ps c d =
    ground (arith, Dict.get-put ps.subscriptions c d (subscribers ps c ++ ps.next ∷ []))

fresh : (ps : PubSub) (c : Str) → IsValid ps → has ps.next (subscribers ps c) ≡ false
fresh ps c v = ground (arith, v.live c ps.next)

heap-subscribe :
    (ps : PubSub) (c : Str) (i : ℕ)
    → ((subscribe ps c).1.heap i).is_open ≡ (if ps.next == i then true else (ps.heap i).is_open)
unfolding subscribe
heap-subscribe ps c i = ground arith

next-subscribe : (ps : PubSub) (c : Str) → (subscribe ps c).1.next ≡ suc ps.next
unfolding subscribe
next-subscribe ps c = refl

subscribe-IsValid : (ps : PubSub) (c : Str) → IsValid ps → IsValid (subscribe ps c).1
subscribe-IsValid ps c v = record {
  live = λ d i h. ground (
    arith,
    subscribers-subscribe ps c d,
    heap-subscribe ps c i,
    next-subscribe ps c,
    has-append i ps.next (subscribers ps c),
    v.live c i,
    v.live d i,
  );
  distinct = λ d. rw (subscribers-subscribe ps c d) (
      if_both Distinct (str_eq c d) _ _
        (λ _. append-Distinct ps.next (subscribers ps c) (fresh ps c v) (v.distinct c))
        (λ _. v.distinct d));
  apart = λ d e i h k. ground (
    arith,
    subscribers-subscribe ps c d,
    subscribers-subscribe ps c e,
    has-append i ps.next (subscribers ps c),
    v.apart d e i,
    v.apart c e i,
    v.apart d c i,
    v.live d i,
    v.live e i,
    str_eq_iff c d,
    str_eq_iff c e,
    str_eq_iff d e,
    str_eq_iff d c,
  );
}

-- Subscribe keeps the invariant. The Go channel it returns was no subscriber of any channel, and it
-- becomes the last subscriber of the given one; the other lists stay as they were.
pub subscribe_lem :
    (ps : PubSub) (c : Str)
    → IsValid ps
    → let (i, ps') = subscribe ps c in
      IsValid ps'
      × ((d : Str) → has i (subscribers ps d) ≡ false)
      × ((d : Str)
          → subscribers ps' d
            ≡ (if str_eq c d then subscribers ps c ++ i ∷ [] else subscribers ps d))
subscribe_lem ps c v =
    let new : (subscribe ps c).0 ≡ ps.next = unfold subscribe in refl in
    rw new (subscribe-IsValid ps c v, λ d. fresh ps d v, subscribers-subscribe ps c)
