-- ===== src/PubSub/Publishing.antt =====
-- `Publish` of utils/pubsub/pubsub.go.
use emberdb.Prelude.{
  ℕ, suc, ◌≡◌, refl, ◌∙◌, true, false, ◌&&◌, some, List, [], ◌∷◌, arith, Str, ◌==◌, if◌then◌else◌,
  Bool-cases, inl, inr,
}
use emberdb.PubSub.{PubSub, subscribers, has, put_channel, publish, publish_loop, ready, deliver}
use emberdb.PubSub.Subscribers.{Distinct}
use emberdb.PubSub.Valid.{IsValid}

open-deliver :
    (ps : PubSub) (m : Str) (i j : ℕ) → ((deliver ps i m).heap j).is_open ≡ (ps.heap j).is_open
unfolding deliver put_channel
open-deliver ps m i j = ground arith

buffer-deliver :
    (ps : PubSub) (m : Str) (i j : ℕ)
    → ((deliver ps i m).heap j).buffer ≡ (if i == j then m ∷ [] else (ps.heap j).buffer)
unfolding deliver put_channel
buffer-deliver ps m i j = ground arith

lists-deliver :
    (ps : PubSub) (m : Str) (i : ℕ) (c : Str) → subscribers (deliver ps i m) c ≡ subscribers ps c
unfolding deliver put_channel subscribers
lists-deliver ps m i c = refl

next-deliver : (ps : PubSub) (m : Str) (i : ℕ) → (deliver ps i m).next ≡ ps.next
unfolding deliver put_channel
next-deliver ps m i = refl

-- the number of the subscribers that have room
pub ready_count : PubSub → List ℕ → ℕ
ready_count ps [] = 0
ready_count ps (i ∷ is) = let rest = ready_count ps is in if ready ps i then suc rest else rest

ready_count-deliver :
    (ps : PubSub) (m : Str) (i : ℕ) (is : List ℕ)
    → has i is ≡ false
    → ready_count (deliver ps i m) is ≡ ready_count ps is
unfolding ready_count has
ready_count-deliver ps m i [] h = refl
ready_count-deliver ps m i (j ∷ is) h =
    ground (arith, ready_count-deliver ps m i is, buffer-deliver ps m i j)

-- what the loop of `Publish` over the subscribers `is` has done, when it has counted `n`
pub record Sent (ps ps' : PubSub) (m : Str) (is : List ℕ) (n : ℕ) : Type 0 where
  pub same_lists : (d : Str) → subscribers ps' d ≡ subscribers ps d
  pub same_next : ps'.next ≡ ps.next
  pub same_open : (j : ℕ) → (ps'.heap j).is_open ≡ (ps.heap j).is_open
  pub buffers :
      (j : ℕ)
      → (ps'.heap j).buffer ≡ (if has j is && ready ps j then m ∷ [] else (ps.heap j).buffer)
  pub count : n ≡ ready_count ps is

publish_loop_lem :
    (ps : PubSub) (m : Str) (is : List ℕ)
    → Distinct is
    → ((i : ℕ) → has i is ≡ true → (ps.heap i).is_open ≡ true)
    → (n : ℕ) × (ps' : PubSub) × (publish_loop ps m is ≡ some (n, ps')) × Sent ps ps' m is n
unfolding publish_loop has ready_count
publish_loop_lem ps m [] d live = (
  0,
  ps,
  refl,
  record {
    same_lists = λ d. refl;
    same_next = refl;
    same_open = λ j. refl;
    buffers = λ j. refl;
    count = refl;
  },
)
publish_loop_lem ps m (i ∷ is) d live =
    let here = live i (ground arith) in
    elim (Bool-cases (ready ps i)) [
      | inl room ↦
          let ps1 = deliver ps i m in
          let (n, ps', e, s) =
            publish_loop_lem ps1 m is d.1 (λ j h. open-deliver ps m i j ∙ live j (ground arith)) in
          (
            suc n,
            ps',
            ground (arith, here),
            record {
              same_lists = λ c. s.same_lists c ∙ lists-deliver ps m i c;
              same_next = s.same_next ∙ next-deliver ps m i;
              same_open = λ j. s.same_open j ∙ open-deliver ps m i j;
              buffers = λ j. ground (arith, s.buffers j, buffer-deliver ps m i j);
              count = ground (arith, s.count, ready_count-deliver ps m i is);
            },
          )
      | inr full ↦
          let (n, ps', e, s) = publish_loop_lem ps m is d.1 (λ j h. live j (ground arith)) in
          (
            n,
            ps',
            ground (arith, here),
            record {
              same_lists = s.same_lists;
              same_next = s.same_next;
              same_open = s.same_open;
              buffers = λ j. ground (arith, s.buffers j);
              count = ground (arith, s.count);
            },
          )
    ]

Sent-IsValid :
    (ps ps' : PubSub) (m : Str) (is : List ℕ) (n : ℕ)
    → Sent ps ps' m is n
    → IsValid ps
    → IsValid ps'
Sent-IsValid ps ps' m is n s v = record {
  live = λ c i h. ground (arith, s.same_lists c, s.same_open i, s.same_next, v.live c i);
  distinct = λ c. rw (s.same_lists c) (v.distinct c);
  apart = λ c d i h k. ground (arith, s.same_lists c, s.same_lists d, v.apart c d i);
}

-- Publish under the invariant does not panic, and keeps it. It puts the message into the buffer of
-- each subscriber of the channel whose buffer is empty, changes no other buffer, closes nothing, and
-- returns the number of the subscribers it has reached.
pub publish_lem :
    (ps : PubSub) (c m : Str)
    → IsValid ps
    → (n : ℕ) × (ps' : PubSub) × (publish ps c m ≡ some (n, ps'))
      × IsValid ps'
      × Sent ps ps' m (subscribers ps c) n
unfolding publish
publish_lem ps c m v =
    let (n, ps', e, s) =
      publish_loop_lem ps m (subscribers ps c) (v.distinct c) (λ i h. (v.live c i h).0) in
    (n, ps', e, Sent-IsValid ps ps' m (subscribers ps c) n s v, s)
