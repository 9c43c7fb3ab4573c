-- ===== src/PubSub/Leaving.antt =====
-- `Unsubscribe` of utils/pubsub/pubsub.go.
use emberdb.Prelude.{
  ℕ, ◌≡◌, refl, ◌∙◌, true, false, ◌&&◌, some, List, [], ◌∷◌, arith, Str, str_eq, str_eq_iff, ◌==◌,
  if◌then◌else◌, if_both, Option-cases, Bool-cases, inl, inr,
}
use emberdb.Dict
use emberdb.PubSub.{
  PubSub, subscribers, unsubscribe, has, drop_first, close, store_subscribers, leave_channel,
  put_channel,
}
use emberdb.PubSub.Subscribers.{Distinct, has-drop_first, drop_first-Distinct, drop_first_absent}
use emberdb.PubSub.Valid.{IsValid}

subscribers-store :
    (ps : PubSub) (c d : Str) (l : List ℕ)
    → subscribers (store_subscribers ps c l) d ≡ (if str_eq c d then l else subscribers ps d)
unfolding subscribers store_subscribers
subscribers-store ps c d [] = ground (arith, Dict.get-remove ps.subscriptions c d)
subscribers-store ps c d (i ∷ l) = ground (arith, Dict.get-put ps.subscriptions c d (i ∷ l))

heap-store : (ps : PubSub) (c : Str) (l : List ℕ) → (store_subscribers ps c l).heap ≡ ps.heap
unfolding store_subscribers
heap-store ps c [] = refl
heap-store ps c (i ∷ l) = refl

next-store : (ps : PubSub) (c : Str) (l : List ℕ) → (store_subscribers ps c l).next ≡ ps.next
unfolding store_subscribers
next-store ps c [] = refl
next-store ps c (i ∷ l) = refl

-- what `Unsubscribe` has done
record Left (ps ps' : PubSub) (c : Str) (i : ℕ) : Type 0 where
  lists :
      (d : Str)
      → subscribers ps' d
        ≡ (if str_eq c d then drop_first i (subscribers ps c) else subscribers ps d)
  opens :
      (j : ℕ)
      → (ps'.heap j).is_open
        ≡ (if i == j && has i (subscribers ps c) then false else (ps.heap j).is_open)
  same_next : ps'.next ≡ ps.next

pub close_open :
    (ps : PubSub) (i : ℕ)
    → (ps.heap i).is_open ≡ true
    → (ps' : PubSub) × (close ps i ≡ some ps')
      × ((d : Str) → subscribers ps' d ≡ subscribers ps d)
      × ((j : ℕ) → (ps'.heap j).is_open ≡ (if i == j then false else (ps.heap j).is_open))
      × (ps'.next ≡ ps.next)
unfolding close put_channel subscribers
close_open ps i h = (
  put_channel ps i (record (ps.heap i) { is_open = false }),
  rw h,
  λ d. refl,
  λ j. ground arith,
  refl,
)

leave-Left :
    (ps : PubSub) (c : Str) (i : ℕ) (l : List ℕ)
    → subscribers ps c ≡ l
    → (has i l ≡ true → (ps.heap i).is_open ≡ true)
    → (ps' : PubSub) × (leave_channel ps c i (some l) ≡ some ps') × Left ps ps' c i
unfolding leave_channel
leave-Left ps c i l e live =
    let kept = drop_first i l in
    elim (Bool-cases (has i l)) [
      | inl there ↦
          let st = store_subscribers ps c kept in
          let (ps', done, lists, opens, next) =
            close_open st i (rw (heap-store ps c kept) (live there)) in
          (
            ps',
            rw there done,
            record {
              lists = λ d. lists d ∙ subscribers-store ps c d kept ∙ rw (← e);
              opens = λ j. opens j ∙ rw (heap-store ps c kept, e, there) (ground arith);
              same_next = next ∙ next-store ps c kept;
            },
          )
      | inr absent ↦ (
        store_subscribers ps c l,
        rw absent,
        record {
          lists = λ d. subscribers-store ps c d l ∙ rw (e, drop_first_absent i l absent);
          opens = λ j. rw (heap-store ps c l, e, absent) (ground arith);
          same_next = next-store ps c l;
        },
      )
    ]

-- There is no subscription to leave.
missing-Left : (ps : PubSub) (c : Str) (i : ℕ) → subscribers ps c ≡ [] → Left ps ps c i
unfolding has drop_first
missing-Left ps c i e = record {
  lists = λ d. ground (arith, str_eq_iff c d);
  opens = λ j. rw e (ground arith);
  same_next = refl;
}

unsubscribe-Left :
    (ps : PubSub) (c : Str) (i : ℕ)
    → IsValid ps
    → (ps' : PubSub) × (unsubscribe ps c i ≡ some ps') × Left ps ps' c i
unfolding unsubscribe
unsubscribe-Left ps c i v = elim (Option-cases (Dict.get ps.subscriptions c)) [
  | inl missing ↦
      (ps, rw (missing, leave_channel), missing-Left ps c i (unfold subscribers in rw missing))
  | inr (l, found) ↦
      let e : subscribers ps c ≡ l = unfold subscribers in rw found in
      rw found (leave-Left ps c i l e (λ h. (v.live c i (rw e h)).0))
]

Left-IsValid : (ps ps' : PubSub) (c : Str) (i : ℕ) → Left ps ps' c i → IsValid ps → IsValid ps'
Left-IsValid ps ps' c i s v =
    let dropped = λ (j : ℕ). has-drop_first i j (subscribers ps c) (v.distinct c) in
    record {
      live = λ d j h. ground (
        arith,
        s.lists d,
        s.opens j,
        s.same_next,
        dropped j,
        v.live d j,
        v.live c j,
        v.apart c d j,
      );
      distinct = λ d. rw (s.lists d) (
          if_both Distinct (str_eq c d) _ _
            (λ _. drop_first-Distinct i (subscribers ps c) (v.distinct c)) (λ _. v.distinct d));
      apart = λ d e j h k. ground (
        arith,
        s.lists d,
        s.lists e,
        dropped j,
        v.apart d e j,
        v.apart c e j,
        v.apart d c j,
        str_eq_iff c d,
        str_eq_iff c e,
        str_eq_iff d e,
        str_eq_iff d c,
      );
    }

-- Unsubscribe under the invariant does not panic, and keeps it. Afterwards the subscriber is none of
-- the channel, and is closed if it was one; all other subscriptions are as before.
pub unsubscribe_lem :
    (ps : PubSub) (c : Str) (i : ℕ)
    → IsValid ps
    → (ps' : PubSub) × (unsubscribe ps c i ≡ some ps')
      × IsValid ps'
      × ((d : Str) (j : ℕ)
          → has j (subscribers ps' d)
            ≡ (if str_eq c d && (i == j) then false else has j (subscribers ps d)))
      × ((j : ℕ)
          → (ps'.heap j).is_open
            ≡ (if (i == j) && has i (subscribers ps c) then false else (ps.heap j).is_open))
unsubscribe_lem ps c i v =
    let (ps', e, s) = unsubscribe-Left ps c i v in
    (
      ps',
      e,
      Left-IsValid ps ps' c i s v,
      λ d j.
          ground (
            arith,
            s.lists d,
            has-drop_first i j (subscribers ps c) (v.distinct c),
            str_eq_iff c d,
          ),
      s.opens,
    )
