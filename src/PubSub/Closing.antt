-- ===== src/PubSub/Closing.antt =====
-- `UnsubscribeAll` of utils/pubsub/pubsub.go.
use emberdb.Prelude.{
  ℕ, ◌≡◌, refl, ◌∙◌, Bool, true, false, ◌&&◌, ◌||◌, some, List, [], ◌∷◌, arith, Str, str_eq,
  str_eq_iff, if◌then◌else◌, str_eq_refl, contains, NoDup,
}
use emberdb.Dict
use emberdb.PubSub.{PubSub, subscribers, has, close_all, close_channels, unsubscribe_all}
use emberdb.PubSub.Subscribers.{Distinct}
use emberdb.PubSub.Valid.{IsValid, empty-IsValid}
use emberdb.PubSub.Leaving.{close_open}

-- The channels that the test names are closed, and nothing else is changed.
record Closed (ps ps' : PubSub) (p : ℕ → Bool) : Type 0 where
  lists : (d : Str) → subscribers ps' d ≡ subscribers ps d
  opens : (j : ℕ) → (ps'.heap j).is_open ≡ (if p j then false else (ps.heap j).is_open)
  same_next : ps'.next ≡ ps.next

close_all-Closed :
    (ps : PubSub) (is : List ℕ)
    → Distinct is
    → ((i : ℕ) → has i is ≡ true → (ps.heap i).is_open ≡ true)
    → (ps' : PubSub) × (close_all ps is ≡ some ps') × Closed ps ps' (λ j. has j is)
unfolding close_all has
close_all-Closed ps [] d live =
    (ps, refl, record { lists = λ c. refl; opens = λ j. refl; same_next = refl })
close_all-Closed ps (i ∷ is) d live =
    let (ps1, e, lists, opens, next) = close_open ps i (live i (ground arith)) in
    let (ps', e', s) = close_all-Closed ps1 is d.1 (λ j h. ground (arith, opens j, live j)) in
    (
      ps',
      rw (e, close_all) e',
      record {
        lists = λ c. s.lists c ∙ lists c;
        opens = λ j. ground (arith, s.opens j, opens j);
        same_next = s.same_next ∙ next;
      },
    )

-- some channel of the list has the subscriber
has_any : PubSub → List Str → ℕ → Bool
has_any ps [] i = false
has_any ps (c ∷ cs) i = let rest = has_any ps cs i in has i (subscribers ps c) || rest

has_any_congr :
    (ps ps' : PubSub) (cs : List Str) (i : ℕ)
    → ((d : Str) → subscribers ps' d ≡ subscribers ps d)
    → has_any ps' cs i ≡ has_any ps cs i
unfolding has_any
has_any_congr ps ps' [] i h = refl
has_any_congr ps ps' (c ∷ cs) i h = rw (h c, has_any_congr ps ps' cs i h)

contains-has_any :
    (ps : PubSub) (cs : List Str) (c : Str) (i : ℕ)
    → contains cs c ≡ true
    → has i (subscribers ps c) ≡ true
    → has_any ps cs i ≡ true
unfolding has_any contains
contains-has_any ps [] c i h k = cc
contains-has_any ps (d ∷ cs) c i h k = ground (arith, contains-has_any ps cs c i, str_eq_iff d c)

close_channels-Closed :
    (ps : PubSub) (cs : List Str)
    → NoDup cs
    → ((c : Str) → Distinct (subscribers ps c))
    → ((c d : Str) (i : ℕ)
        → has i (subscribers ps c) ≡ true
        → has i (subscribers ps d) ≡ true
        → str_eq c d ≡ true)
    → ((c : Str) (i : ℕ)
        → contains cs c ≡ true
        → has i (subscribers ps c) ≡ true
        → (ps.heap i).is_open ≡ true)
    → (ps' : PubSub) × (close_channels ps cs ≡ some ps') × Closed ps ps' (has_any ps cs)
unfolding close_channels has_any contains
close_channels-Closed ps [] n d apart live =
    (ps, refl, record { lists = λ c. refl; opens = λ j. refl; same_next = refl })
close_channels-Closed ps (c ∷ cs) n d apart live =
    let (ps1, e, s1) =
      close_all-Closed ps (subscribers ps c) (d c)
        (λ i h. live c i (ground (arith, str_eq_refl c)) h) in
    let (ps', e', s) =
      close_channels-Closed ps1 cs n.1 (λ b. rw (s1.lists b) (d b))
        (λ a b i h k. ground (arith, s1.lists a, s1.lists b, apart a b i))
        (λ b i h k.
          ground (arith, s1.lists b, s1.opens i, live b i, apart c b i, str_eq_iff c b)) in
    (
      ps',
      rw (e, close_channels) e',
      record {
        lists = λ b. s.lists b ∙ s1.lists b;
        opens = λ j. ground (arith, s.opens j, s1.opens j, has_any_congr ps ps1 cs j s1.lists);
        same_next = s.same_next ∙ s1.same_next;
      },
    )

has-contains :
    (ps : PubSub) (c : Str) (i : ℕ)
    → has i (subscribers ps c) ≡ true
    → contains (Dict.keys ps.subscriptions) c ≡ true
unfolding subscribers has
has-contains ps c i h = ground (arith, Dict.contains-keys ps.subscriptions c)

-- A state whose lists are all empty.
emptied : PubSub → PubSub
emptied ps = record ps { subscriptions = Dict.empty }

subscribers-emptied : (ps : PubSub) (c : Str) → subscribers (emptied ps) c ≡ []
unfolding subscribers emptied
subscribers-emptied ps c = rw (Dict.get-empty {V = List ℕ} c)

emptied-IsValid : (ps : PubSub) → IsValid (emptied ps)
emptied-IsValid ps = empty-IsValid (emptied ps) (subscribers-emptied ps)

-- UnsubscribeAll under the invariant does not panic, and keeps it. Afterwards no channel has a
-- subscriber, and every Go channel that was a subscriber is closed.
pub unsubscribe_all_lem :
    (ps : PubSub)
    → IsValid ps
    → (ps' : PubSub) × (unsubscribe_all ps ≡ some ps')
      × IsValid ps'
      × ((c : Str) → subscribers ps' c ≡ [])
      × ((c : Str) (i : ℕ) → (has i (subscribers ps c) && (ps'.heap i).is_open) ≡ false)
unfolding unsubscribe_all emptied
unsubscribe_all_lem ps v =
    let cs = Dict.keys ps.subscriptions in
    let (ps1, e, s) =
      close_channels-Closed ps cs (Dict.keys-NoDup ps.subscriptions) v.distinct v.apart
        (λ c i _ h. (v.live c i h).0) in
    (
      emptied ps1,
      rw (e, unsubscribe_all),
      emptied-IsValid ps1,
      subscribers-emptied ps1,
      λ c i. ground (arith, s.opens i, has-contains ps c i, contains-has_any ps cs c i),
    )
