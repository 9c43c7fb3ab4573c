-- ===== src/PubSub.antt =====
-- utils/pubsub/pubsub.go. A `chan string` is an index into a heap of channels; each has a buffer of
-- one message. Closing a closed channel and sending on one panic, for which no value stands.
pub mod Subscribers
pub mod Valid
pub mod Publishing
pub mod Leaving
pub mod Closing
use emberdb.Prelude.{
  ℕ, suc, ◌+◌, ◌≡◌, Bool, true, false, not, Option, none, some, List, [], ◌∷◌, ◌++◌, Str, ◌==◌,
  if◌then◌else◌, or_zero, length,
}
use emberdb.Dict
use emberdb.Dict.{Dict}

pub record Channel : Type 0 where
  pub buffer : List Str
  pub is_open : Bool

pub record PubSub : Type 0 where
  pub subscriptions : Dict (List ℕ)
  pub heap : ℕ → Channel
  pub next : ℕ

unfoldable pub new_pub_sub : PubSub
new_pub_sub = record {
  subscriptions = Dict.empty;
  heap = λ _. record { buffer = []; is_open = true };
  next = 0;
}

-- `ps.subscriptions[channel].subscribers`, none if there is no subscription
unfoldable pub subscribers : PubSub → Str → List ℕ
subscribers ps channel = or_zero [] (Dict.get ps.subscriptions channel)

unfoldable pub put_channel : PubSub → ℕ → Channel → PubSub
put_channel ps i c = record ps { heap = λ j. if i == j then c else ps.heap j }

-- `make(chan string, 1)`, appended to the subscribers
unfoldable pub subscribe : PubSub → Str → ℕ × PubSub
unfolding subscribers put_channel
subscribe ps channel =
    let ch = ps.next in
    let made = put_channel ps ch (record { buffer = []; is_open = true }) in
    (
      ch,
      record made {
        subscriptions = Dict.put ps.subscriptions channel (subscribers ps channel ++ ch ∷ []);
        next = suc ch;
      },
    )

-- `close(ch)`
unfoldable pub close : PubSub → ℕ → Option PubSub
unfolding put_channel
close ps i =
    if (ps.heap i).is_open
    then some (put_channel ps i (record (ps.heap i) { is_open = false }))
    else none

unfoldable pub has : ℕ → List ℕ → Bool
has i [] = false
has i (j ∷ js) = let rest = has i js in if j == i then true else rest

-- `append(subscribers[:i], subscribers[i+1:]...)` at the first `i` that holds the subscriber
unfoldable pub drop_first : ℕ → List ℕ → List ℕ
drop_first i [] = []
drop_first i (j ∷ js) = let rest = drop_first i js in if j == i then js else j ∷ rest

-- `if len(sub.subscribers) == 0 { delete(ps.subscriptions, channel) }`
store_subscribers : PubSub → Str → List ℕ → PubSub
store_subscribers ps channel [] = record ps { subscriptions = Dict.remove ps.subscriptions channel }
store_subscribers ps channel (i ∷ is) = record ps {
  subscriptions = Dict.put ps.subscriptions channel (i ∷ is);
}

leave_channel : PubSub → Str → ℕ → Option (List ℕ) → Option PubSub
leave_channel ps channel subscriber none = some ps
leave_channel ps channel subscriber (some subs) =
    if has subscriber subs
    then close (store_subscribers ps channel (drop_first subscriber subs)) subscriber
    else some (store_subscribers ps channel subs)

-- The order of `close` and `delete` is immaterial, since a panic ends the process.
unfoldable pub unsubscribe : PubSub → Str → ℕ → Option PubSub
unfolding leave_channel store_subscribers
unsubscribe ps channel subscriber =
    leave_channel ps channel subscriber (Dict.get ps.subscriptions channel)

-- `count++` before the rest of the loop
abbrev pub counted : Option (ℕ × PubSub) → Option (ℕ × PubSub)
counted none = none
counted (some (n, ps)) = some (suc n, ps)

-- the channel has room for a message
abbrev pub ready : PubSub → ℕ → Bool
ready ps i = length (ps.heap i).buffer == 0

unfoldable pub deliver : PubSub → ℕ → Str → PubSub
unfolding put_channel
deliver ps i message = put_channel ps i (record (ps.heap i) { buffer = message ∷ [] })

-- The loop of `Publish` over the subscribers: a send that does not block to each.
unfoldable pub publish_loop : PubSub → Str → List ℕ → Option (ℕ × PubSub)
publish_loop ps message [] = some (0, ps)
publish_loop ps message (i ∷ is) =
    let sent = publish_loop (deliver ps i message) message is in
    let skipped = publish_loop ps message is in
    if not (ps.heap i).is_open then none else if ready ps i then counted sent else skipped

unfoldable pub publish : PubSub → Str → Str → Option (ℕ × PubSub)
publish ps channel message = publish_loop ps message (subscribers ps channel)

-- the close of every subscriber of the channels `names`
close_all : PubSub → List ℕ → Option PubSub
close_all ps [] = some ps
close_all ps (i ∷ is) = elim (close ps i) [ none ↦ none | some ps' ↦ close_all ps' is ]

close_channels : PubSub → List Str → Option PubSub
close_channels ps [] = some ps
close_channels ps (name ∷ names) = elim (close_all ps (subscribers ps name)) [
  | none ↦ none
  | some ps' ↦ close_channels ps' names
]

unfoldable pub unsubscribe_all : PubSub → Option PubSub
unfolding close_all close_channels
unsubscribe_all ps = elim (close_channels ps (Dict.keys ps.subscriptions)) [
  | none ↦ none
  | some ps' ↦ some (record ps' { subscriptions = Dict.empty })
]

-- What a reader of the channel takes from it.
unfoldable pub receive : PubSub → ℕ → PubSub
unfolding put_channel
receive ps i = put_channel ps i (record (ps.heap i) { buffer = [] })
