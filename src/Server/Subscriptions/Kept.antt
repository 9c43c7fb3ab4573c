-- ===== src/Server/Subscriptions/Kept.antt =====
-- cmd/ember-server/commands_pubsub.go: a connection subscribes.
use emberdb.Prelude.{ℕ, ◌≡◌, refl, true, List, [], ◌∷◌, ◌++◌, arith, Str, str_eq_iff, length}
use emberdb.Dict
use emberdb.PubSub.{PubSub, subscribers, subscribe, has}
use emberdb.PubSub.Subscribers.{has-append}
use emberdb.PubSub.Valid.{IsValid, subscribe_lem}
use emberdb.Server.Subscriptions.{Subscriptions, held, subscribe_loop, handle_subscribe}

-- What a connection holds are subscribers.
abbrev pub IsHeld : PubSub → Subscriptions → Type 0
IsHeld ps subs = (c : Str) (j : ℕ) → has j (held subs c) ≡ true → has j (subscribers ps c) ≡ true

subscribe_loop_lem :
    (ps : PubSub) (subs : Subscriptions) (names : List Str)
    → IsValid ps
    → IsHeld ps subs
    → let r = subscribe_loop ps subs names in
      IsValid r.1
      × IsHeld r.1 r.2
      × (length r.0 ≡ length names)
      × ((c : Str) (j : ℕ) → has j (subscribers ps c) ≡ true → has j (subscribers r.1 c) ≡ true)
unfolding subscribe_loop
subscribe_loop_lem ps subs [] v h = (v, h, refl, λ c j k. k)
subscribe_loop_lem ps subs (c ∷ names) v h =
    let made = subscribe ps c in
    let (v', fresh, lists) = subscribe_lem ps c v in
    let subs' = Dict.put subs c (held subs c ++ (made.0 ∷ [])) in
    let h' : IsHeld made.1 subs' = λ d j k. ground (
      arith,
      h d j,
      h c j,
      lists d,
      Dict.get-put subs c d (held subs c ++ (made.0 ∷ [])),
      has-append j made.0 (held subs c),
      has-append j made.0 (subscribers ps c),
      str_eq_iff c d,
    ) in
    let (v'', h'', len, kept) = subscribe_loop_lem made.1 subs' names v' h' in
    (
      v'',
      h'',
      omega arith,
      λ d j k.
          kept d j
            (ground (arith, k, lists d, has-append j made.0 (subscribers ps c), str_eq_iff c d)),
    )

-- Under the invariant of the subscriptions, and with a connection that holds none but subscribers,
-- SUBSCRIBE to a channel or more keeps both, writes one reply for each, and every subscriber of a
-- channel is one still.
pub handle_subscribe_lem :
    (ps : PubSub) (subs : Subscriptions) (c : Str) (names : List Str)
    → IsValid ps
    → IsHeld ps subs
    → let r = handle_subscribe ps subs (c ∷ names) in
      IsValid r.1
      × IsHeld r.1 r.2
      × (length r.0 ≡ length (c ∷ names))
      × ((d : Str) (j : ℕ) → has j (subscribers ps d) ≡ true → has j (subscribers r.1 d) ≡ true)
unfolding handle_subscribe
handle_subscribe_lem ps subs c names v h = subscribe_loop_lem ps subs (c ∷ names) v h
