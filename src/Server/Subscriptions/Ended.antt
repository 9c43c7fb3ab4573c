-- ===== src/Server/Subscriptions/Ended.antt =====
-- cmd/ember-server: a connection leaves channels, and all of them at its end.
use emberdb.Prelude.{
  ℕ, ◌≡◌, refl, Bool, not, ◌&&◌, none, some, List, [], ◌∷◌, arith, Str, str_eq, str_eq_iff,
  contains, if◌then◌else◌,
}
use emberdb.Dict
use emberdb.PubSub.{PubSub, subscribers, has}
use emberdb.PubSub.Valid.{IsValid}
use emberdb.PubSub.Leaving.{unsubscribe_lem}
use emberdb.Server.{ok}
use emberdb.Server.Subscriptions.{
  Subscriptions, held, leave_each, leave_channels, channels_of, handle_unsubscribe, leave_all,
  end_connection,
}

-- The subscribers that are left: those before without those that `gone` tells of.
abbrev pub LeftWithout : PubSub → (Str → ℕ → Bool) → PubSub → Type 0
LeftWithout ps gone ps' =
    IsValid ps'
    × ((c : Str) (j : ℕ) → has j (subscribers ps' c) ≡ (has j (subscribers ps c) && not (gone c j)))

leave_each_lem :
    (ps : PubSub) (c : Str) (chs : List ℕ)
    → IsValid ps
    → (ps' : PubSub) × (leave_each ps c chs ≡ some ps')
      × LeftWithout ps (λ d j. str_eq c d && has j chs) ps'
unfolding leave_each has
leave_each_lem ps c [] v = (ps, refl, (v, λ d j. ground arith))
leave_each_lem ps c (ch ∷ chs) v =
    let (ps1, e1, v1, left1, _) = unsubscribe_lem ps c ch v in
    let (ps2, e2, (v2, left2)) = leave_each_lem ps1 c chs v1 in
    (ps2, rw (e1, e2) refl, (v2, λ d j. ground (arith, left1 d j, left2 d j)))

-- The subscriptions without those of the channels `names`.
abbrev Forgets : Subscriptions → List Str → Subscriptions → Type 0
Forgets subs names subs' =
    (d : Str) → Dict.get subs' d ≡ (if contains names d then none else Dict.get subs d)

leave_channels_lem :
    (ps : PubSub) (subs : Subscriptions) (names : List Str)
    → IsValid ps
    → (ps' : PubSub) × (subs' : Subscriptions) × (leave_channels ps subs names ≡ some (ps', subs'))
      × LeftWithout ps (λ d j. contains names d && has j (held subs d)) ps'
      × Forgets subs names subs'
unfolding leave_channels contains has
leave_channels_lem ps subs [] v = (ps, subs, refl, (v, λ d j. ground arith), λ d. refl)
leave_channels_lem ps subs (c ∷ names) v =
    let subs1 = Dict.remove subs c in
    let (ps1, e1, (v1, left1)) = leave_each_lem ps c (held subs c) v in
    let (ps2, subs2, e2, (v2, left2), forgets) = leave_channels_lem ps1 subs1 names v1 in
    (
      ps2,
      subs2,
      rw (e1, e2) refl,
      (v2, λ d j. ground (arith, left1 d j, left2 d j, Dict.get-remove subs c d, str_eq_iff c d)),
      λ d. ground (arith, forgets d, Dict.get-remove subs c d, str_eq_iff c d),
    )

-- Under the invariant of the subscriptions UNSUBSCRIBE ends without a panic, keeps the invariant and
-- replies OK once. The Go channels that the connection held on the named channels, or on all of its
-- channels where none is named, are subscribers of them no more, every other subscriber is left, and
-- the connection has forgotten the named channels and no other.
pub handle_unsubscribe_lem :
    (ps : PubSub) (subs : Subscriptions) (args : List Str)
    → IsValid ps
    → (ps' : PubSub) × (subs' : Subscriptions) × (handle_unsubscribe ps subs args
        ≡ some (ok ∷ [], ps', subs'))
      × LeftWithout ps (λ c j. contains (channels_of subs args) c && has j (held subs c)) ps'
      × Forgets subs (channels_of subs args) subs'
unfolding handle_unsubscribe
handle_unsubscribe_lem ps subs args v =
    let (ps', subs', e, left, forgets) = leave_channels_lem ps subs (channels_of subs args) v in
    (ps', subs', rw e refl, left, forgets)

leave_all_lem :
    (ps : PubSub) (subs : Subscriptions) (names : List Str)
    → IsValid ps
    → (ps' : PubSub) × (leave_all ps subs names ≡ some ps')
      × LeftWithout ps (λ d j. contains names d && has j (held subs d)) ps'
unfolding leave_all contains
leave_all_lem ps subs [] v = (ps, refl, (v, λ d j. ground arith))
leave_all_lem ps subs (c ∷ names) v =
    let (ps1, e1, (v1, left1)) = leave_each_lem ps c (held subs c) v in
    let (ps2, e2, (v2, left2)) = leave_all_lem ps1 subs names v1 in
    (ps2, rw (e1, e2) refl, (v2, λ d j. ground (arith, left1 d j, left2 d j, str_eq_iff c d)))

-- Under the invariant of the subscriptions the end of a connection does not panic and keeps the
-- invariant: the Go channels of the connection are subscribers of their channels no more, and the
-- subscribers of other connections are left.
pub end_connection_lem :
    (ps : PubSub) (subs : Subscriptions)
    → IsValid ps
    → (ps' : PubSub) × (end_connection ps subs ≡ some ps')
      × LeftWithout ps (λ c j. has j (held subs c)) ps'
unfolding end_connection has
end_connection_lem ps subs v =
    let (ps', e, (v', left)) = leave_all_lem ps subs (Dict.keys subs) v in
    (ps', e, (v', λ c j. ground (arith, left c j, Dict.contains-keys subs c)))
