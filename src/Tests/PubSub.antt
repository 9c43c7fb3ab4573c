-- ===== src/Tests/PubSub.antt =====
-- A channel with one subscriber.
use emberdb.Prelude.{ℕ, ◌≡◌, some, Str, bytes}
use emberdb.PubSub.{PubSub, new_pub_sub, subscribers, subscribe, publish}
use emberdb.PubSub.Valid.{IsValid, new_pub_sub-IsValid, subscribe_lem}
use emberdb.PubSub.Publishing.{Sent, publish_lem}

abbrev news : Str
news = bytes "news"

abbrev one : PubSub
one = (subscribe new_pub_sub news).1

one-IsValid : IsValid one
one-IsValid = (subscribe_lem new_pub_sub news new_pub_sub-IsValid).0

publish_lem_example :
    (n : ℕ) × (ps' : PubSub) × (publish one news (bytes "hi") ≡ some (n, ps'))
    × IsValid ps'
    × Sent one ps' (bytes "hi") (subscribers one news) n
publish_lem_example = publish_lem one news (bytes "hi") one-IsValid
