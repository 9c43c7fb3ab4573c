-- ===== src/Server/Subscriptions.antt =====
-- cmd/ember-server/commands_pubsub.go, and the end of `handleConnection` in main.go: the channels that
-- a connection is subscribed to. The goroutine that forwards what a channel receives is I/O.
pub mod Kept
pub mod Ended
use emberdb.Prelude.{ℕ, Option, some, List, [], ◌∷◌, ◌++◌, Str, bytes, or_zero}
use emberdb.Prelude.Reader.{◌>>=◌}
use emberdb.Dict
use emberdb.Dict.{Dict}
use emberdb.PubSub.{PubSub, subscribe, unsubscribe, publish}
use emberdb.Server.{Reply, ok, failure, integer}

-- `subscriptions`: the Go channels of a connection, by the name of their channel
abbrev pub Subscriptions : Type 0
Subscriptions = Dict (List ℕ)

-- The replies, in order, and what the handler leaves; no value stands for a panic.
abbrev pub Subscribed : Type 0
Subscribed = Option (List Reply × PubSub × Subscriptions)

-- `subscriptions[channel]`
abbrev pub held : Subscriptions → Str → List ℕ
held subs channel = or_zero [] (Dict.get subs channel)

unfoldable pub handle_publish : PubSub → List Str → Option (List Reply × PubSub)
handle_publish ps (channel ∷ message ∷ []) = do
  (n, ps') ← publish ps channel message
  some (integer n ∷ [], ps')
handle_publish ps _ =
    some (failure (bytes "Wrong number of arguments for 'PUBLISH' command") ∷ [], ps)

-- the loop over the channels, with a reply for each
unfoldable pub subscribe_loop :
    PubSub → Subscriptions → List Str → List Reply × PubSub × Subscriptions
subscribe_loop ps subs [] = ([], ps, subs)
subscribe_loop ps subs (channel ∷ channels) =
    let made = subscribe ps channel in
    let subs' = Dict.put subs channel (held subs channel ++ (made.0 ∷ [])) in
    let rest = subscribe_loop made.1 subs' channels in (ok ∷ rest.0, rest.1, rest.2)

unfoldable pub handle_subscribe :
    PubSub → Subscriptions → List Str → List Reply × PubSub × Subscriptions
handle_subscribe ps subs [] =
    (failure (bytes "Wrong number of arguments for 'SUBSCRIBE' command") ∷ [], ps, subs)
handle_subscribe ps subs (channel ∷ channels) = subscribe_loop ps subs (channel ∷ channels)

-- the loop over the Go channels of one channel
unfoldable pub leave_each : PubSub → Str → List ℕ → Option PubSub
leave_each ps channel [] = some ps
leave_each ps channel (ch ∷ chs) = do ps' ← unsubscribe ps channel ch; leave_each ps' channel chs

-- the loop over the channels
unfoldable pub leave_channels : PubSub → Subscriptions → List Str → Option (PubSub × Subscriptions)
leave_channels ps subs [] = some (ps, subs)
leave_channels ps subs (channel ∷ channels) = do
  ps' ← leave_each ps channel (held subs channel)
  leave_channels ps' (Dict.remove subs channel) channels

-- No arguments stand for every channel of the connection.
abbrev pub channels_of : Subscriptions → List Str → List Str
channels_of subs [] = Dict.keys subs
channels_of subs (channel ∷ channels) = channel ∷ channels

unfoldable pub handle_unsubscribe : PubSub → Subscriptions → List Str → Subscribed
handle_unsubscribe ps subs args = do
  (ps', subs') ← leave_channels ps subs (channels_of subs args)
  some (ok ∷ [], ps', subs')

-- The deferred loop over `subscriptions`, which is not changed.
unfoldable pub leave_all : PubSub → Subscriptions → List Str → Option PubSub
leave_all ps subs [] = some ps
leave_all ps subs (channel ∷ channels) = do
  ps' ← leave_each ps channel (held subs channel)
  leave_all ps' subs channels

unfoldable pub end_connection : PubSub → Subscriptions → Option PubSub
end_connection ps subs = leave_all ps subs (Dict.keys subs)
