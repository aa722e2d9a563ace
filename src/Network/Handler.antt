-- ===== src/Network/Handler.antt =====
-- internal/network/dispatch.go: the broker's state, and handlers as functions of it and of the bytes of a
-- request that are left. What a handler changed stays changed when it ends in an error.
use gokaf.Base.{
  ℕ, suc, List, [], ◌∷◌, ◌++◌, Option, none, some, ℤ, Bool, is_negative, pos_part, if◌then◌else◌,
  get_elem?,
}
use gokaf.Protocol.Result.{Result, ok, err, panics, Decoder}
use gokaf.Protocol.Types.{read_array_len}
use gokaf.Storage.Log.{Log}
use gokaf.Storage.LogManager
use gokaf.Storage.LogManager.{log_at, put_log}
use gokaf.Topic.Registry.{Registry, Partition, Topic, get}
use gokaf.Group.State.{Coordinator, Effect, JoinResult, SyncResult}
use gokaf.Offset.{Store}
use gokaf.Producer
use gokaf.Cluster.Membership
use gokaf.Cluster.Membership.{Membership}
use gokaf.Replication.Manager
use gokaf.Faults.{Config}

-- A nil pointer or function is `none`. What the liveness monitor answers stands still during a request.
-- Three fields are not the source's: `sent` has the requests that went to peers, `next_waiter` numbers
-- the waits, and `effects` has what the group coordinator did to timers and channels.
pub record Broker : Type 0 where
  pub node_id : ℤ
  pub host : List ℕ
  pub port : ℤ
  pub topics : Registry
  pub logs : LogManager.Manager
  pub groups : Coordinator
  pub offsets : Store
  pub producers : Producer.Manager
  pub cluster : Option Membership
  pub replication : Option Manager.Manager
  pub is_peer_alive : Option (ℤ → Bool)
  pub controller : Option ℤ
  pub metadata_log : Option Log
  pub faults : Option Config
  pub sent : List (Membership.Broker × List ℕ)
  pub next_waiter : ℕ
  pub effects : List Effect

-- What the handlers use of other libraries and of the world: the checksum, the names of the logs'
-- directories, the clock, and what other requests do to the broker while one waits for at most so
-- many nanoseconds, with whether the wait's channel was closed; the names of new members, and what
-- other requests and timers do to the broker until a group's channel has an answer, with the answer.
pub record Env : Type 0 where
  pub crc : List ℕ → ℕ
  pub log_key : List ℕ → ℤ → List ℕ
  pub now : ℕ
  pub others : ℕ → ℤ → Broker → Broker × Bool
  pub member_name : List ℕ → ℤ → List ℕ
  pub joined : ℕ → Broker → Broker × JoinResult
  pub synced : ℕ → Broker → Broker × SyncResult

abbrev pub Handler : Type 0 → Type 0
Handler A = Broker → List ℕ → Broker × Result (A × List ℕ)

abbrev pub and_then :
    {A B : Type 0} → (A → Handler B) → Broker × Result (A × List ℕ) → Broker × Result (B × List ℕ)
and_then f (b, ok (a, rest)) = f a b rest
and_then f (b, err e) = (b, err e)
and_then f (b, panics) = (b, panics)

infixl 5 ◌>>=◌
unfoldable pub ◌>>=◌ : {A B : Type 0} → Handler A → (A → Handler B) → Handler B
◌>>=◌ m f b s = and_then f (m b s)

unfoldable pub return : {A : Type 0} → A → Handler A
return a b s = (b, ok (a, s))

unfoldable pub panic : {A : Type 0} → Handler A
panic b s = (b, panics)

-- A part of the request.
unfoldable pub reading : {A : Type 0} → Decoder A → Handler A
reading d b s = (b, d s)

-- A call of a method of the broker.
unfoldable pub calling : {A : Type 0} → (Broker → Broker × A) → Handler A
calling f b s = let after = f b in (after.0, ok (after.1, s))

abbrev pub or_panics :
    {A : Type 0} → Broker → List ℕ → Option (Broker × A) → Broker × Result (A × List ℕ)
or_panics b s none = (b, panics)
or_panics b s (some (after, a)) = (after, ok (a, s))

-- A call that may panic.
unfoldable pub attempting : {A : Type 0} → (Broker → Option (Broker × A)) → Handler A
attempting f b s = or_panics b s (f b)

unfoldable pub times : {A : Type 0} → ℕ → Handler A → Handler (List A)
times ℕ.zero h = return []
times (suc n) h = do x ← h; xs ← times n h; return (x ∷ xs)

-- `make(…, 0, count)`, which panics on a negative count, and then the loop.
unfoldable pub looping : {A : Type 0} → ℤ → Handler A → Handler (List A)
looping count h = if is_negative count then panic else times (pos_part count) h

-- `ReadArrayLen` and the loop over the elements.
unfoldable pub each : {A : Type 0} → Handler A → Handler (List A)
each h = do count ← reading read_array_len; looping count h

-- A loop that keeps nothing, and makes no slice: a negative count has no rounds.
unfoldable pub drain : {A : Type 0} → Handler A → Handler (List A)
drain h = do count ← reading read_array_len; times (pos_part count) h

-- The answers for each topic of a request, and in it for each partition.
pub record TopicResponse (A : Type 0) : Type 0 where
  pub name : List ℕ
  pub partitions : List A

abbrev pub partition_at : Option Topic → ℤ → Option Partition
partition_at none index = none
partition_at (some t) index =
    if is_negative index then none else get_elem? t.partitions (pos_part index)

-- The head of the handlers: the partition that the registry has under a topic's name and an index.
unfoldable pub find_partition : Broker → List ℕ → ℤ → Option Partition
find_partition b topic index = partition_at (get b.topics topic) index

-- `b.Logs.Log(topic, partition)`
unfoldable pub open_log : Env → Broker → List ℕ → ℤ → Broker × Option Log
open_log env b topic index =
    let opened = log_at b.logs (env.log_key topic index) in (record b { logs = opened.0 }, opened.1)

-- A log of the broker that was changed through its pointer.
unfoldable pub store_log : Env → Broker → List ℕ → ℤ → Log → Broker
store_log env b topic index l = record b { logs = put_log b.logs (env.log_key topic index) l }

-- `WriteArrayLen` of a count, and the elements.
unfoldable pub write_each : {A : Type 0} → (A → List ℕ) → List A → List ℕ
write_each write [] = []
write_each write (x ∷ xs) = write x ++ write_each write xs

-- What a handler answered, as the sender of the request sees it.
abbrev pub answer_of : Broker × Result (List ℕ × List ℕ) → Option (List ℕ)
answer_of (b, ok (bytes, rest)) = some bytes
answer_of (b, err e) = none
answer_of (b, panics) = none
