-- ===== src/Network/Failover.antt =====
-- internal/network/failover.go: new leaders for the partitions of a broker that is down.
pub mod Election
use gokaf.Base.{
  ℕ, List, [], ◌∷◌, Option, none, some, ℤ, eq_ℤ, Bool, true, false, not, ◌||◌, if◌then◌else◌,
}
use gokaf.Base.Sorting.{sort_by}
use gokaf.Storage.Log.{Log}
use gokaf.Topic.Registry.{Partition, Topic}
use gokaf.Topic.Registry
use gokaf.Cluster.MetadataLog.{topic_upsert}
use gokaf.Network.Handler.{Broker, Env}
use gokaf.Network.Topics.{controller_id, peer_alive, apply_topic, fan_out_topic, log_change}

-- The loop of `liveISR`.
unfoldable pub live_of : Broker → ℤ → List ℤ → List ℤ
live_of b dead [] = []
live_of b dead (id ∷ ids) =
    let rest = live_of b dead ids in
    if eq_ℤ id dead || not (peer_alive b id) then rest else id ∷ rest

unfoldable pub live_isr : Broker → List ℤ → ℤ → List ℤ
live_isr b isr dead = sort_by (λ id. id) (live_of b dead isr)

-- The partition after the election, and whether it changed.
abbrev pub elect : Partition → List ℤ → Partition × Bool
elect p [] = (p, false)
elect p (leader ∷ others) = (record p { leader = leader; isr = leader ∷ others }, true)

unfoldable pub reassign : Broker → ℤ → Partition → Partition × Bool
reassign b dead p = if not (eq_ℤ p.leader dead) then (p, false) else elect p (live_isr b p.isr dead)

unfoldable pub reassign_all : Broker → ℤ → List Partition → List Partition × Bool
reassign_all b dead [] = ([], false)
reassign_all b dead (p ∷ ps) =
    let first = reassign b dead p in
    let rest = reassign_all b dead ps in (first.0 ∷ rest.0, first.1 || rest.1)

abbrev pub announce : Env → Broker → List ℕ → List Partition → Option Log → Broker
announce env b name partitions none =
    fan_out_topic (apply_topic env b name partitions) name partitions
announce env b name partitions (some l) =
    log_change env b l (record { type = topic_upsert; topic = name; partitions = partitions })

abbrev pub announce_if : Env → Broker → List ℕ → List Partition × Bool → Broker
announce_if env b name (partitions, false) = b
announce_if env b name (partitions, true) = announce env b name partitions b.metadata_log

unfoldable pub fail_over_topic : Env → ℤ → Broker → Topic → Broker
fail_over_topic env dead b t = announce_if env b t.name (reassign_all b dead t.partitions)

unfoldable pub fail_over : Env → ℤ → Broker → List Topic → Broker
fail_over env dead b [] = b
fail_over env dead b (t ∷ ts) = fail_over env dead (fail_over_topic env dead b t) ts

unfoldable pub on_peer_down : Env → Broker → ℤ → Broker
on_peer_down env b dead =
    if not (eq_ℤ (controller_id b) b.node_id)
    then b
    else fail_over env dead b (Registry.all b.topics)
