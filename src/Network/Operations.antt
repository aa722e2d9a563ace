-- ===== src/Network/Operations.antt =====
-- internal/network/broker_ops.go: the operations that the HTTP API shares with the requests, and the
-- views of the topics and of the cluster.
pub mod Errors
use gokaf.Base.{
  ℕ, List, [], ◌∷◌, ◌++◌, Option, none, some, ℤ, pos, negsuc, ◌-ℤ◌, wrap64, is_negative, eq_ℤ,
  ltb_ℤ, Bool, true, false, not, ◌&&◌, ◌||◌, if◌then◌else◌,
}
use mathlib.Core.Option
use gokaf.Protocol.Errors.{
  unknown, no_error, offset_out_of_range, corrupt_message, unknown_topic_or_partition,
  not_leader_for_partition, topic_already_exists, invalid_partitions, invalid_replication_factor,
  not_controller,
}
use gokaf.Storage.Segment.{Record, ReadResult, io_failure, out_of_fuel}
use gokaf.Storage.Log.{Log, read, end_offset, start_offset, append_with_offset}
use gokaf.Topic.Registry.{Partition, Topic}
use gokaf.Topic.Registry
use gokaf.Offset.{Key}
use gokaf.Offset
use gokaf.Cluster.Membership.{Membership}
use gokaf.Cluster.Membership
use gokaf.Replication.Manager.{in_sync_replicas}
use gokaf.Replication.Manager
use gokaf.Network.Handler.{Broker, Env, find_partition, open_log, store_log}
use gokaf.Network.Produce.{valid_record_batch, stamp}
use gokaf.Network.Fetch.{broker_watermark}
use gokaf.Network.Topics.{controller_id, must_refuse, create_topic, delete_topic}

-- The errors of the operations; `failed` is any other.
pub data OperationError : Type 0 where
  refused_not_controller unknown_partition not_leader corrupt_batch out_of_range bad_partitions
        bad_replication_factor topic_exists topic_not_found failed :
      OperationError

-- `codeToError`; nil is `none`.
unfoldable pub code_to_error : ℤ → Option OperationError
code_to_error code =
    if eq_ℤ code no_error
    then none
    else some (
        if eq_ℤ code topic_already_exists
        then topic_exists
        else (if eq_ℤ code unknown_topic_or_partition
            then topic_not_found
            else (if eq_ℤ code invalid_partitions
                then bad_partitions
                else (if eq_ℤ code invalid_replication_factor
                    then bad_replication_factor
                    else (if eq_ℤ code not_controller then refused_not_controller else failed)))))

unfoldable pub wire_error : Option OperationError → ℤ
wire_error none = no_error
wire_error (some refused_not_controller) = not_controller
wire_error (some topic_exists) = topic_already_exists
wire_error (some topic_not_found) = unknown_topic_or_partition
wire_error (some unknown_partition) = unknown_topic_or_partition
wire_error (some not_leader) = not_leader_for_partition
wire_error (some corrupt_batch) = corrupt_message
wire_error (some out_of_range) = offset_out_of_range
wire_error (some bad_partitions) = invalid_partitions
wire_error (some bad_replication_factor) = invalid_replication_factor
wire_error (some failed) = unknown

abbrev pub with_error : Broker × ℤ → Broker × Option OperationError
with_error (b, code) = (b, code_to_error code)

-- `CreateTopic`: the outer `none` is a run-time panic.
unfoldable pub create_topic_op :
    Env → Broker → List ℕ → ℤ → ℤ → Option (Broker × Option OperationError)
create_topic_op env b name count factor =
    if must_refuse b
    then some (b, some refused_not_controller)
    else Option.map with_error (create_topic env name count factor true b)

-- `DeleteTopic`
unfoldable pub delete_topic_op : Env → Broker → List ℕ → Broker × Option OperationError
delete_topic_op env b name =
    if must_refuse b then (b, some refused_not_controller) else with_error (delete_topic env name b)

-- The offset that `Produce` answers is -1 beside an error. An error of `Open` is `failed`.
abbrev pub produce_log :
    Env → List ℕ → ℤ → List ℕ → Broker × Option Log → Broker × ℤ × Option OperationError
produce_log env topic index batch (b, none) = (b, negsuc 0, some failed)
produce_log env topic index batch (b, some l) =
    let after = append_with_offset l batch stamp in
    (store_log env b topic index after.0, after.1, none)

abbrev pub produce_checked :
    Env → Broker → List ℕ → ℤ → List ℕ → Option Partition → Broker × ℤ × Option OperationError
produce_checked env b topic index batch none = (b, negsuc 0, some unknown_partition)
produce_checked env b topic index batch (some p) =
    if not (eq_ℤ p.leader b.node_id)
    then (b, negsuc 0, some not_leader)
    else (if not (valid_record_batch env.crc batch)
        then (b, negsuc 0, some corrupt_batch)
        else produce_log env topic index batch (open_log env b topic index))

-- `Produce`
unfoldable pub produce_op : Env → Broker → List ℕ → ℤ → List ℕ → Broker × ℤ × Option OperationError
produce_op env b topic index batch =
    produce_checked env b topic index batch (find_partition b topic index)

abbrev pub fetch_read : Broker → ℤ → ReadResult → Broker × List Record × ℤ × Option OperationError
fetch_read b hw (ReadResult.records rs) = (b, rs, hw, none)
fetch_read b hw io_failure = (b, [], hw, some failed)
fetch_read b hw out_of_fuel = (b, [], hw, some failed)

abbrev pub fetch_log :
    Env
    → List ℕ
    → ℤ
    → ℤ
    → ℤ
    → Broker × Option Log
    → Broker × List Record × ℤ × Option OperationError
fetch_log env topic index offset max_bytes (b, none) = (b, [], pos 0, some failed)
fetch_log env topic index offset max_bytes (b, some l) =
    let marked = broker_watermark env b topic index (end_offset l) in
    if is_negative offset || ltb_ℤ (end_offset l) offset
    then (marked.0, [], marked.1, some out_of_range)
    else (if eq_ℤ offset (end_offset l)
        then (marked.0, [], marked.1, none)
        else fetch_read marked.0 marked.1 (read l offset max_bytes))

abbrev pub fetch_checked :
    Env
    → Broker
    → List ℕ
    → ℤ
    → ℤ
    → ℤ
    → Option Partition
    → Broker × List Record × ℤ × Option OperationError
fetch_checked env b topic index offset max_bytes none = (b, [], pos 0, some unknown_partition)
fetch_checked env b topic index offset max_bytes (some p) =
    fetch_log env topic index offset max_bytes (open_log env b topic index)

-- `Fetch`
unfoldable pub fetch_op :
    Env → Broker → List ℕ → ℤ → ℤ → ℤ → Broker × List Record × ℤ × Option OperationError
fetch_op env b topic index offset max_bytes =
    fetch_checked env b topic index offset max_bytes (find_partition b topic index)

abbrev pub watermark_at : Env → List ℕ → ℤ → Broker × Option Log → Broker × ℤ
watermark_at env topic index (b, none) = (b, pos 0)
watermark_at env topic index (b, some l) = broker_watermark env b topic index (end_offset l)

-- `highWatermarkOf`
unfoldable pub high_watermark_of : Env → Broker → List ℕ → ℤ → Broker × ℤ
high_watermark_of env b topic index = watermark_at env topic index (open_log env b topic index)

pub record GroupPartitionInfo : Type 0 where
  pub topic : List ℕ
  pub partition : ℤ
  pub committed_offset : ℤ
  pub high_watermark : ℤ
  pub lag : ℤ

-- A negative number counts as 0.
abbrev pub at_least_zero : ℤ → ℤ
at_least_zero n = if is_negative n then pos 0 else n

unfoldable pub group_partition_info :
    Env → Broker → List ℕ → List ℕ → ℤ → Broker × GroupPartitionInfo
group_partition_info env b group topic index =
    let key : Key = record { group = group; topic = topic; partition = index } in
    let committed = Offset.fetch b.offsets key in
    let hw = high_watermark_of env b topic index in
    (
      hw.0,
      record {
        topic = topic;
        partition = index;
        committed_offset = committed;
        high_watermark = hw.1;
        lag = at_least_zero (wrap64 (hw.1 -ℤ at_least_zero committed));
      },
    )

-- `ResetGroupOffset`
unfoldable pub reset_group_offset : Env → Broker → List ℕ → List ℕ → ℤ → ℤ → Broker
reset_group_offset env b group topic index offset = record b {
  offsets =
      Offset.commit b.offsets (record { group = group; topic = topic; partition = index }) offset
        (pos env.now);
}

unfoldable pub contains_int32 : List ℤ → ℤ → Bool
contains_int32 [] want = false
contains_int32 (v ∷ vs) want = eq_ℤ v want || contains_int32 vs want

pub record PartitionInfo : Type 0 where
  pub id : ℤ
  pub leader : ℤ
  pub replicas : List ℤ
  pub isr : List ℤ
  pub start_offset : ℤ
  pub end_offset : ℤ
  pub high_watermark : ℤ

pub record TopicInfo : Type 0 where
  pub name : List ℕ
  pub partitions : List PartitionInfo

abbrev pub offsets_in : Broker × Option Log → Broker × ℤ × ℤ
offsets_in (b, none) = (b, pos 0, pos 0)
offsets_in (b, some l) = (b, start_offset l, end_offset l)

-- The first and the end offset of a partition that the broker keeps, else zeros.
unfoldable pub partition_offsets : Env → Broker → List ℕ → Partition → Broker × ℤ × ℤ
partition_offsets env b topic p =
    if contains_int32 p.replicas b.node_id
    then offsets_in (open_log env b topic p.id)
    else (b, pos 0, pos 0)

abbrev pub live_or : List ℤ → List ℤ → List ℤ
live_or [] known = known
live_or (id ∷ live) known = id ∷ live

abbrev pub isr_with : Env → Broker → List ℕ → Partition → Option Manager.Manager → Broker × List ℤ
isr_with env b topic p none = (b, p.isr)
isr_with env b topic p (some m) =
    let after = in_sync_replicas m topic p.id env.now in
    (record b { replication = some after.0 }, live_or after.1 p.isr)

unfoldable pub partition_info : Env → Broker → List ℕ → Partition → Broker × PartitionInfo
partition_info env b topic p =
    let ends = partition_offsets env b topic p in
    let marked = broker_watermark env ends.0 topic p.id ends.2 in
    let live = isr_with env marked.0 topic p (Broker.replication marked.0) in
    (
      live.0,
      record {
        id = p.id;
        leader = p.leader;
        replicas = p.replicas;
        isr = live.1;
        start_offset = ends.1;
        end_offset = ends.2;
        high_watermark = marked.1;
      },
    )

unfoldable pub partition_infos :
    Env → Broker → List ℕ → List Partition → Broker × List PartitionInfo
partition_infos env b topic [] = (b, [])
partition_infos env b topic (p ∷ ps) =
    let first = partition_info env b topic p in
    let rest = partition_infos env first.0 topic ps in (rest.0, first.1 ∷ rest.1)

unfoldable pub infos_of : Env → Broker → List Topic → Broker × List TopicInfo
infos_of env b [] = (b, [])
infos_of env b (t ∷ ts) =
    let first = partition_infos env b t.name t.partitions in
    let rest = infos_of env first.0 ts in
    (rest.0, record { name = t.name; partitions = first.1 } ∷ rest.1)

-- `TopicInfos`
unfoldable pub topic_infos : Env → Broker → Broker × List TopicInfo
topic_infos env b = infos_of env b (Registry.all b.topics)

pub record BrokerInfo : Type 0 where
  pub node_id : ℤ
  pub host : List ℕ
  pub port : ℤ
  pub controller_id : ℤ

unfoldable pub broker_info : Broker → BrokerInfo
broker_info b = record {
  node_id = b.node_id;
  host = b.host;
  port = b.port;
  controller_id = controller_id b;
}

abbrev pub brokers_known : Broker → Option Membership → List Membership.Broker
brokers_known b none = record { id = b.node_id; host = b.host; port = b.port } ∷ []
brokers_known b (some ms) = Membership.all ms

-- `metadataBrokers`
unfoldable pub metadata_brokers : Broker → List Membership.Broker
metadata_brokers b = brokers_known b b.cluster

pub record PeerReachability : Type 0 where
  pub id : ℤ
  pub alive : Bool

pub record ClusterInfo : Type 0 where
  pub brokers : List BrokerInfo
  pub controller_id : ℤ
  pub self : ℤ
  pub peers : List PeerReachability

unfoldable pub infos_of_brokers : ℤ → List Membership.Broker → List BrokerInfo
infos_of_brokers controller [] = []
infos_of_brokers controller (p ∷ ps) =
    record { node_id = p.id; host = p.host; port = p.port; controller_id = controller }
    ∷ infos_of_brokers controller ps

unfoldable pub reachability : Broker → List Membership.Broker → List PeerReachability
reachability b [] = []
reachability b (p ∷ ps) =
    record { id = p.id; alive = gokaf.Network.Topics.peer_alive b p.id } ∷ reachability b ps

unfoldable pub cluster_info : Broker → ClusterInfo
cluster_info b =
    let info = broker_info b in
    record {
      brokers = infos_of_brokers info.controller_id (metadata_brokers b);
      controller_id = info.controller_id;
      self = b.node_id;
      peers = reachability b (metadata_brokers b);
    }
