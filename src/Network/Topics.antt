-- ===== src/Network/Topics.antt =====
-- internal/network/create_topics.go, delete_topics.go, apply_topic.go and metadata_record.go: the changes of
-- the registry, with what they do to the metadata log, to the replication and to the peers.
pub mod Creation
pub mod Logged
use gokaf.Base.{
  ℕ, zero, suc, List, [], ◌∷◌, ◌++◌, map, Option, none, some, ℤ, pos, pos_part, ltb_ℤ, leb_ℤ, eq_ℤ,
  Bool, true, not, ◌&&◌, ◌||◌, if◌then◌else◌, length,
}
use mathlib.Core.Option
use gokaf.Protocol.Types.{
  write_string, write_int16, write_array_len, read_string, read_nullable_string, read_int16,
  read_int32,
}
use gokaf.Protocol.Errors.{
  unknown, no_error, invalid_partitions, invalid_replication_factor, topic_already_exists,
  unknown_topic_or_partition, not_controller,
}
use gokaf.Storage.Log.{Log}
use gokaf.Topic.Assign.{assign_replicas}
use gokaf.Topic.Registry.{Registry, RegistryError, Partition, Topic, topic_exists, topic_not_found}
use gokaf.Topic.Registry
use gokaf.Cluster.Membership.{Membership}
use gokaf.Cluster.Membership
use gokaf.Cluster.MetadataLog.{
  RecordType, MetadataRecord, topic_upsert, topic_delete, append_record,
}
use gokaf.Replication.Manager.{start_following, stop_following}
use gokaf.Replication.Manager
use gokaf.Network.TopicCodec.{encode_apply_topic, decode_apply_topic}
use gokaf.Network.Handler.{
  Broker, Env, Handler, ◌>>=◌, return, reading, calling, attempting, each, write_each,
}

abbrev pub or_else : {A : Type 0} → A → Option A → A
or_else a none = a
or_else a (some x) = x

-- `controllerID`
unfoldable pub controller_id : Broker → ℤ
controller_id b = or_else b.node_id b.controller

abbrev pub alive_by : Option (ℤ → Bool) → ℤ → Bool
alive_by none id = true
alive_by (some alive) id = alive id

unfoldable pub peer_alive : Broker → ℤ → Bool
peer_alive b id = if eq_ℤ id b.node_id then true else alive_by b.is_peer_alive id

abbrev pub ids_of : List Membership.Broker → List ℤ
ids_of [] = []
ids_of (p ∷ ps) = p.id ∷ ids_of ps

abbrev pub brokers_with : ℤ → Option Membership → List ℤ
brokers_with self none = self ∷ []
brokers_with self (some ms) = ids_of (Membership.all ms)

unfoldable pub broker_ids : Broker → List ℤ
broker_ids b = brokers_with b.node_id b.cluster

-- The requests of `fanOutTopic`, in order. What comes back changes nothing.
unfoldable pub sends_to :
    Broker → List ℕ → List Membership.Broker → List (Membership.Broker × List ℕ)
sends_to b body [] = []
sends_to b body (p ∷ ps) =
    let rest = sends_to b body ps in
    if eq_ℤ p.id b.node_id || not (peer_alive b p.id) then rest else (p, body) ∷ rest

abbrev pub fan_out_with : Broker → List ℕ → Option Membership → Broker
fan_out_with b body none = b
fan_out_with b body (some ms) = record b { sent = b.sent ++ sends_to b body (Membership.all ms) }

unfoldable pub fan_out_topic : Broker → List ℕ → List Partition → Broker
fan_out_topic b name partitions = fan_out_with b (encode_apply_topic name partitions) b.cluster

abbrev pub follow_with : Env → Broker → Topic → Option Manager.Manager → Broker
follow_with env b t none = b
follow_with env b t (some m) =
    let after = start_following env.log_key env.now m b.logs t in
    record b { replication = some after.0; logs = after.1 }

-- `b.Replication.StartFollowing(t)`, where there is replication.
unfoldable pub follow : Env → Broker → Topic → Broker
follow env b t = follow_with env b t b.replication

unfoldable pub stop_all_following : Manager.Manager → List ℕ → List Partition → Manager.Manager
stop_all_following m name [] = m
stop_all_following m name (p ∷ ps) = stop_all_following (stop_following m name p.id) name ps

abbrev pub stopped_with : List ℕ → List Partition → Option Manager.Manager → Option Manager.Manager
stopped_with name partitions none = none
stopped_with name partitions (some m) = some (stop_all_following m name partitions)

unfoldable pub apply_topic : Env → Broker → List ℕ → List Partition → Broker
apply_topic env b name partitions =
    let t : Topic = record { name = name; partitions = partitions } in
    follow env
      (record b {
        topics = Registry.upsert b.topics t;
        replication = stopped_with name partitions b.replication;
      })
      t

abbrev pub apply_typed : Env → Broker → RecordType → List ℕ → List Partition → Broker
apply_typed env b topic_upsert name partitions = apply_topic env b name partitions
apply_typed env b topic_delete name partitions = record b {
  topics = (Registry.delete b.topics name).0;
}

-- `ApplyMetadataRecord`
unfoldable pub apply_metadata_record : Env → Broker → MetadataRecord → Broker
apply_metadata_record env b r = apply_typed env b r.type r.topic r.partitions

-- The loop of cmd/broker/main.go over the changes that the metadata log replays at the start.
unfoldable pub restore : Env → Broker → List MetadataRecord → Broker
restore env b [] = b
restore env b (r ∷ rs) = restore env (apply_metadata_record env b r) rs

-- A change that the metadata log takes, and then the broker.
unfoldable pub log_change : Env → Broker → Log → MetadataRecord → Broker
log_change env b l r =
    apply_metadata_record env (record b { metadata_log = some (append_record l r).0 }) r

-- The loop of `createTopic` over the partitions, from the id `from` on; `none` is an index out of range.
unfoldable pub partitions_from : ℕ → ℕ → List (List ℤ) → Option (List Partition)
partitions_from from zero rows = some []
partitions_from from (suc n) [] = none
partitions_from from (suc n) ([] ∷ rows) = none
partitions_from from (suc n) ((leader ∷ others) ∷ rows) =
    let p : Partition = record {
      id = pos from;
      leader = leader;
      replicas = leader ∷ others;
      isr = leader ∷ others;
    } in
    Option.map (λ ps. p ∷ ps) (partitions_from (suc from) n rows)

-- `make` of a negative length panics.
unfoldable pub new_partitions : ℤ → List ℤ → ℤ → Option (List Partition)
new_partitions count ids factor =
    Option.bind (assign_replicas count ids factor)
      (λ rows. if ltb_ℤ count (pos 0) then none else partitions_from 0 (pos_part count) rows)

-- The ends of `createTopic`: with a metadata log, by whether the topic is there, and without one.
abbrev pub create_logged : Env → Broker → Log → Topic → Option Topic → Broker × ℤ
create_logged env b l t (some u) = (b, topic_already_exists)
create_logged env b l t none = (
  log_change env b l (record { type = topic_upsert; topic = t.name; partitions = t.partitions }),
  no_error,
)

abbrev pub create_direct :
    Env → Broker → Topic → Bool → Registry × Option RegistryError → Broker × ℤ
create_direct env b t fan_out (topics, some topic_exists) = (b, topic_already_exists)
create_direct env b t fan_out (topics, some topic_not_found) = (b, unknown)
create_direct env b t fan_out (topics, none) =
    let following = follow env (record b { topics = topics }) t in
    (if fan_out then fan_out_topic following t.name t.partitions else following, no_error)

abbrev pub create_with : Env → Broker → Topic → Bool → Option Log → Broker × ℤ
create_with env b t fan_out none = create_direct env b t fan_out (Registry.create b.topics t)
create_with env b t fan_out (some l) = create_logged env b l t (Registry.get b.topics t.name)

-- `createTopic`: `none` is a run-time panic.
unfoldable pub create_topic : Env → List ℕ → ℤ → ℤ → Bool → Broker → Option (Broker × ℤ)
create_topic env name count factor fan_out b =
    if leb_ℤ count (pos 0)
    then some (b, invalid_partitions)
    else (if leb_ℤ factor (pos 0) || ltb_ℤ (pos (length (broker_ids b))) factor
        then some (b, invalid_replication_factor)
        else Option.map
            (λ partitions.
              create_with env b (record { name = name; partitions = partitions }) fan_out
                b.metadata_log)
            (new_partitions count (broker_ids b) factor))

abbrev pub delete_logged : Env → Broker → Log → List ℕ → Option Topic → Broker × ℤ
delete_logged env b l name none = (b, unknown_topic_or_partition)
delete_logged env b l name (some t) =
    (log_change env b l (record { type = topic_delete; topic = name; partitions = [] }), no_error)

abbrev pub delete_direct : Broker → Registry × Option RegistryError → Broker × ℤ
delete_direct b (topics, some topic_not_found) = (b, unknown_topic_or_partition)
delete_direct b (topics, some topic_exists) = (b, unknown)
delete_direct b (topics, none) = (record b { topics = topics }, no_error)

abbrev pub delete_with : Env → Broker → List ℕ → Option Log → Broker × ℤ
delete_with env b name none = delete_direct b (Registry.delete b.topics name)
delete_with env b name (some l) = delete_logged env b l name (Registry.get b.topics name)

unfoldable pub delete_topic : Env → List ℕ → Broker → Broker × ℤ
delete_topic env name b = delete_with env b name b.metadata_log

abbrev pub is_some : {A : Type 0} → Option A → Bool
is_some none = not true
is_some (some a) = true

-- `b.MetadataLog != nil && b.controllerID() != b.NodeID`
unfoldable pub must_refuse : Broker → Bool
must_refuse b = is_some b.metadata_log && not (eq_ℤ (controller_id b) b.node_id)

unfoldable pub create_unless : Env → List ℕ → ℤ → ℤ → Broker → Option (Broker × ℤ)
create_unless env name count factor b =
    if must_refuse b then some (b, not_controller) else create_topic env name count factor true b

unfoldable pub delete_unless : Env → List ℕ → Broker → Broker × ℤ
delete_unless env name b = if must_refuse b then (b, not_controller) else delete_topic env name b
