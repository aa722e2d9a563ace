-- ===== src/Runs/Network.antt =====
-- Examples of the broker's handlers and of how brokers copy from each other.
use gokaf.Base.{
  ap, get_or, ℕ, ◌++◌, ◌^◌, ◌<◌, ◌≡◌, refl, List, [], ◌∷◌, none, some, ℤ, pos, true, length, arith,
}
use mathlib.Core.Option
use gokaf.Storage.Log.{open_empty}
use gokaf.Storage.Log.Invariant.{open_empty-Holds}
use gokaf.Topic.Registry.{Partition, Topic}
use gokaf.Cluster.Membership.{Membership}
use gokaf.Cluster.MetadataLog.{
  MetadataRecord, topic_upsert, topic_delete, encode_metadata_record, append_record, replay_all,
  type_code, write_upsert,
}
use gokaf.Cluster.MetadataLog.RoundTrip.{FitsMetadata}
use gokaf.Replication.Manager.{
  Section, stop, take_lead, run_sections, follow_sections, partition_sections, lead_sections,
  contains_broker,
}
use gokaf.Replication.Manager.Interleaving.{
  ended, left, right, Call, Runs, no_calls, with_call, start_following-IsExclusive,
}
use gokaf.Replication.Manager.Roles.{IsExclusive, new_manager-IsExclusive}
use gokaf.Replication.Manager
use gokaf.Network.Handler.{Broker, Env}
use gokaf.Network.Topics.{log_change, restore, create_topic, create_unless, new_partitions}
use gokaf.Network.Topics.Logged.{IsLogged, log_change-IsLogged, restore-IsLogged}
use gokaf.Network.Topics.Creation.{AllNew, new_partitions-AllNew, create_topic-answers}
use gokaf.Protocol.Header.{RequestHeader, write_request_header}
use gokaf.Network.Dispatch.{handle_api_versions, dispatch}
use gokaf.Network.Dispatch.Answers.{Answered, api_versions_request, dispatch-write_request_header}
use gokaf.Network.Failover.{reassign}
use gokaf.Network.Failover.Election.{Reassigned, reassign-Reassigned}
use gokaf.Network.Operations.{create_topic_op}
use gokaf.Network.Operations.Errors.{on_wire, create_topic_op-wire}

-- A checksum, names and waits that are enough for the examples.
abbrev pub env : Env
env = record {
  crc = λ bytes. length bytes;
  log_key = λ topic index. topic;
  now = 0;
  others = λ waiter limit b. (b, true);
  member_name = λ name n. name;
  joined = λ channel b. (
    b,
    record {
      generation_id = pos 1;
      protocol = [];
      leader_id = [];
      member_id = [];
      members = [];
      error_code = pos 0;
    },
  );
  synced = λ channel b. (b, record { assignment = []; error_code = pos 0 });
}

abbrev pub members : Membership
members = record {
  self = pos 1;
  brokers =
      record { id = pos 1; host = []; port = pos 1 }
      ∷ record { id = pos 2; host = []; port = pos 2 }
      ∷ [];
}

-- Broker 1, which has nothing yet; broker 2 is the controller.
abbrev pub fresh : Broker
fresh = record {
  node_id = pos 1;
  host = [];
  port = pos 1;
  topics = [];
  logs = record { on_disk = λ dir. []; logs = [] };
  groups = record { groups = []; next_member_seq = pos 0; next_channel = 0 };
  offsets = record { log = open_empty; offsets = [] };
  producers = record { next_pid = pos 0; seqs = [] };
  cluster = some members;
  replication = none;
  is_peer_alive = none;
  controller = some (pos 2);
  metadata_log = some open_empty;
  faults = none;
  sent = [];
  next_waiter = 0;
  effects = [];
}

abbrev pub first : Partition
first = record {
  id = pos 0;
  leader = pos 1;
  replicas = pos 1 ∷ pos 2 ∷ [];
  isr = pos 1 ∷ pos 2 ∷ [];
}

abbrev pub t_topic : Topic
t_topic = record { name = 116 ∷ []; partitions = first ∷ [] }

abbrev pub upsert_t : MetadataRecord
upsert_t = record { type = topic_upsert; topic = 116 ∷ []; partitions = first ∷ [] }

pub upsert_t-FitsMetadata : FitsMetadata upsert_t
upsert_t-FitsMetadata = record {
  topic = omega arith;
  change = (
    omega arith,
    (
      record {
        id = omega arith;
        leader = omega arith;
        replicas = (omega arith, (omega arith, (omega arith, tt)));
        isr = (omega arith, (omega arith, (omega arith, tt)));
      },
      tt,
    ),
  );
}

pub upsert_t-small : length (encode_metadata_record upsert_t) < 2 ^ 31
unfolding encode_metadata_record write_upsert gokaf.Cluster.MetadataLog.write_partitions
    gokaf.Cluster.MetadataLog.write_partition gokaf.Cluster.MetadataLog.write_metadata_ids
    gokaf.Cluster.MetadataLog.write_metadata_id_list gokaf.Protocol.Types.write_array_len
    gokaf.Protocol.Types.write_int32 gokaf.Protocol.Types.write_int8
    gokaf.Protocol.Types.write_int16 gokaf.Protocol.Types.write_string
upsert_t-small = omega arith

pub fresh-IsLogged : IsLogged fresh open_empty []
fresh-IsLogged = record { log = refl; holds = open_empty-Holds; topics = refl }

log_change-IsLogged_example :
    IsLogged
      (log_change env fresh open_empty upsert_t)
      (append_record open_empty upsert_t).0
      (upsert_t ∷ [])
log_change-IsLogged_example =
    log_change-IsLogged env fresh open_empty [] upsert_t fresh-IsLogged
      (omega (arith, upsert_t-small)) (omega arith)

-- Broker 2 after it put the change in its log.
abbrev pub controller : Broker
controller = log_change env fresh open_empty upsert_t

pub controller-IsLogged : IsLogged controller (append_record open_empty upsert_t).0 (upsert_t ∷ [])
controller-IsLogged =
    log_change-IsLogged env fresh open_empty [] upsert_t fresh-IsLogged
      (omega (arith, upsert_t-small)) (omega arith)

restore-IsLogged_example :
    Option.map
      (λ changes. Broker.topics (restore env fresh changes))
      (replay_all 2 (append_record open_empty upsert_t).0)
    ≡ some (Broker.topics controller)
restore-IsLogged_example =
    restore-IsLogged env controller fresh (append_record open_empty upsert_t).0 (upsert_t ∷ [])
      controller-IsLogged (upsert_t-FitsMetadata, tt) (omega arith) refl

reassign-Reassigned_example : Reassigned fresh (pos 1) first (reassign fresh (pos 1) first)
reassign-Reassigned_example = reassign-Reassigned fresh (pos 1) first

create_topic_op-wire_example :
    Option.map on_wire (create_topic_op env fresh (116 ∷ []) (pos 1) (pos 2))
    ≡ create_unless env (116 ∷ []) (pos 1) (pos 2) fresh
create_topic_op-wire_example = create_topic_op-wire env fresh (116 ∷ []) (pos 1) (pos 2)

create_topic-answers_example :
    (r : Broker × ℤ) × (create_topic env (116 ∷ []) (pos 1) (pos 2) true fresh ≡ some r)
create_topic-answers_example = create_topic-answers env (116 ∷ []) (pos 1) (pos 2) true fresh

new_partitions-AllNew_example :
    (ps : List Partition) × (new_partitions (pos 3) (pos 1 ∷ pos 2 ∷ []) (pos 2) ≡ some ps)
    × (length ps ≡ 3)
    × AllNew 0 2 ps
new_partitions-AllNew_example =
    new_partitions-AllNew 3 2 (pos 1 ∷ pos 2 ∷ []) (omega arith) (omega arith) (omega arith)

abbrev manager : Manager.Manager
manager = Manager.new_manager (pos 1) members

-- A topic whose partition this broker leads as well.
abbrev u_topic : Topic
u_topic = record { name = 117 ∷ []; partitions = first ∷ [] }

abbrev calls : List Call
calls =
    record { now = 0; logs = Broker.logs fresh; topic = t_topic }
    ∷ record { now = 1; logs = Broker.logs fresh; topic = u_topic }
    ∷ []

-- Each call gives up its fetcher before either takes its lead.
abbrev sections : List Section
sections =
    stop (record { topic = 116 ∷ []; partition = pos 0 })
    ∷ stop (record { topic = 117 ∷ []; partition = pos 0 })
    ∷ take_lead (record { topic = 116 ∷ []; partition = pos 0 }) (pos 1 ∷ pos 2 ∷ []) 0
    ∷ take_lead (record { topic = 117 ∷ []; partition = pos 0 }) (pos 1 ∷ pos 2 ∷ []) 1
    ∷ []

sections-Runs : Runs (λ topic index. topic) (pos 1) members calls sections
unfolding follow_sections partition_sections lead_sections contains_broker
sections-Runs =
    with_call (with_call no_calls (left (left ended))) (left (right (left (right ended))))

u-t : ¬ Path (List ℕ) (117 ∷ []) (116 ∷ [])
u-t p = omega (arith, ap (λ xs. get_or xs 0 0) p)

start_following-IsExclusive_example : IsExclusive (run_sections manager sections)
unfolding Manager.new_manager
start_following-IsExclusive_example =
    start_following-IsExclusive (λ topic index. topic) manager calls sections ((u-t, tt), (tt, tt))
      sections-Runs (new_manager-IsExclusive (pos 1) members)

abbrev versions_header : RequestHeader
versions_header = record {
  api_key = pos 18;
  api_version = pos 0;
  correlation_id = pos 7;
  client_id = some (104 ∷ 105 ∷ []);
}

dispatch-write_request_header_example :
    Answered
      (pos 7)
      (handle_api_versions fresh [])
      (dispatch env fresh (write_request_header versions_header ++ []))
dispatch-write_request_header_example =
    dispatch-write_request_header env fresh versions_header [] (some api_versions_request)
      (record {
        api_key = omega arith;
        api_version = omega arith;
        correlation_id = omega arith;
        client_id = omega arith;
      })
      refl
