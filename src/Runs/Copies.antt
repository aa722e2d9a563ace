-- ===== src/Runs/Copies.antt =====
-- Examples of batches that are produced, and of logs that are copied from broker to broker.
use gokaf.Base.{
  ℕ, ◌<◌, ◌≡◌, refl, sym, ap, IsInt64, List, [], ◌∷◌, ◌++◌, none, some, pos, eq_ℤ, is_negative,
  true, false, length, arith,
}
use gokaf.Base.Map.{lookup, lookup-insert_self}
use gokaf.Topic.Registry
use gokaf.Topic.Registry.{get, upsert}
use gokaf.Faults.{paused}
use gokaf.Storage.LogManager
use gokaf.Storage.LogManager.{Name-discrete, put_log, new_manager}
use gokaf.Storage.Log.{Log, open_empty, append, end_offset}
use gokaf.Storage.Log.Invariant.{Holds, open_empty-Holds, append-Holds}
use gokaf.Replication.Fetcher.{Fetcher, fetch_once}
use gokaf.Network.Handler.{answer_of, Broker, partition_at, find_partition}
use gokaf.Network.Fetch.{handle_fetch, broker_watermark, record_replica}
use mathlib.Core.Path.{subst}
use gokaf.Network.Fetch.Copying.{end_offset-Holds}
use gokaf.Network.Fetch.Requests.{FitsRequest, told_watermark, handle_fetch-Copies}
use gokaf.Network.Produce.{
  answer, valid_record_batch, stamp, pid_of, base_seq_of, record_count_of, produce_partition,
}
use gokaf.Network.Produce.Batches.{valid_record_batch-stamp}
use gokaf.Network.Produce.Appending.{Grown, produce_partition-Grown}
use gokaf.Network.Dispatch.{handle_fetch_metadata_log}
use gokaf.Network.MetadataFollower.{find_controller, pull}
use gokaf.Network.Topics.{controller_id}
use gokaf.Network.MetadataFollower.CatchUp.{pull-IsLogged}
use gokaf.Network.Topics.Logged.{IsLogged}
use gokaf.Cluster.MetadataLog.{append_record}
use gokaf.Runs.Network.{
  env, members, fresh, first, t_topic, upsert_t, controller, upsert_t-FitsMetadata, upsert_t-small,
  fresh-IsLogged, controller-IsLogged,
}

-- Twelve bytes of which the last four say that nothing follows.
abbrev small_batch : List ℕ
small_batch = 0 ∷ 0 ∷ 0 ∷ 0 ∷ 0 ∷ 0 ∷ 0 ∷ 0 ∷ 0 ∷ 0 ∷ 0 ∷ 0 ∷ []

abbrev leader_log : Log
leader_log = (append open_empty small_batch).0

leader_log-Holds : Holds leader_log ([] ++ (small_batch ∷ []))
leader_log-Holds =
    (append-Holds open_empty [] small_batch open_empty-Holds (omega arith) (omega arith)).0

abbrev follower : Fetcher
follower = record {
  topic = 116 ∷ [];
  partition = pos 0;
  self_id = pos 2;
  leader = record { id = pos 1; host = []; port = pos 1 };
  max_bytes = pos 1048576;
}

not_paused : paused none ≡ false
unfolding paused
not_paused = refl

-- Broker 1 with the topic t, whose log has the batch.
abbrev serving : Broker
serving = record fresh {
  topics = upsert [] t_topic;
  logs = put_log (new_manager (λ dir. [])) (116 ∷ []) leader_log;
}

serving-found : find_partition serving (116 ∷ []) (pos 0) ≡ some first
unfolding find_partition get upsert
serving-found =
    ap (λ t. partition_at t (pos 0))
      (lookup-insert_self Registry.Name-discrete (116 ∷ []) t_topic [])

serving-opened :
    lookup Name-discrete (116 ∷ []) (LogManager.Manager.logs serving.logs) ≡ some leader_log
unfolding put_log new_manager
serving-opened = lookup-insert_self Name-discrete (116 ∷ []) leader_log []

serving-watermark :
    IsInt64
      (told_watermark env serving leader_log (pos 2) (116 ∷ []) (pos 0) (end_offset open_empty))
unfolding broker_watermark record_replica
serving-watermark =
    subst IsInt64 (sym (end_offset-Holds leader_log ([] ++ (small_batch ∷ [])) leader_log-Holds))
      (omega arith)

follower-FitsRequest : FitsRequest (pos 2) (116 ∷ []) (pos 0) (end_offset open_empty) (pos 1048576)
follower-FitsRequest = record {
  replica_fits = omega arith;
  topic_fits = omega arith;
  index_fits = omega arith;
  offset_fits = subst IsInt64 (sym (end_offset-Holds open_empty [] open_empty-Holds)) (omega arith);
  max_bytes_fits = omega arith;
}

handle_fetch-Copies_example :
    (front : List (List ℕ)) × (behind : List (List ℕ)) × ((small_batch ∷ []) ≡ front ++ behind)
    × (0 < length (small_batch ∷ []) → 0 < length front)
    × Holds
        (fetch_once follower none (λ body. answer_of (handle_fetch env serving body)) open_empty)
        ([] ++ front)
handle_fetch-Copies_example =
    handle_fetch-Copies follower none env serving first leader_log open_empty [] (small_batch ∷ [])
      not_paused serving-found serving-opened leader_log-Holds open_empty-Holds
      (record { long = omega arith; total = refl }, tt) (omega arith) (omega arith)
      follower-FitsRequest serving-watermark

not_controller : eq_ℤ (controller_id fresh) (pos 1) ≡ false
unfolding controller_id
not_controller = refl

known :
    find_controller (some members) (controller_id fresh)
    ≡ some (record { id = pos 2; host = []; port = pos 2 })
unfolding controller_id gokaf.Cluster.Membership.get gokaf.Cluster.Membership.find_broker
known = refl

pull-IsLogged_example :
    (l' : Log) × IsLogged
      (pull env (λ to body. answer_of (handle_fetch_metadata_log controller body)) fresh)
      l'
      ([] ++ (upsert_t ∷ []))
    × (Broker.topics
          (pull env (λ to body. answer_of (handle_fetch_metadata_log controller body)) fresh)
        ≡ Broker.topics controller)
pull-IsLogged_example =
    pull-IsLogged env fresh controller (record { id = pos 2; host = []; port = pos 2 }) open_empty
      (append_record open_empty upsert_t).0 [] (upsert_t ∷ []) fresh-IsLogged controller-IsLogged
      not_controller known ((upsert_t-FitsMetadata, upsert_t-small), tt) (omega arith) (omega arith)

-- Broker 1 with the topic t, whose partition it leads, and an open log of it.
abbrev leading : Broker
leading = record fresh {
  topics = upsert [] t_topic;
  logs = put_log (new_manager (λ dir. [])) (116 ∷ []) open_empty;
}

-- The header of a batch without records; the checksum of the examples is a length.
abbrev batch : List ℕ
batch =
    0 ∷ 0 ∷ 0 ∷ 0 ∷ 0 ∷ 0 ∷ 0 ∷ 0 ∷ 0 ∷ 0 ∷ 0 ∷ 49 ∷ 0 ∷ 0 ∷ 0 ∷ 0 ∷ 2 ∷ 0 ∷ 0 ∷ 0 ∷ 40 ∷ 0 ∷ 0 ∷ 0
    ∷ 0 ∷ 0 ∷ 0 ∷ 0 ∷ 0 ∷ 0 ∷ 0 ∷ 0 ∷ 0 ∷ 0 ∷ 0 ∷ 0 ∷ 0 ∷ 0 ∷ 0 ∷ 0 ∷ 0 ∷ 0 ∷ 0 ∷ 255 ∷ 255 ∷ 255
    ∷ 255 ∷ 255 ∷ 255 ∷ 255 ∷ 255 ∷ 255 ∷ 255 ∷ 255 ∷ 255 ∷ 255 ∷ 255 ∷ 0 ∷ 0 ∷ 0 ∷ 0 ∷ []

valid_record_batch-stamp_example :
    (valid_record_batch (λ bytes. length bytes) (stamp (pos 5) batch)
      ≡ valid_record_batch (λ bytes. length bytes) batch)
    × (length (stamp (pos 5) batch) ≡ length batch)
    × (pid_of (stamp (pos 5) batch) ≡ pid_of batch)
    × (base_seq_of (stamp (pos 5) batch) ≡ base_seq_of batch)
    × (record_count_of (stamp (pos 5) batch) ≡ record_count_of batch)
valid_record_batch-stamp_example =
    valid_record_batch-stamp (λ bytes. length bytes) (pos 5) batch (omega arith)

found : find_partition leading (116 ∷ []) (pos 0) ≡ some first
unfolding find_partition get upsert
found =
    ap (λ t. partition_at t (pos 0))
      (lookup-insert_self Registry.Name-discrete (116 ∷ []) t_topic [])

valid : valid_record_batch (λ bytes. length bytes) batch ≡ true
unfolding valid_record_batch
valid = refl

opened : lookup Name-discrete (116 ∷ []) (LogManager.Manager.logs leading.logs) ≡ some open_empty
unfolding put_log new_manager
opened = lookup-insert_self Name-discrete (116 ∷ []) open_empty []

plain : is_negative (pid_of batch) ≡ true
unfolding pid_of
plain = refl

produce_partition-Grown_example :
    ((produce_partition env leading (116 ∷ []) (pos 0) batch (pos 1) (pos 0)).1
      ≡ answer (pos 0) (pos 0) (pos 0))
    × Grown leading
        (produce_partition env leading (116 ∷ []) (pos 0) batch (pos 1) (pos 0)).0
        (116 ∷ [])
        ([] ++ (stamp (pos 0) batch ∷ []))
produce_partition-Grown_example =
    produce_partition-Grown env leading (116 ∷ []) (pos 0) batch (pos 1) (pos 0) first open_empty []
      found refl valid opened plain refl open_empty-Holds (omega arith) (omega arith)
