-- ===== src/Network/GroupRequests.antt =====
-- internal/network/join_group.go, sync_group.go, heartbeat.go, leave_group.go, offset_commit.go and
-- offset_fetch.go: the requests of consumer groups.
use gokaf.Base.{ℕ, List, [], ◌∷◌, ◌++◌, Option, none, some, ℤ, pos, length}
use gokaf.Base.Map.{insert}
use gokaf.Protocol.Types.{
  write_string, write_nullable_string, write_bytes, write_int16, write_int32, write_int64,
  write_array_len, read_string, read_nullable_string, read_bytes, read_int32, read_int64,
}
use gokaf.Protocol.Errors.{no_error}
use gokaf.Protocol.Header.{RequestHeader}
use gokaf.Group.State.{
  Protocol, JoinRequest, JoinMember, JoinResult, SyncRequest, SyncResult, Answer, Effect,
  Coordinator, Name-discrete,
}
use gokaf.Group.Joining.{join}
use gokaf.Group.Syncing.{sync, heartbeat}
use gokaf.Group.Leaving.{leave}
use gokaf.Offset.{Key, commit, fetch}
use gokaf.Network.Handler.{
  Broker, Env, Handler, ◌>>=◌, return, reading, calling, each, TopicResponse, write_each,
}

-- A nil slice has no bytes.
abbrev pub or_nil : Option (List ℕ) → List ℕ
or_nil none = []
or_nil (some b) = b

unfoldable pub read_protocol : Handler Protocol
read_protocol = do
  name ← reading read_string
  metadata ← reading read_bytes
  return (record { name = name; metadata = or_nil metadata })

-- What the coordinator did, kept by the broker.
abbrev pub with_groups {ℓ} : {A : Type ℓ} → Broker → Coordinator × List Effect × A → Broker
with_groups b (groups, effects, a) = record b { groups = groups; effects = b.effects ++ effects }

-- `Join`, which waits for its channel's answer.
unfoldable pub join_and_wait : Env → JoinRequest → Broker → Broker × JoinResult
join_and_wait env r b =
    let joining = join env.member_name b.groups r in env.joined joining.2 (with_groups b joining)

unfoldable pub write_join_member : JoinMember → List ℕ
write_join_member m = write_string m.id ++ write_bytes m.metadata

unfoldable pub write_join_result : JoinResult → List ℕ
write_join_result r =
    write_int16 r.error_code
    ++ (write_int32 r.generation_id
        ++ (write_string r.protocol
            ++ (write_string r.leader_id
                ++ (write_string r.member_id
                    ++ (write_array_len (pos (length r.members))
                        ++ write_each write_join_member r.members)))))

unfoldable pub handle_join_group : Env → RequestHeader → Handler (List ℕ)
handle_join_group env header = do
  group ← reading read_string
  timeout ← reading read_int32
  member ← reading read_string
  type ← reading read_string
  protocols ← each read_protocol
  result ← calling (
      join_and_wait env (record {
        group_id = group;
        client_id = or_nil header.client_id;
        session_timeout_ms = timeout;
        member_id = member;
        protocol_type = type;
        protocols = protocols;
      }))
  return (write_join_result result)

unfoldable pub read_assignment : Handler (List ℕ × List ℕ)
read_assignment = do
  member ← reading read_string
  assignment ← reading read_bytes
  return (member, or_nil assignment)

-- The map that the loop of `readSyncGroupAssignments` fills.
unfoldable pub map_of : List (List ℕ × List ℕ) → List (List ℕ × List ℕ) → List (List ℕ × List ℕ)
map_of assignments [] = assignments
map_of assignments (a ∷ as') = map_of (insert Name-discrete a.0 a.1 assignments) as'

abbrev pub wait_for : Env → Broker → Answer → Broker × SyncResult
wait_for env b (Answer.now r) = (b, r)
wait_for env b (Answer.await channel) = env.synced channel b

-- `Sync`, which may wait for its channel's answer.
unfoldable pub sync_and_wait : Env → SyncRequest → Broker → Broker × SyncResult
sync_and_wait env r b =
    let syncing = sync b.groups r in wait_for env (with_groups b syncing) syncing.2

unfoldable pub handle_sync_group : Env → Handler (List ℕ)
handle_sync_group env = do
  group ← reading read_string
  generation ← reading read_int32
  member ← reading read_string
  assignments ← each read_assignment
  result ← calling (
      sync_and_wait env (record {
        group_id = group;
        generation_id = generation;
        member_id = member;
        assignments = map_of [] assignments;
      }))
  return (write_int16 result.error_code ++ write_bytes result.assignment)

unfoldable pub beat : List ℕ → ℤ → List ℕ → Broker → Broker × ℤ
beat group generation member b =
    let after = heartbeat b.groups group generation member in (with_groups b after, after.2)

unfoldable pub handle_heartbeat : Handler (List ℕ)
handle_heartbeat = do
  group ← reading read_string
  generation ← reading read_int32
  member ← reading read_string
  code ← calling (beat group generation member)
  return (write_int16 code)

unfoldable pub leave_now : List ℕ → List ℕ → Broker → Broker × ℤ
leave_now group member b = let after = leave b.groups group member in (with_groups b after, after.2)

unfoldable pub handle_leave_group : Handler (List ℕ)
handle_leave_group = do
  group ← reading read_string
  member ← reading read_string
  code ← calling (leave_now group member)
  return (write_int16 code)

pub record OffsetCommitPartitionResponse : Type 0 where
  pub index : ℤ
  pub error_code : ℤ

pub record OffsetFetchPartitionResponse : Type 0 where
  pub index : ℤ
  pub offset : ℤ
  pub metadata : Option (List ℕ)
  pub error_code : ℤ

abbrev pub offset_key : List ℕ → List ℕ → ℤ → Key
offset_key group topic index = record { group = group; topic = topic; partition = index }

unfoldable pub commit_one : Env → List ℕ → List ℕ → Handler OffsetCommitPartitionResponse
commit_one env group topic = do
  index ← reading read_int32
  offset ← reading read_int64
  metadata ← reading read_nullable_string
  done ← calling (λ b. (
    record b { offsets = commit b.offsets (offset_key group topic index) offset (pos env.now) },
    tt,
  ))
  return (record { index = index; error_code = no_error })

unfoldable pub commit_topic : Env → List ℕ → Handler (TopicResponse OffsetCommitPartitionResponse)
commit_topic env group = do
  topic ← reading read_string
  partitions ← each (commit_one env group topic)
  return (record { name = topic; partitions = partitions })

unfoldable pub write_committed : OffsetCommitPartitionResponse → List ℕ
write_committed r = write_int32 r.index ++ write_int16 r.error_code

unfoldable pub write_committed_topic : TopicResponse OffsetCommitPartitionResponse → List ℕ
write_committed_topic t =
    write_string t.name
    ++ (write_array_len (pos (length t.partitions)) ++ write_each write_committed t.partitions)

unfoldable pub write_offset_commit_response :
    List (TopicResponse OffsetCommitPartitionResponse) → List ℕ
write_offset_commit_response ts =
    write_array_len (pos (length ts)) ++ write_each write_committed_topic ts

unfoldable pub handle_offset_commit : Env → Handler (List ℕ)
handle_offset_commit env = do
  group ← reading read_string
  responses ← each (commit_topic env group)
  return (write_offset_commit_response responses)

unfoldable pub fetch_one : List ℕ → List ℕ → Handler OffsetFetchPartitionResponse
fetch_one group topic = do
  index ← reading read_int32
  offset ← calling (λ b. (b, fetch b.offsets (offset_key group topic index)))
  return (record { index = index; offset = offset; metadata = none; error_code = no_error })

unfoldable pub fetch_offsets : List ℕ → Handler (TopicResponse OffsetFetchPartitionResponse)
fetch_offsets group = do
  topic ← reading read_string
  partitions ← each (fetch_one group topic)
  return (record { name = topic; partitions = partitions })

unfoldable pub write_fetched : OffsetFetchPartitionResponse → List ℕ
write_fetched r =
    write_int32 r.index
    ++ (write_int64 r.offset ++ (write_nullable_string r.metadata ++ write_int16 r.error_code))

unfoldable pub write_fetched_topic : TopicResponse OffsetFetchPartitionResponse → List ℕ
write_fetched_topic t =
    write_string t.name
    ++ (write_array_len (pos (length t.partitions)) ++ write_each write_fetched t.partitions)

unfoldable pub write_offset_fetch_response :
    List (TopicResponse OffsetFetchPartitionResponse) → List ℕ
write_offset_fetch_response ts =
    write_array_len (pos (length ts)) ++ write_each write_fetched_topic ts

unfoldable pub handle_offset_fetch : Handler (List ℕ)
handle_offset_fetch = do
  group ← reading read_string
  responses ← each (fetch_offsets group)
  return (write_offset_fetch_response responses)
