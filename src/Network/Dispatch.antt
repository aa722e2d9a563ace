-- ===== src/Network/Dispatch.antt =====
-- internal/network/dispatch.go, with the handlers of api_versions.go, find_coordinator.go,
-- init_producer_id.go, ping.go and fetch_metadata_log.go.
pub mod Answers
use gokaf.Base.{
  ℕ, suc, List, [], ◌∷◌, ◌++◌, Option, none, some, ℤ, pos, negsuc, pos_part, eq_ℤ, if◌then◌else◌,
  length,
}
use gokaf.Protocol.Result.{Result, ok, err, panics, dropped_ping, log_failure}
use gokaf.Protocol.Types.{
  write_string, write_bytes, write_int16, write_int32, write_int64, write_array_len, read_string,
  read_nullable_string, read_int32, read_int64,
}
use gokaf.Protocol.Errors.{no_error}
use gokaf.Protocol.Header.{RequestHeader, read_request_header, write_response_header}
use gokaf.Storage.Log.{Log, end_offset}
use gokaf.Producer.{init_producer_id}
use gokaf.Cluster.MetadataLog.{read_raw_from}
use gokaf.Faults.{drop_pings}
use gokaf.Network.Handler.{Broker, Env, Handler, ◌>>=◌, return, reading, calling, write_each}
use gokaf.Network.Produce.{handle_produce}
use gokaf.Network.Fetch.{handle_fetch, handle_list_offsets}
use gokaf.Network.Metadata.{handle_metadata}
use gokaf.Network.TopicRequests.{handle_create_topics, handle_delete_topics, handle_apply_topic}
use gokaf.Network.GroupRequests.{
  handle_join_group, handle_sync_group, handle_heartbeat, handle_leave_group, handle_offset_commit,
  handle_offset_fetch,
}

-- `supportedAPIs`: a key, and the least and the greatest version.
abbrev pub SupportedApi : Type 0
SupportedApi = ℤ × ℤ × ℤ

abbrev pub at_version : ℤ → ℤ → SupportedApi
at_version version key = (key, version, version)

unfoldable pub supported_apis : List SupportedApi
supported_apis =
    at_version (pos 0) (pos 0)
    ∷ at_version (pos 0) (pos 1)
    ∷ at_version (pos 1) (pos 2)
    ∷ at_version (pos 0) (pos 3)
    ∷ at_version (pos 0) (pos 8)
    ∷ at_version (pos 0) (pos 9)
    ∷ at_version (pos 0) (pos 10)
    ∷ at_version (pos 0) (pos 11)
    ∷ at_version (pos 0) (pos 12)
    ∷ at_version (pos 0) (pos 13)
    ∷ at_version (pos 0) (pos 14)
    ∷ at_version (pos 0) (pos 18)
    ∷ at_version (pos 0) (pos 19)
    ∷ at_version (pos 0) (pos 20)
    ∷ at_version (pos 0) (pos 22)
    ∷ []

unfoldable pub write_api : SupportedApi → List ℕ
write_api (key, least, greatest) = write_int16 key ++ (write_int16 least ++ write_int16 greatest)

unfoldable pub handle_api_versions : Handler (List ℕ)
handle_api_versions = return (
    write_int16 (pos 0)
    ++ (write_array_len (pos (length supported_apis)) ++ write_each write_api supported_apis))

unfoldable pub handle_find_coordinator : Handler (List ℕ)
handle_find_coordinator = do
  group ← reading read_string
  calling (λ b. (
    b,
    write_int16 no_error ++ (write_int32 b.node_id ++ (write_string b.host ++ write_int32 b.port)),
  ))

unfoldable pub new_producer : Broker → Broker × (ℤ × ℤ)
new_producer b =
    let made = init_producer_id b.producers in (record b { producers = made.0 }, (made.1, made.2))

unfoldable pub handle_init_producer_id : Handler (List ℕ)
handle_init_producer_id = do
  transactional ← reading read_nullable_string
  timeout ← reading read_int32
  made ← calling new_producer
  return
      (write_int32 (pos 0) ++ (write_int16 no_error ++ (write_int64 made.0 ++ write_int16 made.1)))

unfoldable pub handle_ping : Handler (List ℕ)
handle_ping b s = if drop_pings b.faults then (b, err dropped_ping) else (b, ok ([], s))

unfoldable pub write_payloads : List (List ℕ) → List ℕ
write_payloads ps = write_array_len (pos (length ps)) ++ write_each write_bytes ps

abbrev pub read_payloads : Option (List (List ℕ)) → Handler (List ℕ)
read_payloads none b s = (b, err log_failure)
read_payloads (some ps) b s = (b, ok (write_payloads ps, s))

-- A round for every record of the log is enough.
abbrev pub fetch_log_with : Option Log → Handler (List ℕ)
fetch_log_with none = return (write_array_len (pos 0))
fetch_log_with (some l) = do
  from ← reading read_int64
  read_payloads (read_raw_from (suc (pos_part (end_offset l))) l from)

unfoldable pub handle_fetch_metadata_log : Handler (List ℕ)
handle_fetch_metadata_log b s = fetch_log_with b.metadata_log b s

-- What answers a key that is not in `dispatchTable`.
unfoldable pub handle_unknown : Handler (List ℕ)
handle_unknown = return (write_int16 (negsuc 0))

-- `dispatchTable`
unfoldable pub dispatch_table : Env → RequestHeader → List (ℤ × Handler (List ℕ))
dispatch_table env header =
    (pos 0, handle_produce env)
    ∷ (pos 1, handle_fetch env)
    ∷ (pos 2, handle_list_offsets env)
    ∷ (pos 3, handle_metadata env)
    ∷ (pos 8, handle_offset_commit env)
    ∷ (pos 9, handle_offset_fetch)
    ∷ (pos 10, handle_find_coordinator)
    ∷ (pos 11, handle_join_group env header)
    ∷ (pos 12, handle_heartbeat)
    ∷ (pos 13, handle_leave_group)
    ∷ (pos 14, handle_sync_group env)
    ∷ (pos 18, handle_api_versions)
    ∷ (pos 19, handle_create_topics env)
    ∷ (pos 20, handle_delete_topics env)
    ∷ (pos 22, handle_init_producer_id)
    ∷ (pos 1000, handle_apply_topic env)
    ∷ (pos 1001, handle_ping)
    ∷ (pos 1002, handle_fetch_metadata_log)
    ∷ []

-- A key that the table misses gets the answer of `handle_unknown`.
unfoldable pub find_handler : ℤ → List (ℤ × Handler (List ℕ)) → Handler (List ℕ)
find_handler key [] = handle_unknown
find_handler key (e ∷ es) = if eq_ℤ e.0 key then e.1 else find_handler key es

unfoldable pub handler_of : Env → RequestHeader → ℤ → Handler (List ℕ)
handler_of env header key = find_handler key (dispatch_table env header)

-- The response behind its header.
abbrev pub respond : RequestHeader → Broker × Result (List ℕ × List ℕ) → Broker × Result (List ℕ)
respond header (b, ok (body, rest)) =
    (b, ok (write_response_header (record { correlation_id = header.correlation_id }) ++ body))
respond header (b, err e) = (b, err e)
respond header (b, panics) = (b, panics)

abbrev pub dispatch_with : Env → Broker → Result (RequestHeader × List ℕ) → Broker × Result (List ℕ)
dispatch_with env b (ok (header, body)) =
    respond header (handler_of env header header.api_key b body)
dispatch_with env b (err e) = (b, err e)
dispatch_with env b panics = (b, panics)

-- `Dispatch` up to the frame that it writes: the broker, and the frame's bytes.
unfoldable pub dispatch : Env → Broker → List ℕ → Broker × Result (List ℕ)
dispatch env b payload = dispatch_with env b (read_request_header payload)
