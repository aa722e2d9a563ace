-- ===== src/Network/Fetch.antt =====
-- internal/network/fetch.go and internal/network/list_offsets.go: reading from the logs of partitions.
pub mod Copying
pub mod Requests
use gokaf.Base.{
  ℕ, List, [], ◌∷◌, ◌++◌, Option, none, some, ℤ, pos, negsuc, eq_ℤ, ltb_ℤ, is_negative, Bool, ◌||◌,
  not, if◌then◌else◌, length,
}
use gokaf.Protocol.Types.{
  write_string, write_int16, write_int32, write_int64, write_array_len, write_bytes, read_string,
  read_int32, read_int64,
}
use gokaf.Protocol.Errors.{unknown, no_error, unknown_topic_or_partition, offset_out_of_range}
use gokaf.Storage.Segment.{Record, ReadResult, records, io_failure, out_of_fuel}
use gokaf.Storage.Log.{Log, read, end_offset, start_offset}
use gokaf.Topic.Registry.{Partition}
use gokaf.Replication.Manager.{record_fetch, high_watermark}
use gokaf.Replication.Manager
use gokaf.Network.Handler.{
  Broker, Env, Handler, ◌>>=◌, return, reading, calling, each, TopicResponse, find_partition,
  open_log, write_each,
}

pub record FetchPartitionResponse : Type 0 where
  pub index : ℤ
  pub error_code : ℤ
  pub high_watermark : ℤ
  pub records : List ℕ

unfoldable pub join_record_payloads : List Record → List ℕ
join_record_payloads [] = []
join_record_payloads (r ∷ rs) = r.payload ++ join_record_payloads rs

abbrev pub recorded : Env → Broker → List ℕ → ℤ → ℤ → ℤ → ℤ → Option Manager.Manager → Broker
recorded env b topic index replica offset end none = b
recorded env b topic index replica offset end (some m) = record b {
  replication = some (record_fetch m topic index replica offset end env.now).0;
}

-- A fetch of a replica is one that comes with the id of a broker.
unfoldable pub record_replica : Env → Broker → List ℕ → ℤ → ℤ → ℤ → ℤ → Broker
record_replica env b topic index replica offset end =
    if is_negative replica then b else recorded env b topic index replica offset end b.replication

abbrev pub watermark_with : Env → Broker → List ℕ → ℤ → ℤ → Option Manager.Manager → Broker × ℤ
watermark_with env b topic index end none = (b, end)
watermark_with env b topic index end (some m) =
    let after = high_watermark m topic index end env.now in
    (record b { replication = some after.0 }, after.2)

-- The high watermark of a partition, which is the log's end where there is no replication.
unfoldable pub broker_watermark : Env → Broker → List ℕ → ℤ → ℤ → Broker × ℤ
broker_watermark env b topic index end = watermark_with env b topic index end b.replication

abbrev pub fetched : ℤ → ℤ → ReadResult → FetchPartitionResponse
fetched index hw (ReadResult.records rs) = record {
  index = index;
  error_code = no_error;
  high_watermark = hw;
  records = join_record_payloads rs;
}
fetched index hw io_failure = record {
  index = index;
  error_code = unknown;
  high_watermark = hw;
  records = [];
}
fetched index hw out_of_fuel = record {
  index = index;
  error_code = unknown;
  high_watermark = hw;
  records = [];
}

unfoldable pub fetch_records : Log → ℤ → ℤ → ℤ → ℤ → FetchPartitionResponse
fetch_records l index hw offset max_bytes =
    if is_negative offset || ltb_ℤ (end_offset l) offset
    then record {
      index = index;
      error_code = offset_out_of_range;
      high_watermark = hw;
      records = [];
    }
    else (if eq_ℤ offset (end_offset l)
        then record { index = index; error_code = no_error; high_watermark = hw; records = [] }
        else fetched index hw (read l offset max_bytes))

abbrev pub fetch_from :
    Env → ℤ → List ℕ → ℤ → ℤ → ℤ → Broker × Option Log → Broker × FetchPartitionResponse
fetch_from env replica topic index offset max_bytes (b, none) =
    (b, record { index = index; error_code = unknown; high_watermark = pos 0; records = [] })
fetch_from env replica topic index offset max_bytes (b, some l) =
    let seen = record_replica env b topic index replica offset (end_offset l) in
    let marked = broker_watermark env seen topic index (end_offset l) in
    (marked.0, fetch_records l index marked.1 offset max_bytes)

abbrev pub fetch_at :
    Env → Broker → ℤ → List ℕ → ℤ → ℤ → ℤ → Option Partition → Broker × FetchPartitionResponse
fetch_at env b replica topic index offset max_bytes none = (
  b,
  record {
    index = index;
    error_code = unknown_topic_or_partition;
    high_watermark = pos 0;
    records = [];
  },
)
fetch_at env b replica topic index offset max_bytes (some p) =
    fetch_from env replica topic index offset max_bytes (open_log env b topic index)

-- `fetchPartition`
unfoldable pub fetch_partition :
    Env → Broker → ℤ → List ℕ → ℤ → ℤ → ℤ → Broker × FetchPartitionResponse
fetch_partition env b replica topic index offset max_bytes =
    fetch_at env b replica topic index offset max_bytes (find_partition b topic index)

unfoldable pub fetch_each : Env → ℤ → List ℕ → Handler FetchPartitionResponse
fetch_each env replica topic = do
  index ← reading read_int32
  offset ← reading read_int64
  max_bytes ← reading read_int32
  calling (λ b. fetch_partition env b replica topic index offset max_bytes)

unfoldable pub fetch_topic : Env → ℤ → Handler (TopicResponse FetchPartitionResponse)
fetch_topic env replica = do
  topic ← reading read_string
  partitions ← each (fetch_each env replica topic)
  return (record { name = topic; partitions = partitions })

unfoldable pub write_fetch_partition : FetchPartitionResponse → List ℕ
write_fetch_partition r =
    write_int32 r.index
    ++ (write_int16 r.error_code ++ (write_int64 r.high_watermark ++ write_bytes r.records))

unfoldable pub write_fetch_topic : TopicResponse FetchPartitionResponse → List ℕ
write_fetch_topic t =
    write_string t.name
    ++ (write_array_len (pos (length t.partitions))
        ++ write_each write_fetch_partition t.partitions)

unfoldable pub write_fetch_response : List (TopicResponse FetchPartitionResponse) → List ℕ
write_fetch_response ts = write_array_len (pos (length ts)) ++ write_each write_fetch_topic ts

unfoldable pub handle_fetch : Env → Handler (List ℕ)
handle_fetch env = do
  replica ← reading read_int32
  max_wait ← reading read_int32
  min_bytes ← reading read_int32
  responses ← each (fetch_topic env replica)
  return (write_fetch_response responses)

pub record ListOffsetsPartitionResponse : Type 0 where
  pub index : ℤ
  pub error_code : ℤ
  pub timestamp : ℤ
  pub offset : ℤ

abbrev pub listed : ℤ → ℤ → ℤ → ListOffsetsPartitionResponse
listed index code offset = record {
  index = index;
  error_code = code;
  timestamp = negsuc 0;
  offset = offset;
}

-- The latest offset is asked for by -1; every other timestamp gets the first one.
abbrev pub list_from : ℤ → ℤ → Broker × Option Log → Broker × ListOffsetsPartitionResponse
list_from index timestamp (b, none) = (b, listed index unknown (negsuc 0))
list_from index timestamp (b, some l) =
    (b, listed index no_error (if eq_ℤ timestamp (negsuc 0) then end_offset l else start_offset l))

abbrev pub list_at :
    Env → Broker → List ℕ → ℤ → ℤ → Option Partition → Broker × ListOffsetsPartitionResponse
list_at env b topic index timestamp none = (b, listed index unknown_topic_or_partition (negsuc 0))
list_at env b topic index timestamp (some p) =
    list_from index timestamp (open_log env b topic index)

-- `listOffset`
unfoldable pub list_offset : Env → Broker → List ℕ → ℤ → ℤ → Broker × ListOffsetsPartitionResponse
list_offset env b topic index timestamp =
    list_at env b topic index timestamp (find_partition b topic index)

unfoldable pub list_each : Env → List ℕ → Handler ListOffsetsPartitionResponse
list_each env topic = do
  index ← reading read_int32
  timestamp ← reading read_int64
  calling (λ b. list_offset env b topic index timestamp)

unfoldable pub list_topic : Env → Handler (TopicResponse ListOffsetsPartitionResponse)
list_topic env = do
  topic ← reading read_string
  partitions ← each (list_each env topic)
  return (record { name = topic; partitions = partitions })

unfoldable pub write_listed : ListOffsetsPartitionResponse → List ℕ
write_listed r =
    write_int32 r.index
    ++ (write_int16 r.error_code ++ (write_int64 r.timestamp ++ write_int64 r.offset))

unfoldable pub write_listed_topic : TopicResponse ListOffsetsPartitionResponse → List ℕ
write_listed_topic t =
    write_string t.name
    ++ (write_array_len (pos (length t.partitions)) ++ write_each write_listed t.partitions)

unfoldable pub write_list_offsets_response :
    List (TopicResponse ListOffsetsPartitionResponse) → List ℕ
write_list_offsets_response ts =
    write_array_len (pos (length ts)) ++ write_each write_listed_topic ts

unfoldable pub handle_list_offsets : Env → Handler (List ℕ)
handle_list_offsets env = do
  replica ← reading read_int32
  responses ← each (list_topic env)
  return (write_list_offsets_response responses)
