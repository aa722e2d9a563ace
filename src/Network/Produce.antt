-- ===== src/Network/Produce.antt =====
-- internal/network/produce.go: appending batches to the logs of partitions that the broker leads.
pub mod Batches
pub mod Appending
use gokaf.Base.{
  ℕ, suc, ◌+◌, ◌*◌, ◌^◌, List, [], ◌∷◌, ◌++◌, Option, none, some, ℤ, pos, negsuc, ◌+ℤ◌, wrap64,
  to_word, of_word, eq_ℤ, is_negative, Bool, true, false, not, ◌||◌, ◌==◌, if◌then◌else◌, ltb,
  length, get_or, drop, pos_part,
}
use gokaf.Protocol.Bytes.{put_be}
use gokaf.Protocol.Types.{
  write_string, write_int16, write_int32, write_int64, write_array_len, read_string, read_int16,
  read_int32, read_bytes,
}
use gokaf.Protocol.Errors.{
  unknown, no_error, unknown_topic_or_partition, not_leader_for_partition, corrupt_message,
  out_of_order_sequence_number, request_timed_out,
}
use gokaf.Protocol.RecordBatch.{record_batch_header_len, word_at}
use gokaf.Storage.Log.{Log, append_with_offset}
use gokaf.Topic.Registry.{Partition}
use gokaf.Producer.{SeqKey, Check, Decision, append_batch}
use gokaf.Producer
use gokaf.Replication.PartitionState.{Waiter}
use gokaf.Replication.Manager.{wait_for_high_watermark, wait_limit, wait_timed_out}
use gokaf.Replication.Manager
use gokaf.Network.Handler.{
  Broker, Env, Handler, ◌>>=◌, return, reading, calling, each, TopicResponse, find_partition,
  open_log, store_log, write_each,
}

pub record ProducePartitionResponse : Type 0 where
  pub index : ℤ
  pub error_code : ℤ
  pub base_offset : ℤ

unfoldable pub valid_record_batch : (List ℕ → ℕ) → List ℕ → Bool
valid_record_batch crc batch =
    if ltb (length batch) record_batch_header_len
    then false
    else (if not (get_or batch 16 0 == 2) then false else crc (drop 21 batch) == word_at 17 4 batch)

-- The callback of `AppendWithOffset`: the offset goes over the batch's first eight bytes.
unfoldable pub stamp : ℤ → List ℕ → List ℕ
stamp offset batch = put_be 8 (to_word (2 ^ 64) offset) ++ drop 8 batch

-- The fields of the header that the check of a producer's sequence takes.
unfoldable pub pid_of : List ℕ → ℤ
pid_of batch = of_word (2 ^ 63) (word_at 43 8 batch)

unfoldable pub base_seq_of : List ℕ → ℤ
base_seq_of batch = of_word (2 ^ 31) (word_at 53 4 batch)

unfoldable pub record_count_of : List ℕ → ℤ
record_count_of batch = of_word (2 ^ 31) (word_at 57 4 batch)

abbrev pub answer : ℤ → ℤ → ℤ → ProducePartitionResponse
answer index code offset = record { index = index; error_code = code; base_offset = offset }

-- The end of a wait: its channel was closed, or its timer fired.
abbrev pub timed_out : Broker → List ℕ → ℤ → ℕ → Option Manager.Manager → Broker
timed_out b topic index waiter none = b
timed_out b topic index waiter (some m) = record b {
  replication = some (wait_timed_out m topic index waiter);
}

abbrev pub wait_ended :
    List ℕ → ℕ → ProducePartitionResponse → Broker × Bool → Broker × ProducePartitionResponse
wait_ended topic waiter r (b, true) = (b, r)
wait_ended topic waiter r (b, false) =
    (timed_out b topic r.index waiter b.replication, record r { error_code = request_timed_out })

-- Either the watermark was there, or the others run until the wait ends.
abbrev pub wait_begun :
    Env
    → List ℕ
    → ℕ
    → ℤ
    → ProducePartitionResponse
    → Broker × Bool
    → Broker × ProducePartitionResponse
wait_begun env topic waiter timeout_ms r (b, true) = (b, r)
wait_begun env topic waiter timeout_ms r (b, false) =
    wait_ended topic waiter r (env.others waiter (wait_limit timeout_ms) b)

abbrev pub wait_with :
    Env
    → Broker
    → List ℕ
    → ℤ
    → ProducePartitionResponse
    → Option Manager.Manager
    → Broker × ProducePartitionResponse
wait_with env b topic timeout r none = (b, r)
wait_with env b topic timeout r (some m) =
    let waiter : Waiter = record { id = b.next_waiter; target = wrap64 (r.base_offset +ℤ pos 1) } in
    let begun = wait_for_high_watermark m topic r.index waiter env.now in
    wait_begun env topic b.next_waiter timeout r
      (record b { replication = some begun.0; next_waiter = suc b.next_waiter }, begun.2)

abbrev pub nanoseconds : ℤ → ℤ
nanoseconds (pos ms) = pos (ms * 1000000)
nanoseconds (negsuc ms) = negsuc 0

-- `waitForAllAcks`, for an answer without an error. Only whether a limit is positive matters of one
-- that is not.
unfoldable pub wait_for_all_acks :
    Env → Broker → List ℕ → ℤ → ℤ → ProducePartitionResponse → Broker × ProducePartitionResponse
wait_for_all_acks env b topic acks timeout_ms r =
    if not (eq_ℤ acks (negsuc 0)) || not (eq_ℤ r.error_code no_error)
    then (b, r)
    else wait_with env b topic (nanoseconds timeout_ms) r b.replication

unfoldable pub append_stamped : List ℕ → Log → Log × Option ℤ
append_stamped batch l = let after = append_with_offset l batch stamp in (after.0, some after.1)

abbrev pub by_decision : ℤ → Check → Decision → ProducePartitionResponse
by_decision index check Decision.append = answer index no_error check.cached_offset
by_decision index check Decision.duplicate = answer index no_error check.cached_offset
by_decision index check Decision.out_of_order = answer index out_of_order_sequence_number (negsuc 0)

abbrev pub if_appended :
    Env
    → Broker
    → List ℕ
    → ℤ
    → ℤ
    → ProducePartitionResponse
    → Decision
    → Broker × ProducePartitionResponse
if_appended env b topic acks timeout r Decision.append =
    wait_for_all_acks env b topic acks timeout r
if_appended env b topic acks timeout r Decision.duplicate = (b, r)
if_appended env b topic acks timeout r Decision.out_of_order = (b, r)

abbrev pub idempotent_checked :
    Env → Broker → List ℕ → ℤ → ℤ → ℤ → Option Check → Broker × ProducePartitionResponse
idempotent_checked env b topic index acks timeout none = (b, answer index unknown (negsuc 0))
idempotent_checked env b topic index acks timeout (some check) =
    if_appended env b topic acks timeout (by_decision index check check.decision) check.decision

-- A batch of a producer with an id: the append runs under the check of its sequence.
unfoldable pub append_idempotent :
    Env → Broker → List ℕ → ℤ → List ℕ → ℤ → ℤ → Log → Broker × ProducePartitionResponse
append_idempotent env b topic index batch acks timeout l =
    let key : SeqKey = record { pid = pid_of batch; topic = topic; partition = index } in
    let after =
      append_batch b.producers key (base_seq_of batch) (record_count_of batch)
        (append_stamped batch) l in
    idempotent_checked env (store_log env (record b { producers = after.0 }) topic index after.1)
      topic index acks timeout after.2

unfoldable pub append_plain :
    Env → Broker → List ℕ → ℤ → List ℕ → ℤ → ℤ → Log → Broker × ProducePartitionResponse
append_plain env b topic index batch acks timeout l =
    let after = append_with_offset l batch stamp in
    wait_for_all_acks env (store_log env b topic index after.0) topic acks timeout
      (answer index no_error after.1)

abbrev pub produce_to :
    Env → List ℕ → ℤ → List ℕ → ℤ → ℤ → Broker × Option Log → Broker × ProducePartitionResponse
produce_to env topic index batch acks timeout (b, none) = (b, answer index unknown (negsuc 0))
produce_to env topic index batch acks timeout (b, some l) =
    if is_negative (pid_of batch)
    then append_plain env b topic index batch acks timeout l
    else append_idempotent env b topic index batch acks timeout l

abbrev pub produce_at :
    Env
    → Broker
    → List ℕ
    → ℤ
    → List ℕ
    → ℤ
    → ℤ
    → Option Partition
    → Broker × ProducePartitionResponse
produce_at env b topic index batch acks timeout none =
    (b, answer index unknown_topic_or_partition (negsuc 0))
produce_at env b topic index batch acks timeout (some p) =
    if not (eq_ℤ p.leader b.node_id)
    then (b, answer index not_leader_for_partition (negsuc 0))
    else (if not (valid_record_batch env.crc batch)
        then (b, answer index corrupt_message (negsuc 0))
        else produce_to env topic index batch acks timeout (open_log env b topic index))

-- `producePartition`
unfoldable pub produce_partition :
    Env → Broker → List ℕ → ℤ → List ℕ → ℤ → ℤ → Broker × ProducePartitionResponse
produce_partition env b topic index batch acks timeout =
    produce_at env b topic index batch acks timeout (find_partition b topic index)

-- A nil slice has no bytes.
abbrev pub or_nil : Option (List ℕ) → List ℕ
or_nil none = []
or_nil (some b) = b

unfoldable pub produce_each : Env → ℤ → ℤ → List ℕ → Handler ProducePartitionResponse
produce_each env acks timeout topic = do
  index ← reading read_int32
  batch ← reading read_bytes
  calling (λ b. produce_partition env b topic index (or_nil batch) acks timeout)

unfoldable pub produce_topic : Env → ℤ → ℤ → Handler (TopicResponse ProducePartitionResponse)
produce_topic env acks timeout = do
  topic ← reading read_string
  partitions ← each (produce_each env acks timeout topic)
  return (record { name = topic; partitions = partitions })

unfoldable pub write_produce_partition : ProducePartitionResponse → List ℕ
write_produce_partition r =
    write_int32 r.index ++ (write_int16 r.error_code ++ write_int64 r.base_offset)

unfoldable pub write_produce_topic : TopicResponse ProducePartitionResponse → List ℕ
write_produce_topic t =
    write_string t.name
    ++ (write_array_len (pos (length t.partitions))
        ++ write_each write_produce_partition t.partitions)

unfoldable pub write_produce_response : List (TopicResponse ProducePartitionResponse) → List ℕ
write_produce_response ts = write_array_len (pos (length ts)) ++ write_each write_produce_topic ts

unfoldable pub handle_produce : Env → Handler (List ℕ)
handle_produce env = do
  acks ← reading read_int16
  timeout ← reading read_int32
  responses ← each (produce_topic env acks timeout)
  return (write_produce_response responses)
