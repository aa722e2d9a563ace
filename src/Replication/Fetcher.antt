-- ===== src/Replication/Fetcher.antt =====
-- internal/replication/fetcher.go: how a follower copies the log of a leader. The leader's answer to a
-- request is an argument; the ticker and the delay are not modelled.
pub mod Splitting
use gokaf.Base.{
  ℕ, zero, suc, ◌+◌, List, [], ◌∷◌, ◌++◌, Option, none, some, ℤ, pos, negsuc, eq_ℤ, Bool, true,
  false, not, ◌||◌, if◌then◌else◌, ltb, length, take, drop,
}
use gokaf.Protocol.Result.{Result, ok, err, panics, Decoder, ◌>>=◌, return}
use gokaf.Protocol.Types.{
  write_string, write_int32, write_int64, write_array_len, read_string, read_int16, read_int32,
  read_int64, read_array_len, read_bytes,
}
use gokaf.Protocol.RecordBatch.{word_at}
use gokaf.Storage.Log.{Log, append, end_offset}
use gokaf.Cluster.Membership.{Broker}
use gokaf.Faults.{Config, paused}

pub record Fetcher : Type 0 where
  pub topic : List ℕ
  pub partition : ℤ
  pub self_id : ℤ
  pub leader : Broker
  pub max_bytes : ℤ

unfoldable pub build_fetch_request : ℤ → List ℕ → ℤ → ℤ → ℤ → List ℕ
build_fetch_request replica topic partition offset max_bytes =
    write_int32 replica
    ++ (write_int32 (pos 0)
        ++ (write_int32 (pos 1)
            ++ (write_array_len (pos 1)
                ++ (write_string topic
                    ++ (write_array_len (pos 1)
                        ++ (write_int32 partition
                            ++ (write_int64 offset ++ write_int32 max_bytes)))))))

abbrev pub unknown : ℤ
unknown = negsuc 0

-- The end of `parseFetchPartition`, behind the count of the partitions.
unfoldable pub parse_partition : Decoder (Option (List ℕ) × ℤ)
parse_partition = do
  index ← read_int32
  code ← read_int16
  watermark ← read_int64
  batches ← read_bytes
  return (batches, code)

unfoldable pub parse_partitions : ℤ → Decoder (Option (List ℕ) × ℤ)
parse_partitions count = if eq_ℤ count (pos 0) then return (none, unknown) else parse_partition

unfoldable pub parse_topic : Decoder (Option (List ℕ) × ℤ)
parse_topic = do name ← read_string; count ← read_array_len; parse_partitions count

unfoldable pub parse_fetch_partition : Decoder (Option (List ℕ) × ℤ)
parse_fetch_partition = do
  count ← read_array_len
  if eq_ℤ count (pos 0) then return (none, unknown) else parse_topic

-- The loop of `splitBatches`, a round for every batch. `total < 12` cannot be, where an int has 64 bits.
unfoldable pub split_from : ℕ → List ℕ → List (List ℕ)
split_from zero b = []
split_from (suc fuel) b =
    let total = 12 + word_at 8 4 b in
    let rest = split_from fuel (drop total b) in
    if ltb (length b) 12
    then []
    else (if ltb (length b) total || ltb total 12 then [] else take total b ∷ rest)

-- `splitBatches`: every round takes bytes, so the length is fuel enough.
unfoldable pub split_batches : List ℕ → List (List ℕ)
split_batches b = split_from (length b) b

unfoldable pub append_all : Log → List (List ℕ) → Log
append_all l [] = l
append_all l (b ∷ bs) = append_all (append l b).0 bs

-- A nil slice has no bytes.
abbrev pub or_nil : Option (List ℕ) → List ℕ
or_nil none = []
or_nil (some b) = b

-- The end of `fetchOnce`, with the batches and the error code of the leader's answer.
abbrev pub copy_batches : Log → Option (List ℕ) × ℤ → Log
copy_batches l (batches, code) =
    if not (eq_ℤ code (pos 0)) then l else append_all l (split_batches (or_nil batches))

abbrev pub after_parse : Log → Result ((Option (List ℕ) × ℤ) × List ℕ) → Log
after_parse l (ok (answer, rest)) = copy_batches l answer
after_parse l (err e) = l
after_parse l panics = l

abbrev pub after_send : Log → Option (List ℕ) → Log
after_send l none = l
after_send l (some response) = after_parse l (parse_fetch_partition response)

-- `fetchOnce`: `send` is the leader's answer to a request's body, `none` an error of the connection.
unfoldable pub fetch_once : Fetcher → Option Config → (List ℕ → Option (List ℕ)) → Log → Log
fetch_once f faults send l =
    if paused faults
    then l
    else after_send l
        (send (build_fetch_request f.self_id f.topic f.partition (end_offset l) f.max_bytes))
