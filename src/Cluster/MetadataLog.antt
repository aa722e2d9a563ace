-- ===== src/Cluster/MetadataLog.antt =====
-- internal/cluster/metadatalog.go: the changes of topics as records of a log.
pub mod RoundTrip
pub mod Reading
use gokaf.Base.{
  ℕ, zero, suc, List, [], ◌∷◌, ◌++◌, map, Option, none, some, ℤ, pos, negsuc, ◌+ℤ◌, wrap64, eq_ℤ,
  Bool, not, ◌&&◌, if◌then◌else◌, length,
}
use mathlib.Core.Option
use gokaf.Protocol.Result.{
  Result, ok, err, panics, Decoder, ◌>>=◌, return, fail, unknown_record_type,
}
use gokaf.Protocol.Types.{
  write_int8, write_string, write_array_len, write_int32, read_int8, read_string, read_int32,
  read_array,
}
use gokaf.Storage.Segment.{Record, ReadResult, records, io_failure, out_of_fuel}
use gokaf.Storage.Log.{Log, append, read, end_offset}
use gokaf.Topic.Registry.{Partition}

pub data RecordType : Type 0 where
  topic_upsert topic_delete : RecordType

pub record MetadataRecord : Type 0 where
  pub type : RecordType
  pub topic : List ℕ
  pub partitions : List Partition

unfoldable pub write_metadata_id_list : List ℤ → List ℕ
write_metadata_id_list [] = []
write_metadata_id_list (id ∷ ids) = write_int32 id ++ write_metadata_id_list ids

unfoldable pub write_metadata_ids : List ℤ → List ℕ
write_metadata_ids ids = write_array_len (pos (length ids)) ++ write_metadata_id_list ids

unfoldable pub write_partition : Partition → List ℕ
write_partition p =
    write_int32 p.id
    ++ (write_int32 p.leader ++ (write_metadata_ids p.replicas ++ write_metadata_ids p.isr))

unfoldable pub write_partitions : List Partition → List ℕ
write_partitions [] = []
write_partitions (p ∷ ps) = write_partition p ++ write_partitions ps

abbrev pub type_code : RecordType → ℤ
type_code topic_upsert = pos 0
type_code topic_delete = pos 1

abbrev pub write_upsert : RecordType → List Partition → List ℕ
write_upsert topic_upsert ps = write_array_len (pos (length ps)) ++ write_partitions ps
write_upsert topic_delete ps = []

unfoldable pub encode_metadata_record : MetadataRecord → List ℕ
encode_metadata_record r =
    write_int8 (type_code r.type) ++ (write_string r.topic ++ write_upsert r.type r.partitions)

unfoldable pub read_metadata_ids : Decoder (List ℤ)
read_metadata_ids = read_array read_int32

unfoldable pub read_partition : Decoder Partition
read_partition = do
  id ← read_int32
  leader ← read_int32
  replicas ← read_metadata_ids
  isr ← read_metadata_ids
  return (record { id = id; leader = leader; replicas = replicas; isr = isr })

-- The decoder behind a type that is known.
unfoldable pub read_record_of : RecordType → Decoder MetadataRecord
read_record_of topic_upsert = do
  topic ← read_string
  partitions ← read_array read_partition
  return (record { type = topic_upsert; topic = topic; partitions = partitions })
read_record_of topic_delete = do
  topic ← read_string
  return (record { type = topic_delete; topic = topic; partitions = [] })

abbrev pub read_typed : ℤ → Decoder MetadataRecord
read_typed (pos zero) = read_record_of topic_upsert
read_typed (pos (suc zero)) = read_record_of topic_delete
read_typed (pos (suc (suc n))) = fail (unknown_record_type (pos (suc (suc n))))
read_typed (negsuc n) = fail (unknown_record_type (negsuc n))

unfoldable pub read_metadata_record : Decoder MetadataRecord
read_metadata_record = do type ← read_int8; read_typed type

abbrev pub decoded {ℓ} : {A : Type ℓ} → Result (A × List ℕ) → Option A
decoded (ok (a, rest)) = some a
decoded (err e) = none
decoded panics = none

-- `none` is an error, or a panic on a negative count.
unfoldable pub decode_metadata_record : List ℕ → Option MetadataRecord
decode_metadata_record payload = decoded (read_metadata_record payload)

-- `Append` and `AppendRaw`
unfoldable pub append_record : Log → MetadataRecord → Log × ℤ
append_record l r = append l (encode_metadata_record r)

unfoldable pub append_raw : Log → List ℕ → Log × ℤ
append_raw l payload = append l payload

-- `next` behind the records that were read.
abbrev pub next_behind : ℤ → List Record → ℤ
next_behind next [] = next
next_behind next (r ∷ rs) = next_behind (wrap64 (r.offset +ℤ pos 1)) rs

abbrev pub payloads_of : List Record → List (List ℕ)
payloads_of [] = []
payloads_of (r ∷ rs) = r.payload ∷ payloads_of rs

abbrev pub after_raw : ReadResult → ℤ → (ℤ → Option (List (List ℕ))) → Option (List (List ℕ))
after_raw (records []) next more = some []
after_raw (records (r ∷ rs)) next more =
    Option.map (λ ps. payloads_of (r ∷ rs) ++ ps) (more (next_behind next (r ∷ rs)))
after_raw io_failure next more = none
after_raw out_of_fuel next more = none

-- `ReadRawFrom`, a round for every read; `none` is an error, or fuel that is used up.
unfoldable pub read_raw_from : ℕ → Log → ℤ → Option (List (List ℕ))
read_raw_from zero l next = none
read_raw_from (suc fuel) l next =
    after_raw (read l next (negsuc 0)) next (λ next'. read_raw_from fuel l next')

unfoldable pub decode_all : List (List ℕ) → Option (List MetadataRecord)
decode_all [] = some []
decode_all (p ∷ ps) =
    Option.bind (decode_metadata_record p) λ r. Option.map (λ rs. r ∷ rs) (decode_all ps)

unfoldable pub read_from : ℕ → Log → ℤ → Option (List MetadataRecord)
read_from fuel l offset = Option.bind (read_raw_from fuel l offset) decode_all

unfoldable pub replay_all : ℕ → Log → Option (List MetadataRecord)
replay_all fuel l = read_from fuel l (pos 0)
