-- ===== src/Cluster/MetadataLog/RoundTrip.antt =====
-- A change of a topic is read back as it was written.
use gokaf.Base.{
  ℕ, ◌^◌, ◌<◌, ◌≡◌, refl, sym, ap, ◌∙◌, List, [], ◌∷◌, ◌++◌, append-nil, some, ℤ, pos, length, All,
  IsInt32, arith,
}
use gokaf.Protocol.Result.{Reads, Reads-bind, Reads-last, Reads-return}
use gokaf.Protocol.Types.{write_int32, write_array_len, read_int32, read_array}
use gokaf.Protocol.Types.RoundTrip.{Reads-int8, Reads-int32, Reads-string, Reads-array, write_all}
use gokaf.Topic.Registry.{Partition}
use gokaf.Cluster.MetadataLog.{
  RecordType, topic_upsert, topic_delete, MetadataRecord, write_metadata_id_list,
  write_metadata_ids, write_partition, write_partitions, encode_metadata_record, read_metadata_ids,
  read_partition, read_record_of, read_metadata_record, decoded, decode_metadata_record,
  write_upsert,
}

abbrev pub FitsIds : List ℤ → Type 0
FitsIds ids = (length ids < 2 ^ 31) × All IsInt32 ids

-- Values of the Go types, with counts that fit an int32.
pub record FitsPartition (p : Partition) : Type 0 where
  pub id : IsInt32 p.id
  pub leader : IsInt32 p.leader
  pub replicas : FitsIds p.replicas
  pub isr : FitsIds p.isr

id_list-write_all :
    (ids : List ℤ) → write_metadata_id_list ids ≡ write_all read_int32 write_int32 ids
unfolding write_metadata_id_list
id_list-write_all [] = refl
id_list-write_all (id ∷ ids) = ap (λ t. write_int32 id ++ t) (id_list-write_all ids)

pub ints-Reads :
    (ids : List ℤ) → All IsInt32 ids → All (λ p. Reads read_int32 (write_int32 p) p) ids
ints-Reads [] h = tt
ints-Reads (id ∷ ids) h = (Reads-int32 id h.0, ints-Reads ids h.1)

Reads-ids : (ids : List ℤ) → FitsIds ids → Reads read_metadata_ids (write_metadata_ids ids) ids
unfolding read_metadata_ids write_metadata_ids
Reads-ids ids h =
    rw (id_list-write_all ids) (Reads-array read_int32 write_int32 ids h.0 (ints-Reads ids h.1))

pub Reads-partition : (p : Partition) → FitsPartition p → Reads read_partition (write_partition p) p
unfolding read_partition write_partition
Reads-partition p h = Reads-bind _ (Reads-int32 p.id h.id) (
    Reads-bind _ (Reads-int32 p.leader h.leader) (
      Reads-bind _ (Reads-ids p.replicas h.replicas)
        (Reads-last _ (Reads-ids p.isr h.isr) Reads-return)))

partitions-Reads :
    (ps : List Partition)
    → All FitsPartition ps
    → All (λ p. Reads read_partition (write_partition p) p) ps
partitions-Reads [] h = tt
partitions-Reads (p ∷ ps) h = (Reads-partition p h.0, partitions-Reads ps h.1)

partitions-write_all :
    (ps : List Partition) → write_partitions ps ≡ write_all read_partition write_partition ps
unfolding write_partitions
partitions-write_all [] = refl
partitions-write_all (p ∷ ps) = ap (λ t. write_partition p ++ t) (partitions-write_all ps)

pub Reads-partitions :
    (ps : List Partition)
    → length ps < 2 ^ 31
    → All FitsPartition ps
    → Reads
        (read_array read_partition)
        (write_array_len (pos (length ps)) ++ write_partitions ps)
        ps
Reads-partitions ps n h =
    rw (partitions-write_all ps)
      (Reads-array read_partition write_partition ps n (partitions-Reads ps h))

-- A name that fits an int16 length; a record of a deletion carries no partitions.
abbrev pub FitsChange : RecordType → List Partition → Type 0
FitsChange topic_upsert ps = (length ps < 2 ^ 31) × All FitsPartition ps
FitsChange topic_delete ps = ps ≡ []

pub record FitsMetadata (r : MetadataRecord) : Type 0 where
  pub topic : length r.topic < 2 ^ 15
  pub change : FitsChange r.type r.partitions

Reads-record_of :
    (type : RecordType) (topic : List ℕ) (ps : List Partition)
    → length topic < 2 ^ 15
    → FitsChange type ps
    → Reads
        (read_record_of type)
        (gokaf.Protocol.Types.write_string topic ++ write_upsert type ps)
        (record { type = type; topic = topic; partitions = ps })
unfolding read_record_of
Reads-record_of topic_upsert topic ps ht h =
    Reads-bind _ (Reads-string topic ht) (Reads-last _ (Reads-partitions ps h.0 h.1) Reads-return)
Reads-record_of topic_delete topic [] ht h = Reads-bind _ (Reads-string topic ht) Reads-return
Reads-record_of topic_delete topic (p ∷ ps) ht h = absurd (cons-nil h)
  where
    cons-nil : ¬ Path (List Partition) (p ∷ ps) []
    cons-nil e = cc e

Reads-metadata_record :
    (type : RecordType) (topic : List ℕ) (ps : List Partition)
    → length topic < 2 ^ 15
    → FitsChange type ps
    → Reads read_metadata_record
        (encode_metadata_record (record { type = type; topic = topic; partitions = ps }))
        (record { type = type; topic = topic; partitions = ps })
unfolding read_metadata_record encode_metadata_record
Reads-metadata_record topic_upsert topic ps ht h =
    Reads-bind _ (Reads-int8 (pos 0) (omega arith)) (Reads-record_of topic_upsert topic ps ht h)
Reads-metadata_record topic_delete topic ps ht h =
    Reads-bind _ (Reads-int8 (pos 1) (omega arith)) (Reads-record_of topic_delete topic ps ht h)

-- What `encodeMetadataRecord` wrote, `decodeMetadataRecord` reads back, if the name is shorter than 2^15
-- bytes, counts fit an int32 and ids are int32 values; a deletion carries no partitions.
pub decode_metadata_record-encode_metadata_record :
    (r : MetadataRecord)
    → FitsMetadata r
    → decode_metadata_record (encode_metadata_record r) ≡ some r
unfolding decode_metadata_record
decode_metadata_record-encode_metadata_record r h =
    ap (λ bytes. decoded (read_metadata_record bytes)) (sym (append-nil (encode_metadata_record r)))
    ∙ ap decoded ((Reads-metadata_record r.type r.topic r.partitions h.topic h.change).run [])
