-- ===== src/Network/TopicCodec/RoundTrip.antt =====
-- A topic's partitions are read back as they were written.
use gokaf.Base.{ℕ, ◌^◌, ◌<◌, ◌≡◌, refl, ap, List, [], ◌∷◌, ◌++◌, ℤ, length, All}
use gokaf.Protocol.Result.{Decoder, Reads, Reads-bind, Reads-last, Reads-return}
use gokaf.Protocol.Types.{write_int32, read_int32}
use gokaf.Protocol.Types.RoundTrip.{Reads-int32, Reads-string, Reads-array, write_all}
use gokaf.Topic.Registry.{Partition}
use gokaf.Cluster.MetadataLog.RoundTrip.{FitsIds, FitsPartition, ints-Reads}
use gokaf.Network.Handler.{write_each}
use gokaf.Network.TopicCodec.{
  write_int32_array, write_apply_partition, encode_apply_topic, read_int32_array,
  read_apply_partition, decode_apply_topic,
}

pub write_each-write_all :
    {A : Type 0} (d : Decoder A) (write : A → List ℕ) (xs : List A)
    → write_each write xs ≡ write_all d write xs
unfolding write_each
write_each-write_all d write [] = refl
write_each-write_all d write (x ∷ xs) = ap (λ t. write x ++ t) (write_each-write_all d write xs)

Reads-ids : (ids : List ℤ) → FitsIds ids → Reads read_int32_array (write_int32_array ids) ids
unfolding read_int32_array write_int32_array
Reads-ids ids h =
    rw (write_each-write_all read_int32 write_int32 ids)
      (Reads-array read_int32 write_int32 ids h.0 (ints-Reads ids h.1))

Reads-apply_partition :
    (p : Partition) → FitsPartition p → Reads read_apply_partition (write_apply_partition p) p
unfolding read_apply_partition write_apply_partition
Reads-apply_partition p h = Reads-bind _ (Reads-int32 p.id h.id) (
    Reads-bind _ (Reads-int32 p.leader h.leader) (
      Reads-bind _ (Reads-ids p.replicas h.replicas)
        (Reads-last _ (Reads-ids p.isr h.isr) Reads-return)))

partitions-Reads :
    (ps : List Partition)
    → All FitsPartition ps
    → All (λ p. Reads read_apply_partition (write_apply_partition p) p) ps
partitions-Reads [] h = tt
partitions-Reads (p ∷ ps) h = (Reads-apply_partition p h.0, partitions-Reads ps h.1)

-- What a broker sends of a topic to its peers they decode to the same name and partitions, if the name
-- is shorter than 2^15 bytes, counts fit an int32 and ids are int32 values.
pub Reads-apply_topic :
    (name : List ℕ) (ps : List Partition)
    → length name < 2 ^ 15
    → length ps < 2 ^ 31
    → All FitsPartition ps
    → Reads decode_apply_topic (encode_apply_topic name ps) (name, ps)
unfolding decode_apply_topic encode_apply_topic
Reads-apply_topic name ps hn hp h =
    rw (write_each-write_all read_apply_partition write_apply_partition ps) (
      Reads-bind _ (Reads-string name hn) (
        Reads-last _
          (Reads-array read_apply_partition write_apply_partition ps hp (partitions-Reads ps h))
          Reads-return))
