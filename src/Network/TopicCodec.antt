-- ===== src/Network/TopicCodec.antt =====
-- internal/network/apply_topic.go: how a topic's partitions go from one broker to another.
pub mod RoundTrip
use gokaf.Base.{ℕ, List, [], ◌∷◌, ◌++◌, ℤ, pos, length}
use gokaf.Protocol.Result.{Decoder, ◌>>=◌, return}
use gokaf.Protocol.Types.{
  write_string, write_int32, write_array_len, read_string, read_int32, read_array,
}
use gokaf.Topic.Registry.{Partition}
use gokaf.Network.Handler.{write_each}

unfoldable pub write_int32_array : List ℤ → List ℕ
write_int32_array values = write_array_len (pos (length values)) ++ write_each write_int32 values

unfoldable pub write_apply_partition : Partition → List ℕ
write_apply_partition p =
    write_int32 p.id
    ++ (write_int32 p.leader ++ (write_int32_array p.replicas ++ write_int32_array p.isr))

unfoldable pub encode_apply_topic : List ℕ → List Partition → List ℕ
encode_apply_topic name partitions =
    write_string name
    ++ (write_array_len (pos (length partitions)) ++ write_each write_apply_partition partitions)

unfoldable pub read_int32_array : Decoder (List ℤ)
read_int32_array = read_array read_int32

unfoldable pub read_apply_partition : Decoder Partition
read_apply_partition = do
  id ← read_int32
  leader ← read_int32
  replicas ← read_int32_array
  isr ← read_int32_array
  return (record { id = id; leader = leader; replicas = replicas; isr = isr })

unfoldable pub decode_apply_topic : Decoder (List ℕ × List Partition)
decode_apply_topic = do
  name ← read_string
  partitions ← read_array read_apply_partition
  return (name, partitions)
