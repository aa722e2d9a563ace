-- ===== src/Assignor.antt =====
-- internal/assignor/codec.go: the blob in which a member's assignment travels.
pub mod RoundTrip
pub mod Strategies
pub mod Balance
use gokaf.Base.{ℕ, List, [], ◌∷◌, ◌++◌, ℤ, pos, negsuc, length}
use gokaf.Protocol.Result.{Result, ok, err, panics, Decoder, ◌>>=◌, return}
use gokaf.Protocol.Types.{
  write_int16, write_int32, write_string, write_array_len, read_int16, read_int32, read_string,
  read_array,
}

pub record TopicPartitions : Type 0 where
  pub topic : List ℕ
  pub partitions : List ℤ

-- The loop over the partitions of a topic.
unfoldable pub write_partitions : List ℤ → List ℕ
write_partitions [] = []
write_partitions (p ∷ ps) = write_int32 p ++ write_partitions ps

-- A round of the loop over the topics.
unfoldable pub write_topic : TopicPartitions → List ℕ
write_topic a =
    write_string a.topic
    ++ (write_array_len (pos (length a.partitions)) ++ write_partitions a.partitions)

unfoldable pub write_topics : List TopicPartitions → List ℕ
write_topics [] = []
write_topics (a ∷ rest) = write_topic a ++ write_topics rest

unfoldable pub encode_assignment : List TopicPartitions → List ℕ
encode_assignment assignments =
    write_int16 (pos 0)
    ++ ((write_array_len (pos (length assignments)) ++ write_topics assignments)
        ++ write_int32 (negsuc 0))

unfoldable pub read_topic : Decoder TopicPartitions
read_topic = do
  name ← read_string
  partitions ← read_array read_int32
  return (record { topic = name; partitions = partitions })

unfoldable pub read_assignment : Decoder (List TopicPartitions)
read_assignment = do version ← read_int16; read_array read_topic

-- The bytes behind the topics are not read.
abbrev pub answer {ℓ} : {A : Type ℓ} → Result (A × List ℕ) → Result A
answer (ok (a, rest)) = ok a
answer (err e) = err e
answer panics = panics

unfoldable pub decode_assignment : List ℕ → Result (List TopicPartitions)
decode_assignment [] = ok []
decode_assignment (b ∷ bytes) = answer (read_assignment (b ∷ bytes))
