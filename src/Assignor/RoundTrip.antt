-- ===== src/Assignor/RoundTrip.antt =====
-- An assignment is read back as it was encoded.
use gokaf.Base.{
  ◌≡◌, refl, ap, List, [], ◌∷◌, ◌++◌, ℤ, pos, negsuc, length, All, IsInt32, ◌<◌, ◌^◌, arith,
}
use gokaf.Protocol.Result.{Reads, Reads-bind, Reads-last, Reads-return, ok}
use gokaf.Protocol.Types.{write_int16, write_int32, write_array_len, read_int32}
use gokaf.Protocol.Types.RoundTrip.{Reads-int16, Reads-int32, Reads-string, Reads-array, write_all}
use gokaf.Assignor.{
  TopicPartitions, write_partitions, write_topic, write_topics, encode_assignment, read_topic,
  read_assignment, decode_assignment, answer,
}

-- Values of the Go types, with a name that fits an int16 length and counts that fit an int32.
pub record FitsTopic (a : TopicPartitions) : Type 0 where
  pub topic : length a.topic < 2 ^ 15
  pub count : length a.partitions < 2 ^ 31
  pub partitions : All IsInt32 a.partitions

partitions-write_all : (ps : List ℤ) → write_partitions ps ≡ write_all read_int32 write_int32 ps
unfolding write_partitions
partitions-write_all [] = refl
partitions-write_all (p ∷ ps) = ap (λ t. write_int32 p ++ t) (partitions-write_all ps)

topics-write_all :
    (given : List TopicPartitions) → write_topics given ≡ write_all read_topic write_topic given
unfolding write_topics
topics-write_all [] = refl
topics-write_all (a ∷ rest) = ap (λ t. write_topic a ++ t) (topics-write_all rest)

ints-Reads : (ps : List ℤ) → All IsInt32 ps → All (λ p. Reads read_int32 (write_int32 p) p) ps
ints-Reads [] h = tt
ints-Reads (p ∷ ps) h = (Reads-int32 p h.0, ints-Reads ps h.1)

Reads-topic : (a : TopicPartitions) → FitsTopic a → Reads read_topic (write_topic a) a
unfolding read_topic write_topic
Reads-topic a h = rw (partitions-write_all a.partitions) (
    Reads-bind _ (Reads-string a.topic h.topic) (
      Reads-last _
        (Reads-array read_int32 write_int32 a.partitions h.count
          (ints-Reads a.partitions h.partitions))
        Reads-return))

topics-Reads :
    (given : List TopicPartitions)
    → All FitsTopic given
    → All (λ a. Reads read_topic (write_topic a) a) given
topics-Reads [] h = tt
topics-Reads (a ∷ rest) h = (Reads-topic a h.0, topics-Reads rest h.1)

Reads-assignment :
    (given : List TopicPartitions)
    → length given < 2 ^ 31
    → All FitsTopic given
    → Reads read_assignment
        (write_int16 (pos 0) ++ (write_array_len (pos (length given)) ++ write_topics given))
        given
unfolding read_assignment
Reads-assignment given n h = Reads-bind _ (Reads-int16 (pos 0) (omega arith)) (
    rw (topics-write_all given) (Reads-array read_topic write_topic given n (topics-Reads given h)))

-- What `EncodeAssignment` wrote, `DecodeAssignment` reads back, if there are fewer than 2^31 topics and
-- each has a name shorter than 2^15 bytes and fewer than 2^31 partitions, which are int32 values.
pub decode_assignment-encode_assignment :
    (assignments : List TopicPartitions)
    → length assignments < 2 ^ 31
    → All FitsTopic assignments
    → decode_assignment (encode_assignment assignments) ≡ ok assignments
unfolding decode_assignment encode_assignment write_int16
decode_assignment-encode_assignment assignments n h =
    ap answer ((Reads-assignment assignments n h).run (write_int32 (negsuc 0)))
