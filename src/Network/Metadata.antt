-- ===== src/Network/Metadata.antt =====
-- internal/network/metadata.go: what the broker tells clients of brokers and topics.
use gokaf.Base.{
  ℕ, ◌+◌, List, [], ◌∷◌, ◌++◌, Option, none, some, pos, pos_part, leb_ℤ, if◌then◌else◌, length,
}
use gokaf.Base.Map.{lookup, insert}
use gokaf.Protocol.Types.{
  write_string, write_int16, write_int32, write_array_len, read_string, read_array_len,
}
use gokaf.Protocol.Errors.{no_error, unknown_topic_or_partition}
use gokaf.Topic.Registry.{Name-discrete}
use gokaf.Cluster.Membership
use gokaf.Network.Handler.{Broker, Env, Handler, ◌>>=◌, return, reading, calling, times, write_each}
use gokaf.Network.TopicCodec.{write_int32_array}
use gokaf.Network.Operations.{
  PartitionInfo, TopicInfo, BrokerInfo, topic_infos, broker_info, metadata_brokers,
}

-- `topicByName`
unfoldable pub by_name : List TopicInfo → List (List ℕ × TopicInfo) → List (List ℕ × TopicInfo)
by_name [] m = m
by_name (t ∷ ts) m = by_name ts (insert Name-discrete t.name t m)

abbrev pub sort_in :
    List ℕ → Option TopicInfo → List TopicInfo × List (List ℕ) → List TopicInfo × List (List ℕ)
sort_in name none (topics, missing) = (topics, name ∷ missing)
sort_in name (some t) (topics, missing) = (t ∷ topics, missing)

-- The topics that were asked for, and the names that no topic has.
unfoldable pub known_and_unknown :
    List (List ℕ × TopicInfo) → List (List ℕ) → List TopicInfo × List (List ℕ)
known_and_unknown m [] = ([], [])
known_and_unknown m (name ∷ names) =
    sort_in name (lookup Name-discrete name m) (known_and_unknown m names)

unfoldable pub wanted_topics : List TopicInfo → ℕ → Handler (List TopicInfo × List (List ℕ))
wanted_topics infos count = do
  names ← times count (reading read_string)
  return (known_and_unknown (by_name infos []) names)

unfoldable pub write_metadata_partition : PartitionInfo → List ℕ
write_metadata_partition p =
    write_int16 no_error
    ++ (write_int32 p.id
        ++ (write_int32 p.leader ++ (write_int32_array p.replicas ++ write_int32_array p.isr)))

unfoldable pub write_metadata_topic : TopicInfo → List ℕ
write_metadata_topic t =
    write_int16 no_error
    ++ (write_string t.name
        ++ (write_array_len (pos (length t.partitions))
            ++ write_each write_metadata_partition t.partitions))

unfoldable pub write_metadata_broker : Membership.Broker → List ℕ
write_metadata_broker b = write_int32 b.id ++ (write_string b.host ++ write_int32 b.port)

unfoldable pub write_unknown_topic : List ℕ → List ℕ
write_unknown_topic name =
    write_int16 unknown_topic_or_partition ++ (write_string name ++ write_array_len (pos 0))

unfoldable pub write_metadata_response : Broker → List TopicInfo → List (List ℕ) → List ℕ
write_metadata_response b topics missing =
    write_array_len (pos (length (metadata_brokers b)))
    ++ (write_each write_metadata_broker (metadata_brokers b)
        ++ (write_int32 (BrokerInfo.controller_id (broker_info b))
            ++ (write_array_len (pos (length topics + length missing))
                ++ (write_each write_metadata_topic topics
                    ++ write_each write_unknown_topic missing))))

unfoldable pub handle_metadata : Env → Handler (List ℕ)
handle_metadata env = do
  count ← reading read_array_len
  infos ← calling (topic_infos env)
  wanted ← if leb_ℤ count (pos 0) then return (infos, []) else wanted_topics infos (pos_part count)
  calling (λ b. (b, write_metadata_response b wanted.0 wanted.1))
