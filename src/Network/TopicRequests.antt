-- ===== src/Network/TopicRequests.antt =====
-- internal/network/create_topics.go, delete_topics.go and apply_topic.go: the requests that change topics.
use gokaf.Base.{ℕ, List, [], ◌∷◌, ◌++◌, Option, ℤ, pos, length}
use gokaf.Protocol.Types.{
  write_string, write_int16, write_array_len, read_string, read_nullable_string, read_int16,
  read_int32,
}
use gokaf.Protocol.Errors.{no_error}
use gokaf.Network.Handler.{
  Env, Handler, ◌>>=◌, return, reading, calling, attempting, each, drain, write_each,
}
use gokaf.Network.TopicCodec.{decode_apply_topic}
use gokaf.Network.Topics.{apply_topic, create_unless, delete_unless}

pub record TopicResult : Type 0 where
  pub name : List ℕ
  pub code : ℤ

unfoldable pub write_topic_result : TopicResult → List ℕ
write_topic_result r = write_string r.name ++ write_int16 r.code

unfoldable pub write_topic_results : List TopicResult → List ℕ
write_topic_results rs = write_array_len (pos (length rs)) ++ write_each write_topic_result rs

unfoldable pub drain_assignment : Handler (List ℤ)
drain_assignment = do partition ← reading read_int32; drain (reading read_int32)

unfoldable pub drain_config : Handler (Option (List ℕ))
drain_config = do name ← reading read_string; reading read_nullable_string

unfoldable pub create_one : Env → Handler TopicResult
create_one env = do
  name ← reading read_string
  count ← reading read_int32
  factor ← reading read_int16
  assignments ← drain drain_assignment
  configs ← drain drain_config
  code ← attempting (create_unless env name count factor)
  return (record { name = name; code = code })

unfoldable pub handle_create_topics : Env → Handler (List ℕ)
handle_create_topics env = do
  results ← each (create_one env)
  timeout ← reading read_int32
  return (write_topic_results results)

unfoldable pub delete_one : Env → Handler TopicResult
delete_one env = do
  name ← reading read_string
  code ← calling (delete_unless env name)
  return (record { name = name; code = code })

unfoldable pub handle_delete_topics : Env → Handler (List ℕ)
handle_delete_topics env = do
  results ← each (delete_one env)
  timeout ← reading read_int32
  return (write_topic_results results)

unfoldable pub handle_apply_topic : Env → Handler (List ℕ)
handle_apply_topic env = do
  topic ← reading decode_apply_topic
  done ← calling (λ b. (apply_topic env b topic.0 topic.1, tt))
  return (write_topic_results (record { name = topic.0; code = no_error } ∷ []))
