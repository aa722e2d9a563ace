-- ===== src/Network/MetadataFollower.antt =====
-- internal/cluster/metadatafollower.go: how a broker takes over the changes of topics from the controller.
-- The controller's answer to a request is an argument; the ticker is not modelled.
pub mod CatchUp
use gokaf.Base.{ℕ, List, [], Option, none, some, ℤ, pos, eq_ℤ, if◌then◌else◌}
use gokaf.Protocol.Result.{ok, err, log_failure}
use gokaf.Protocol.Types.{write_int64, read_bytes}
use gokaf.Storage.Log.{Log, end_offset}
use gokaf.Cluster.Membership.{Membership}
use gokaf.Cluster.Membership
use gokaf.Cluster.MetadataLog.{MetadataRecord, decode_metadata_record, append_raw}
use gokaf.Network.Handler.{Broker, Env, Handler, ◌>>=◌, return, reading, calling, drain}
use gokaf.Network.Produce.{or_nil}
use gokaf.Network.Topics.{controller_id, apply_metadata_record}

abbrev pub raw_stored : Broker → List ℕ → Option Log → Broker
raw_stored b payload none = b
raw_stored b payload (some l) = record b { metadata_log = some (append_raw l payload).0 }

-- The record's bytes go into the log as they came.
unfoldable pub store_raw : List ℕ → Broker → Broker × Unit {0}
store_raw payload b = (raw_stored b payload b.metadata_log, tt)

-- A record that does not decode ends the loop.
abbrev pub apply_decoded : Env → Option MetadataRecord → Handler (Unit {0})
apply_decoded env none b s = (b, err log_failure)
apply_decoded env (some r) b s = (apply_metadata_record env b r, ok (tt, s))

unfoldable pub take_record : Env → Handler (Unit {0})
take_record env = do
  payload ← reading read_bytes
  stored ← calling (store_raw (or_nil payload))
  apply_decoded env (decode_metadata_record (or_nil payload))

-- What the loop leaves behind, whether it reached its end or not.
unfoldable pub take_answer : Env → Broker → Option (List ℕ) → Broker
take_answer env b none = b
take_answer env b (some response) = (drain (take_record env) b response).0

abbrev pub log_end : Option Log → ℤ
log_end none = pos 0
log_end (some l) = end_offset l

abbrev pub find_controller : Option Membership → ℤ → Option Membership.Broker
find_controller none id = none
find_controller (some ms) id = Membership.get ms id

abbrev pub pull_from :
    Env
    → (Membership.Broker → List ℕ → Option (List ℕ))
    → Broker
    → Option Membership.Broker
    → Broker
pull_from env send b none = b
pull_from env send b (some controller) =
    take_answer env b (send controller (write_int64 (log_end b.metadata_log)))

-- `fetchOnce`: the controller pulls from nobody.
unfoldable pub pull : Env → (Membership.Broker → List ℕ → Option (List ℕ)) → Broker → Broker
pull env send b =
    if eq_ℤ (controller_id b) b.node_id
    then b
    else pull_from env send b (find_controller b.cluster (controller_id b))
