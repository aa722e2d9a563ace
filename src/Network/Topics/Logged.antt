-- ===== src/Network/Topics/Logged.antt =====
-- The metadata log and the registry say the same, so a broker that starts on the log of another has its
-- topics.
use gokaf.Base.{
  ℕ, suc, ◌^◌, ◌<◌, ◌≡◌, refl, sym, ap, ◌∙◌, List, [], ◌∷◌, ◌++◌, map, Option, none, some, length,
  All,
}
use mathlib.Core.Option
use gokaf.Storage.Segment.Entries.{IsPayload}
use gokaf.Storage.Log.{Log}
use gokaf.Storage.Log.Invariant.{Holds}
use gokaf.Topic.Registry.{Registry, Topic, Partition}
use gokaf.Topic.Registry
use gokaf.Cluster.MetadataLog.{
  RecordType, topic_upsert, topic_delete, MetadataRecord, encode_metadata_record, append_record,
  replay_all,
}
use gokaf.Cluster.MetadataLog.RoundTrip.{FitsMetadata}
use gokaf.Cluster.MetadataLog.Reading.{append_record-Holds, replay_all-Holds}
use gokaf.Replication.Manager
use gokaf.Network.Handler.{Broker, Env}
use gokaf.Network.Topics.{
  follow, follow_with, apply_topic, apply_typed, apply_metadata_record, log_change, restore,
}

-- What a change does to the topics.
abbrev pub change_typed : Registry → RecordType → List ℕ → List Partition → Registry
change_typed topics topic_upsert name ps =
    Registry.upsert topics (record { name = name; partitions = ps })
change_typed topics topic_delete name ps = (Registry.delete topics name).0

abbrev pub change : Registry → MetadataRecord → Registry
change topics r = change_typed topics r.type r.topic r.partitions

-- The topics after the changes.
abbrev pub changed : Registry → List MetadataRecord → Registry
changed topics [] = topics
changed topics (r ∷ rs) = changed (change topics r) rs

changed-snoc :
    (topics : Registry) (rs : List MetadataRecord) (r : MetadataRecord)
    → changed topics (rs ++ (r ∷ [])) ≡ change (changed topics rs) r
changed-snoc topics [] r = refl
changed-snoc topics (q ∷ rs) r = changed-snoc (change topics q) rs r

follow_with-topics :
    (env : Env) (b : Broker) (t : Topic) (m : Option Manager.Manager)
    → (Broker.topics (follow_with env b t m) ≡ b.topics)
      × (Broker.metadata_log (follow_with env b t m) ≡ b.metadata_log)
follow_with-topics env b t none = (refl, refl)
follow_with-topics env b t (some m) = (refl, refl)

follow-topics :
    (env : Env) (b : Broker) (t : Topic)
    → (Broker.topics (follow env b t) ≡ b.topics)
      × (Broker.metadata_log (follow env b t) ≡ b.metadata_log)
unfolding follow
follow-topics env b t = follow_with-topics env b t b.replication

apply_typed-topics :
    (env : Env) (b : Broker) (type : RecordType) (name : List ℕ) (ps : List Partition)
    → (Broker.topics (apply_typed env b type name ps) ≡ change_typed b.topics type name ps)
      × (Broker.metadata_log (apply_typed env b type name ps) ≡ b.metadata_log)
unfolding apply_topic
apply_typed-topics env b topic_upsert name ps = follow-topics env _ _
apply_typed-topics env b topic_delete name ps = (refl, refl)

apply_metadata_record-topics :
    (env : Env) (b : Broker) (r : MetadataRecord)
    → (Broker.topics (apply_metadata_record env b r) ≡ change b.topics r)
      × (Broker.metadata_log (apply_metadata_record env b r) ≡ b.metadata_log)
unfolding apply_metadata_record
apply_metadata_record-topics env b r = apply_typed-topics env b r.type r.topic r.partitions

-- The broker's metadata log holds the changes, in order, and its topics are what they make.
pub record IsLogged (b : Broker) (l : Log) (rs : List MetadataRecord) : Type 0 where
  pub log : b.metadata_log ≡ some l
  pub holds : Holds l (map encode_metadata_record rs)
  pub topics : b.topics ≡ changed [] rs

-- If a broker's topics are what the changes in its metadata log make, the same holds with one change
-- more, after the broker put it in the log and applied it, if its encoding is shorter than 2^32 bytes
-- and the changes stay fewer than 2^63.
pub log_change-IsLogged :
    (env : Env) (b : Broker) (l : Log) (rs : List MetadataRecord) (r : MetadataRecord)
    → IsLogged b l rs
    → IsPayload (encode_metadata_record r)
    → suc (length rs) < 2 ^ 63
    → IsLogged (log_change env b l r) (append_record l r).0 (rs ++ (r ∷ []))
unfolding log_change
log_change-IsLogged env b l rs r h small fits =
    let applied =
      apply_metadata_record-topics env (record b { metadata_log = some (append_record l r).0 }) r in
    record {
      log = applied.1;
      holds = (append_record-Holds l rs r h.holds small fits).0;
      topics = applied.0 ∙ ap (λ topics. change topics r) h.topics ∙ sym (changed-snoc [] rs r);
    }

restore-changed :
    (env : Env) (b : Broker) (rs : List MetadataRecord)
    → Broker.topics (restore env b rs) ≡ changed b.topics rs
unfolding restore
restore-changed env b [] = refl
restore-changed env b (r ∷ rs) =
    restore-changed env (apply_metadata_record env b r) rs
    ∙ ap (λ topics. changed topics rs) (apply_metadata_record-topics env b r).0

-- A broker without topics that starts on the metadata log of another, and applies the changes that it
-- replays, has the other's topics, if the changes fit their Go types and are fewer than 2^63.
pub restore-IsLogged :
    (env : Env) (b fresh : Broker) (l : Log) (rs : List MetadataRecord)
    → IsLogged b l rs
    → All FitsMetadata rs
    → length rs < 2 ^ 63
    → fresh.topics ≡ []
    → Option.map
        (λ changes. Broker.topics (restore env fresh changes))
        (replay_all (suc (length rs)) l)
      ≡ some b.topics
restore-IsLogged env b fresh l rs h f fits none_yet = rw (replay_all-Holds l rs h.holds f fits) (
    ap some
      (restore-changed env fresh rs ∙ ap (λ topics. changed topics rs) none_yet ∙ sym h.topics))
