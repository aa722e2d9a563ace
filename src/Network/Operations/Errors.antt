-- ===== src/Network/Operations/Errors.antt =====
-- The operations that the HTTP API calls, and the requests, answer the same.
use gokaf.Base.{
  ℕ, ◌≡◌, refl, ap, List, Option, none, some, ℤ, pos, leb_ℤ, ltb_ℤ, length, ◌||◌, true, Bool-cases,
  inl, inr,
}
use mathlib.Core.Option
use gokaf.Storage.Log.{Log}
use gokaf.Topic.Registry.{Registry, RegistryError, Partition, Topic, topic_exists, topic_not_found}
use gokaf.Topic.Registry
use gokaf.Network.Handler.{Broker, Env}
use gokaf.Network.Topics.{
  must_refuse, create_topic, create_unless, delete_topic, delete_unless, new_partitions, broker_ids,
  create_with, create_logged, create_direct, delete_with, delete_logged, delete_direct,
}
use gokaf.Network.Operations.{
  OperationError, code_to_error, wire_error, with_error, create_topic_op, delete_topic_op,
}

-- The answer of an operation, as a request would give it.
abbrev pub on_wire : Broker × Option OperationError → Broker × ℤ
on_wire (b, e) = (b, wire_error e)

-- A code that survives the way through an error and back.
abbrev IsKept : Broker × ℤ → Type 0
IsKept r = on_wire (with_error r) ≡ r

create_direct-IsKept :
    (env : Env) (b : Broker) (t : Topic) (made : Registry × Option RegistryError)
    → IsKept (create_direct env b t true made)
unfolding code_to_error wire_error
create_direct-IsKept env b t (topics, some topic_exists) = refl
create_direct-IsKept env b t (topics, some topic_not_found) = refl
create_direct-IsKept env b t (topics, none) = refl

create_logged-IsKept :
    (env : Env) (b : Broker) (l : Log) (t : Topic) (found : Option Topic)
    → IsKept (create_logged env b l t found)
unfolding code_to_error wire_error
create_logged-IsKept env b l t none = refl
create_logged-IsKept env b l t (some u) = refl

create_with-IsKept :
    (env : Env) (b : Broker) (t : Topic) (log : Option Log) → IsKept (create_with env b t true log)
create_with-IsKept env b t none = create_direct-IsKept env b t (Registry.create b.topics t)
create_with-IsKept env b t (some l) = create_logged-IsKept env b l t (Registry.get b.topics t.name)

delete_direct-IsKept :
    (b : Broker) (made : Registry × Option RegistryError) → IsKept (delete_direct b made)
unfolding code_to_error wire_error
delete_direct-IsKept b (topics, some topic_exists) = refl
delete_direct-IsKept b (topics, some topic_not_found) = refl
delete_direct-IsKept b (topics, none) = refl

delete_logged-IsKept :
    (env : Env) (b : Broker) (l : Log) (name : List ℕ) (found : Option Topic)
    → IsKept (delete_logged env b l name found)
unfolding code_to_error wire_error
delete_logged-IsKept env b l name none = refl
delete_logged-IsKept env b l name (some u) = refl

delete_with-IsKept :
    (env : Env) (b : Broker) (name : List ℕ) (log : Option Log)
    → IsKept (delete_with env b name log)
delete_with-IsKept env b name none = delete_direct-IsKept b (Registry.delete b.topics name)
delete_with-IsKept env b name (some l) =
    delete_logged-IsKept env b l name (Registry.get b.topics name)

-- Through the partitions, if the assignment does not panic.
kept-map :
    (made : Option (List Partition)) (f : List Partition → Broker × ℤ)
    → ((ps : List Partition) → IsKept (f ps))
    → Option.map on_wire (Option.map with_error (Option.map f made)) ≡ Option.map f made
kept-map none f h = refl
kept-map (some ps) f h = ap some (h ps)

create_topic-kept :
    (env : Env) (b : Broker) (name : List ℕ) (count factor : ℤ)
    → Option.map on_wire (Option.map with_error (create_topic env name count factor true b))
      ≡ create_topic env name count factor true b
unfolding create_topic code_to_error wire_error
create_topic-kept env b name count factor = elim (Bool-cases (leb_ℤ count (pos 0))) [
  | inl p ↦ rw p refl
  | inr p ↦ elim (Bool-cases (leb_ℤ factor (pos 0) || ltb_ℤ (pos (length (broker_ids b))) factor)) [
    | inl q ↦ rw (p, q) refl
    | inr q ↦
        rw (p, q)
          (kept-map (new_partitions count (broker_ids b) factor)
            (λ partitions.
              create_with env b (record { name = name; partitions = partitions }) true
                b.metadata_log)
            (λ ps. create_with-IsKept env b _ b.metadata_log))
  ]
]

-- `CreateTopic`, which the HTTP API calls, does to the broker what a CreateTopics request does to it, and
-- its error has the code that the request answers; it panics only where the request does.
pub create_topic_op-wire :
    (env : Env) (b : Broker) (name : List ℕ) (count factor : ℤ)
    → Option.map on_wire (create_topic_op env b name count factor)
      ≡ create_unless env name count factor b
unfolding create_topic_op create_unless wire_error
create_topic_op-wire env b name count factor = elim (Bool-cases (must_refuse b)) [
  | inl p ↦ rw p refl
  | inr p ↦ rw p (create_topic-kept env b name count factor)
]

-- `DeleteTopic`, which the HTTP API calls, does to the broker what a DeleteTopics request does to it, and
-- its error has the code that the request answers.
pub delete_topic_op-wire :
    (env : Env) (b : Broker) (name : List ℕ)
    → on_wire (delete_topic_op env b name) ≡ delete_unless env name b
unfolding delete_topic_op delete_unless delete_topic wire_error
delete_topic_op-wire env b name = elim (Bool-cases (must_refuse b)) [
  | inl p ↦ rw p refl
  | inr p ↦ rw p (delete_with-IsKept env b name b.metadata_log)
]
