-- ===== src/Network/Fetch/Requests.antt =====
-- The leader's handler on a follower's request, and the copy from broker to broker.
use gokaf.Base.{
  ℕ, ◌^◌, ◌<◌, ◌≡◌, refl, sym, ap, ◌∙◌, List, [], ◌∷◌, ◌++◌, append-nil, Option, some, ℤ, pos,
  false, if◌then◌else◌, IsInt32, IsInt64, length, All, arith,
}
use gokaf.Base.Map.{lookup}
use mathlib.Core.Path.{subst}
use gokaf.Protocol.Result.{ok, Decoder, Reads}
use gokaf.Protocol.Types.{write_string, write_int32, write_int64, write_array_len, read_array_len}
use gokaf.Protocol.Types.RoundTrip.{Reads-int32, Reads-int64, Reads-string}
use gokaf.Storage.Log.{Log, end_offset}
use gokaf.Storage.Log.Invariant.{Holds}
use gokaf.Storage.LogManager
use gokaf.Storage.LogManager.{Name-discrete, log_at}
use gokaf.Topic.Registry.{Partition}
use gokaf.Faults.{Config, paused}
use gokaf.Replication.Fetcher.{Fetcher, build_fetch_request, after_send, fetch_once}
use gokaf.Replication.Fetcher.Splitting.{IsSized, joined}
use gokaf.Network.Handler.{
  Broker, Env, Handler, ◌>>=◌, return, reading, calling, each, looping, times, find_partition,
  answer_of,
}
use gokaf.Network.Fetch.{
  fetch_each, fetch_topic, handle_fetch, fetch_partition, fetch_records, record_replica,
  broker_watermark,
}
use gokaf.Network.Produce.Appending.{opened-same}
use gokaf.Network.Fetch.Copying.{single, fetch_once-copies}

-- Steps of a handler: a part of the request is read, or a handler has run.
read-step :
    {A B : Type 0} (d : Decoder A) (bytes : List ℕ) (a : A) (f : A → Handler B) (b : Broker)
    (s : List ℕ)
    → Reads d bytes a
    → (reading d >>= f) b (bytes ++ s) ≡ f a b s
unfolding ◌>>=◌ reading
read-step d bytes a f b s h = rw (h.run s) refl

then-step :
    {A B : Type 0} (m : Handler A) (f : A → Handler B) (b b' : Broker) (a : A) (s s' : List ℕ)
    → m b s ≡ (b', ok (a, s'))
    → (m >>= f) b s ≡ f a b' s'
unfolding ◌>>=◌
then-step m f b b' a s s' h = rw h refl

one-fits : IsInt32 (pos 1)
one-fits = omega arith

-- A loop of one round.
each-one :
    {A : Type 0} (h : Handler A) (b b' : Broker) (a : A) (s s' : List ℕ)
    → h b s ≡ (b', ok (a, s'))
    → each h b (write_array_len (pos 1) ++ s) ≡ (b', ok (a ∷ [], s'))
unfolding each looping times return ◌>>=◌ reading read_array_len write_array_len
each-one h b b' a s s' e = rw (Reads.run (Reads-int32 (pos 1) one-fits) s, e) refl

-- The arguments of a request fit their Go types.
pub record FitsRequest (replica : ℤ) (name : List ℕ) (index offset max_bytes : ℤ) : Type 0 where
  pub replica_fits : IsInt32 replica
  pub topic_fits : length name < 2 ^ 15
  pub index_fits : IsInt32 index
  pub offset_fits : IsInt64 offset
  pub max_bytes_fits : IsInt32 max_bytes

fetch_each-run :
    (env : Env) (b : Broker) (replica : ℤ) (topic : List ℕ) (index offset max_bytes : ℤ)
    (s : List ℕ)
    → FitsRequest replica topic index offset max_bytes
    → fetch_each env replica topic b
        (write_int32 index ++ (write_int64 offset ++ (write_int32 max_bytes ++ s)))
      ≡ (
        (fetch_partition env b replica topic index offset max_bytes).0,
        ok ((fetch_partition env b replica topic index offset max_bytes).1, s),
      )
unfolding fetch_each calling
fetch_each-run env b replica topic index offset max_bytes s h =
    read-step _ (write_int32 index) index _ b _ (Reads-int32 index h.index_fits)
    ∙ read-step _ (write_int64 offset) offset _ b _ (Reads-int64 offset h.offset_fits)
    ∙ read-step _ (write_int32 max_bytes) max_bytes _ b s (Reads-int32 max_bytes h.max_bytes_fits)

-- The part of a request behind its head.
abbrev body_of : List ℕ → ℤ → ℤ → ℤ → List ℕ → List ℕ
body_of topic index offset max_bytes s =
    write_string topic
    ++ (write_array_len (pos 1)
        ++ (write_int32 index ++ (write_int64 offset ++ (write_int32 max_bytes ++ s))))

fetch_topic-run :
    (env : Env) (b : Broker) (replica : ℤ) (topic : List ℕ) (index offset max_bytes : ℤ)
    (s : List ℕ)
    → FitsRequest replica topic index offset max_bytes
    → fetch_topic env replica b (body_of topic index offset max_bytes s) ≡ (
      (fetch_partition env b replica topic index offset max_bytes).0,
      ok (
        record {
          name = topic;
          partitions = (fetch_partition env b replica topic index offset max_bytes).1 ∷ [];
        },
        s,
      ),
    )
unfolding fetch_topic return
fetch_topic-run env b replica topic index offset max_bytes s h =
    read-step _ (write_string topic) topic _ b _ (Reads-string topic h.topic_fits)
    ∙ then-step _ _ b _ _ _ s
        (each-one _ b _ _ _ s (fetch_each-run env b replica topic index offset max_bytes s h))

zero-fits : IsInt32 (pos 0)
zero-fits = omega arith

handle_fetch-run :
    (env : Env) (b : Broker) (replica : ℤ) (topic : List ℕ) (index offset max_bytes : ℤ)
    (s : List ℕ)
    → FitsRequest replica topic index offset max_bytes
    → handle_fetch env b (
        write_int32 replica
        ++ (write_int32 (pos 0)
            ++ (write_int32 (pos 1)
                ++ (write_array_len (pos 1) ++ body_of topic index offset max_bytes s))))
      ≡ (
        (fetch_partition env b replica topic index offset max_bytes).0,
        ok (single topic (fetch_partition env b replica topic index offset max_bytes).1, s),
      )
unfolding handle_fetch return
handle_fetch-run env b replica topic index offset max_bytes s h =
    read-step _ (write_int32 replica) replica _ b _ (Reads-int32 replica h.replica_fits)
    ∙ read-step _ (write_int32 (pos 0)) (pos 0) _ b _ (Reads-int32 (pos 0) zero-fits)
    ∙ read-step _ (write_int32 (pos 1)) (pos 1) _ b _ (Reads-int32 (pos 1) one-fits)
    ∙ then-step _ _ b _ _ _ s
        (each-one _ b _ _ _ s (fetch_topic-run env b replica topic index offset max_bytes s h))

-- The handler answers the request of a follower with what `fetchPartition` answers for its arguments.
pub handle_fetch-build_fetch_request :
    (env : Env) (b : Broker) (replica : ℤ) (topic : List ℕ) (index offset max_bytes : ℤ)
    → FitsRequest replica topic index offset max_bytes
    → handle_fetch env b (build_fetch_request replica topic index offset max_bytes) ≡ (
      (fetch_partition env b replica topic index offset max_bytes).0,
      ok (single topic (fetch_partition env b replica topic index offset max_bytes).1, []),
    )
unfolding build_fetch_request
handle_fetch-build_fetch_request env b replica topic index offset max_bytes h =
    ap
      (λ t. handle_fetch env b (
        write_int32 replica
        ++ (write_int32 (pos 0)
            ++ (write_int32 (pos 1)
                ++ (write_array_len (pos 1)
                    ++ (write_string topic
                        ++ (write_array_len (pos 1)
                            ++ (write_int32 index ++ (write_int64 offset ++ t)))))))))
      (sym (append-nil (write_int32 max_bytes)))
    ∙ handle_fetch-run env b replica topic index offset max_bytes [] h

-- The watermark that the leader answers, after it recorded the fetch.
abbrev pub told_watermark : Env → Broker → Log → ℤ → List ℕ → ℤ → ℤ → ℤ
told_watermark env b l replica topic index offset =
    (broker_watermark env (record_replica env b topic index replica offset (end_offset l)) topic
      index (end_offset l)).1

fetch_partition-records :
    (env : Env) (b : Broker) (p : Partition) (l : Log) (replica : ℤ) (topic : List ℕ)
    (index offset max_bytes : ℤ)
    → find_partition b topic index ≡ some p
    → lookup Name-discrete (env.log_key topic index) (LogManager.Manager.logs b.logs) ≡ some l
    → (fetch_partition env b replica topic index offset max_bytes).1
      ≡ fetch_records l index (told_watermark env b l replica topic index offset) offset max_bytes
unfolding fetch_partition
fetch_partition-records env b p l replica topic index offset max_bytes found opened =
    rw (found, opened-same env b topic index l opened) refl

fetch_once-answer :
    (f : Fetcher) (faults : Option Config) (send : List ℕ → Option (List ℕ)) (l : Log)
    (response : List ℕ)
    → send (build_fetch_request f.self_id f.topic f.partition (end_offset l) f.max_bytes)
      ≡ some response
    → fetch_once f faults send l ≡ fetch_once f faults (λ body. some response) l
unfolding fetch_once
fetch_once-answer f faults send l response e =
    ap (λ r. if paused faults then l else after_send l r) e

-- A follower whose log is a front of the leader's fetches once, and the leader handles its request:
-- afterwards the follower's log is again a front of the leader's, and has grown unless it was all of it.
-- The fetcher is not paused; the leader's registry has the partition, and its log is open; the batches
-- that the follower misses have right length fields and less than 2^31 bytes together; the request's
-- fields and the watermark that the leader answers fit their types.
pub handle_fetch-Copies :
    (f : Fetcher) (faults : Option Config) (env : Env) (b : Broker) (p : Partition)
    (leader follower : Log) (done todo : List (List ℕ))
    → paused faults ≡ false
    → find_partition b f.topic f.partition ≡ some p
    → lookup Name-discrete (env.log_key f.topic f.partition) (LogManager.Manager.logs b.logs)
      ≡ some leader
    → Holds leader (done ++ todo)
    → Holds follower done
    → All IsSized todo
    → length (joined todo) < 2 ^ 31
    → length (done ++ todo) < 2 ^ 63
    → FitsRequest f.self_id f.topic f.partition (end_offset follower) f.max_bytes
    → IsInt64 (told_watermark env b leader f.self_id f.topic f.partition (end_offset follower))
    → (front : List (List ℕ)) × (behind : List (List ℕ)) × (todo ≡ front ++ behind)
      × (0 < length todo → 0 < length front)
      × Holds
          (fetch_once f faults (λ body. answer_of (handle_fetch env b body)) follower)
          (done ++ front)
handle_fetch-Copies f faults env b p leader follower done todo running found opened hl hf sized
      small fits h hw =
    let copies =
      fetch_once-copies f faults leader follower done todo
        (told_watermark env b leader f.self_id f.topic f.partition (end_offset follower)) running hl
        hf sized small fits h.topic_fits h.index_fits hw in
    (
      copies.0,
      copies.1,
      copies.2,
      copies.3,
      subst (λ l. Holds l (done ++ copies.0)) (sym (fetch_once-answer f faults _ follower _ answer))
          copies.4,
    )
  where
    answer :
        answer_of (
          handle_fetch env b
            (build_fetch_request f.self_id f.topic f.partition (end_offset follower) f.max_bytes))
        ≡ some (
            single f.topic (
              fetch_records leader f.partition
                (told_watermark env b leader f.self_id f.topic f.partition (end_offset follower))
                (end_offset follower)
                f.max_bytes))
    answer =
        ap answer_of (
          handle_fetch-build_fetch_request env b f.self_id f.topic f.partition (end_offset follower)
            f.max_bytes h)
        ∙ ap (λ r. some (single f.topic r))
            (fetch_partition-records env b p leader f.self_id f.topic f.partition
              (end_offset follower) f.max_bytes found opened)
