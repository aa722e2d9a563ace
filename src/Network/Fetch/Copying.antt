-- ===== src/Network/Fetch/Copying.antt =====
-- A follower that fetches from a leader copies what the leader's log has behind its own end.
use gokaf.Base.{
  ℕ, suc, ◌+◌, ◌^◌, ◌≤◌, ◌<◌, ◌≡◌, ◌≢◌, refl, sym, ap, ◌∙◌, List, [], ◌∷◌, ◌++◌, append-nil,
  append_assoc, Option, some, ℤ, pos, eq_ℤ, ltb_ℤ, is_negative, ◌||◌, true, false, IsInt16, IsInt32,
  IsInt64, length, length-append, All, arith,
}
use mathlib.Core.Path.{subst}
use gokaf.Protocol.Result.{Reads, Reads-bind, Reads-last, Reads-return}
use gokaf.Protocol.Types.{write_int32, write_string}
use gokaf.Protocol.Types.RoundTrip.{
  Reads-int16, Reads-int32, Reads-int64, Reads-string, Reads-bytes,
}
use gokaf.Storage.Segment.Reading.{records_from}
use gokaf.Storage.Segment.Indexing.{records_from-append}
use gokaf.Storage.Segment.Entries.{IsPayload}
use gokaf.Storage.Log.{Log, end_offset}
use gokaf.Storage.Log.Invariant.{Holds}
use gokaf.Storage.Log.Invariant.Reads.{read-Holds}
use gokaf.Cluster.MetadataLog.Reading.{numbered, numbered-split, records_from-numbered}
use gokaf.Faults.{Config, paused}
use gokaf.Replication.Fetcher.{
  Fetcher, parse_fetch_partition, parse_topic, parse_partitions, parse_partition, after_parse,
  fetch_once,
}
use gokaf.Replication.Fetcher.Splitting.{IsSized, joined, split_batches-joined, append_all-Holds}
use gokaf.Network.Handler.{write_each}
use gokaf.Network.Fetch.{
  FetchPartitionResponse, join_record_payloads, fetch_records, write_fetch_partition,
  write_fetch_topic, write_fetch_response,
}

-- The answer to a fetch of one partition.
abbrev pub single : List ℕ → FetchPartitionResponse → List ℕ
single topic r = write_fetch_response (record { name = topic; partitions = r ∷ [] } ∷ [])

-- Values of the Go types, with sizes that fit their length fields.
pub record FitsResponse (name : List ℕ) (r : FetchPartitionResponse) : Type 0 where
  pub topic : length name < 2 ^ 15
  pub index : IsInt32 r.index
  pub error_code : IsInt16 r.error_code
  pub high_watermark : IsInt64 r.high_watermark
  pub records : length r.records < 2 ^ 31

Reads-partition :
    (topic : List ℕ) (r : FetchPartitionResponse)
    → FitsResponse topic r
    → Reads parse_partition (write_fetch_partition r) (some r.records, r.error_code)
unfolding parse_partition write_fetch_partition
Reads-partition topic r h = Reads-bind _ (Reads-int32 r.index h.index) (
    Reads-bind _ (Reads-int16 r.error_code h.error_code) (
      Reads-bind _ (Reads-int64 r.high_watermark h.high_watermark)
        (Reads-last _ (Reads-bytes r.records h.records) Reads-return)))

one-fits : IsInt32 (pos 1)
one-fits = omega arith

-- What a leader writes of one partition its follower reads: the batches and the error code.
pub Reads-single :
    (topic : List ℕ) (r : FetchPartitionResponse)
    → FitsResponse topic r
    → Reads parse_fetch_partition (single topic r) (some r.records, r.error_code)
unfolding parse_fetch_partition parse_topic parse_partitions write_fetch_response write_fetch_topic
    write_each gokaf.Protocol.Types.read_array_len gokaf.Protocol.Types.write_array_len
Reads-single topic r h = Reads-bind _ (Reads-int32 (pos 1) one-fits) (
    rw
      (
        append-nil (write_string topic ++ (write_int32 (pos 1) ++ (write_fetch_partition r ++ []))),
        append-nil (write_fetch_partition r),
      )
      (Reads-bind _ (Reads-string topic h.topic)
        (Reads-bind _ (Reads-int32 (pos 1) one-fits) (Reads-partition topic r h))))

payloads_of-numbered :
    (o : ℕ) (ps : List (List ℕ)) → join_record_payloads (numbered o ps) ≡ joined ps
unfolding join_record_payloads
payloads_of-numbered o [] = refl
payloads_of-numbered o (p ∷ ps) = ap (λ t. p ++ t) (payloads_of-numbered (suc o) ps)

joined-append : (c1 c2 : List (List ℕ)) → joined (c1 ++ c2) ≡ joined c1 ++ joined c2
joined-append [] c2 = refl
joined-append (c ∷ c1) c2 =
    ap (λ t. c ++ t) (joined-append c1 c2) ∙ sym (append_assoc c (joined c1) (joined c2))

front-IsSized : (c1 c2 : List (List ℕ)) → All IsSized (c1 ++ c2) → All IsSized c1
front-IsSized [] c2 h = tt
front-IsSized (c ∷ c1) c2 h = (h.0, front-IsSized c1 c2 h.1)

small-IsPayload : (bs : List (List ℕ)) → length (joined bs) < 2 ^ 31 → All IsPayload bs
small-IsPayload [] h = tt
small-IsPayload (b ∷ bs) h = (
  omega (arith, h, length-append b (joined bs)),
  small-IsPayload bs (omega (arith, h, length-append b (joined bs))),
)

-- The follower's log after it took an answer with these batches.
copied :
    (follower : Log) (done c1 : List (List ℕ)) (topic : List ℕ) (r : FetchPartitionResponse)
    → Holds follower done
    → All IsSized c1
    → length (joined c1) < 2 ^ 31
    → length done + length c1 < 2 ^ 63
    → FitsResponse topic r
    → r.error_code ≡ pos 0
    → r.records ≡ joined c1
    → Holds (after_parse follower (parse_fetch_partition (single topic r))) (done ++ c1)
copied follower done c1 topic r h sized small fits fr code bytes =
    rw
      (
        sym (append-nil (single topic r)),
        Reads.run (Reads-single topic r fr) [],
        code,
        bytes,
        split_batches-joined c1 sized,
      )
      (append_all-Holds follower done c1 h (small-IsPayload c1 small) fits)

-- What a leader answers to a fetch at the place `length done` of its log.
record Answered (leader : Log) (done todo : List (List ℕ)) (index hw max_bytes : ℤ) : Type 0 where
  front : List (List ℕ)
  behind : List (List ℕ)
  whole : todo ≡ front ++ behind
  some_of : 0 < length todo → 0 < length front
  answer :
      fetch_records leader index hw (pos (length done)) max_bytes
      ≡ record { index = index; error_code = pos 0; high_watermark = hw; records = joined front }

ne-nil→some : (o : ℕ) (c1 : List (List ℕ)) → numbered o c1 ≢ [] → 0 < length c1
ne-nil→some o [] ne = absurd (ne refl)
ne-nil→some o (c ∷ c1) ne = omega arith

in_range : (e : ℤ) (a n : ℕ) → e ≡ pos n → a ≤ n → (is_negative (pos a) || ltb_ℤ e (pos a)) ≡ false
in_range e a n p h = rw p (ground arith)

not_end : (e : ℤ) (a n : ℕ) → e ≡ pos n → a < n → eq_ℤ (pos a) e ≡ false
not_end e a n p h = rw p (ground arith)

same : (e : ℤ) (a : ℕ) → e ≡ pos a → eq_ℤ (pos a) e ≡ true
same e a p = rw p (ground arith)

pub end_offset-Holds : (l : Log) (ps : List (List ℕ)) → Holds l ps → end_offset l ≡ pos (length ps)
unfolding end_offset
end_offset-Holds l ps h = h.next

answered :
    (leader : Log) (done todo : List (List ℕ)) (index hw max_bytes : ℤ)
    → Holds leader (done ++ todo)
    → length (done ++ todo) < 2 ^ 63
    → Answered leader done todo index hw max_bytes
unfolding fetch_records
answered leader done [] index hw max_bytes h fits = record {
  front = [];
  behind = [];
  whole = refl;
  some_of = λ p. p;
  answer =
      rw
        (
          in_range (end_offset leader) (length done) (length done) at (omega arith),
          same (end_offset leader) (length done) at,
        )
        refl;
}
  where
    at : end_offset leader ≡ pos (length done)
    at = end_offset-Holds leader (done ++ []) h ∙ ap (λ ps. pos (length ps)) (append-nil done)
answered leader done (t ∷ todo) index hw max_bytes h fits =
    let got =
      read-Holds leader (done ++ (t ∷ todo)) (length done) max_bytes h (omega (arith, fits)) in
    let cut = numbered-split (length done) (t ∷ todo) got.0 got.1 (sym from ∙ got.3) in
    record {
      front = cut.0;
      behind = cut.1;
      whole = cut.2;
      some_of = λ p. ne-nil→some (length done) cut.0 (λ e. got.4 before (cut.3 ∙ e));
      answer =
          rw
            (
              in_range (end_offset leader) (length done) (length (done ++ (t ∷ todo))) ends
                  (omega (arith, before)),
              not_end (end_offset leader) (length done) (length (done ++ (t ∷ todo))) ends before,
              got.2,
              cut.3,
              payloads_of-numbered (length done) cut.0,
            )
            refl;
    }
  where
    ends : end_offset leader ≡ pos (length (done ++ (t ∷ todo)))
    ends = end_offset-Holds leader (done ++ (t ∷ todo)) h

    before : length done < length (done ++ (t ∷ todo))
    before = omega (arith, length-append done (t ∷ todo))

    from : records_from (length done) 0 (done ++ (t ∷ todo)) ≡ numbered (length done) (t ∷ todo)
    from =
        records_from-append (length done) 0 done (t ∷ todo) (omega arith)
        ∙ ap (λ k. records_from (length done) k (t ∷ todo)) (omega arith)
        ∙ records_from-numbered (length done) (length done) (t ∷ todo) (omega arith)

-- A follower whose log is a front of the leader's fetches once, and the leader answers from its log:
-- afterwards the follower's log is again a front of the leader's, and has grown unless it was all of it.
-- The fetcher is not paused, the batches that the follower misses have right length fields and less than
-- 2^31 bytes together, and the numbers and the topic's name fit their types.
pub fetch_once-copies :
    (f : Fetcher) (faults : Option Config) (leader follower : Log) (done todo : List (List ℕ))
    (hw : ℤ)
    → paused faults ≡ false
    → Holds leader (done ++ todo)
    → Holds follower done
    → All IsSized todo
    → length (joined todo) < 2 ^ 31
    → length (done ++ todo) < 2 ^ 63
    → length f.topic < 2 ^ 15
    → IsInt32 f.partition
    → IsInt64 hw
    → (front behind : List (List ℕ)) × (todo ≡ front ++ behind)
      × (0 < length todo → 0 < length front)
      × Holds
          (fetch_once f faults
            (λ body. some (
              single f.topic
                (fetch_records leader f.partition hw (end_offset follower) f.max_bytes)))
            follower)
          (done ++ front)
unfolding fetch_once
fetch_once-copies f faults leader follower done todo hw running hl hf sized small fits ht hp hh =
    let a = answered leader done todo f.partition hw f.max_bytes hl fits in
    (
      a.front,
      a.behind,
      a.whole,
      a.some_of,
      rw (running, end_offset-Holds follower done hf)
          (copied follower done a.front f.topic
            (fetch_records leader f.partition hw (pos (length done)) f.max_bytes) hf
            (front-IsSized a.front a.behind (subst (All IsSized) a.whole sized))
            (less a.front a.behind (subst (λ t. length (joined t) < 2 ^ 31) a.whole small))
            (omega (
              arith,
              fits,
              length-append done todo,
              ap length a.whole,
              length-append a.front a.behind,
            ))
            (subst (FitsResponse f.topic) (sym a.answer) (record {
              topic = ht;
              index = hp;
              error_code = omega arith;
              high_watermark = hh;
              records =
                  less a.front a.behind (subst (λ t. length (joined t) < 2 ^ 31) a.whole small);
            }))
            (ap FetchPartitionResponse.error_code a.answer)
            (ap FetchPartitionResponse.records a.answer)),
    )
  where
    less :
        (c1 c2 : List (List ℕ)) → length (joined (c1 ++ c2)) < 2 ^ 31 → length (joined c1) < 2 ^ 31
    less c1 c2 l =
        omega (arith, l, ap length (joined-append c1 c2), length-append (joined c1) (joined c2))
