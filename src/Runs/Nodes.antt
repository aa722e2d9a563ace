-- ===== src/Runs/Nodes.antt =====
-- Examples of the brokers' liveness and of batches of records.
use gokaf.Base.{
  All, ◌/◌, ℕ, ◌^◌, ◌<◌, lt_wf, dec_le, ◌≡◌, ◌⊎◌, refl, ap, List, [], ◌∷◌, some, none, ℤ, pos,
  negsuc, true, false, ltb, length, arith,
}
use gokaf.Base.Map.{insert, lookup-insert_self}
use gokaf.Protocol.Result.{ok}
use gokaf.Protocol.RecordBatch.{
  BatchRecord, encode_records, encode_record, record_body, write_key, decode_record_batches,
}
use gokaf.Protocol.RecordBatch.RoundTrip.{all_bytes, all_records, decode_record_batches-All}
use gokaf.Cluster.Liveness.{Monitor, or_false, ℤ-discrete, is_marked, misses_of, controller_id}
use gokaf.Cluster.Liveness.Tracking.{
  NoneHigher, IsAliveIn, after_pings, trailing_misses, is_marked-after_pings,
  controller_id-NoneHigher,
}
use gokaf.Assignor.Strategies.{count_up, range_topic}
use gokaf.Assignor.Balance.{dealt, names_of, all_of, IsFair, range_topic-IsFair}
use gokaf.Runs.Network.{members}

-- A monitor of broker 1 that three misses in a row convince.
abbrev monitor : Monitor
monitor = record {
  self = pos 1;
  membership = members;
  fail_after = 3;
  alive = insert ℤ-discrete (pos 2) true [];
  misses = [];
}

monitor-misses : misses_of monitor (pos 2) ≡ 0
unfolding misses_of gokaf.Base.Map.lookup
monitor-misses = refl

monitor-alive : is_marked monitor (pos 2) ≡ true
unfolding is_marked
monitor-alive = ap or_false (lookup-insert_self ℤ-discrete (pos 2) true [])

is_marked-after_pings_example :
    is_marked (after_pings monitor (pos 2) (false ∷ false ∷ false ∷ true ∷ [])) (pos 2)
    ≡ ltb (trailing_misses (false ∷ false ∷ false ∷ true ∷ [])) 3
is_marked-after_pings_example =
    is_marked-after_pings monitor (pos 2) (false ∷ false ∷ false ∷ true ∷ []) (omega arith)
      monitor-misses monitor-alive

controller_id-NoneHigher_example :
    NoneHigher monitor (controller_id monitor) (monitor.membership.brokers)
    × ((controller_id monitor ≡ negsuc 0)
        ⊎ IsAliveIn monitor (controller_id monitor) (monitor.membership.brokers))
controller_id-NoneHigher_example = controller_id-NoneHigher monitor

abbrev stored : List (ℕ × List BatchRecord)
stored =
    (0, record { key = none; value = 104 ∷ [] } ∷ [])
    ∷ (1, record { key = some []; value = [] } ∷ [])
    ∷ []

first-length : length (encode_records 0 (record { key = none; value = 104 ∷ [] } ∷ [])) ≡ 8
unfolding encode_records encode_record record_body write_key gokaf.Protocol.Varint.write_varint
    gokaf.Protocol.Varint.zigzag gokaf.Protocol.Varint.write_uvarint
    gokaf.Protocol.Varint.write_uvarint_loop lt_wf gokaf.Protocol.Types.write_int8 dec_le
first-length = refl

second-length : length (encode_records 0 (record { key = some []; value = [] } ∷ [])) ≡ 7
unfolding encode_records encode_record record_body write_key gokaf.Protocol.Varint.write_varint
    gokaf.Protocol.Varint.zigzag gokaf.Protocol.Varint.write_uvarint
    gokaf.Protocol.Varint.write_uvarint_loop lt_wf gokaf.Protocol.Types.write_int8 dec_le
second-length = refl

decode_record_batches-All_example :
    decode_record_batches (all_bytes (λ bytes. length bytes) stored)
    ≡ ok (all_records (λ bytes. length bytes) stored)
decode_record_batches-All_example =
    decode_record_batches-All (λ bytes. length bytes) stored
      (
        (omega arith, omega arith, ((tt, omega arith), tt), omega (arith, first-length)),
        (
          (
            omega arith,
            omega arith,
            ((omega arith, omega arith), tt),
            omega (arith, second-length),
          ),
          tt,
        ),
      )

range_topic-IsFair_example :
    (ss : List (List ℕ × List ℤ)) × (range_topic (116 ∷ []) (pos 5) ((97 ∷ []) ∷ (98 ∷ []) ∷ []) []
      ≡ some (dealt (116 ∷ []) ss []))
    × (names_of ss ≡ (97 ∷ []) ∷ (98 ∷ []) ∷ [])
    × (all_of ss ≡ count_up 5 (pos 0))
    × All (IsFair (5 / 2)) ss
range_topic-IsFair_example =
    range_topic-IsFair (116 ∷ []) 5 (97 ∷ []) ((98 ∷ []) ∷ []) [] (omega arith)
