-- ===== src/Runs/Clients.antt =====
-- Examples of the producers' sequence numbers, the high watermark and the topics.
use gokaf.Base.{
  All, ℕ, zero, suc, ◌<◌, ◌≤ℤ◌, ◌⊎◌, ◌≡◌, refl, List, [], ◌∷◌, Option, some, ℤ, pos, length,
  get_elem?, ◌-◌, ◌^◌, arith,
}
use gokaf.Producer.{SeqKey, SeqState, duplicate, check_state, new_manager}
use gokaf.Producer.Sequence.{check_state-exhausted}
use gokaf.Producer.ExactlyOnce.{Batch, Contiguous, send_all, send_all-Contiguous}
use gokaf.Replication.PartitionState.{
  PartitionState, recompute, recompute_and_release, record_follower_fetch, begin_wait,
  high_watermark_at, isr,
}
use gokaf.Replication.PartitionState.Watermark.{IsReached, IsOffsetOf, recompute-IsLowest}
use gokaf.Replication.PartitionState.Waiters.{
  IsFetched, IsReleased, NobodyLeft, Reached, record_follower_fetch-NobodyLeft,
  begin_wait-NobodyLeft, recompute_and_release-Reached, isr-high_watermark_at,
}
use gokaf.Topic.Registry.{Topic, Created, Deleted, create, delete, create-Created, delete-Deleted}
use mathlib.Core.List.{Memᴰ}
use gokaf.Topic.Assign.{Distinct, IsRow, assign_replicas, assign_replicas-Distinct}

abbrev exhausted : SeqState
exhausted = record {
  last_sequence = pos (2 ^ 31 - 1);
  last_base_offset = pos 0;
  last_record_count = pos 1;
}

check_state-exhausted_example : (check_state (some exhausted) (pos 0)).decision ≡ duplicate
check_state-exhausted_example = check_state-exhausted exhausted 0 refl (omega arith)

abbrev key : SeqKey
key = record { pid = pos 1; topic = 116 ∷ []; partition = pos 0 }

abbrev batches : List Batch
batches =
    record { base_seq = pos 0; record_count = 2 }
    ∷ record { base_seq = pos 0; record_count = 2 }
    ∷ []

send_all-Contiguous_example : Contiguous 0 (send_all key batches (new_manager, [])).1
send_all-Contiguous_example =
    send_all-Contiguous key batches ((omega arith, omega arith), ((omega arith, omega arith), tt))

-- Broker 1 leads, broker 2 follows and has fetched up to 3 of 5; a produce request waits for 4.
abbrev partition : PartitionState
partition = record {
  replicas = pos 1 ∷ pos 2 ∷ [];
  leader_id = pos 1;
  follower_offset = (pos 2, pos 3) ∷ [];
  follower_seen = (pos 2, 10) ∷ [];
  leader_end_offset = pos 5;
  high_watermark = pos 3;
  lag_timeout = 10;
  waiters = record { id = 0; target = pos 4 } ∷ [];
}

partition-NobodyLeft : NobodyLeft partition
partition-NobodyLeft = (omega arith, tt)

recompute-IsLowest_example :
    let hw = (recompute partition 12).0.high_watermark in
    (hw ≤ℤ pos 5)
    × IsReached partition 12 hw (pos 1 ∷ pos 2 ∷ [])
    × ((hw ≡ pos 5) ⊎ IsOffsetOf partition 12 hw (pos 1 ∷ pos 2 ∷ []))
recompute-IsLowest_example = recompute-IsLowest partition 12

begin_wait-NobodyLeft_example :
    NobodyLeft (begin_wait partition (record { id = 1; target = pos 5 }) 12).0
begin_wait-NobodyLeft_example =
    begin_wait-NobodyLeft partition (record { id = 1; target = pos 5 }) 12 partition-NobodyLeft

record_follower_fetch-NobodyLeft_example :
    (fetched : PartitionState) × IsFetched partition (pos 2) (pos 4) (pos 5) 11 fetched
    × IsReleased fetched 12
        (record_follower_fetch partition (pos 2) (pos 4) (pos 5) 11 12).0
        (record_follower_fetch partition (pos 2) (pos 4) (pos 5) 11 12).1
record_follower_fetch-NobodyLeft_example =
    record_follower_fetch-NobodyLeft partition (pos 2) (pos 4) (pos 5) 11 12 partition-NobodyLeft

recompute_and_release-Reached_example :
    Reached
      (recompute_and_release partition 30).0.high_watermark
      (recompute_and_release partition 30).1
recompute_and_release-Reached_example = recompute_and_release-Reached partition 30

-- At time 30 the follower has fallen out, so the high watermark is 5, and the request for 4 still waits.
isr-high_watermark_at_example :
    (high_watermark_at (isr partition 30 30).0 (pos 5) 30).0.waiters
    ≡ record { id = 0; target = pos 4 } ∷ []
isr-high_watermark_at_example = isr-high_watermark_at partition 30 30

abbrev topic : Topic
topic = record { name = 116 ∷ []; partitions = [] }

create-Created_example : Created [] topic (create [] topic)
create-Created_example = create-Created [] topic

delete-Deleted_example : Deleted [] (116 ∷ []) (delete [] (116 ∷ []))
delete-Deleted_example = delete-Deleted [] (116 ∷ [])

abbrev brokers : List ℤ
brokers = pos 1 ∷ pos 2 ∷ []

brokers-Distinct : Distinct brokers
brokers-Distinct zero zero h k e = refl
brokers-Distinct zero (suc zero) h k e = absurd (different e)
  where
    different : ¬ Path (Option ℤ) (some (pos 1)) (some (pos 2))
    different p = cc p
brokers-Distinct (suc zero) zero h k e = absurd (different e)
  where
    different : ¬ Path (Option ℤ) (some (pos 2)) (some (pos 1))
    different p = cc p
brokers-Distinct (suc zero) (suc zero) h k e = refl
brokers-Distinct (suc (suc a)) b h k e = absurd (ground arith)
brokers-Distinct a (suc (suc b)) h k e = absurd (ground arith)

assign_replicas-Distinct_example :
    (rows : List (List ℤ)) × (assign_replicas (pos 3) brokers (pos 2) ≡ some rows)
    × (length rows ≡ 3)
    × ((i : ℕ)
        → i < 3
        → (row : List ℤ) × (get_elem? rows i ≡ some row)
          × IsRow brokers i 0 2 row
          × All (λ id. Memᴰ id brokers) row
          × Distinct row)
assign_replicas-Distinct_example =
    assign_replicas-Distinct 3 2 brokers (omega arith) (omega arith) (omega arith) brokers-Distinct
