-- ===== src/Runs/Disk.antt =====
-- Examples of the log, the segments and the offset store.
use gokaf.Base.{
  ℕ, ◌<◌, ◌≤◌, ◌≡◌, ◌≢◌, refl, List, [], ◌∷◌, ◌++◌, inl, ℤ, pos, negsuc, some, length, arith,
}
use gokaf.Storage.Segment.{
  Record, Segment, max_segment_bytes, records, read_records, start_position, append_entry,
  create_segment, recover_log,
}
use gokaf.Storage.Segment.Entries.{entries}
use gokaf.Storage.Segment.Reading.{records_from, limit}
use gokaf.Storage.Segment.Indexing.{
  Stores, create_segment-Stores, append_entry-Stores, read_records-Stores,
}
use gokaf.Storage.Segment.Recovery.{recover_log-torn}
use gokaf.Storage.Log.{Log, open_empty, append, append_with_offset, read}
use gokaf.Storage.Log.Invariant.{Holds, open_empty-Holds, append-Holds, append_with_offset-Holds}
use gokaf.Storage.Log.Invariant.Reads.{read-Holds}
use gokaf.Storage.Segment.Opening.{open_segment, load_index}
use gokaf.Storage.Segment.Opening.Rebuild.{open_segment-Stores}
use gokaf.Offset.{Key, Store, commit, replay, replayed}
use gokaf.Offset.Replay.{Commit, Fits, Holding, commit-Holding, replay-Holding}

abbrev hello : List ℕ
hello = 104 ∷ 105 ∷ []

abbrev stamp_first : ℤ → List ℕ → List ℕ
stamp_first o [] = []
stamp_first o (x ∷ p) = 9 ∷ p

stamp_first-length : (o : ℤ) (p : List ℕ) → length (stamp_first o p) ≡ length p
stamp_first-length o [] = refl
stamp_first-length o (x ∷ p) = refl

small : Segment.log_size (create_segment (pos 7)) ≤ max_segment_bytes
unfolding create_segment
small = omega arith

abbrev one_record : Log
one_record = (append open_empty hello).0

one_record-Holds : Holds one_record (hello ∷ [])
one_record-Holds = (append-Holds open_empty [] hello open_empty-Holds (omega arith) (omega arith)).0

read-Holds_example :
    (rs : List Record) × (rest : List Record) × (read one_record (pos 0) (negsuc 0) ≡ records rs)
    × (records_from 0 0 (hello ∷ []) ≡ rs ++ rest)
    × (0 < length (hello ∷ []) → rs ≢ [])
read-Holds_example = read-Holds one_record (hello ∷ []) 0 (negsuc 0) one_record-Holds (omega arith)

append_with_offset-Holds_example :
    Holds (append_with_offset one_record hello stamp_first).0 (hello ∷ (9 ∷ 105 ∷ []) ∷ [])
    × ((append_with_offset one_record hello stamp_first).1 ≡ pos 1)
append_with_offset-Holds_example =
    append_with_offset-Holds one_record (hello ∷ []) hello stamp_first one_record-Holds
      (omega arith) stamp_first-length (omega arith)

append_entry-Stores_example :
    Stores (append_entry (create_segment (pos 7)) (pos 7) hello) 7 (hello ∷ [])
append_entry-Stores_example =
    append_entry-Stores (create_segment (pos 7)) 7 [] hello (create_segment-Stores 7) (omega arith)
      small

abbrev seventh : Segment
seventh = append_entry (create_segment (pos 7)) (pos 7) hello

seventh-Stores : Stores seventh 7 (hello ∷ [])
seventh-Stores =
    append_entry-Stores (create_segment (pos 7)) 7 [] hello (create_segment-Stores 7) (omega arith)
      small

read_records-Stores_example :
    read_records seventh.log_file (start_position seventh (pos 7)) (pos 7) (pos 1)
    ≡ records (limit (pos 1) 0 (records_from 7 7 (hello ∷ [])))
read_records-Stores_example =
    read_records-Stores seventh 7 7 (hello ∷ []) (pos 1) seventh-Stores (omega arith) (omega arith)

recover_log-torn_example :
    recover_log (entries 0 (hello ∷ []) ++ (0 ∷ 0 ∷ []))
    ≡ some (pos 1, length (entries 0 (hello ∷ [])))
recover_log-torn_example =
    recover_log-torn 0 (hello ∷ []) (0 ∷ 0 ∷ []) (omega arith) (omega arith, tt) (inl (omega arith))

abbrev key : Key
key = record { group = hello; topic = hello; partition = pos 0 }

abbrev first_commit : Commit
first_commit = record { key = key; offset = pos 5; time = pos 9 }

first_commit-Fits : Fits first_commit
first_commit-Fits = record {
  group = omega arith;
  topic = omega arith;
  partition = omega arith;
  offset = omega arith;
  time = omega arith;
}

abbrev no_commits : Store
no_commits = record { log = open_empty; offsets = [] }

no_commits-Holding : Holding no_commits []
no_commits-Holding = record { log = open_empty-Holds; offsets = refl }

abbrev one_commit : Store
one_commit = commit no_commits key (pos 5) (pos 9)

one_commit-Holding : Holding one_commit (first_commit ∷ [])
one_commit-Holding =
    commit-Holding no_commits [] first_commit no_commits-Holding first_commit-Fits (omega arith)

commit-Holding_example :
    Holding (commit one_commit key (pos 5) (pos 9)) (first_commit ∷ first_commit ∷ [])
commit-Holding_example =
    commit-Holding one_commit (first_commit ∷ []) first_commit one_commit-Holding first_commit-Fits
      (omega arith)

replay-Holding_example : replay 2 one_commit.log [] (pos 0) ≡ replayed one_commit.offsets
replay-Holding_example =
    replay-Holding one_commit (first_commit ∷ []) one_commit-Holding (first_commit-Fits, tt)
      (omega arith)

open_segment-Stores_example :
    (s : Segment) × (open_segment (pos 0) (entries 0 (hello ∷ []) ++ (0 ∷ 0 ∷ [])) [] ≡ some s)
    × Stores s 0 (hello ∷ [])
unfolding load_index gokaf.Storage.Segment.entry_header
open_segment-Stores_example =
    open_segment-Stores 0 (hello ∷ []) (0 ∷ 0 ∷ []) [] (omega arith) (omega arith) (omega arith)
      (omega arith, tt) (inl (omega arith)) refl
