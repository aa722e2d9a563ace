-- ===== src/Storage/Log/Opening.antt =====
-- internal/storage/log.go: `Open` on the segments that a directory holds, in the order of their first
-- offsets. The names of the files, from which the order comes, are not modelled.
use gokaf.Base.{ℕ, List, [], ◌∷◌, ◌++◌, Option, some, ℤ}
use mathlib.Core.Option
use gokaf.Storage.Segment.{Segment}
use gokaf.Storage.Segment.Opening.{open_segment, recover_next_offset}
use gokaf.Storage.Log.{Log, open_empty}

-- A segment's first offset and the bytes of its two files.
pub record Files : Type 0 where
  pub base : ℤ
  pub log_file : List ℕ
  pub index_file : List ℕ

-- The loop of `Open` behind the segments that were opened before.
unfoldable pub open_behind : List Segment → Files → List Files → Option Log
open_behind older f [] =
    Option.map (λ s. record { older = older; active = s; next_offset = recover_next_offset s })
      (open_segment f.base f.log_file f.index_file)
open_behind older f (g ∷ gs) =
    Option.bind (open_segment f.base f.log_file f.index_file)
      λ s. open_behind (older ++ (s ∷ [])) g gs

-- `Open`
unfoldable pub open_log : List Files → Option Log
open_log [] = some open_empty
open_log (f ∷ fs) = open_behind [] f fs
