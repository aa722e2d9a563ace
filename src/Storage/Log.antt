-- ===== src/Storage/Log.antt =====
-- internal/storage/log.go, the log: segments of which the last one takes the appends.
pub mod Invariant
pub mod Opening
use gokaf.Base.{
  ℕ, zero, suc, ◌+◌, List, [], ◌∷◌, ◌++◌, Option, none, some, ℤ, pos, ◌+ℤ◌, wrap64, ltb_ℤ,
  is_negative, ◌&&◌, if◌then◌else◌, ltb, length, get_elem?,
}
use gokaf.Storage.Segment.{
  Segment, ReadResult, records, max_segment_bytes, create_segment, append_entry, start_position,
  search, read_records,
}

-- The last segment stands apart, since there always is one.
pub record Log : Type 0 where
  pub older : List Segment
  pub active : Segment
  pub next_offset : ℤ

abbrev pub segments : Log → List Segment
segments l = l.older ++ (l.active ∷ [])

-- `Open` on an empty directory.
unfoldable pub open_empty : Log
open_empty = record { older = []; active = create_segment (pos 0); next_offset = pos 0 }

-- The roll at the head of `AppendWithOffset`: a new segment if the entry would outgrow this one.
unfoldable pub roll : Log → ℕ → Log
roll l entry_size =
    if ltb 0 l.active.log_size && ltb max_segment_bytes (l.active.log_size + entry_size)
    then record l { older = segments l; active = create_segment l.next_offset }
    else l

-- `AppendWithOffset`. The callback `stamp` may rewrite the payload, which is then written.
unfoldable pub append_with_offset : Log → List ℕ → (ℤ → List ℕ → List ℕ) → Log × ℤ
append_with_offset l payload stamp =
    let offset = l.next_offset in
    let rolled = roll l (12 + length payload) in
    (
      record rolled {
        active = append_entry rolled.active offset (stamp offset payload);
        next_offset = wrap64 (offset +ℤ pos 1);
      },
      offset,
    )

unfoldable pub append : Log → List ℕ → Log × ℤ
append l payload = append_with_offset l payload (λ offset p. p)

unfoldable pub end_offset : Log → ℤ
end_offset l = l.next_offset

unfoldable pub start_offset : Log → ℤ
start_offset l = elim (segments l) [ [] ↦ pos 0 | s ∷ rest ↦ s.base_offset ]

abbrev pub segment_before : List Segment → ℕ → Option Segment
segment_before ss zero = none
segment_before ss (suc i) = get_elem? ss i

unfoldable pub segment_for_offset : Log → ℤ → Option Segment
segment_for_offset l offset =
    if is_negative offset
    then none
    else segment_before (segments l)
        (search (λ s. ltb_ℤ offset (Segment.base_offset s)) (segments l))

abbrev pub read_segment : Option Segment → ℤ → ℤ → ReadResult
read_segment none offset max_bytes = records []
read_segment (some s) offset max_bytes =
    read_records s.log_file (start_position s offset) offset max_bytes

unfoldable pub read : Log → ℤ → ℤ → ReadResult
read l offset max_bytes = read_segment (segment_for_offset l offset) offset max_bytes
