-- ===== src/Storage/Segment/Opening.antt =====
-- internal/storage/log.go: what `openSegment` makes of the two files that it finds. `none` stands for a
-- read error, which no file here gives, and for an index whose last position is negative, which no
-- append writes.
pub mod Rebuild
use gokaf.Base.{
  ℕ, zero, suc, ◌+◌, ◌%◌, ◌^◌, List, [], ◌∷◌, ◌++◌, Option, none, some, ℤ, pos, negsuc, of_word,
  wrap32, ◌-ℤ◌, leb_ℤ, if◌then◌else◌, ltb, leb, ◌==◌, length, take, drop,
}
use gokaf.Protocol.Bytes.{get_be}
use mathlib.Core.Option
use gokaf.Storage.Segment.{
  IndexEntry, Segment, index_interval_bytes, header_offset, header_length, read_at, index_bytes,
  recover_log,
}

-- What `loadIndex` answers; `rebuild` is a nil slice.
pub data Loaded : Type 0 where
  loaded : List IndexEntry → Loaded
  rebuild : Loaded
  failed : Loaded

abbrev pub and_entry : IndexEntry → Loaded → Loaded
and_entry e (loaded es) = loaded (e ∷ es)
and_entry e rebuild = rebuild
and_entry e failed = failed

abbrev pub or_failed : Option (List ℕ) → (List ℕ → Loaded) → Loaded
or_failed none k = failed
or_failed (some buf) k = k buf

unfoldable pub index_entry : List ℕ → IndexEntry
index_entry buf = record {
  rel_offset = of_word (2 ^ 31) (get_be (take 4 buf));
  position = of_word (2 ^ 31) (get_be (drop 4 buf));
}

-- The loop of `loadIndex` from byte `at` on; every round passes eight bytes.
unfoldable pub load_loop : ℕ → List ℕ → ℕ → ℕ → Loaded
load_loop zero file log_size at = failed
load_loop (suc fuel) file log_size at =
    let round = or_failed (read_at file at 8) (λ buf.
      let more = load_loop fuel file log_size (at + 8) in
      if leb_ℤ (pos log_size) (index_entry buf).position
      then rebuild
      else and_entry (index_entry buf) more) in
    if ltb at (length file) then round else loaded []

unfoldable pub load_index : List ℕ → ℕ → Loaded
load_index file log_size =
    if length file == 0
    then (if ltb 0 log_size then rebuild else loaded [])
    else (if length file % 8 == 0 then load_loop (suc (length file)) file log_size 0 else rebuild)

-- The loop of `rebuildIndex` from byte `at` on; every round passes an entry header.
unfoldable pub rebuild_loop : ℕ → List ℕ → ℤ → ℕ → ℕ → ℕ → Option (List IndexEntry)
rebuild_loop zero file base log_size last at = none
rebuild_loop (suc fuel) file base log_size last at =
    let round = Option.bind (read_at file at 12) (λ header.
      let end = at + 12 + header_length header in
      let entry : IndexEntry = record {
        rel_offset = wrap32 (header_offset header -ℤ base);
        position = wrap32 (pos at);
      } in
      let indexed = rebuild_loop fuel file base log_size at end in
      let passed = rebuild_loop fuel file base log_size last end in
      if ltb log_size end
      then some []
      else (if leb (last + index_interval_bytes) at
          then Option.map (λ es. entry ∷ es) indexed
          else passed)) in
    if leb (at + 12) log_size then round else some []

unfoldable pub rebuild_index : List ℕ → ℤ → ℕ → Option (List IndexEntry)
rebuild_index file base log_size = rebuild_loop (suc (length file)) file base log_size 0 0

-- The bytes that `rebuildIndex` writes to the emptied index file.
unfoldable pub all_index_bytes : List IndexEntry → List ℕ
all_index_bytes [] = []
all_index_bytes (e ∷ es) = index_bytes e ++ all_index_bytes es

unfoldable pub last_indexed_position : List IndexEntry → ℤ
last_indexed_position [] = pos 0
last_indexed_position (e ∷ []) = e.position
last_indexed_position (e ∷ f ∷ es) = last_indexed_position (f ∷ es)

abbrev pub or_negative : ℤ → (ℕ → Option Segment) → Option Segment
or_negative (pos n) k = k n
or_negative (negsuc n) k = none

unfoldable pub opened : ℤ → List ℕ → List ℕ → List IndexEntry → Option Segment
opened base log_file index_file index = or_negative (last_indexed_position index) λ last.
    some (record {
      base_offset = base;
      log_file = log_file;
      index_file = index_file;
      log_size = length log_file;
      last_index_pos = last;
      index = index;
    })

abbrev pub or_rebuild : ℤ → List ℕ → List ℕ → Loaded → Option Segment
or_rebuild base log_file index_file (loaded index) = opened base log_file index_file index
or_rebuild base log_file index_file rebuild =
    Option.bind (rebuild_index log_file base (length log_file))
      λ index. opened base log_file (all_index_bytes index) index
or_rebuild base log_file index_file failed = none

-- `openSegment`: the log file is cut to its intact entries, and the index is loaded or rebuilt.
unfoldable pub open_segment : ℤ → List ℕ → List ℕ → Option Segment
open_segment base log_file index_file = Option.bind (recover_log log_file) λ recovered.
    let intact = take recovered.1 log_file in
    or_rebuild base intact index_file (load_index index_file (length intact))

unfoldable pub recover_next_offset : Segment → ℤ
recover_next_offset s =
    if s.log_size == 0 then s.base_offset else offset_or s.base_offset (recover_log s.log_file)
  where
    offset_or : ℤ → Option (ℤ × ℕ) → ℤ
    offset_or base none = base
    offset_or base (some (offset, size)) = offset
