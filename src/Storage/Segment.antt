-- ===== src/Storage/Segment.antt =====
-- internal/storage/log.go, one segment: entries of a 12-byte header and a payload in the log file,
-- and the sparse index. A file is its bytes; every call on a file succeeds, but a read behind the
-- end of a file. Sizes and positions in a file are unbounded numbers.
pub mod Entries
pub mod Reading
pub mod Recovery
pub mod Indexing
pub mod Opening
use gokaf.Base.{
  ℕ, zero, suc, ◌+◌, ◌*◌, ◌^◌, ◌%◌, List, [], ◌∷◌, ◌++◌, Option, none, some, ℤ, pos, negsuc,
  to_word, of_word, wrap32, wrap64, ◌+ℤ◌, ◌-ℤ◌, ltb_ℤ, leb_ℤ, pos_part, Bool, true, false, ◌&&◌,
  if◌then◌else◌, ltb, leb, ◌==◌, length, take, drop, get_elem?,
}
use gokaf.Protocol.Bytes.{put_be, get_be, split_at?}
use mathlib.Core.Option

pub record Record : Type 0 where
  pub offset : ℤ
  pub payload : List ℕ

pub record IndexEntry : Type 0 where
  pub rel_offset : ℤ
  pub position : ℤ

-- `log_writer` is flushed by every append, so its bytes are in `log_file`.
pub record Segment : Type 0 where
  pub base_offset : ℤ
  pub log_file : List ℕ
  pub index_file : List ℕ
  pub log_size : ℕ
  pub last_index_pos : ℕ
  pub index : List IndexEntry

abbrev pub max_segment_bytes : ℕ
max_segment_bytes = 1048576

abbrev pub index_interval_bytes : ℕ
index_interval_bytes = 4096

-- The header of an entry: its offset as a uint64 and the length of the payload as a uint32.
unfoldable pub entry_header : ℤ → ℕ → List ℕ
entry_header offset size = put_be 8 (to_word (2 ^ 64) offset) ++ put_be 4 (size % 2 ^ 32)

unfoldable pub header_offset : List ℕ → ℤ
header_offset header = of_word (2 ^ 63) (get_be (take 8 header))

unfoldable pub header_length : List ℕ → ℕ
header_length header = get_be (drop 8 header)

-- `file.ReadAt(buf, at)` with a buffer of `n` bytes; `none` is io.EOF.
unfoldable pub read_at : List ℕ → ℕ → ℕ → Option (List ℕ)
read_at file at n = Option.map (λ r. r.0) (split_at? n (drop at file))

-- The answer of sort.Search over the elements of a sorted slice: how many stand in front of the
-- first that passes the test.
unfoldable pub search {ℓ} : {A : Type ℓ} → (A → Bool) → List A → ℕ
search test [] = 0
search test (x ∷ xs) = if test x then 0 else suc (search test xs)

-- `createSegment` makes two empty files.
unfoldable pub create_segment : ℤ → Segment
create_segment base = record {
  base_offset = base;
  log_file = [];
  index_file = [];
  log_size = 0;
  last_index_pos = 0;
  index = [];
}

unfoldable pub index_bytes : IndexEntry → List ℕ
index_bytes entry =
    put_be 4 (to_word (2 ^ 32) entry.rel_offset) ++ put_be 4 (to_word (2 ^ 32) entry.position)

unfoldable pub maybe_write_index : Segment → ℤ → ℕ → Segment
maybe_write_index s offset entry_start_pos =
    let entry : IndexEntry = record {
      rel_offset = wrap32 (offset -ℤ s.base_offset);
      position = wrap32 (pos entry_start_pos);
    } in
    if ltb s.log_size (s.last_index_pos + index_interval_bytes) then s else record s {
      index_file = s.index_file ++ index_bytes entry;
      index = s.index ++ (entry ∷ []);
      last_index_pos = s.log_size;
    }

-- The index is written first, then the entry; both at the ends of their files.
unfoldable pub append_entry : Segment → ℤ → List ℕ → Segment
append_entry s offset payload =
    let indexed = maybe_write_index s offset s.log_size in
    record indexed {
      log_file = indexed.log_file ++ (entry_header offset (length payload) ++ payload);
      log_size = indexed.log_size + (12 + length payload);
    }

abbrev pub position_of : Option IndexEntry → ℤ
position_of none = pos 0
position_of (some e) = e.position

-- `index[j-1].position`, or 0 if `j` is 0.
abbrev pub indexed_position : List IndexEntry → ℕ → ℤ
indexed_position index zero = pos 0
indexed_position index (suc i) = position_of (get_elem? index i)

unfoldable pub start_position : Segment → ℤ → ℤ
start_position s offset =
    let rel = wrap32 (offset -ℤ s.base_offset) in
    indexed_position s.index (search (λ e. ltb_ℤ rel (IndexEntry.rel_offset e)) s.index)

-- What `readRecords` answers; `io_failure` is a file error other than io.EOF.
pub data ReadResult : Type 0 where
  records : List Record → ReadResult
  io_failure : ReadResult
  out_of_fuel : ReadResult

abbrev pub and_record : Record → ReadResult → ReadResult
and_record r (records rs) = records (r ∷ rs)
and_record r io_failure = io_failure
and_record r out_of_fuel = out_of_fuel

-- A read that meets the end of the file ends the loop.
abbrev pub or_end : Option (List ℕ) → (List ℕ → ReadResult) → ReadResult
or_end none k = records []
or_end (some bytes) k = k bytes

-- `maxBytes > 0 && payloadBytes >= maxBytes`
abbrev pub reached : ℤ → ℕ → Bool
reached max_bytes n = ltb_ℤ (pos 0) max_bytes && leb_ℤ max_bytes (pos n)

-- The loop of `readRecords` from byte `at` on; every round passes an entry header.
unfoldable pub read_loop : ℕ → List ℕ → ℕ → ℤ → ℤ → ℕ → ReadResult
read_loop zero file at offset max_bytes payload_bytes = out_of_fuel
read_loop (suc fuel) file at offset max_bytes payload_bytes = or_end (read_at file at 12) λ header.
    let size = header_length header in
    let next_pos = at + 12 + size in
    let skip = read_loop fuel file next_pos offset max_bytes payload_bytes in
    let keep = or_end (read_at file (at + 12) size) (λ payload.
      let read = payload_bytes + length payload in
      let this : Record = record { offset = header_offset header; payload = payload } in
      let more = read_loop fuel file next_pos offset max_bytes read in
      if reached max_bytes read then records (this ∷ []) else and_record this more) in
    if ltb_ℤ (header_offset header) offset then skip else keep

-- `readRecords`; a start before the file is an error of `ReadAt`.
unfoldable pub read_records : List ℕ → ℤ → ℤ → ℤ → ReadResult
read_records file (pos start) offset max_bytes =
    read_loop (suc (length file)) file start offset max_bytes 0
read_records file (negsuc n) offset max_bytes = io_failure

-- `recoverLog`: the offset after the last intact entry and the length of the intact entries.
unfoldable pub recover_loop : ℕ → List ℕ → ℕ → ℤ → Option (ℤ × ℕ)
recover_loop zero file at next_offset = none
recover_loop (suc fuel) file at next_offset =
    let round = Option.bind (read_at file at 12) (λ header.
      let end = at + 12 + header_length header in
      let more = recover_loop fuel file end (wrap64 (header_offset header +ℤ pos 1)) in
      if ltb (length file) end then some (next_offset, at) else more) in
    if leb (at + 12) (length file) then round else some (next_offset, at)

unfoldable pub recover_log : List ℕ → Option (ℤ × ℕ)
recover_log file = recover_loop (suc (length file)) file 0 (pos 0)
