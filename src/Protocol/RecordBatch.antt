-- ===== src/Protocol/RecordBatch.antt =====
-- internal/protocol/recordbatch.go: batches of records. `crc` stands for crc32.Checksum with the
-- Castagnoli table. A nil key is `none`; a nil value is written like an empty one.
pub mod RoundTrip
use gokaf.Base.{
  ℕ, zero, suc, ◌+◌, ◌-◌, ◌^◌, ◌%◌, List, [], ◌∷◌, ◌++◌, Option, none, some, ℤ, pos, negsuc, ◌+ℤ◌,
  ◌-ℤ◌, to_word, of_word, wrap32, wrap64, is_negative, pos_part, Bool, ◌||◌, not, if◌then◌else◌,
  ltb, leb, ◌==◌, length, get_or, take, drop,
}
use gokaf.Protocol.Result.{
  Error, short_batch, bad_magic, Result, ok, err, panics, Decoder, ◌>>=◌, return,
}
use gokaf.Protocol.Bytes.{put_be, get_be, read_full}
use gokaf.Protocol.Types.{write_int8, read_int8, read_times}
use gokaf.Protocol.Varint.{write_varint, read_varint}

abbrev pub record_batch_header_len : ℕ
record_batch_header_len = 61

abbrev pub base_timestamp : ℕ
base_timestamp = 1700000000000

pub record BatchRecord : Type 0 where
  pub key : Option (List ℕ)
  pub value : List ℕ

pub record DecodedRecord : Type 0 where
  pub offset : ℤ
  pub key : Option (List ℕ)
  pub value : Option (List ℕ)
  pub timestamp : ℤ

-- `b[at:at+n]` as a big-endian word.
abbrev pub word_at : ℕ → ℕ → List ℕ → ℕ
word_at at n b = get_be (take n (drop at b))

unfoldable pub write_key : Option (List ℕ) → List ℕ
write_key none = write_varint (negsuc 0)
write_key (some k) = write_varint (wrap32 (pos (length k))) ++ k

-- `encodeRecord` behind the length.
unfoldable pub record_body : BatchRecord → ℕ → List ℕ
record_body r delta =
    write_int8 (pos 0)
    ++ (write_varint (pos 0)
        ++ (write_varint (wrap32 (pos delta))
            ++ (write_key r.key
                ++ ((write_varint (wrap32 (pos (length r.value))) ++ r.value)
                    ++ write_varint (pos 0)))))

unfoldable pub encode_record : BatchRecord → ℕ → List ℕ
encode_record r delta =
    write_varint (wrap32 (pos (length (record_body r delta)))) ++ record_body r delta

-- The loop of `BuildRecordBatch`, from the record of index `i` on.
unfoldable pub encode_records : ℕ → List BatchRecord → List ℕ
encode_records i [] = []
encode_records i (r ∷ rs) = encode_record r i ++ encode_records (suc i) rs

-- `batch[21:]`, which the checksum covers: the attributes, the last offset delta, two timestamps, the
-- producer's id, epoch and sequence, the number of records, and the records.
unfoldable pub covered : ℕ → List ℕ → List ℕ
covered n body =
    put_be 2 0
    ++ (put_be 4 (to_word (2 ^ 32) (pos n -ℤ pos 1))
        ++ (put_be 8 base_timestamp
            ++ (put_be 8 base_timestamp
                ++ (put_be 8 (2 ^ 64 - 1)
                    ++ (put_be 2 (2 ^ 16 - 1)
                        ++ (put_be 4 (2 ^ 32 - 1) ++ (put_be 4 (n % 2 ^ 32) ++ body)))))))

module _ (crc : List ℕ → ℕ) where
  unfoldable pub build_record_batch : List BatchRecord → List ℕ
  build_record_batch rs =
      let body = encode_records 0 rs in
      let rest = covered (length rs) body in
      put_be 8 0
      ++ (put_be 4 ((record_batch_header_len + length body - 12) % 2 ^ 32)
          ++ (put_be 4 (2 ^ 32 - 1) ++ ((2 ∷ []) ++ (put_be 4 (crc rest) ++ rest))))

-- `readVarintBytes`
unfoldable pub read_varint_bytes : Decoder (Option (List ℕ))
read_varint_bytes = do
  n ← read_varint
  if is_negative n then return none else (read_full (pos_part n) >>= λ buf. return (some buf))

unfoldable pub decode_record : ℤ → ℤ → Decoder DecodedRecord
decode_record base_offset base_ts = do
  size ← read_varint
  attributes ← read_int8
  ts_delta ← read_varint
  offset_delta ← read_varint
  key ← read_varint_bytes
  value ← read_varint_bytes
  headers ← read_varint
  return (record {
    offset = wrap64 (base_offset +ℤ offset_delta);
    key = key;
    value = value;
    timestamp = wrap64 (base_ts +ℤ ts_delta);
  })

-- The bytes behind the records are not read.
abbrev pub records_of {ℓ} : {A : Type ℓ} → Result (A × List ℕ) → Result A
records_of (ok (a, rest)) = ok a
records_of (err e) = err e
records_of panics = panics

unfoldable pub decode_one_batch : List ℕ → Result (List DecodedRecord)
decode_one_batch batch =
    let base_offset = of_word (2 ^ 63) (word_at 0 8 batch) in
    let base_ts = of_word (2 ^ 63) (word_at 27 8 batch) in
    let count = of_word (2 ^ 31) (word_at 57 4 batch) in
    let decode = records_of (
      read_times (pos_part count) (decode_record base_offset base_ts)
        (drop record_batch_header_len batch)) in
    if ltb (length batch) record_batch_header_len
    then err short_batch
    else (if not (get_or batch 16 0 == 2)
        then err (bad_magic (get_or batch 16 0))
        else (if is_negative count then panics else decode))

abbrev pub and_more :
    Result (List DecodedRecord) → Result (List DecodedRecord) → Result (List DecodedRecord)
and_more (ok rs) (ok more) = ok (rs ++ more)
and_more (ok rs) (err e) = err e
and_more (ok rs) panics = panics
and_more (err e) more = err e
and_more panics more = panics

-- `DecodeRecordBatches`; every round drops twelve bytes or more, so as many rounds as bytes are enough.
unfoldable pub decode_batches : ℕ → List ℕ → Result (List DecodedRecord)
decode_batches zero raw = ok []
decode_batches (suc fuel) raw =
    let total = 12 + word_at 8 4 raw in
    let more = decode_batches fuel (drop total raw) in
    if ltb (length raw) 12
    then ok []
    else (if ltb total record_batch_header_len || ltb (length raw) total
        then ok []
        else and_more (decode_one_batch (take total raw)) more)

unfoldable pub decode_record_batches : List ℕ → Result (List DecodedRecord)
decode_record_batches raw = decode_batches (length raw) raw
