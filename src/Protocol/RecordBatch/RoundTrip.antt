-- ===== src/Protocol/RecordBatch/RoundTrip.antt =====
-- A batch is read back as it was built, under whatever base offset the log stamped on it.
use gokaf.Base.{
  le→ltb_false, ℕ, zero, suc, ◌+◌, ◌-◌, ◌^◌, ◌%◌, ◌≤◌, ◌<◌, ◌≡◌, refl, sym, ap, ◌∙◌, List, [], ◌∷◌,
  ◌++◌, append-nil, Option, none, some, ℤ, pos, negsuc, ◌+ℤ◌, of_word, wrap32, wrap64, IsInt32,
  of_word-to_word32, ltb, false, length, length-append, get_or, drop, drop-append, take-append, All,
  arith,
}
use gokaf.Protocol.Result.{ok, Reads, Reads-bind, Reads-last, Reads-return}
use gokaf.Protocol.Bytes.{put_be, get_be, get_be-put_be}
use gokaf.Protocol.Types.{read_times}
use gokaf.Protocol.Types.RoundTrip.{Reads-int8, Reads-full}
use gokaf.Protocol.Varint.{read_varint, write_varint}
use gokaf.Protocol.Varint.RoundTrip.{Reads-varint}
use gokaf.Protocol.RecordBatch.{
  BatchRecord, DecodedRecord, record_batch_header_len, base_timestamp, word_at, write_key,
  record_body, encode_record, encode_records, covered, build_record_batch, read_varint_bytes,
  decode_record, decode_one_batch, and_more, decode_batches, decode_record_batches,
}

abbrev FitsKey : Option (List ℕ) → Type 0
FitsKey none = Unit {0}
FitsKey (some k) = length k < 2 ^ 31

-- A key and a value whose lengths fit an int32.
abbrev pub FitsRecord : BatchRecord → Type 0
FitsRecord r = FitsKey r.key × (length r.value < 2 ^ 31)

wrap32-IsInt32 : (v : ℤ) → IsInt32 (wrap32 v)
wrap32-IsInt32 v = ground arith

wrap32-small : (n : ℕ) → n < 2 ^ 31 → wrap32 (pos n) ≡ pos n
wrap32-small n h = of_word-to_word32 (pos n) h

Reads-small : (n : ℕ) → n < 2 ^ 31 → Reads read_varint (write_varint (wrap32 (pos n))) (pos n)
Reads-small n h = rw (wrap32-small n h) (Reads-varint (pos n) h)

Reads-some_bytes :
    (b : List ℕ)
    → length b < 2 ^ 31
    → Reads read_varint_bytes (write_varint (wrap32 (pos (length b))) ++ b) (some b)
unfolding read_varint_bytes
Reads-some_bytes b h = rw (wrap32-small (length b) h) (
    Reads-bind _ (Reads-varint (pos (length b)) h)
      (Reads-last _ (Reads-full (length b) b refl) Reads-return))

Reads-key : (k : Option (List ℕ)) → FitsKey k → Reads read_varint_bytes (write_key k) k
unfolding write_key read_varint_bytes
Reads-key none h = Reads-last _ (Reads-varint (negsuc 0) (omega arith)) Reads-return
Reads-key (some k) h = Reads-some_bytes k h

-- What `decode_record` makes of the record of index `i`.
abbrev pub resolved : ℤ → ℤ → BatchRecord → ℕ → DecodedRecord
resolved base ts r i = record {
  offset = wrap64 (base +ℤ pos i);
  key = r.key;
  value = some r.value;
  timestamp = wrap64 (ts +ℤ pos 0);
}

Reads-record :
    (base ts : ℤ) (r : BatchRecord) (i : ℕ)
    → FitsRecord r
    → i < 2 ^ 31
    → Reads (decode_record base ts) (encode_record r i) (resolved base ts r i)
unfolding decode_record encode_record record_body
Reads-record base ts r i h hi =
    Reads-bind _
      (Reads-varint (wrap32 (pos (length (record_body r i))))
        (wrap32-IsInt32 (pos (length (record_body r i)))))
      (Reads-bind _ (Reads-int8 (pos 0) (omega arith)) (
        Reads-bind _ (Reads-varint (pos 0) (omega arith)) (
          Reads-bind _ (Reads-small i hi) (
            Reads-bind _ (Reads-key r.key h.0) (
              Reads-bind _ (Reads-some_bytes r.value h.1)
                (Reads-last _ (Reads-varint (pos 0) (omega arith)) Reads-return))))))

-- The records of a batch, from the one of index `i` on.
abbrev pub all_resolved : ℤ → ℤ → ℕ → List BatchRecord → List DecodedRecord
all_resolved base ts i [] = []
all_resolved base ts i (r ∷ rs) = resolved base ts r i ∷ all_resolved base ts (suc i) rs

Reads-records :
    (base ts : ℤ) (i : ℕ) (rs : List BatchRecord)
    → All FitsRecord rs
    → i + length rs ≤ 2 ^ 31
    → Reads
        (read_times (length rs) (decode_record base ts))
        (encode_records i rs)
        (all_resolved base ts i rs)
unfolding encode_records read_times
Reads-records base ts i [] h hi = Reads-return
Reads-records base ts i (r ∷ rs) h hi =
    Reads-bind _ (Reads-record base ts r i h.0 (omega (arith, hi)))
      (Reads-last _ (Reads-records base ts (suc i) rs h.1 (omega (arith, hi))) Reads-return)

-- What AppendWithOffset's callback does to a batch: the offset goes over its first eight bytes.
abbrev pub stamped : ℕ → List ℕ → List ℕ
stamped offset batch = put_be 8 offset ++ drop 8 batch

-- Decoding by the fields of the header.
decode-fields :
    (b body : List ℕ) (n : ℕ) (base ts : ℤ) (out : List DecodedRecord)
    → 61 ≤ length b
    → get_or b 16 0 ≡ 2
    → of_word (2 ^ 63) (word_at 0 8 b) ≡ base
    → of_word (2 ^ 63) (word_at 27 8 b) ≡ ts
    → of_word (2 ^ 31) (word_at 57 4 b) ≡ pos n
    → drop 61 b ≡ body
    → Reads (read_times n (decode_record base ts)) body out
    → decode_one_batch b ≡ ok out
unfolding decode_one_batch
decode-fields b body n base ts out size magic e_base e_ts e_count e_body reads =
    rw (long, magic, e_count, e_base, e_ts, e_body, sym (append-nil body), reads.run []) refl
  where
    long : ltb (length b) 61 ≡ false
    long = le→ltb_false (length b) 61 size

signed-word64 : (v : ℕ) → v < 2 ^ 63 → of_word (2 ^ 63) (get_be (put_be 8 v)) ≡ pos v
signed-word64 v h = rw (get_be-put_be 8 v (omega (arith, h))) (ground arith)

signed-word32 : (v : ℕ) → v < 2 ^ 31 → of_word (2 ^ 31) (get_be (put_be 4 (v % 2 ^ 32))) ≡ pos v
signed-word32 v h = rw (get_be-put_be 4 (v % 2 ^ 32) (omega arith)) (ground arith)

-- One round of `DecodeRecordBatches` on a batch whose length field is right.
decode_batches-round :
    (fuel : ℕ) (b rest : List ℕ) (out : List DecodedRecord)
    → 12 + word_at 8 4 (b ++ rest) ≡ length b
    → 61 ≤ length b
    → decode_one_batch b ≡ ok out
    → decode_batches (suc fuel) (b ++ rest) ≡ and_more (ok out) (decode_batches fuel rest)
unfolding decode_batches
decode_batches-round fuel b rest out total size e =
    rw (long, total, enough, fits, take-append b rest, drop-append b rest, e) refl
  where
    whole : length (b ++ rest) ≡ length b + length rest
    whole = length-append b rest

    long : ltb (length (b ++ rest)) 12 ≡ false
    long = ground (arith, whole, size)

    enough : ltb (length b) 61 ≡ false
    enough = ground (arith, size)

    fits : ltb (length (b ++ rest)) (length b) ≡ false
    fits = ground (arith, whole)

module _ (crc : List ℕ → ℕ) where
  pub length-stamped :
      (offset : ℕ) (rs : List BatchRecord)
      → length (stamped offset (build_record_batch crc rs)) ≡ 61 + length (encode_records 0 rs)
  unfolding build_record_batch covered
  length-stamped offset rs = omega arith

  -- A batch that `BuildRecordBatch` built and the log stamped with an offset decodes to its records, with
  -- keys and values as they were, offsets that count up from the stamped one and the fixed timestamp, if
  -- the offset fits an int64, there are fewer than 2^31 records, and keys and values are shorter than
  -- 2^31 bytes.
  pub decode_one_batch-stamped :
      (offset : ℕ) (rs : List BatchRecord)
      → offset < 2 ^ 63
      → length rs < 2 ^ 31
      → All FitsRecord rs
      → decode_one_batch (stamped offset (build_record_batch crc rs))
        ≡ ok (all_resolved (pos offset) (pos base_timestamp) 0 rs)
  unfolding build_record_batch covered
  decode_one_batch-stamped offset rs ho hn h =
      decode-fields (stamped offset (build_record_batch crc rs)) (encode_records 0 rs) (length rs)
        (pos offset) (pos base_timestamp) (all_resolved (pos offset) (pos base_timestamp) 0 rs)
        (omega (arith, length-stamped offset rs)) refl (signed-word64 offset ho) refl
        (signed-word32 (length rs) hn) refl
        (Reads-records (pos offset) (pos base_timestamp) 0 rs h (omega (arith, hn)))

  -- A batch that the log holds: the offset that was stamped on it, and its records.
  abbrev pub StoredBatch : Type 0
  StoredBatch = ℕ × List BatchRecord

  abbrev pub bytes_of : StoredBatch → List ℕ
  bytes_of b = stamped b.0 (build_record_batch crc b.1)

  -- A batch whose offsets fit an int64, and whose sizes fit an int32.
  abbrev pub FitsBatch : StoredBatch → Type 0
  FitsBatch b =
      (b.0 < 2 ^ 63)
      × (length b.1 < 2 ^ 31)
      × All FitsRecord b.1
      × (length (encode_records 0 b.1) < 2 ^ 31)

  abbrev pub all_bytes : List StoredBatch → List ℕ
  all_bytes [] = []
  all_bytes (b ∷ bs) = bytes_of b ++ all_bytes bs

  abbrev pub all_records : List StoredBatch → List DecodedRecord
  all_records [] = []
  all_records (b ∷ bs) = all_resolved (pos b.0) (pos base_timestamp) 0 b.1 ++ all_records bs

  total-bytes_of :
      (b : StoredBatch) (rest : List ℕ)
      → FitsBatch b
      → 12 + word_at 8 4 (bytes_of b ++ rest) ≡ length (bytes_of b)
  unfolding build_record_batch
  total-bytes_of (offset, rs) rest h = omega (
    arith,
    h.3,
    length-stamped offset rs,
    get_be-put_be 4 ((record_batch_header_len + length (encode_records 0 rs) - 12) % 2 ^ 32)
        (omega arith),
  )

  decode_batches-nil : (fuel : ℕ) → decode_batches fuel [] ≡ ok []
  unfolding decode_batches
  decode_batches-nil zero = refl
  decode_batches-nil (suc fuel) = refl

  decode_batches-All :
      (fuel : ℕ) (bs : List StoredBatch)
      → length bs ≤ fuel
      → All FitsBatch bs
      → decode_batches fuel (all_bytes bs) ≡ ok (all_records bs)
  decode_batches-All fuel [] hf h = decode_batches-nil fuel
  decode_batches-All zero (b ∷ bs) hf h = absurd (omega (arith, hf))
  decode_batches-All (suc fuel) (b ∷ bs) hf h =
      decode_batches-round fuel (bytes_of b) (all_bytes bs)
        (all_resolved (pos b.0) (pos base_timestamp) 0 b.1) (total-bytes_of b (all_bytes bs) h.0)
        (omega (arith, length-stamped b.0 b.1)) (decode_one_batch-stamped b.0 b.1 h.0.0 h.0.1 h.0.2)
      ∙ ap (and_more (ok (all_resolved (pos b.0) (pos base_timestamp) 0 b.1)))
          (decode_batches-All fuel bs (omega (arith, hf)) h.1)

  few : (bs : List StoredBatch) → length bs ≤ length (all_bytes bs)
  few [] = omega arith
  few (b ∷ bs) =
      omega (arith, few bs, length-append (bytes_of b) (all_bytes bs), length-stamped b.0 b.1)

  -- A run of stored batches, one behind the other as a fetch answers them, decodes to the records of all
  -- of them in order, each with its own offset, if every batch fits: an offset below 2^63, and fewer than
  -- 2^31 records, bytes, and bytes in each key and value.
  pub decode_record_batches-All :
      (bs : List StoredBatch)
      → All FitsBatch bs
      → decode_record_batches (all_bytes bs) ≡ ok (all_records bs)
  unfolding decode_record_batches
  decode_record_batches-All bs h = decode_batches-All (length (all_bytes bs)) bs (few bs) h
