-- ===== src/Network/Produce/Batches.antt =====
-- The check of a batch, and the offset that is written over its first bytes.
use gokaf.Base.{
  length-drop, le→ltb_false, ℕ, zero, suc, ◌+◌, ◌^◌, ◌≤◌, ◌<◌, ◌≡◌, refl, sym, ap, ◌∙◌, List, [],
  ◌∷◌, ◌++◌, ℤ, to_word, true, ◌==◌, ==_refl, length, get_or, drop, arith,
}
use gokaf.Protocol.Bytes.{put_be, get_be, get_be-put_be}
use gokaf.Protocol.RecordBatch.{BatchRecord, encode_records, covered, build_record_batch}
use gokaf.Network.Produce.{valid_record_batch, stamp, pid_of, base_seq_of, record_count_of}

drop-nil : (k : ℕ) → Path (List ℕ) (drop k []) []
drop-nil zero = refl
drop-nil (suc k) = refl

get_or-nil : (k : ℕ) → Path ℕ (get_or [] k 0) 0
get_or-nil zero = refl
get_or-nil (suc k) = refl

add-suc : (n m : ℕ) → suc n + m ≡ suc (n + m)
add-suc n m = omega arith

drop-drop : (n m : ℕ) (xs : List ℕ) → drop (n + m) xs ≡ drop m (drop n xs)
drop-drop zero m xs = ap (λ k. drop k xs) (omega arith)
drop-drop (suc n) m [] = drop-nil (suc n + m) ∙ sym (drop-nil m)
drop-drop (suc n) m (x ∷ xs) = ap (λ k. drop k (x ∷ xs)) (add-suc n m) ∙ drop-drop n m xs

get_or-drop : (n m : ℕ) (xs : List ℕ) → get_or xs (n + m) 0 ≡ get_or (drop n xs) m 0
get_or-drop zero m xs = ap (λ k. get_or xs k 0) (omega arith)
get_or-drop (suc n) m [] = get_or-nil (suc n + m) ∙ sym (get_or-nil m)
get_or-drop (suc n) m (x ∷ xs) = ap (λ k. get_or (x ∷ xs) k 0) (add-suc n m) ∙ get_or-drop n m xs

-- Behind the offset, nothing changes.
drop-stamp : (o : ℤ) (b : List ℕ) (m : ℕ) → drop (8 + m) (stamp o b) ≡ drop (8 + m) b
unfolding stamp
drop-stamp o b m = drop-drop 8 m (put_be 8 (to_word (2 ^ 64) o) ++ drop 8 b) ∙ sym (drop-drop 8 m b)

get_or-stamp : (o : ℤ) (b : List ℕ) (m : ℕ) → get_or (stamp o b) (8 + m) 0 ≡ get_or b (8 + m) 0
unfolding stamp
get_or-stamp o b m =
    get_or-drop 8 m (put_be 8 (to_word (2 ^ 64) o) ++ drop 8 b) ∙ sym (get_or-drop 8 m b)

pub length-stamp : (o : ℤ) (b : List ℕ) → 8 ≤ length b → length (stamp o b) ≡ length b
unfolding stamp
length-stamp o b h = omega (arith, length-drop 8 b h)

-- Writing an offset over the first bytes of a batch leaves its length, the check, and the producer's id,
-- sequence and record count as they were, if it has eight bytes.
pub valid_record_batch-stamp :
    (crc : List ℕ → ℕ) (o : ℤ) (b : List ℕ)
    → 8 ≤ length b
    → (valid_record_batch crc (stamp o b) ≡ valid_record_batch crc b)
      × (length (stamp o b) ≡ length b)
      × (pid_of (stamp o b) ≡ pid_of b)
      × (base_seq_of (stamp o b) ≡ base_seq_of b)
      × (record_count_of (stamp o b) ≡ record_count_of b)
unfolding valid_record_batch pid_of base_seq_of record_count_of
valid_record_batch-stamp crc o b h = (
  rw (length-stamp o b h, get_or-stamp o b 8, drop-stamp o b 13, drop-stamp o b 9) refl,
  length-stamp o b h,
  rw (drop-stamp o b 35) refl,
  rw (drop-stamp o b 45) refl,
  rw (drop-stamp o b 49) refl,
)

long : (crc : List ℕ → ℕ) (rs : List BatchRecord) → 61 ≤ length (build_record_batch crc rs)
unfolding build_record_batch covered
long crc rs = omega arith

-- A checksum of four bytes is read back as it was written.
checksum : (c : ℕ) → c < 2 ^ 32 → (c == get_be (put_be 4 c)) ≡ true
checksum c h = rw (get_be-put_be 4 c (omega (arith, h))) (==_refl c)

-- The broker accepts every batch that the HTTP API builds, if the checksum is a number of 32 bits.
pub valid_record_batch-build_record_batch :
    (crc : List ℕ → ℕ) (rs : List BatchRecord)
    → ((bytes : List ℕ) → crc bytes < 2 ^ 32)
    → valid_record_batch crc (build_record_batch crc rs) ≡ true
unfolding valid_record_batch build_record_batch
valid_record_batch-build_record_batch crc rs h =
    rw (le→ltb_false _ 61 (long crc rs))
      (checksum (crc (covered (length rs) (encode_records 0 rs))) (h _))
