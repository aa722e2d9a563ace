-- ===== src/Protocol/Types/RoundTrip.antt =====
-- Each decoder of types.go takes back what the encoder of the same name wrote, and no more.
use gokaf.Base.{
  ℕ, ◌^◌, ◌<◌, ◌≡◌, refl, List, [], ◌∷◌, ◌++◌, Option, none, some, ℤ, pos, negsuc, to_word, of_word,
  IsInt8, IsInt16, IsInt32, IsInt64, of_word-to_word8, of_word-to_word16, of_word-to_word32,
  of_word-to_word64, length, All, arith,
}
use gokaf.Protocol.Result.{Decoder, Reads, Reads-bind, Reads-last, Reads-return, ◌>>=◌, return}
use gokaf.Protocol.Bytes.{put_be, get_be, read_full, read_full-append, length-put_be, get_be-put_be}
use gokaf.Protocol.Types.{
  write_int8, write_int16, write_int32, write_int64, write_string, write_nullable_string,
  write_bytes, write_array_len, read_byte, read_int8, read_int16, read_int32, read_int64,
  read_string, read_nullable_string, read_bytes, read_array_len, read_times, read_array,
}

to_word-lt : (m : ℕ) (v : ℤ) → 0 < m → to_word m v < m
to_word-lt m (pos n) h = omega arith
to_word-lt m (negsuc n) h = omega arith

pub Reads-full : (k : ℕ) (xs : List ℕ) → length xs ≡ k → Reads (read_full k) xs xs
Reads-full k xs h = record { run = λ rest. read_full-append k xs rest h }

Reads-word :
    (k : ℕ) (f : ℕ → ℤ) (u : ℕ) (v : ℤ)
    → u < 256 ^ k
    → f u ≡ v
    → Reads (read_full k >>= λ b. return (f (get_be b))) (put_be k u) v
Reads-word k f u v h e =
    Reads-last _ (Reads-full k (put_be k u) (length-put_be k u))
      (rw (get_be-put_be k u h, e) Reads-return)

pub Reads-byte : (b : ℕ) → Reads read_byte (b ∷ []) b
unfolding read_byte
Reads-byte b = Reads-last _ (Reads-full 1 (b ∷ []) refl) Reads-return

pub Reads-int8 : (v : ℤ) → IsInt8 v → Reads read_int8 (write_int8 v) v
unfolding read_int8 write_int8
Reads-int8 v h = Reads-last _ (Reads-byte _) (rw (of_word-to_word8 v h) Reads-return)

pub Reads-int16 : (v : ℤ) → IsInt16 v → Reads read_int16 (write_int16 v) v
unfolding read_int16 write_int16
Reads-int16 v h =
    Reads-word 2 (of_word (2 ^ 15)) _ v (to_word-lt (2 ^ 16) v (omega arith))
      (of_word-to_word16 v h)

pub Reads-int32 : (v : ℤ) → IsInt32 v → Reads read_int32 (write_int32 v) v
unfolding read_int32 write_int32
Reads-int32 v h =
    Reads-word 4 (of_word (2 ^ 31)) _ v (to_word-lt (2 ^ 32) v (omega arith))
      (of_word-to_word32 v h)

pub Reads-int64 : (v : ℤ) → IsInt64 v → Reads read_int64 (write_int64 v) v
unfolding read_int64 write_int64
Reads-int64 v h =
    Reads-word 8 (of_word (2 ^ 63)) _ v (to_word-lt (2 ^ 64) v (omega arith))
      (of_word-to_word64 v h)

-- A string of at most 2^15 - 1 bytes.
pub Reads-string : (s : List ℕ) → length s < 2 ^ 15 → Reads read_string (write_string s) s
unfolding read_string write_string
Reads-string s h = Reads-bind _ (Reads-int16 (pos (length s)) h) (Reads-full (length s) s refl)

-- The text of a nullable string, if there is one, has at most 2^15 - 1 bytes.
abbrev pub FitsNullable : Option (List ℕ) → Type 0
FitsNullable none = Unit {0}
FitsNullable (some s) = length s < 2 ^ 15

-- A nullable string, null included, with any bytes behind it, is read back, and those bytes are left,
-- if the text is shorter than 2^15 bytes.
pub Reads-nullable_string :
    (s : Option (List ℕ)) → FitsNullable s → Reads read_nullable_string (write_nullable_string s) s
unfolding read_nullable_string write_nullable_string write_string
Reads-nullable_string none h = Reads-last _ (Reads-int16 (negsuc 0) (omega arith)) Reads-return
Reads-nullable_string (some s) h =
    Reads-bind _ (Reads-int16 (pos (length s)) h)
      (Reads-last _ (Reads-full (length s) s refl) Reads-return)

pub Reads-bytes : (b : List ℕ) → length b < 2 ^ 31 → Reads read_bytes (write_bytes b) (some b)
unfolding read_bytes write_bytes
Reads-bytes b h =
    Reads-bind _ (Reads-int32 (pos (length b)) h)
      (Reads-last _ (Reads-full (length b) b refl) Reads-return)

module _ {ℓ} {A : Type ℓ} (d : Decoder A) (w : A → List ℕ) where
  -- The bytes of the elements, one after the other.
  abbrev pub write_all : List A → List ℕ
  write_all [] = []
  write_all (x ∷ xs) = w x ++ write_all xs

  pub Reads-times :
      (xs : List A)
      → All (λ x. Reads d (w x) x) xs
      → Reads (read_times (length xs) d) (write_all xs) xs
  unfolding read_times
  Reads-times [] h = Reads-return
  Reads-times (x ∷ xs) h = Reads-bind _ h.0 (Reads-last _ (Reads-times xs h.1) Reads-return)

  -- An array is its length, then its elements.
  pub Reads-array :
      (xs : List A)
      → length xs < 2 ^ 31
      → All (λ x. Reads d (w x) x) xs
      → Reads (read_array d) (write_array_len (pos (length xs)) ++ write_all xs) xs
  unfolding read_array read_array_len write_array_len
  Reads-array xs n h = Reads-bind _ (Reads-int32 (pos (length xs)) n) (Reads-times xs h)
