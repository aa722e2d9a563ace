-- ===== src/Protocol/Types.antt =====
-- internal/protocol/types.go without the variable-length integers. A method of `Encoder` is the
-- list of bytes that it appends to the buffer, so a sequence of calls is a concatenation; a
-- method of `Decoder` reads from the bytes that are left. A Go string is the list of its bytes.
pub mod RoundTrip
use gokaf.Base.{
  ℕ, suc, ◌+◌, ◌-◌, ◌^◌, List, [], ◌∷◌, ◌++◌, Option, none, some, ℤ, pos, negsuc, to_word, of_word,
  is_negative, pos_part, if◌then◌else◌, length, get_or, Bool, true, false,
}
use gokaf.Protocol.Result.{Decoder, Error, negative_length, ◌>>=◌, return, fail, panic}
use gokaf.Protocol.Bytes.{put_be, get_be, read_full}

unfoldable pub write_int8 : ℤ → List ℕ
write_int8 v = to_word (2 ^ 8) v ∷ []

unfoldable pub write_int16 : ℤ → List ℕ
write_int16 v = put_be 2 (to_word (2 ^ 16) v)

unfoldable pub write_int32 : ℤ → List ℕ
write_int32 v = put_be 4 (to_word (2 ^ 32) v)

unfoldable pub write_int64 : ℤ → List ℕ
write_int64 v = put_be 8 (to_word (2 ^ 64) v)

-- `int16(len(s))` keeps the low 16 bits of the length.
unfoldable pub write_string : List ℕ → List ℕ
write_string s = write_int16 (pos (length s)) ++ s

unfoldable pub write_nullable_string : Option (List ℕ) → List ℕ
write_nullable_string none = write_int16 (negsuc 0)
write_nullable_string (some s) = write_string s

unfoldable pub write_bytes : List ℕ → List ℕ
write_bytes b = write_int32 (pos (length b)) ++ b

unfoldable pub write_array_len : ℤ → List ℕ
write_array_len n = write_int32 n

unfoldable pub read_byte : Decoder ℕ
read_byte = do b ← read_full 1; return (get_or b 0 0)

unfoldable pub read_int8 : Decoder ℤ
read_int8 = do b ← read_byte; return (of_word (2 ^ 7) b)

unfoldable pub read_int16 : Decoder ℤ
read_int16 = do b ← read_full 2; return (of_word (2 ^ 15) (get_be b))

unfoldable pub read_int32 : Decoder ℤ
read_int32 = do b ← read_full 4; return (of_word (2 ^ 31) (get_be b))

unfoldable pub read_int64 : Decoder ℤ
read_int64 = do b ← read_full 8; return (of_word (2 ^ 63) (get_be b))

unfoldable pub read_string : Decoder (List ℕ)
read_string = do
  n ← read_int16
  if is_negative n then fail (negative_length n) else read_full (pos_part n)

unfoldable pub read_nullable_string : Decoder (Option (List ℕ))
read_nullable_string = do
  n ← read_int16
  if is_negative n then return none else (do s ← read_full (pos_part n); return (some s))

-- A negative length is nil.
unfoldable pub read_bytes : Decoder (Option (List ℕ))
read_bytes = do
  n ← read_int32
  if is_negative n then return none else (do b ← read_full (pos_part n); return (some b))

unfoldable pub read_array_len : Decoder ℤ
read_array_len = read_int32

-- `for i := 0; i < count; i++ { … }`, each round appending the element that it reads.
unfoldable pub read_times {ℓ} : {A : Type ℓ} → ℕ → Decoder A → Decoder (List A)
read_times ℕ.zero d = return []
read_times (suc n) d = do x ← d; xs ← read_times n d; return (x ∷ xs)

-- The arrays of the protocol: `ReadArrayLen`, then `make([]T, 0, count)`, which panics on a
-- negative capacity, then the loop.
unfoldable pub read_array {ℓ} : {A : Type ℓ} → Decoder A → Decoder (List A)
read_array d = do
  count ← read_array_len
  if is_negative count then panic else read_times (pos_part count) d
