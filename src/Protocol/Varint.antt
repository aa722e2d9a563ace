-- ===== src/Protocol/Varint.antt =====
-- The variable-length integers of internal/protocol/types.go, and the compact forms that are
-- built on them. A uint32 is a number below 2^32, an int32 the integer that it stands for.
pub mod RoundTrip
use Prim.Native.Nat.{bit_and, bit_or, bit_xor}
use gokaf.Base.{
  ℕ, zero, suc, ◌+◌, ◌-◌, ◌*◌, ◌/◌, ◌%◌, ◌^◌, ◌≤◌, ◌<◌, List, [], ◌∷◌, ◌++◌, Option, none, some, ℤ,
  pos, negsuc, to_word, of_word, is_negative, ◌-ℤ◌, Bool, true, false, ◌==◌, if◌then◌else◌, length,
  lt_wf, arith,
}
use gokaf.Protocol.Result.{
  Decoder, varint_too_long, zero_length, tagged_fields, ◌>>=◌, return, fail,
}
use gokaf.Protocol.Bytes.{read_full}
use gokaf.Protocol.Types.{read_byte}
use mathlib.Core.Logic.{dite}
use mathlib.Core.WellFounded.{Acc}
use native.Mathlib.Decide.{dec_le}

pub seven_fewer : (v : ℕ) → 128 ≤ v → v / 128 < v
seven_fewer v h = omega arith

-- `for v >= 0x80 { WriteByte(byte(v) | 0x80); v >>= 7 }; WriteByte(byte(v))`
unfoldable pub write_uvarint_loop : (v : ℕ) → Acc ◌<◌ v → List ℕ
write_uvarint_loop v (Acc.intro _ smaller) =
    dite (dec_le 128 v)
      (λ h. bit_or (v % 256) 0x80 ∷ write_uvarint_loop (v / 128) (smaller _ (seven_fewer v h)))
      (λ _. v % 256 ∷ [])

unfoldable pub write_uvarint : ℕ → List ℕ
write_uvarint v = write_uvarint_loop v (lt_wf.apply v)

-- `v >> 31`, which repeats the sign bit, as a word.
abbrev pub sign_word : ℤ → ℕ
sign_word v = if is_negative v then 2 ^ 32 - 1 else 0

-- `uint32((v << 1) ^ (v >> 31))`
unfoldable pub zigzag : ℤ → ℕ
zigzag v = bit_xor (to_word (2 ^ 32) v * 2 % 2 ^ 32) (sign_word v)

unfoldable pub write_varint : ℤ → List ℕ
write_varint v = write_uvarint (zigzag v)

-- The first argument counts the rounds left of `i < maxVarintBytes`.
unfoldable pub read_uvarint_loop : ℕ → ℕ → ℕ → Decoder ℕ
read_uvarint_loop zero result shift = fail varint_too_long
read_uvarint_loop (suc n) result shift = do
  b ← read_byte
  let result' = bit_or result (bit_and b 0x7f * 2 ^ shift % 2 ^ 32)
  let more = read_uvarint_loop n result' (shift + 7)
  if bit_and b 0x80 == 0 then return result' else more

unfoldable pub read_uvarint : Decoder ℕ
read_uvarint = read_uvarint_loop 5 0 0

-- `int32(zigzag>>1) ^ -int32(zigzag&1)`
unfoldable pub unzigzag : ℕ → ℤ
unzigzag z = of_word (2 ^ 31) (bit_xor (z / 2) ((2 ^ 32 - z % 2) % 2 ^ 32))

unfoldable pub read_varint : Decoder ℤ
read_varint = do z ← read_uvarint; return (unzigzag z)

-- `uint32(len(s)) + 1`
unfoldable pub write_compact_string : List ℕ → List ℕ
write_compact_string s = write_uvarint ((length s % 2 ^ 32 + 1) % 2 ^ 32) ++ s

unfoldable pub write_compact_nullable_string : Option (List ℕ) → List ℕ
write_compact_nullable_string none = write_uvarint 0
write_compact_nullable_string (some s) = write_compact_string s

-- `uint32(n + 1)` for an `int` n that is -1 or a length.
unfoldable pub write_compact_array_len : ℤ → List ℕ
write_compact_array_len n = write_uvarint (to_word (2 ^ 32) (n -ℤ negsuc 0))

unfoldable pub write_empty_tag_buffer : List ℕ
write_empty_tag_buffer = write_uvarint 0

abbrev pub is_zero : ℕ → Bool
is_zero zero = true
is_zero (suc n) = false

unfoldable pub read_compact_string : Decoder (List ℕ)
read_compact_string = do n ← read_uvarint; if is_zero n then fail zero_length else read_full (n - 1)

unfoldable pub read_compact_nullable_string : Decoder (Option (List ℕ))
read_compact_nullable_string = do
  n ← read_uvarint
  if is_zero n then return none else (do s ← read_full (n - 1); return (some s))

unfoldable pub read_compact_array_len : Decoder ℤ
read_compact_array_len = do n ← read_uvarint; return (pos n -ℤ pos 1)

unfoldable pub read_tag_buffer : Decoder (Unit {0})
read_tag_buffer = do n ← read_uvarint; if is_zero n then return tt else fail (tagged_fields n)
