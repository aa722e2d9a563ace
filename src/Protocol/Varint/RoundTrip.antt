-- ===== src/Protocol/Varint/RoundTrip.antt =====
-- Variable-length integers are read back as they were written.
use Prim.Native.Nat.{bit_or}
use gokaf.Base.{
  ℕ, zero, suc, ◌+◌, ◌-◌, ◌*◌, ◌/◌, ◌%◌, ◌^◌, ◌≤◌, ◌<◌, ◌≡◌, refl, ap, List, [], ◌∷◌, Option, none,
  some, ℤ, pos, negsuc, to_word, IsInt32, ◌-ℤ◌, ◌≤ℤ◌, ◌<ℤ◌, length, lt_wf, arith,
}
use gokaf.Base.Bits.{low_bits, top_bit, set_top_bit, bit_or-shift, bit_xor-zero, bit_xor_ones}
use gokaf.Protocol.Result.{Reads, Reads-bind, Reads-last, Reads-return}
use gokaf.Protocol.Types.RoundTrip.{Reads-byte, Reads-full}
use gokaf.Protocol.Varint.{
  seven_fewer, write_uvarint_loop, write_uvarint, zigzag, write_varint, read_uvarint_loop,
  read_uvarint, unzigzag, read_varint, write_compact_string, write_compact_nullable_string,
  read_compact_string, read_compact_nullable_string, read_compact_array_len,
  write_compact_array_len, read_tag_buffer, write_empty_tag_buffer,
}
use mathlib.Core.Logic.{dif_pos, dif_neg}
use mathlib.Core.WellFounded.{Acc}
use native.Mathlib.Bridge.{le_prop}
use native.Mathlib.Decide.{dec_le}
use native.Mathlib.Nat.{pow-suc, mod-eq_of_lt, div-add-mod}
use native.Mathlib.Numerals.{towards_suc}

unzigzag-zigzag : (v : ℤ) → IsInt32 v → unzigzag (zigzag v) ≡ v
unfolding unzigzag zigzag
unzigzag-zigzag (pos n) h = ground (arith, bit_xor-zero (n % 2 ^ 32 * 2 % 2 ^ 32), bit_xor-zero n)
unzigzag-zigzag (negsuc n) h = ground (
  arith,
  bit_xor_ones 32 ((2 ^ 32 - 1 - n % 2 ^ 32) * 2 % 2 ^ 32) (omega arith),
  bit_xor_ones 32 n (omega arith),
)

seven_more : (s : ℕ) → 2 ^ (s + 7) ≡ 128 * 2 ^ s
seven_more s = simp towards_suc (omega arith)

-- The low seven bits of `v` and the others, both shifted by `s`.
split_low : (v s : ℕ) → v * 2 ^ s ≡ v % 128 * 2 ^ s + v / 128 * 2 ^ (s + 7)
split_low v s = omega (
  arith,
  ap (λ (t : ℕ). t * 2 ^ s) (div-add-mod v 128),
  ap (λ (t : ℕ). v / 128 * t) (seven_more s),
)

-- A round on a last byte, and one on a byte with the top bit set.
last_round :
    (n v result shift : ℕ)
    → v < 128
    → result < 2 ^ shift
    → result + v * 2 ^ shift < 2 ^ 32
    → Reads (read_uvarint_loop (suc n) result shift) (v ∷ []) (result + v * 2 ^ shift)
unfolding read_uvarint_loop
last_round n v result shift hv hr fits = Reads-last _ (Reads-byte v) (
    rw (top_bit v (omega arith), low_bits v (omega arith))
      (rw (no_top, low, word, sum) Reads-return))
  where
    no_top : v / 128 * 128 ≡ 0
    no_top = omega arith

    low : v % 128 ≡ v
    low = omega arith

    word : v * 2 ^ shift % 2 ^ 32 ≡ v * 2 ^ shift
    word = mod-eq_of_lt (omega arith)

    sum : bit_or result (v * 2 ^ shift) ≡ result + v * 2 ^ shift
    sum = bit_or-shift shift v result hr

inner_round :
    (n g result shift value : ℕ) (bytes : List ℕ)
    → g < 128
    → result < 2 ^ shift
    → result + g * 2 ^ shift < 2 ^ 32
    → Reads (read_uvarint_loop n (result + g * 2 ^ shift) (shift + 7)) bytes value
    → Reads (read_uvarint_loop (suc n) result shift) ((g + 128) ∷ bytes) value
unfolding read_uvarint_loop
inner_round n g result shift value bytes hg hr fits h = Reads-bind _ (Reads-byte (g + 128)) (
    rw (top_bit (g + 128) (omega arith), low_bits (g + 128) (omega arith))
      (rw (top, low, word, sum) h))
  where
    top : (g + 128) / 128 * 128 ≡ 128
    top = omega arith

    low : (g + 128) % 128 ≡ g
    low = omega arith

    word : g * 2 ^ shift % 2 ^ 32 ≡ g * 2 ^ shift
    word = mod-eq_of_lt (omega arith)

    sum : bit_or result (g * 2 ^ shift) ≡ result + g * 2 ^ shift
    sum = bit_or-shift shift g result hr

written_low : (v : ℕ) → bit_or (v % 256) 0x80 ≡ v % 128 + 128
written_low v = omega (arith, set_top_bit (v % 256) (omega arith))

fits_seven_more : (g r s : ℕ) → g < 128 → r < 2 ^ s → r + g * 2 ^ s < 2 ^ (s + 7)
fits_seven_more g r s hg hr = rw seven_more (grind arith)

-- `v` is what is still to be written, and it counts from bit `shift` on.
Reads-uvarint_loop :
    (k v result shift : ℕ) (w : Acc ◌<◌ v)
    → v < 128 ^ suc k
    → result < 2 ^ shift
    → result + v * 2 ^ shift < 2 ^ 32
    → Reads
        (read_uvarint_loop (suc k) result shift)
        (write_uvarint_loop v w)
        (result + v * 2 ^ shift)
unfolding write_uvarint_loop
Reads-uvarint_loop zero v result shift (Acc.intro _ smaller) hv hr fits =
    rw (dif_neg _ small, last) (last_round 0 v result shift (omega arith) hr fits)
  where
    small : ¬ (128 ≤ v)
    small = omega arith

    last : v % 256 ≡ v
    last = omega arith
Reads-uvarint_loop (suc k) v result shift (Acc.intro _ smaller) hv hr fits = elim (dec_le 128 v) [
  | yes p ↦
      rw (dif_pos _ le_prop p, written_low v)
        (inner_round (suc k) (v % 128) result shift _ _ (omega arith) hr
          (omega (arith, split_low v shift))
          (rw (regroup) (
            Reads-uvarint_loop k (v / 128) (result + v % 128 * 2 ^ shift) (shift + 7)
              (smaller _ (seven_fewer v p)) (omega (arith, pow-suc 128 (suc k)))
              (fits_seven_more (v % 128) result shift (omega arith) hr)
              (omega (arith, split_low v shift)))))
  | no p ↦ rw (dif_neg _ p, last p) (last_round (suc k) v result shift (omega arith) hr fits)
]
  where
    last : ¬ (128 ≤ v) → v % 256 ≡ v
    last p = omega arith

    regroup : result + v * 2 ^ shift ≡ result + v % 128 * 2 ^ shift + v / 128 * 2 ^ (shift + 7)
    regroup = omega (arith, split_low v shift)

pub Reads-uvarint : (v : ℕ) → v < 2 ^ 32 → Reads read_uvarint (write_uvarint v) v
unfolding read_uvarint write_uvarint
Reads-uvarint v h =
    rw (shifted) at
      (Reads-uvarint_loop 4 v 0 0 (lt_wf.apply v) (omega arith) (omega arith) (omega arith))
  where
    shifted : 0 + v * 2 ^ 0 ≡ v
    shifted = omega arith

zigzag-lt : (v : ℤ) → IsInt32 v → zigzag v < 2 ^ 32
unfolding zigzag
zigzag-lt (pos n) h = omega (arith, bit_xor-zero (n % 2 ^ 32 * 2 % 2 ^ 32))
zigzag-lt (negsuc n) h =
    omega (arith, bit_xor_ones 32 ((2 ^ 32 - 1 - n % 2 ^ 32) * 2 % 2 ^ 32) (omega arith))

-- Every int32, written as a zigzag varint with any bytes behind it, is read back, and those bytes are
-- left.
pub Reads-varint : (v : ℤ) → IsInt32 v → Reads read_varint (write_varint v) v
unfolding read_varint write_varint
Reads-varint v h =
    Reads-last _ (Reads-uvarint (zigzag v) (zigzag-lt v h)) (rw (unzigzag-zigzag v h) Reads-return)

-- The compact forms, whose length field is one more than the length.
pub Reads-compact_string :
    (s : List ℕ) → suc (length s) < 2 ^ 32 → Reads read_compact_string (write_compact_string s) s
unfolding read_compact_string write_compact_string
Reads-compact_string s h =
    rw (prefix)
      (Reads-bind _ (Reads-uvarint (suc (length s)) h) (rw pred (Reads-full (length s) s refl)))
  where
    prefix : (length s % 2 ^ 32 + 1) % 2 ^ 32 ≡ suc (length s)
    prefix = omega arith

    pred : suc (length s) - 1 ≡ length s
    pred = omega arith

abbrev pub FitsCompact : Option (List ℕ) → Type 0
FitsCompact none = Unit {0}
FitsCompact (some s) = suc (length s) < 2 ^ 32

-- A compact nullable string, null included, with any bytes behind it, is read back, and those bytes
-- are left, if the text is shorter than 2^32 - 1 bytes.
pub Reads-compact_nullable_string :
    (s : Option (List ℕ))
    → FitsCompact s
    → Reads read_compact_nullable_string (write_compact_nullable_string s) s
unfolding read_compact_nullable_string write_compact_nullable_string write_compact_string
Reads-compact_nullable_string none h = Reads-last _ (Reads-uvarint 0 (omega arith)) Reads-return
Reads-compact_nullable_string (some s) h = rw (prefix) (
    Reads-bind _ (Reads-uvarint (suc (length s)) h)
      (Reads-last _ (rw pred (Reads-full (length s) s refl)) Reads-return))
  where
    prefix : (length s % 2 ^ 32 + 1) % 2 ^ 32 ≡ suc (length s)
    prefix = omega arith

    pred : suc (length s) - 1 ≡ length s
    pred = omega arith

-- A compact array length from -1, the null array, up to 2^31 - 2, with any bytes behind it, is read
-- back, and those bytes are left.
pub Reads-compact_array_len :
    (n : ℤ)
    → negsuc 0 ≤ℤ n
    → n <ℤ pos (2 ^ 31 - 1)
    → Reads read_compact_array_len (write_compact_array_len n) n
unfolding read_compact_array_len write_compact_array_len
Reads-compact_array_len n lo hi =
    Reads-last _ (Reads-uvarint (to_word (2 ^ 32) (n -ℤ negsuc 0)) (ground arith))
      (rw back Reads-return)
  where
    back : pos (to_word (2 ^ 32) (n -ℤ negsuc 0)) -ℤ pos 1 ≡ n
    back = ground arith

pub Reads-tag_buffer : Reads read_tag_buffer write_empty_tag_buffer tt
unfolding read_tag_buffer write_empty_tag_buffer
Reads-tag_buffer = Reads-last _ (Reads-uvarint 0 (omega arith)) Reads-return
