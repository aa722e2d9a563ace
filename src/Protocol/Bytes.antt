-- ===== src/Protocol/Bytes.antt =====
-- Big-endian words of encoding/binary, and io.ReadFull over an in-memory reader.
use gokaf.Base.{
  ℕ, zero, suc, ◌+◌, ◌*◌, ◌/◌, ◌%◌, ◌^◌, ◌<◌, ◌≡◌, refl, List, [], ◌∷◌, ◌++◌, Option, none, some,
  arith, length, length-append, All, All-append,
}
use gokaf.Protocol.Result.{Error, ok, err, Decoder, eof, unexpected_eof}
use native.Mathlib.Nat.{pow-suc}

abbrev pub IsByte : ℕ → Type 0
IsByte b = b < 256

-- PutUint16, PutUint32 and PutUint64: the low `k` bytes of `v`, highest first.
abbrev pub put_be : ℕ → ℕ → List ℕ
put_be zero v = []
put_be (suc k) v = put_be k (v / 256) ++ (v % 256 ∷ [])

abbrev pub get_be_from : ℕ → List ℕ → ℕ
get_be_from acc [] = acc
get_be_from acc (b ∷ bs) = get_be_from (acc * 256 + b) bs

-- Uint16, Uint32 and Uint64.
abbrev pub get_be : List ℕ → ℕ
get_be = get_be_from 0

get_be_from-append :
    (acc : ℕ) (xs : List ℕ) (b : ℕ)
    → get_be_from acc (xs ++ (b ∷ [])) ≡ get_be_from acc xs * 256 + b
get_be_from-append acc [] b = refl
get_be_from-append acc (x ∷ xs) b = get_be_from-append (acc * 256 + x) xs b

pub length-put_be : (k v : ℕ) → length (put_be k v) ≡ k
length-put_be zero v = refl
length-put_be (suc k) v =
    omega (arith, length-append (put_be k (v / 256)) (v % 256 ∷ []), length-put_be k (v / 256))

pub put_be-IsByte : (k v : ℕ) → All IsByte (put_be k v)
put_be-IsByte zero v = tt
put_be-IsByte (suc k) v =
    All-append IsByte (put_be k (v / 256)) (v % 256 ∷ []) (put_be-IsByte k (v / 256)) (omega arith)

pub get_be-put_be : (k v : ℕ) → v < 256 ^ k → get_be (put_be k v) ≡ v
get_be-put_be zero v h = omega arith
get_be-put_be (suc k) v h = omega (
  arith,
  get_be_from-append 0 (put_be k (v / 256)) (v % 256),
  get_be-put_be k (v / 256) (omega (arith, pow-suc 256 k)),
)

-- The first `n` bytes and the others, if there are that many.
abbrev pub split_at? : ℕ → List ℕ → Option (List ℕ × List ℕ)
split_at? zero src = some ([], src)
split_at? (suc n) [] = none
split_at? (suc n) (b ∷ src) = elim (split_at? n src) [
  | none ↦ none
  | some (xs, rest) ↦ some (b ∷ xs, rest)
]

abbrev pub short_read : List ℕ → Error
short_read [] = eof
short_read (b ∷ src) = unexpected_eof

-- io.ReadFull into a buffer of `n` bytes.
unfoldable pub read_full : ℕ → Decoder (List ℕ)
read_full n src = elim (split_at? n src) [
  | some (xs, rest) ↦ ok (xs, rest)
  | none ↦ err (short_read src)
]

pub split_at?-append : (xs rest : List ℕ) → split_at? (length xs) (xs ++ rest) ≡ some (xs, rest)
split_at?-append [] rest = refl
split_at?-append (x ∷ xs) rest = rw (split_at?-append xs rest)

-- A full buffer is the bytes in front, and the reader goes on behind them.
pub read_full-append :
    (n : ℕ) (xs rest : List ℕ) → length xs ≡ n → read_full n (xs ++ rest) ≡ ok (xs, rest)
unfolding read_full
read_full-append n xs rest h = rw (← h) (rw (split_at?-append xs rest, read_full))
