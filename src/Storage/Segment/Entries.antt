-- ===== src/Storage/Segment/Entries.antt =====
-- The bytes of intact entries, and what a read at their front sees.
use gokaf.Base.{
  ℕ, zero, suc, ◌+◌, ◌-◌, ◌^◌, ◌%◌, ◌<◌, ◌≡◌, refl, ap, ◌∙◌, List, [], ◌∷◌, ◌++◌, append_assoc,
  none, some, ℤ, pos, of_word, length, take, drop, length-append, drop-append, arith,
}
use gokaf.Protocol.Bytes.{put_be, get_be-put_be, split_at?, split_at?-append}
use gokaf.Storage.Segment.{entry_header, header_offset, header_length, read_at}
use native.Mathlib.Nat.{mod-eq_of_lt, zero-add, suc-add}

-- The entries of the payloads, the first of which has this offset.
abbrev pub entries : ℕ → List (List ℕ) → List ℕ
entries b [] = []
entries b (p ∷ ps) = entry_header (pos b) (length p) ++ (p ++ entries (suc b) ps)

-- A payload's length fits the uint32 of the header.
abbrev pub IsPayload : List ℕ → Type 0
IsPayload p = length p < 2 ^ 32

pub length-entry_header : (offset : ℤ) (n : ℕ) → length (entry_header offset n) ≡ 12
unfolding entry_header
length-entry_header offset n = refl

split_header :
    (u v : ℕ)
    → (take 8 (put_be 8 u ++ put_be 4 v) ≡ put_be 8 u)
      × (drop 8 (put_be 8 u ++ put_be 4 v) ≡ put_be 4 v)
split_header u v = (refl, refl)

pub header_offset-entry_header :
    (b n : ℕ) → b < 2 ^ 63 → header_offset (entry_header (pos b) n) ≡ pos b
unfolding header_offset entry_header
header_offset-entry_header b n h =
    ap (of_word (2 ^ 63)) (get_be-put_be 8 (b % 2 ^ 64) (omega arith)) ∙ ground arith

pub header_length-entry_header :
    (offset : ℤ) (n : ℕ) → n < 2 ^ 32 → header_length (entry_header offset n) ≡ n
unfolding header_length entry_header
header_length-entry_header offset n h = get_be-put_be 4 (n % 2 ^ 32) (omega arith) ∙ mod-eq_of_lt h

pub drop-add {ℓ} : {A : Type ℓ} (m n : ℕ) (xs : List A) → drop (m + n) xs ≡ drop n (drop m xs)
drop-add zero n xs = rw zero-add
drop-add (suc m) zero [] = rw suc-add
drop-add (suc m) (suc n) [] = rw suc-add
drop-add (suc m) n (x ∷ xs) = rw suc-add (drop-add m n xs)

pub read_at-front :
    (file : List ℕ) (at n : ℕ) (xs rest : List ℕ)
    → drop at file ≡ xs ++ rest
    → length xs ≡ n
    → read_at file at n ≡ some xs
unfolding read_at
read_at-front file at n xs rest e h = rw (e, ← h, split_at?-append xs rest)

pub drop-front :
    (file : List ℕ) (at n : ℕ) (xs rest : List ℕ)
    → drop at file ≡ xs ++ rest
    → length xs ≡ n
    → drop (at + n) file ≡ rest
drop-front file at n xs rest e h = rw (drop-add at n file, e, ← h) (drop-append xs rest)

pub length-drop {ℓ} : {A : Type ℓ} (n : ℕ) (xs : List A) → length (drop n xs) ≡ length xs - n
length-drop zero xs = omega arith
length-drop (suc n) [] = omega arith
length-drop (suc n) (x ∷ xs) = omega (arith, length-drop n xs)

split_at?-short : (n : ℕ) (xs : List ℕ) → length xs < n → split_at? n xs ≡ none
split_at?-short zero xs h = elim h [ ]
split_at?-short (suc n) [] h = refl
split_at?-short (suc n) (x ∷ xs) h = rw (split_at?-short n xs (omega arith))

-- Too few bytes left is the end of the file.
pub read_at-short :
    (file : List ℕ) (at n : ℕ) → length (drop at file) < n → read_at file at n ≡ none
unfolding read_at
read_at-short file at n h = rw (split_at?-short n (drop at file) h)

pub length-entries_cons :
    (b : ℕ) (p : List ℕ) (ps : List (List ℕ))
    → length (entries b (p ∷ ps)) ≡ 12 + length p + length (entries (suc b) ps)
length-entries_cons b p ps = omega (
  arith,
  length-append (entry_header (pos b) (length p)) (p ++ entries (suc b) ps),
  length-append p (entries (suc b) ps),
  length-entry_header (pos b) (length p),
)

pub entries-append :
    (b : ℕ) (ps qs : List (List ℕ))
    → entries b (ps ++ qs) ≡ entries b ps ++ entries (b + length ps) qs
entries-append b [] qs = ap (λ k. entries k qs) (omega arith)
entries-append b (p ∷ ps) qs = simp (entries-append (suc b) ps qs, append_assoc, shift)
  where
    shift : suc b + length ps ≡ b + suc (length ps)
    shift = omega arith
