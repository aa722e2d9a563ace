-- ===== src/Storage/Segment/Recovery.antt =====
-- `recoverLog` after a crash: the intact entries count, and a torn one behind them does not.
use gokaf.Base.{
  ℕ, zero, suc, ◌+◌, ◌^◌, ◌≤◌, ◌<◌, ◌≡◌, refl, sym, ap, ◌∙◌, ◌⊎◌, inl, inr, List, [], ◌∷◌, ◌++◌,
  append_assoc, some, ℤ, pos, ◌+ℤ◌, wrap64, ltb, leb, length, take, drop, All, length-append,
  take-append, true, false, lt→ltb, Bool-cases, arith,
}
use gokaf.Storage.Segment.Indexing.{length-le-entries}
use mathlib.Core.Option
use mathlib.Core.Path.{ap₂}
use gokaf.Storage.Segment.{entry_header, header_length, recover_loop, recover_log}
use gokaf.Storage.Segment.Entries.{
  entries, IsPayload, header_offset-entry_header, header_length-entry_header, read_at-front,
  drop-front, length-entry_header, length-entries_cons, length-drop,
}

-- What a crash can leave of an entry: less than a header, or a header that promises more bytes
-- than follow it.
abbrev pub IsTorn : List ℕ → Type 0
IsTorn torn =
    (length torn < 12)
    ⊎ ((header : List ℕ) × (rest : List ℕ) × (torn ≡ header ++ rest)
        × (length header ≡ 12)
        × (length rest < header_length header))

-- The next offset after payloads from `b` on, or what it was if there are none.
abbrev pub next_after : ℤ → ℕ → List (List ℕ) → ℤ
next_after n b [] = n
next_after n b (p ∷ ps) = pos (b + suc (length ps))

leb-false : (a b : ℕ) → b < a → leb a b ≡ false
leb-false a b h = ground arith

le→leb : (a b : ℕ) → a ≤ b → leb a b ≡ true
le→leb a b h = ground arith

ltb-false : (a b : ℕ) → b ≤ a → ltb a b ≡ false
ltb-false a b h = ground arith

next_after-suc :
    (b : ℕ) (ps : List (List ℕ)) → next_after (pos (suc b)) (suc b) ps ≡ pos (b + suc (length ps))
next_after-suc b [] = ap pos (omega arith)
next_after-suc b (p ∷ ps) = ap pos (omega arith)

ltb-false→le : {a b : ℕ} → ltb a b ≡ false → b ≤ a
ltb-false→le h = ground arith

module _ (file : List ℕ) where
  recover_torn :
      (fuel at : ℕ) (n : ℤ) (torn : List ℕ)
      → drop at file ≡ torn
      → IsTorn torn
      → recover_loop (suc fuel) file at n ≡ some (n, at)
  unfolding recover_loop Option.bind
  recover_torn fuel at n torn e (inl short) =
      rw (leb-false (at + 12) (length file) (omega (arith, ap length e, length-drop at file))) refl
  recover_torn fuel at n torn e (inr (header, rest, split, size, more)) = rw (
    le→leb (at + 12) (length file) (
        omega
          (arith, ap length e, ap length split, length-append header rest, length-drop at file)),
    read_at-front file at 12 header rest (e ∙ split) size,
    lt→ltb (length file) (at + 12 + header_length header) (
        omega
          (arith, ap length e, ap length split, length-append header rest, length-drop at file)),
  )

  -- One round on an intact entry.
  recover_round :
      (fuel at b : ℕ) (n : ℤ) (p rest : List ℕ)
      → drop at file ≡ entry_header (pos b) (length p) ++ (p ++ rest)
      → suc b < 2 ^ 63
      → IsPayload p
      → recover_loop (suc fuel) file at n
        ≡ recover_loop fuel file (at + 12 + length p) (pos (suc b))
  unfolding recover_loop Option.bind
  recover_round fuel at b n p rest e hb hp = rw (
    le→leb (at + 12) (length file) (omega (arith, size, length-drop at file)),
    read_at-front file at 12 header (p ++ rest) e (length-entry_header (pos b) (length p)),
    header_length-entry_header (pos b) (length p) hp,
    header_offset-entry_header b (length p) (omega arith),
    ltb-false (length file) (at + 12 + length p) (omega (arith, size, length-drop at file)),
    bump,
  )
    where
      header : List ℕ
      header = entry_header (pos b) (length p)

      size : length (drop at file) ≡ 12 + (length p + length rest)
      size = omega (
        arith,
        ap length e,
        length-append header (p ++ rest),
        length-append p rest,
        length-entry_header (pos b) (length p),
      )

      bump : wrap64 (pos b +ℤ pos 1) ≡ pos (suc b)
      bump = ground arith

  recover_loop-entries :
      (fuel at b : ℕ) (n : ℤ) (ps : List (List ℕ)) (torn : List ℕ)
      → length ps < fuel
      → drop at file ≡ entries b ps ++ torn
      → b + length ps < 2 ^ 63
      → All IsPayload ps
      → IsTorn torn
      → recover_loop fuel file at n ≡ some (next_after n b ps, at + length (entries b ps))
  recover_loop-entries zero at b n ps torn hf e hb hp t = elim hf [ ]
  recover_loop-entries (suc fuel) at b n [] torn hf e hb hp t =
      recover_torn fuel at n torn e t ∙ ap (λ k. some (n, k)) (omega arith)
  recover_loop-entries (suc fuel) at b n (p ∷ ps) torn hf e hb hp t =
      recover_round fuel at b n p (entries (suc b) ps ++ torn) e' (omega arith) hp.0
      ∙ recover_loop-entries fuel (at + 12 + length p) (suc b) (pos (suc b)) ps torn (omega arith)
          behind (omega arith) hp.1 t
      ∙ ap₂ (λ m k. some (m, k)) (next_after-suc b ps) (omega (arith, length-entries_cons b p ps))
    where
      header : List ℕ
      header = entry_header (pos b) (length p)

      e' : drop at file ≡ header ++ (p ++ (entries (suc b) ps ++ torn))
      e' = e ∙ simp append_assoc

      behind : drop (at + 12 + length p) file ≡ entries (suc b) ps ++ torn
      behind =
          drop-front file (at + 12) (length p) p (entries (suc b) ps ++ torn)
            (drop-front file at 12 header (p ++ (entries (suc b) ps ++ torn)) e'
              (length-entry_header (pos b) (length p)))
            refl

-- A log file that ends in a torn entry recovers to its intact entries: `recoverLog` answers their
-- length in bytes and the offset after the last of them, or 0 if there is none.
pub recover_log-torn :
    (b : ℕ) (ps : List (List ℕ)) (torn : List ℕ)
    → b + length ps < 2 ^ 63
    → All IsPayload ps
    → IsTorn torn
    → recover_log (entries b ps ++ torn) ≡ some (next_after (pos 0) b ps, length (entries b ps))
unfolding recover_log
recover_log-torn b ps torn hb hp t =
    recover_loop-entries (entries b ps ++ torn) (suc (length (entries b ps ++ torn))) 0 b (pos 0) ps
      torn (omega (arith, length-append (entries b ps) torn, length-le-entries b ps)) refl hb hp t
    ∙ ap (λ k. some (next_after (pos 0) b ps, k)) (omega arith)

take-append_le {ℓ} :
    {A : Type ℓ} (n : ℕ) (xs ys : List A) → n ≤ length xs → take n (xs ++ ys) ≡ take n xs
take-append_le zero xs ys h = refl
take-append_le (suc n) [] ys h = elim h [ ]
take-append_le (suc n) (x ∷ xs) ys h = ap (◌∷◌ x) (take-append_le n xs ys (omega arith))

take-append_drop {ℓ} : {A : Type ℓ} (n : ℕ) (xs : List A) → take n xs ++ drop n xs ≡ xs
take-append_drop zero xs = refl
take-append_drop (suc n) [] = refl
take-append_drop (suc n) (x ∷ xs) = rw (take-append_drop n xs)

-- What is on disk when a crash cuts the write of an entry short is torn.
pub prefix-IsTorn :
    (b : ℕ) (p torn more : List ℕ) (x : ℕ)
    → IsPayload p
    → torn ++ (x ∷ more) ≡ entry_header (pos b) (length p) ++ p
    → IsTorn torn
prefix-IsTorn b p torn more x hp e = elim (Bool-cases (ltb (length torn) 12)) [
  | inl short ↦ inl (ground arith)
  | inr long ↦ inr (
    header,
    drop 12 torn,
    sym (split long),
    size,
    rw (header_length-entry_header (pos b) (length p) hp) (rest long),
  )
]
  where
    header : List ℕ
    header = entry_header (pos b) (length p)

    size : length header ≡ 12
    size = length-entry_header (pos b) (length p)

    front : ltb (length torn) 12 ≡ false → take 12 torn ≡ header
    front long =
        sym (take-append_le 12 torn (x ∷ more) (ltb-false→le long))
        ∙ ap (take 12) e
        ∙ (rw size at (take-append header p))

    split : ltb (length torn) 12 ≡ false → header ++ drop 12 torn ≡ torn
    split long = ap (λ h. h ++ drop 12 torn) (sym (front long)) ∙ take-append_drop 12 torn

    rest : ltb (length torn) 12 ≡ false → length (drop 12 torn) < length p
    rest long = omega (
      arith,
      length-drop 12 torn,
      ap length e,
      length-append torn (x ∷ more),
      length-append header p,
      size,
      ltb-false→le long,
    )
