-- ===== src/Storage/Segment/Reading.antt =====
-- `readRecords` over intact entries, and the index as a mere shortcut into them.
use gokaf.Base.{
  ℕ, zero, suc, ◌+◌, ◌^◌, ◌≤◌, ◌<◌, ◌≡◌, refl, List, [], ◌∷◌, ◌++◌, ℤ, pos, ltb, if◌then◌else◌,
  length, drop, All, inl, inr, Bool-cases, arith,
}
use native.Mathlib.Nat.{add-zero}
use gokaf.Storage.Segment.{Record, records, entry_header, reached, and_record, read_loop}
use gokaf.Storage.Segment.Entries.{
  entries, IsPayload, header_offset-entry_header, header_length-entry_header, read_at-front,
  read_at-short, drop-front, length-entry_header,
}

-- The records at or after offset `o`, of payloads the first of which has offset `b`.
abbrev pub records_from : ℕ → ℕ → List (List ℕ) → List Record
records_from o b [] = []
records_from o b (p ∷ ps) =
    if ltb b o
    then records_from o (suc b) ps
    else record { offset = pos b; payload = p } ∷ records_from o (suc b) ps

-- Records up to and with the one at which the payloads reach the limit.
abbrev pub limit : ℤ → ℕ → List Record → List Record
limit max_bytes n [] = []
limit max_bytes n (r ∷ rs) =
    r
    ∷ (if reached max_bytes (n + length r.payload)
        then []
        else limit max_bytes (n + length r.payload) rs)

module _ (file : List ℕ) (o : ℕ) (max_bytes : ℤ) where
  -- One round on an intact entry.
  read_loop_round :
      (fuel at n b : ℕ) (p rest : List ℕ)
      → drop at file ≡ entry_header (pos b) (length p) ++ (p ++ rest)
      → b < 2 ^ 63
      → IsPayload p
      → read_loop (suc fuel) file at (pos o) max_bytes n ≡ (
          if ltb b o
          then read_loop fuel file (at + 12 + length p) (pos o) max_bytes n
          else (if reached max_bytes (n + length p)
              then records (record { offset = pos b; payload = p } ∷ [])
              else and_record
                  (record { offset = pos b; payload = p })
                  (read_loop fuel file (at + 12 + length p) (pos o) max_bytes (n + length p))))
  unfolding read_loop
  read_loop_round fuel at n b p rest e hb hp = rw (
    read_at-front file at 12 header (p ++ rest) e (length-entry_header (pos b) (length p)),
    header_length-entry_header (pos b) (length p) hp,
    header_offset-entry_header b (length p) hb,
    read_at-front file (at + 12) (length p) p rest behind refl,
    add-zero b,
    add-zero o,
  )
    where
      header : List ℕ
      header = entry_header (pos b) (length p)

      behind : drop (at + 12) file ≡ p ++ rest
      behind = drop-front file at 12 header (p ++ rest) e (length-entry_header (pos b) (length p))

  pub read_loop-entries :
      (fuel at n b : ℕ) (ps : List (List ℕ))
      → length ps < fuel
      → drop at file ≡ entries b ps
      → b + length ps ≤ 2 ^ 63
      → All IsPayload ps
      → read_loop fuel file at (pos o) max_bytes n
        ≡ records (limit max_bytes n (records_from o b ps))
  unfolding read_loop
  read_loop-entries zero at n b ps hf e hb hp = elim hf [ ]
  read_loop-entries (suc fuel) at n b [] hf e hb hp =
      rw (read_at-short file at 12 (rw e (omega arith)))
  read_loop-entries (suc fuel) at n b (p ∷ ps) hf e hb hp =
      rw (read_loop_round fuel at n b p (entries (suc b) ps) e (omega arith) hp.0)
        (elim (Bool-cases (ltb b o)) [
          | inl old ↦ rw old (
              read_loop-entries fuel (at + 12 + length p) n (suc b) ps (omega arith) rest
                (omega arith) hp.1)
          | inr new ↦ rw new (elim (Bool-cases (reached max_bytes (n + length p))) [
            | inl full ↦ rw full refl
            | inr space ↦
                rw
                  (
                    space,
                    read_loop-entries fuel (at + 12 + length p) (n + length p) (suc b) ps
                        (omega arith) rest (omega arith) hp.1,
                  )
                  refl
          ])
        ])
    where
      rest : drop (at + 12 + length p) file ≡ entries (suc b) ps
      rest =
          drop-front file (at + 12) (length p) p (entries (suc b) ps)
            (drop-front file at 12 (entry_header (pos b) (length p)) (p ++ entries (suc b) ps) e
              (length-entry_header (pos b) (length p)))
            refl
