-- ===== src/Storage/Segment/Indexing.antt =====
-- The sparse index: each entry of it stands for an entry of the log file, so a read may start
-- there, and appending keeps it so.
use gokaf.Base.{
  ℕ, zero, suc, ◌+◌, ◌-◌, ◌*◌, ◌^◌, ◌≤◌, ◌<◌, ◌≡◌, refl, sym, ap, ◌∙◌, List, [], ◌∷◌, ◌++◌,
  append-nil, append_assoc, some, ℤ, pos, ◌-ℤ◌, wrap32, ltb, ltb_ℤ, Bool, Bool-cases, false, length,
  get_elem?, drop, All, All-append, length-append, drop-append, inl, inr, lt→ltb, arith,
}
use mathlib.Core.Path.{subst}
use gokaf.Storage.Segment.{
  IndexEntry, Segment, records, index_interval_bytes, max_segment_bytes, create_segment,
  maybe_write_index, append_entry, start_position, search, read_records, read_loop, entry_header,
}
use gokaf.Storage.Segment.Entries.{
  entries, IsPayload, entries-append, length-entries_cons, length-entry_header,
}
use gokaf.Storage.Segment.Reading.{records_from, limit, read_loop-entries}

-- The index entry stands for the log entry in front of which the payloads `qs` are stored.
abbrev pub IsIndexed : ℕ → List (List ℕ) → IndexEntry → Type 0
IsIndexed b ps e =
    (qs : List (List ℕ)) × (rs : List (List ℕ)) × (ps ≡ qs ++ rs)
    × (e.rel_offset ≡ pos (length qs))
    × (e.position ≡ pos (length (entries b qs)))

-- The segment holds exactly the payloads `ps`, the first of which has offset `b`.
pub record Stores (s : Segment) (b : ℕ) (ps : List (List ℕ)) : Type 0 where
  pub base : s.base_offset ≡ pos b
  pub file : s.log_file ≡ entries b ps
  pub size : s.log_size ≡ length (entries b ps)
  pub last : s.last_index_pos ≤ s.log_size
  pub count : length ps ≤ max_segment_bytes
  pub payloads : All IsPayload ps
  pub indexed : All (IsIndexed b ps) s.index

search-get_elem? {ℓ κ} :
    {A : Type ℓ} (P : A → Type κ) (test : A → Bool) (xs : List A) (i : ℕ)
    → search test xs ≡ suc i
    → All P xs
    → (x : A) × (get_elem? xs i ≡ some x) × (test x ≡ false) × P x
unfolding search
search-get_elem? P test [] i e h = cc
search-get_elem? P test (x ∷ xs) zero e h = (x, refl, ground arith, h.0)
search-get_elem? P test (x ∷ xs) (suc i) e h = search-get_elem? P test xs i (ground arith) h.1

pub length-le-entries : (b : ℕ) (ps : List (List ℕ)) → 12 * length ps ≤ length (entries b ps)
length-le-entries b [] = omega arith
length-le-entries b (p ∷ ps) =
    omega (arith, length-entries_cons b p ps, length-le-entries (suc b) ps)

pub records_from-append :
    (o b : ℕ) (qs rs : List (List ℕ))
    → b + length qs ≤ o
    → records_from o b (qs ++ rs) ≡ records_from o (b + length qs) rs
records_from-append o b [] rs h = ap (λ k. records_from o k rs) (omega arith)
records_from-append o b (q ∷ qs) rs h =
    rw (lt→ltb b o (omega arith), records_from-append o (suc b) qs rs (omega arith))
      (ap (λ k. records_from o k rs) (omega arith))

-- Relative offsets are small, so an entry that passes the search is not behind the offset, also
-- where the difference to the offset wraps around.
not_behind :
    (o b n : ℕ) (base rel : ℤ)
    → base ≡ pos b
    → rel ≡ pos n
    → n ≤ max_segment_bytes
    → b ≤ o
    → ltb_ℤ (wrap32 (pos o -ℤ base)) rel ≡ false
    → b + n ≤ o
not_behind o b n base rel hb hr hn h e = elim (Bool-cases (ltb (o - b) (2 ^ 31))) [
  | inl near ↦ near_lem (rw (hb, hr) at e)
  | inr far ↦ ground arith
]
  where
    near_lem : ltb_ℤ (wrap32 (pos o -ℤ pos b)) (pos n) ≡ false → b + n ≤ o
    near_lem e' = ground arith

-- A start position is that of an entry, no later than the offset.
start_position-entry :
    (s : Segment) (b o : ℕ) (ps : List (List ℕ))
    → Stores s b ps
    → b ≤ o
    → (qs : List (List ℕ)) × (rs : List (List ℕ)) × (ps ≡ qs ++ rs)
      × (b + length qs ≤ o)
      × (start_position s (pos o) ≡ pos (length (entries b qs)))
unfolding start_position
start_position-entry s b o ps st h = go (search test s.index) refl
  where
    test : IndexEntry → Bool
    test e = ltb_ℤ (wrap32 (pos o -ℤ s.base_offset)) e.rel_offset

    go :
        (j : ℕ)
        → search test s.index ≡ j
        → (qs : List (List ℕ)) × (rs : List (List ℕ)) × (ps ≡ qs ++ rs)
          × (b + length qs ≤ o)
          × (start_position s (pos o) ≡ pos (length (entries b qs)))
    go zero e = ([], ps, refl, omega arith, rw e refl)
    go (suc i) e =
        let (x, at, passed, (qs, rs, split, rel, position)) =
          search-get_elem? (IsIndexed b ps) test s.index i e st.indexed in
        (
          qs,
          rs,
          split,
          not_behind o b (length qs) _ _ st.base rel
              (omega (arith, st.count, ap length split, length-append qs rs)) h passed,
          rw (e, at) position,
        )

All-suffix {ℓ κ} : {A : Type ℓ} (P : A → Type κ) (xs ys : List A) → All P (xs ++ ys) → All P ys
All-suffix P [] ys h = h
All-suffix P (x ∷ xs) ys h = All-suffix P xs ys h.1

-- A read that starts behind the payloads `qs`.
read_behind :
    (file : List ℕ) (b o : ℕ) (qs rs : List (List ℕ)) (max_bytes : ℤ)
    → file ≡ entries b (qs ++ rs)
    → All IsPayload (qs ++ rs)
    → b + length qs ≤ o
    → b + length (qs ++ rs) ≤ 2 ^ 63
    → read_loop (suc (length file)) file (length (entries b qs)) (pos o) max_bytes 0
      ≡ records (limit max_bytes 0 (records_from o b (qs ++ rs)))
read_behind file b o qs rs max_bytes e hp le fits = rw (records_from-append o b qs rs le) (
    read_loop-entries file o max_bytes (suc (length file)) (length (entries b qs)) 0 (b + length qs)
      rs enough at (omega (arith, length-append qs rs)) (All-suffix IsPayload qs rs hp))
  where
    enough : length rs < suc (length file)
    enough = omega (arith, ap length e, length-le-entries b (qs ++ rs), length-append qs rs)

    at : drop (length (entries b qs)) file ≡ entries (b + length qs) rs
    at = rw (e, entries-append b qs rs) (drop-append (entries b qs) (entries (b + length qs) rs))

-- If a segment stores payloads with offsets from `b` on, up to at most 2^63 - 1, then reading at an
-- offset from `b` on, starting where the sparse index says, answers exactly the records at or after
-- that offset, cut off at the byte limit.
pub read_records-Stores :
    (s : Segment) (b o : ℕ) (ps : List (List ℕ)) (max_bytes : ℤ)
    → Stores s b ps
    → b ≤ o
    → b + length ps ≤ 2 ^ 63
    → read_records s.log_file (start_position s (pos o)) (pos o) max_bytes
      ≡ records (limit max_bytes 0 (records_from o b ps))
unfolding read_records
read_records-Stores s b o ps max_bytes st h fits =
    let (qs, rs, split, le, at) = start_position-entry s b o ps st h in
    rw (at) (
      subst
        (λ t.
          read_loop (suc (length s.log_file)) s.log_file (length (entries b qs)) (pos o) max_bytes 0
          ≡ records (limit max_bytes 0 (records_from o b t)))
        (sym split)
        (read_behind s.log_file b o qs rs max_bytes (st.file ∙ ap (entries b) split)
          (subst (All IsPayload) split st.payloads) le (rw (← split) fits)))

pub create_segment-Stores : (b : ℕ) → Stores (create_segment (pos b)) b []
unfolding create_segment
create_segment-Stores b = record {
  base = refl;
  file = refl;
  size = refl;
  last = omega arith;
  count = omega arith;
  payloads = tt;
  indexed = tt;
}

-- An index entry still stands for its entry when more follow.
IsIndexed-append :
    (b : ℕ) (ps : List (List ℕ)) (p : List ℕ) (index : List IndexEntry)
    → All (IsIndexed b ps) index
    → All (IsIndexed b (ps ++ (p ∷ []))) index
IsIndexed-append b ps p [] h = tt
IsIndexed-append b ps p (e ∷ index) ((qs, rs, split, rel, position), h) = (
  (qs, rs ++ (p ∷ []), ap (λ t. t ++ (p ∷ [])) split ∙ append_assoc qs rs (p ∷ []), rel, position),
  IsIndexed-append b ps p index h,
)

maybe_write_index-Stores :
    (s : Segment) (b : ℕ) (ps : List (List ℕ))
    → Stores s b ps
    → s.log_size ≤ max_segment_bytes
    → Stores (maybe_write_index s (pos (b + length ps)) s.log_size) b ps
unfolding maybe_write_index
maybe_write_index-Stores s b ps st hs =
    elim (Bool-cases (ltb s.log_size (s.last_index_pos + index_interval_bytes))) [
      | inl p ↦ rw p st
      | inr p ↦ rw p (record {
        base = st.base;
        file = st.file;
        size = st.size;
        last = omega arith;
        count = st.count;
        payloads = st.payloads;
        indexed =
            All-append (IsIndexed b ps) s.index _ st.indexed
              ((ps, [], sym (append-nil ps), rel, at), tt);
      })
    ]
  where
    rel : wrap32 (pos (b + length ps) -ℤ s.base_offset) ≡ pos (length ps)
    rel = rw st.base (ground (arith, st.count))

    at : wrap32 (pos s.log_size) ≡ pos (length (entries b ps))
    at = rw st.size (ground (arith, st.size, hs))

length-maybe_write_index :
    (s : Segment) (offset : ℤ) (n : ℕ) → (maybe_write_index s offset n).log_size ≡ s.log_size
unfolding maybe_write_index
length-maybe_write_index s offset n =
    elim (Bool-cases (ltb s.log_size (s.last_index_pos + index_interval_bytes))) [
      | inl p ↦ rw p refl
      | inr p ↦ rw p refl
    ]

entries-snoc :
    (b : ℕ) (ps : List (List ℕ)) (p : List ℕ)
    → entries b (ps ++ (p ∷ []))
      ≡ entries b ps ++ (entry_header (pos (b + length ps)) (length p) ++ p)
entries-snoc b ps p = rw (entries-append b ps (p ∷ []), append-nil p) refl

-- If a segment stores payloads, then appending one of fewer than 2^32 bytes at the next offset stores
-- one payload more, file and sparse index alike, if the segment has not outgrown its size limit.
pub append_entry-Stores :
    (s : Segment) (b : ℕ) (ps : List (List ℕ)) (p : List ℕ)
    → Stores s b ps
    → IsPayload p
    → s.log_size ≤ max_segment_bytes
    → Stores (append_entry s (pos (b + length ps)) p) b (ps ++ (p ∷ []))
unfolding append_entry
append_entry-Stores s b ps p st hp hs =
    let ready = maybe_write_index-Stores s b ps st hs in
    let same = length-maybe_write_index s (pos (b + length ps)) s.log_size in
    record {
      base = ready.base;
      file = rw (ready.file, entries-snoc b ps p) refl;
      size = omega (
        arith,
        ready.size,
        ap length (entries-snoc b ps p),
        length-append (entries b ps) (entry_header (pos (b + length ps)) (length p) ++ p),
        length-append (entry_header (pos (b + length ps)) (length p)) p,
        length-entry_header (pos (b + length ps)) (length p),
      );
      last = omega (arith, ready.last);
      count = omega (arith, length-append ps (p ∷ []), length-le-entries b ps, st.size);
      payloads = All-append IsPayload ps (p ∷ []) st.payloads (hp, tt);
      indexed = IsIndexed-append b ps p _ ready.indexed;
    }
