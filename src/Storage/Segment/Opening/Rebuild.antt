-- ===== src/Storage/Segment/Opening/Rebuild.antt =====
-- A segment that is opened without its index, after a crash that tore the last entry.
use gokaf.Base.{
  ℕ, zero, suc, ◌+◌, ◌^◌, ◌≤◌, ◌<◌, ◌≡◌, refl, sym, ap, ◌∙◌, inl, inr, List, [], ◌∷◌, ◌++◌,
  append_assoc, some, pos, ◌-ℤ◌, wrap32, ltb, leb, true, false, Bool-cases, length, length-append,
  All, drop, take-append, arith,
}
use mathlib.Core.Option
use gokaf.Storage.Segment.{
  IndexEntry, Segment, max_segment_bytes, index_interval_bytes, entry_header, header_offset,
  header_length, read_at,
}
use gokaf.Storage.Segment.Entries.{
  entries, IsPayload, entries-append, header_offset-entry_header, header_length-entry_header,
  read_at-front, drop-front, length-entry_header, length-entries_cons, length-drop,
}
use gokaf.Storage.Segment.Indexing.{IsIndexed, Stores, length-le-entries}
use gokaf.Storage.Segment.Recovery.{IsTorn, recover_log-torn}
use gokaf.Storage.Segment.Opening.{
  rebuild, load_index, rebuild_loop, rebuild_index, last_indexed_position, opened, open_segment,
  all_index_bytes,
}

module _ (file : List ℕ) (b : ℕ) (ps : List (List ℕ)) where
  -- The rounds of `rebuildIndex` behind the payloads `qs`.
  rebuild_loop-IsIndexed :
      (fuel last at : ℕ) (qs rs : List (List ℕ))
      → length rs < fuel
      → ps ≡ qs ++ rs
      → at ≡ length (entries b qs)
      → drop at file ≡ entries (b + length qs) rs
      → b + length ps < 2 ^ 63
      → length ps < 2 ^ 31
      → length file < 2 ^ 31
      → All IsPayload rs
      → (index : List IndexEntry) × (rebuild_loop fuel file (pos b) (length file) last at
          ≡ some index)
        × All (IsIndexed b ps) index
  unfolding rebuild_loop Option.bind Option.map
  rebuild_loop-IsIndexed zero last at qs rs hf split here e hb hn hs hp = elim hf [ ]
  rebuild_loop-IsIndexed (suc fuel) last at qs [] hf split here e hb hn hs hp =
      ([], rw (leb_false) refl, tt)
    where
      leb_false : leb (at + 12) (length file) ≡ false
      leb_false = ground (arith, ap length e, length-drop at file)
  rebuild_loop-IsIndexed (suc fuel) last at qs (p ∷ rs) hf split here e hb hn hs hp =
      elim (Bool-cases (leb (last + index_interval_bytes) at)) [
        | inl due ↦
            let rest =
              rebuild_loop-IsIndexed fuel at (at + 12 + length p) (qs ++ (p ∷ [])) rs
                (omega (arith, hf)) split' here' behind hb hn hs hp.1 in
            (
              this ∷ rest.0,
              rw (enough, front, size_of, fits, due, number, place, rest.1) refl,
              (indexed, rest.2),
            )
        | inr early ↦
            let rest =
              rebuild_loop-IsIndexed fuel last (at + 12 + length p) (qs ++ (p ∷ [])) rs
                (omega (arith, hf)) split' here' behind hb hn hs hp.1 in
            (rest.0, rw (enough, front, size_of, fits, early, rest.1) refl, rest.2)
      ]
    where
      header : List ℕ
      header = entry_header (pos (b + length qs)) (length p)

      tail : List ℕ
      tail = entries (suc (b + length qs)) rs

      size : length (drop at file) ≡ 12 + (length p + length tail)
      size = omega (
        arith,
        ap length e,
        length-append header (p ++ tail),
        length-append p tail,
        length-entry_header (pos (b + length qs)) (length p),
      )

      enough : leb (at + 12) (length file) ≡ true
      enough = ground (arith, size, length-drop at file)

      front : read_at file at 12 ≡ some header
      front =
          read_at-front file at 12 header (p ++ tail) e
            (length-entry_header (pos (b + length qs)) (length p))

      size_of : header_length header ≡ length p
      size_of = header_length-entry_header (pos (b + length qs)) (length p) hp.0

      fits : ltb (length file) (at + 12 + length p) ≡ false
      fits = ground (arith, size, length-drop at file)

      many : length ps ≡ length qs + suc (length rs)
      many = ap length split ∙ length-append qs (p ∷ rs)

      offset : header_offset header ≡ pos (b + length qs)
      offset = header_offset-entry_header (b + length qs) (length p) (omega (arith, many, hb))

      number : wrap32 (header_offset header -ℤ pos b) ≡ pos (length qs)
      number = rw offset (ground (arith, many, hn))

      place : wrap32 (pos at) ≡ pos at
      place = ground (arith, size, length-drop at file, hs)

      this : IndexEntry
      this = record { rel_offset = pos (length qs); position = pos at }

      indexed : IsIndexed b ps this
      indexed = (qs, p ∷ rs, split, refl, ap pos here)

      split' : ps ≡ (qs ++ (p ∷ [])) ++ rs
      split' = split ∙ sym (append_assoc qs (p ∷ []) rs)

      here' : at + 12 + length p ≡ length (entries b (qs ++ (p ∷ [])))
      here' = omega (
        arith,
        here,
        ap length (entries-append b qs (p ∷ [])),
        length-append (entries b qs) (entries (b + length qs) (p ∷ [])),
        length-entries_cons (b + length qs) p [],
      )

      behind : drop (at + 12 + length p) file ≡ entries (b + length (qs ++ (p ∷ []))) rs
      behind =
          drop-front file (at + 12) (length p) p tail
            (drop-front file at 12 header (p ++ tail) e
              (length-entry_header (pos (b + length qs)) (length p)))
            refl
          ∙ ap (λ k. entries k rs) (omega (arith, length-append qs (p ∷ [])))

last-IsIndexed :
    (b : ℕ) (ps : List (List ℕ)) (index : List IndexEntry)
    → All (IsIndexed b ps) index
    → (k : ℕ) × (last_indexed_position index ≡ pos k) × (k ≤ length (entries b ps))
unfolding last_indexed_position
last-IsIndexed b ps [] h = (0, refl, omega arith)
last-IsIndexed b ps (e ∷ []) ((qs, rs, split, rel, position), h) = (
  length (entries b qs),
  position,
  omega (
    arith,
    ap (λ t. length (entries b t)) split,
    ap length (entries-append b qs rs),
    length-append (entries b qs) (entries (b + length qs) rs),
  ),
)
last-IsIndexed b ps (e ∷ f ∷ es) (h, hs) = last-IsIndexed b ps (f ∷ es) hs

opened-Stores :
    (b : ℕ) (ps : List (List ℕ)) (index_file : List ℕ) (index : List IndexEntry)
    → length ps ≤ max_segment_bytes
    → All IsPayload ps
    → All (IsIndexed b ps) index
    → (s : Segment) × (opened (pos b) (entries b ps) index_file index ≡ some s) × Stores s b ps
unfolding opened
opened-Stores b ps index_file index hn hp h =
    let last = last-IsIndexed b ps index h in
    (
      record {
        base_offset = pos b;
        log_file = entries b ps;
        index_file = index_file;
        log_size = length (entries b ps);
        last_index_pos = last.0;
        index = index;
      },
      rw (last.1) refl,
      record {
        base = refl;
        file = refl;
        size = refl;
        last = last.2;
        count = hn;
        payloads = hp;
        indexed = h;
      },
    )

-- A segment whose log file ends in a torn entry, and whose index file `loadIndex` gives up on, is opened
-- with exactly the intact payloads stored, file and rebuilt sparse index alike, if the payloads are
-- shorter than 2^32 bytes, at most as many as the size limit, their entries shorter than 2^31 bytes and
-- the offsets fit an int64.
pub open_segment-Stores :
    (b : ℕ) (ps : List (List ℕ)) (torn index_file : List ℕ)
    → b + length ps < 2 ^ 63
    → length ps ≤ max_segment_bytes
    → length (entries b ps) < 2 ^ 31
    → All IsPayload ps
    → IsTorn torn
    → load_index index_file (length (entries b ps)) ≡ rebuild
    → (s : Segment) × (open_segment (pos b) (entries b ps ++ torn) index_file ≡ some s)
      × Stores s b ps
unfolding open_segment rebuild_index Option.bind
open_segment-Stores b ps torn index_file hb hn hs hp t lost =
    let built =
      rebuild_loop-IsIndexed (entries b ps) b ps (suc (length (entries b ps))) 0 0 [] ps
        (omega (arith, length-le-entries b ps)) refl refl start hb (omega (arith, hn)) hs hp in
    let done = opened-Stores b ps (all_index_bytes built.0) built.0 hn hp built.2 in
    (
      done.0,
      rw (recover_log-torn b ps torn hb hp t, take-append (entries b ps) torn, lost, built.1)
          done.1,
      done.2,
    )
  where
    start : drop 0 (entries b ps) ≡ entries (b + 0) ps
    start = ap (λ k. entries k ps) (omega arith)
