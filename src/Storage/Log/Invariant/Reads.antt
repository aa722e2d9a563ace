-- ===== src/Storage/Log/Invariant/Reads.antt =====
-- What `Read` answers, in terms of the log as one list of payloads.
use gokaf.Base.{
  ℕ, suc, ◌+◌, ◌^◌, ◌≤◌, ◌<◌, ◌≡◌, ◌≢◌, refl, sym, ap, ◌∙◌, List, [], ◌∷◌, ◌++◌, append_assoc,
  Option, some, ℤ, pos, true, false, Bool, Bool-cases, inl, inr, ltb, ltb_ℤ, length, length-append,
  arith,
}
use mathlib.Core.Path.{subst}
use gokaf.Storage.Segment.{Record, Segment, records, search, reached}
use gokaf.Storage.Segment.Reading.{records_from, limit}
use gokaf.Storage.Segment.Indexing.{Stores, read_records-Stores, records_from-append}
use gokaf.Storage.Log.{Log, segments, segment_before, segment_for_offset, read_segment, read}
use gokaf.Storage.Log.Invariant.{Holds, StoreAll, StoreAll-snoc, join, join-snoc}

-- Records of a front part come first.
records_from-prefix :
    (o b : ℕ) (ps qs : List (List ℕ))
    → records_from o b (ps ++ qs) ≡ records_from o b ps ++ records_from o (b + length ps) qs
records_from-prefix o b [] qs = ap (λ k. records_from o k qs) (omega arith)
records_from-prefix o b (p ∷ ps) qs = elim (Bool-cases (ltb b o)) [
  | inl old ↦ rw (old, records_from-prefix o (suc b) ps qs, next) refl
  | inr new ↦ rw (new, records_from-prefix o (suc b) ps qs, next) refl
]
  where
    next : suc b + length ps ≡ b + suc (length ps)
    next = omega arith

-- The limit cuts off a rest, and never the first record.
limit-prefix :
    (m : ℤ) (n : ℕ) (rs : List Record) → (rest : List Record) × (rs ≡ limit m n rs ++ rest)
limit-prefix m n [] = ([], refl)
limit-prefix m n (r ∷ rs) = elim (Bool-cases (reached m (n + length r.payload))) [
  | inl p ↦ rw p (rs, refl)
  | inr p ↦ rw p (let (rest, e) = limit-prefix m (n + length r.payload) rs in (rest, ap (◌∷◌ r) e))
]

records_from-ne-nil :
    (o b : ℕ) (ps : List (List ℕ)) → o < b + length ps → b ≤ o → records_from o b ps ≢ []
records_from-ne-nil o b [] h le = λ e. omega arith
records_from-ne-nil o b (p ∷ ps) h le = elim (Bool-cases (ltb b o)) [
  | inl old ↦ rw old (records_from-ne-nil o (suc b) ps (omega arith) (ground arith))
  | inr new ↦ rw new (λ e. cc)
]

limit-ne-nil : (m : ℤ) (n : ℕ) (rs : List Record) → rs ≢ [] → limit m n rs ≢ []
limit-ne-nil m n [] h = h
limit-ne-nil m n (r ∷ rs) h = λ e. cc

-- The segment that `segmentForOffset` finds holds a part of the payloads from the offset on.
record Finds (o b : ℕ) (found : Option Segment) (ps : List (List ℕ)) : Type 0 where
  seg : Segment
  start : ℕ
  part : List (List ℕ)
  behind : List (List ℕ)
  here : found ≡ some seg
  stores : Stores seg start part
  before : start ≤ o
  view : records_from o b ps ≡ records_from o start (part ++ behind)
  inside : o < b + length ps → o < start + length part
  ends : start + length part ≤ b + length ps

abbrev starts_after : ℕ → Segment → Bool
starts_after o s = ltb_ℤ (pos o) (Segment.base_offset s)

starts_after-false :
    (o b : ℕ) (s : Segment) (ps : List (List ℕ)) → Stores s b ps → b ≤ o → starts_after o s ≡ false
starts_after-false o b s ps st le = rw st.base (ground arith)

starts_after-true :
    (o b : ℕ) (s : Segment) (ps : List (List ℕ)) → Stores s b ps → o < b → starts_after o s ≡ true
starts_after-true o b s ps st lt = rw st.base (ground arith)

search-pass {ℓ} :
    {A : Type ℓ} (test : A → Bool) (x : A) (xs : List A)
    → test x ≡ false
    → search test (x ∷ xs) ≡ suc (search test xs)
unfolding search
search-pass test x xs e = rw e

search-stop {ℓ} :
    {A : Type ℓ} (test : A → Bool) (x : A) (xs : List A) → test x ≡ true → search test (x ∷ xs) ≡ 0
unfolding search
search-stop test x xs e = rw e

search-Finds :
    (o b : ℕ) (s : Segment) (ss : List Segment) (ps : List (List ℕ)) (parts : List (List (List ℕ)))
    → StoreAll b (s ∷ ss) (ps ∷ parts)
    → b ≤ o
    → Finds o b (segment_before (s ∷ ss) (search (starts_after o) (s ∷ ss))) (join (ps ∷ parts))
search-Finds o b s [] ps [] (st, h) le =
    rw (search-pass (starts_after o) s [] (starts_after-false o b s ps st le)) (
      unfold search in
      record {
        seg = s;
        start = b;
        part = ps;
        behind = [];
        here = refl;
        stores = st;
        before = le;
        view = refl;
        inside = λ i. omega (arith, length-append ps []);
        ends = omega (arith, length-append ps []);
      })
search-Finds o b s [] ps (qs ∷ parts) (st, h) le = elim h [ ]
search-Finds o b s (t ∷ ss) ps [] (st, h) le = elim h [ ]
search-Finds o b s (t ∷ ss) ps (qs ∷ parts) (st, h) le =
    rw (search-pass (starts_after o) s (t ∷ ss) (starts_after-false o b s ps st le))
      (elim (Bool-cases (ltb o (b + length ps))) [
        | inl here ↦
            rw
              (search-stop (starts_after o) t ss
                (starts_after-true o (b + length ps) t qs h.0 (ground arith)))
              (record {
                seg = s;
                start = b;
                part = ps;
                behind = join (qs ∷ parts);
                here = refl;
                stores = st;
                before = le;
                view = refl;
                inside = λ i. ground arith;
                ends = omega (arith, length-append ps (join (qs ∷ parts)));
              })
        | inr later ↦
            rw
              (search-pass (starts_after o) t ss
                (starts_after-false o (b + length ps) t qs h.0 (ground arith)))
              (skip (ground arith) (
                rw
                  (search-pass (starts_after o) t ss
                    (starts_after-false o (b + length ps) t qs h.0 (ground arith)))
                  at (search-Finds o (b + length ps) t ss qs parts h (ground arith))))
      ])
  where
    skip :
        {found : Option Segment}
        → b + length ps ≤ o
        → Finds o (b + length ps) found (join (qs ∷ parts))
        → Finds o b found (ps ++ join (qs ∷ parts))
    skip at f = record {
      seg = f.seg;
      start = f.start;
      part = f.part;
      behind = f.behind;
      here = f.here;
      stores = f.stores;
      before = f.before;
      view = records_from-append o b ps (join (qs ∷ parts)) at ∙ f.view;
      inside = λ i. f.inside (omega (arith, length-append ps (join (qs ∷ parts))));
      ends = omega (arith, f.ends, length-append ps (join (qs ∷ parts)));
    }

search_all-Finds :
    (o : ℕ) (ss : List Segment) (parts : List (List (List ℕ)))
    → ss ≢ []
    → StoreAll 0 ss parts
    → Finds o 0 (segment_before ss (search (starts_after o) ss)) (join parts)
search_all-Finds o [] parts ne h = absurd (ne refl)
search_all-Finds o (s ∷ ss) [] ne h = elim h [ ]
search_all-Finds o (s ∷ ss) (ps ∷ parts) ne h = search-Finds o 0 s ss ps parts h (omega arith)

snoc-ne-nil {ℓ} : {A : Type ℓ} (xs : List A) (x : A) → xs ++ (x ∷ []) ≢ []
snoc-ne-nil [] x e = cc
snoc-ne-nil (y ∷ xs) x e = cc

-- Reading in the segment that was found.
Finds-read :
    (o : ℕ) (m : ℤ) (found : Option Segment) (ps : List (List ℕ))
    → Finds o 0 found ps
    → length ps ≤ 2 ^ 63
    → (rs : List Record) × (rest : List Record) × (read_segment found (pos o) m ≡ records rs)
      × (records_from o 0 ps ≡ rs ++ rest)
      × (o < length ps → rs ≢ [])
Finds-read o m found ps f fits =
    let front = records_from o f.start f.part in
    let (cut, e) = limit-prefix m 0 front in
    let tail = records_from o (f.start + length f.part) f.behind in
    (
      limit m 0 front,
      cut ++ tail,
      rw f.here
          (read_records-Stores f.seg f.start o f.part m f.stores f.before (omega (arith, f.ends))),
      f.view
          ∙ records_from-prefix o f.start f.part f.behind
          ∙ ap (λ t. t ++ tail) e
          ∙ append_assoc (limit m 0 front) cut tail,
      λ i.
          limit-ne-nil m 0 front
            (records_from-ne-nil o f.start f.part (f.inside (omega arith)) f.before),
    )

-- A read at an offset of the log answers the records from that offset on, without a gap, up to a
-- point that the limit and the segment decide, and at least the record at the offset; behind the
-- end it answers none. (The log holds at most 2^63 payloads, with offsets from 0 on.)
pub read-Holds :
    (l : Log) (ps : List (List ℕ)) (o : ℕ) (max_bytes : ℤ)
    → Holds l ps
    → length ps ≤ 2 ^ 63
    → (rs : List Record) × (rest : List Record) × (read l (pos o) max_bytes ≡ records rs)
      × (records_from o 0 ps ≡ rs ++ rest)
      × (o < length ps → rs ≢ [])
unfolding read segment_for_offset
read-Holds l ps o max_bytes h fits =
    Finds-read o max_bytes (segment_for_offset l (pos o)) ps
      (subst (Finds o 0 (segment_for_offset l (pos o))) (join-snoc h.parts h.last ∙ sym h.whole) (
        search_all-Finds o (segments l) (h.parts ++ (h.last ∷ [])) (snoc-ne-nil l.older l.active) (
          StoreAll-snoc 0 l.older h.parts l.active h.last h.older
            (subst (λ k. Stores l.active k h.last) (omega arith) h.active))))
      fits
