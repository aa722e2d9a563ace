-- ===== src/Offset/Replay.antt =====
-- A store that is opened on the log of another has the same committed offsets.
use gokaf.Base.{
  ℕ, zero, suc, ◌+◌, ◌^◌, ◌≤◌, ◌<◌, ◌≡◌, ◌≢◌, refl, sym, ap, ◌∙◌, List, [], ◌∷◌, ◌++◌, append_assoc,
  append-nil, map, some, ℤ, pos, negsuc, ◌+ℤ◌, wrap64, to_word, IsInt32, IsInt64, length,
  length-append, length-map, All, arith, Bool-cases, inl, inr, ltb,
}
use gokaf.Base.Map.{insert}
use mathlib.Core.Option
use mathlib.Core.List.{map-append}
use mathlib.Core.Path.{subst}
use gokaf.Protocol.Result.{Reads, Reads-bind, Reads-last, Reads-return}
use gokaf.Protocol.Bytes.{put_be, length-put_be}
use gokaf.Protocol.Types.{write_string, write_int16, write_int32, write_int64}
use gokaf.Protocol.Types.RoundTrip.{Reads-string, Reads-int32, Reads-int64}
use gokaf.Storage.Segment.{Record, records}
use gokaf.Storage.Segment.Reading.{records_from}
use gokaf.Storage.Segment.Indexing.{records_from-append}
use gokaf.Storage.Segment.Entries.{IsPayload}
use gokaf.Storage.Log.{Log}
use gokaf.Storage.Log.Invariant.{Holds, append-Holds}
use gokaf.Storage.Log.Invariant.Reads.{read-Holds}
use gokaf.Offset.{
  Key, Store, Key-discrete, encode_entry, decode_entry, decoded, commit, Replayed, replayed,
  apply_records, after_read, replay,
}

-- The arguments of a call of `Commit`, and the time that the entry carries.
pub record Commit : Type 0 where
  pub key : Key
  pub offset : ℤ
  pub time : ℤ

-- Values of the Go types, with names that fit an int16 length.
pub record Fits (c : Commit) : Type 0 where
  pub group : length c.key.group < 2 ^ 15
  pub topic : length c.key.topic < 2 ^ 15
  pub partition : IsInt32 c.key.partition
  pub offset : IsInt64 c.offset
  pub time : IsInt64 c.time

abbrev pub entry : Commit → List ℕ
entry c = encode_entry c.key c.offset c.time

pub Reads-entry : (c : Commit) → Fits c → Reads decode_entry (entry c) (c.key, c.offset)
unfolding decode_entry encode_entry
Reads-entry c f = Reads-bind _ (Reads-string c.key.group f.group) (
    Reads-bind _ (Reads-string c.key.topic f.topic) (
      Reads-bind _ (Reads-int32 c.key.partition f.partition) (
        Reads-bind _ (Reads-int64 c.offset f.offset)
          (Reads-last _ (Reads-int64 c.time f.time) Reads-return))))

decoded-entry : (c : Commit) → Fits c → decoded (decode_entry (entry c)) ≡ some (c.key, c.offset)
decoded-entry c f =
    ap (λ bytes. decoded (decode_entry bytes)) (sym (append-nil (entry c)))
    ∙ ap decoded ((Reads-entry c f).run [])

-- The map after the commits.
abbrev pub put_all : List Commit → List (Key × ℤ) → List (Key × ℤ)
put_all [] offsets = offsets
put_all (c ∷ cs) offsets = put_all cs (insert Key-discrete c.key c.offset offsets)

-- The records that hold the commits, from an offset on.
abbrev numbered : ℕ → List Commit → List Record
numbered o [] = []
numbered o (c ∷ cs) = record { offset = pos o; payload = entry c } ∷ numbered (suc o) cs

records_from-numbered :
    (o b : ℕ) (cs : List Commit) → o ≤ b → records_from o b (map entry cs) ≡ numbered b cs
records_from-numbered o b [] h = refl
records_from-numbered o b (c ∷ cs) h = elim (Bool-cases (ltb b o)) [
  | inl p ↦ absurd (ground arith)
  | inr p ↦ rw (p, records_from-numbered o (suc b) cs (omega arith)) refl
]

next64 : (o : ℕ) → suc o < 2 ^ 63 → wrap64 (pos o +ℤ pos 1) ≡ pos (suc o)
next64 o h = ground arith

apply_records-numbered :
    (o : ℕ) (cs : List Commit) (offsets : List (Key × ℤ))
    → All Fits cs
    → suc (o + length cs) ≤ 2 ^ 63
    → apply_records (numbered o cs) offsets (pos o) ≡ some (put_all cs offsets, pos (o + length cs))
unfolding apply_records Option.bind
apply_records-numbered o [] offsets f h = ap (λ k. some (offsets, pos k)) (omega arith)
apply_records-numbered o (c ∷ cs) offsets f h = rw (decoded-entry c f.0) (
    ap (apply_records (numbered (suc o) cs) (insert Key-discrete c.key c.offset offsets))
      (next64 o (omega arith))
    ∙ apply_records-numbered (suc o) cs (insert Key-discrete c.key c.offset offsets) f.1
        (omega arith)
    ∙ ap (λ k. some (put_all cs (insert Key-discrete c.key c.offset offsets), pos k)) (omega arith))

-- A part of the front of the numbered records is the numbered records of a part of the commits.
numbered-split :
    (o : ℕ) (cs : List Commit) (rs rest : List Record)
    → numbered o cs ≡ rs ++ rest
    → (c1 c2 : List Commit) × (cs ≡ c1 ++ c2) × (rs ≡ numbered o c1)
numbered-split o cs [] rest e = ([], cs, refl, refl)
numbered-split o [] (r ∷ rs) rest e = absurd (nil-cons e)
  where
    nil-cons : ¬ Path (List Record) [] (r ∷ (rs ++ rest))
    nil-cons p = cc p
numbered-split o (c ∷ cs) (r ∷ rs) rest e =
    let more = numbered-split (suc o) cs rs rest (tail-eq e) in
    (c ∷ more.0, more.1, ap (◌∷◌ c) more.2, cons-eq (sym (head-eq e)) more.3)
  where
    head-eq :
        Path (List Record) (numbered o (c ∷ cs)) (r ∷ (rs ++ rest))
        → record { offset = pos o; payload = entry c } ≡ r
    head-eq p = cc p

    tail-eq :
        Path (List Record) (numbered o (c ∷ cs)) (r ∷ (rs ++ rest))
        → numbered (suc o) cs ≡ rs ++ rest
    tail-eq p = cc p

    cons-eq : {a b : Record} {xs ys : List Record} → a ≡ b → xs ≡ ys → a ∷ xs ≡ b ∷ ys
    cons-eq p q = cc (p, q)

put_all-append :
    (c1 c2 : List Commit) (offsets : List (Key × ℤ))
    → put_all (c1 ++ c2) offsets ≡ put_all c2 (put_all c1 offsets)
put_all-append [] c2 offsets = refl
put_all-append (c ∷ c1) c2 offsets =
    put_all-append c1 c2 (insert Key-discrete c.key c.offset offsets)

All-left : (c1 c2 : List Commit) → All Fits (c1 ++ c2) → All Fits c1
All-left [] c2 f = tt
All-left (c ∷ c1) c2 f = (f.0, All-left c1 c2 f.1)

All-right : (c1 c2 : List Commit) → All Fits (c1 ++ c2) → All Fits c2
All-right [] c2 f = f
All-right (c ∷ c1) c2 f = All-right c1 c2 f.1

-- One round: what is read is applied, and the loop goes on behind it; nothing is read only at the end.
replay-round :
    (o : ℕ) (c1 c2 : List Commit) (offsets : List (Key × ℤ)) (k : List (Key × ℤ) → ℤ → Replayed)
    → (0 < length (c1 ++ c2) → numbered o c1 ≢ [])
    → All Fits (c1 ++ c2)
    → suc (o + length c1) ≤ 2 ^ 63
    → (0 < length c1
        → k (put_all c1 offsets) (pos (o + length c1)) ≡ replayed (put_all c2 (put_all c1 offsets)))
    → after_read (records (numbered o c1)) offsets (pos o) k ≡ replayed (put_all (c1 ++ c2) offsets)
replay-round o [] [] offsets k reads f fits go = refl
replay-round o [] (c ∷ c2) offsets k reads f fits go = absurd (reads (ground arith) refl)
replay-round o (c ∷ c1) c2 offsets k reads f fits go =
    rw (apply_records-numbered o (c ∷ c1) offsets (All-left (c ∷ c1) c2 f) fits)
      (go (ground arith) ∙ ap replayed (sym (put_all-append (c ∷ c1) c2 offsets)))

-- Rounds of `replay` on a log that holds the commits, of which some were applied.
replay-rest :
    (fuel : ℕ) (l : Log) (done todo : List Commit) (offsets : List (Key × ℤ))
    → Holds l (map entry (done ++ todo))
    → All Fits todo
    → suc (length (done ++ todo)) ≤ 2 ^ 63
    → length todo < fuel
    → replay fuel l offsets (pos (length done)) ≡ replayed (put_all todo offsets)
unfolding replay
replay-rest zero l done todo offsets h f fits enough = absurd (ground arith)
replay-rest (suc fuel) l done todo offsets h f fits enough =
    let got = read-Holds l (map entry (done ++ todo)) (length done) (negsuc 0) h size in
    let cut = numbered-split (length done) todo got.0 got.1 (sym from ∙ got.3) in
    subst (λ t. replay (suc fuel) l offsets (pos (length done)) ≡ replayed (put_all t offsets))
      (sym cut.2)
      (rw (got.2, cut.3)
        (replay-round (length done) cut.0 cut.1 offsets _
          (λ p e.
            got.4
              (omega (
                arith,
                p,
                length-map entry (done ++ todo),
                length-append done todo,
                ap length cut.2,
              ))
              (cut.3 ∙ e))
          (subst (All Fits) cut.2 f)
          (omega (arith, fits, length-append done todo, ap length cut.2, length-append cut.0 cut.1))
          (λ p.
            ap (λ n. replay fuel l (put_all cut.0 offsets) (pos n)) (sym (length-append done cut.0))
            ∙ replay-rest fuel l (done ++ cut.0) cut.1 (put_all cut.0 offsets)
                (subst (λ t. Holds l (map entry t)) (regroup cut.0 cut.1 cut.2) h)
                (All-right cut.0 cut.1 (subst (All Fits) cut.2 f))
                (subst (λ t. suc (length t) ≤ 2 ^ 63) (regroup cut.0 cut.1 cut.2) fits)
                (omega (arith, p, enough, ap length cut.2, length-append cut.0 cut.1)))))
  where
    regroup : (c1 c2 : List Commit) → todo ≡ c1 ++ c2 → done ++ todo ≡ (done ++ c1) ++ c2
    regroup c1 c2 e = ap (λ t. done ++ t) e ∙ sym (append_assoc done c1 c2)

    size : length (map entry (done ++ todo)) ≤ 2 ^ 63
    size = omega (arith, length-map entry (done ++ todo))

    from : records_from (length done) 0 (map entry (done ++ todo)) ≡ numbered (length done) todo
    from =
        ap (records_from (length done) 0) (map-append entry done todo)
        ∙ records_from-append (length done) 0 (map entry done) (map entry todo)
            (omega (arith, length-map entry done))
        ∙ ap (λ k. records_from (length done) k (map entry todo))
            (omega (arith, length-map entry done))
        ∙ records_from-numbered (length done) (length done) todo (omega arith)

-- The store's log holds the entries of the commits, in order, and its map is their effect.
pub record Holding (s : Store) (cs : List Commit) : Type 0 where
  pub log : Holds s.log (map entry cs)
  pub offsets : s.offsets ≡ put_all cs []

length-string : (s : List ℕ) → length (write_string s) ≡ 2 + length s
unfolding write_string write_int16
length-string s = omega (
  arith,
  length-append (put_be 2 (to_word (2 ^ 16) (pos (length s)))) s,
  length-put_be 2 (to_word (2 ^ 16) (pos (length s))),
)

length-entry : (c : Commit) → Fits c → IsPayload (entry c)
unfolding encode_entry write_int32 write_int64
length-entry c f =
    let numbers = put_be 8 (to_word (2 ^ 64) c.offset) ++ put_be 8 (to_word (2 ^ 64) c.time) in
    let tail = put_be 4 (to_word (2 ^ 32) c.key.partition) ++ numbers in
    omega (
      arith,
      f.group,
      f.topic,
      length-append (write_string c.key.group) (write_string c.key.topic ++ tail),
      length-append (write_string c.key.topic) tail,
      length-append (put_be 4 (to_word (2 ^ 32) c.key.partition)) numbers,
      length-append (put_be 8 (to_word (2 ^ 64) c.offset)) (put_be 8 (to_word (2 ^ 64) c.time)),
      length-string c.key.group,
      length-string c.key.topic,
      length-put_be 4 (to_word (2 ^ 32) c.key.partition),
      length-put_be 8 (to_word (2 ^ 64) c.offset),
      length-put_be 8 (to_word (2 ^ 64) c.time),
    )

-- If a store's log holds the entries of the commits so far and its map is their effect, the same holds
-- with one commit more after `Commit`, if the values fit their Go types, the names are shorter than
-- 2^15 bytes and the commits stay fewer than 2^63.
pub commit-Holding :
    (s : Store) (cs : List Commit) (c : Commit)
    → Holding s cs
    → Fits c
    → suc (length cs) < 2 ^ 63
    → Holding (commit s c.key c.offset c.time) (cs ++ (c ∷ []))
unfolding commit
commit-Holding s cs c h f fits = record {
  log =
      subst (Holds _) (sym (map-append entry cs (c ∷ [])))
        (append-Holds s.log (map entry cs) (entry c) h.log (length-entry c f)
          (omega (arith, length-map entry cs))).0;
  offsets = ap (insert Key-discrete c.key c.offset) h.offsets ∙ sym (put_all-append cs (c ∷ []) []);
}

-- If a store's log holds the entries of the commits and its map is their effect, then replaying the log
-- into an empty map, with a round for every commit and one more, ends with the store's map, if the
-- commits fit their Go types, have names shorter than 2^15 bytes and are fewer than 2^63.
pub replay-Holding :
    (s : Store) (cs : List Commit)
    → Holding s cs
    → All Fits cs
    → length cs < 2 ^ 63
    → replay (suc (length cs)) s.log [] (pos 0) ≡ replayed s.offsets
replay-Holding s cs h f fits =
    replay-rest (suc (length cs)) s.log [] cs [] h.log f fits (omega arith)
    ∙ ap replayed (sym h.offsets)
