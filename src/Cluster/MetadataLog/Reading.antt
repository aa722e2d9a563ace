-- ===== src/Cluster/MetadataLog/Reading.antt =====
-- What the metadata log reads is what was appended to it, whatever the segments are.
use gokaf.Base.{
  ℕ, zero, suc, ◌+◌, ◌^◌, ◌≤◌, ◌<◌, ◌≡◌, ◌≢◌, refl, sym, ap, ◌∙◌, List, [], ◌∷◌, ◌++◌, append_assoc,
  map, Option, some, ℤ, pos, negsuc, ◌+ℤ◌, wrap64, length, length-append, length-map, All, arith,
  Bool-cases, inl, inr, ltb,
}
use mathlib.Core.Option
use mathlib.Core.List.{map-append}
use mathlib.Core.Path.{subst}
use gokaf.Storage.Segment.{Record, records}
use gokaf.Storage.Segment.Reading.{records_from}
use gokaf.Storage.Segment.Indexing.{records_from-append}
use gokaf.Storage.Segment.Entries.{IsPayload}
use gokaf.Storage.Log.{Log}
use gokaf.Storage.Log.Invariant.{Holds, append-Holds}
use gokaf.Storage.Log.Invariant.Reads.{read-Holds}
use gokaf.Cluster.MetadataLog.{
  MetadataRecord, encode_metadata_record, append_record, next_behind, payloads_of, after_raw,
  read_raw_from, decode_all, read_from, replay_all,
}
use gokaf.Cluster.MetadataLog.RoundTrip.{
  FitsMetadata, decode_metadata_record-encode_metadata_record,
}

-- The records with these payloads, from an offset on.
abbrev pub numbered : ℕ → List (List ℕ) → List Record
numbered o [] = []
numbered o (p ∷ ps) = record { offset = pos o; payload = p } ∷ numbered (suc o) ps

pub records_from-numbered :
    (o b : ℕ) (ps : List (List ℕ)) → o ≤ b → records_from o b ps ≡ numbered b ps
records_from-numbered o b [] h = refl
records_from-numbered o b (p ∷ ps) h = elim (Bool-cases (ltb b o)) [
  | inl q ↦ absurd (ground arith)
  | inr q ↦ rw (q, records_from-numbered o (suc b) ps (omega arith)) refl
]

payloads_of-numbered : (o : ℕ) (ps : List (List ℕ)) → payloads_of (numbered o ps) ≡ ps
payloads_of-numbered o [] = refl
payloads_of-numbered o (p ∷ ps) = ap (◌∷◌ p) (payloads_of-numbered (suc o) ps)

next64 : (o : ℕ) → suc o < 2 ^ 63 → wrap64 (pos o +ℤ pos 1) ≡ pos (suc o)
next64 o h = ground arith

next_behind-numbered :
    (o : ℕ) (ps : List (List ℕ))
    → suc (o + length ps) ≤ 2 ^ 63
    → next_behind (pos o) (numbered o ps) ≡ pos (o + length ps)
next_behind-numbered o [] h = ap pos (omega arith)
next_behind-numbered o (p ∷ ps) h =
    ap (λ n. next_behind n (numbered (suc o) ps)) (next64 o (omega arith))
    ∙ next_behind-numbered (suc o) ps (omega arith)
    ∙ ap pos (omega arith)

cons-eq : {a b : Record} {xs ys : List Record} → a ≡ b → xs ≡ ys → a ∷ xs ≡ b ∷ ys
cons-eq p q = cc (p, q)

-- A front of the numbered records is the numbered records of a front of the payloads.
pub numbered-split :
    (o : ℕ) (ps : List (List ℕ)) (rs rest : List Record)
    → numbered o ps ≡ rs ++ rest
    → (c1 c2 : List (List ℕ)) × (ps ≡ c1 ++ c2) × (rs ≡ numbered o c1)
numbered-split o ps [] rest e = ([], ps, refl, refl)
numbered-split o [] (r ∷ rs) rest e = absurd (nil-cons e)
  where
    nil-cons : ¬ Path (List Record) [] (r ∷ (rs ++ rest))
    nil-cons p = cc p
numbered-split o (q ∷ ps) (r ∷ rs) rest e =
    let more = numbered-split (suc o) ps rs rest (tail-eq e) in
    (q ∷ more.0, more.1, ap (◌∷◌ q) more.2, cons-eq (sym (head-eq e)) more.3)
  where
    head-eq :
        Path (List Record) (numbered o (q ∷ ps)) (r ∷ (rs ++ rest))
        → record { offset = pos o; payload = q } ≡ r
    head-eq p = cc p

    tail-eq :
        Path (List Record) (numbered o (q ∷ ps)) (r ∷ (rs ++ rest))
        → numbered (suc o) ps ≡ rs ++ rest
    tail-eq p = cc p

-- One round: what was read stands before what the next rounds read; nothing is read only at the end.
raw-round :
    (o : ℕ) (c1 c2 : List (List ℕ)) (k : ℤ → Option (List (List ℕ)))
    → (0 < length (c1 ++ c2) → numbered o c1 ≢ [])
    → suc (o + length c1) ≤ 2 ^ 63
    → (0 < length c1 → k (pos (o + length c1)) ≡ some c2)
    → after_raw (records (numbered o c1)) (pos o) k ≡ some (c1 ++ c2)
raw-round o [] [] k reads fits go = refl
raw-round o [] (c ∷ c2) k reads fits go = absurd (reads (ground arith) refl)
raw-round o (c ∷ c1) c2 k reads fits go =
    rw (next_behind-numbered o (c ∷ c1) fits, go (ground arith))
      (ap (λ t. some (c ∷ (t ++ c2))) (payloads_of-numbered (suc o) c1))

-- The rounds of `ReadRawFrom` on a log of which a front was read.
pub raw-rest :
    (fuel : ℕ) (l : Log) (done todo : List (List ℕ))
    → Holds l (done ++ todo)
    → suc (length (done ++ todo)) ≤ 2 ^ 63
    → length todo < fuel
    → read_raw_from fuel l (pos (length done)) ≡ some todo
unfolding read_raw_from
raw-rest zero l done todo h fits enough = absurd (ground arith)
raw-rest (suc fuel) l done todo h fits enough =
    let got = read-Holds l (done ++ todo) (length done) (negsuc 0) h (omega arith) in
    let cut = numbered-split (length done) todo got.0 got.1 (sym from ∙ got.3) in
    rw (got.2, cut.3)
      (raw-round (length done) cut.0 cut.1 _
        (λ p e. got.4 (omega (arith, p, length-append done todo, ap length cut.2)) (cut.3 ∙ e))
        (omega (arith, fits, length-append done todo, ap length cut.2, length-append cut.0 cut.1))
        (λ p.
          ap (λ n. read_raw_from fuel l (pos n)) (sym (length-append done cut.0))
          ∙ raw-rest fuel l (done ++ cut.0) cut.1 (subst (Holds l) (regroup cut.0 cut.1 cut.2) h)
              (subst (λ t. suc (length t) ≤ 2 ^ 63) (regroup cut.0 cut.1 cut.2) fits)
              (omega (arith, p, enough, ap length cut.2, length-append cut.0 cut.1))))
    ∙ ap some (sym cut.2)
  where
    regroup : (c1 c2 : List (List ℕ)) → todo ≡ c1 ++ c2 → done ++ todo ≡ (done ++ c1) ++ c2
    regroup c1 c2 e = ap (λ t. done ++ t) e ∙ sym (append_assoc done c1 c2)

    from : records_from (length done) 0 (done ++ todo) ≡ numbered (length done) todo
    from =
        records_from-append (length done) 0 done todo (omega arith)
        ∙ ap (λ k. records_from (length done) k todo) (omega arith)
        ∙ records_from-numbered (length done) (length done) todo (omega arith)

decode_all-encoded :
    (rs : List MetadataRecord)
    → All FitsMetadata rs
    → decode_all (map encode_metadata_record rs) ≡ some rs
unfolding decode_all Option.bind
decode_all-encoded [] f = refl
decode_all-encoded (r ∷ rs) f =
    rw (decode_metadata_record-encode_metadata_record r f.0, decode_all-encoded rs f.1) refl

-- If a log holds the payloads `done` and then `todo`, fewer than 2^63, then `ReadRawFrom` at the offset
-- behind `done` answers `todo`, with a round for every payload of it and one more.
pub read_raw_from-Holds :
    (l : Log) (done todo : List (List ℕ))
    → Holds l (done ++ todo)
    → length (done ++ todo) < 2 ^ 63
    → read_raw_from (suc (length todo)) l (pos (length done)) ≡ some todo
read_raw_from-Holds l done todo h fits =
    raw-rest (suc (length todo)) l done todo h (omega (arith, fits)) (omega arith)

-- If a log holds the encodings of topic changes, fewer than 2^63, whose values fit their Go types and
-- whose partitions are only given for a change that writes them, then `ReplayAll`, with a round for
-- every change and one more, answers the changes in order.
pub replay_all-Holds :
    (l : Log) (rs : List MetadataRecord)
    → Holds l (map encode_metadata_record rs)
    → All FitsMetadata rs
    → length rs < 2 ^ 63
    → replay_all (suc (length rs)) l ≡ some rs
unfolding replay_all read_from Option.bind
replay_all-Holds l rs h f fits =
    ap (λ n. read_from (suc n) l (pos 0)) (sym (length-map encode_metadata_record rs))
    ∙ rw
        (read_raw_from-Holds l [] (map encode_metadata_record rs) h
          (omega (arith, fits, length-map encode_metadata_record rs)))
        (decode_all-encoded rs f)

-- `Append` of a topic change to a log that holds others keeps them and adds the change's encoding, at
-- the offset that is the number of the others.
pub append_record-Holds :
    (l : Log) (rs : List MetadataRecord) (r : MetadataRecord)
    → Holds l (map encode_metadata_record rs)
    → IsPayload (encode_metadata_record r)
    → suc (length rs) < 2 ^ 63
    → Holds (append_record l r).0 (map encode_metadata_record (rs ++ (r ∷ [])))
      × ((append_record l r).1 ≡ pos (length rs))
unfolding append_record
append_record-Holds l rs r h p fits =
    let done =
      append-Holds l (map encode_metadata_record rs) (encode_metadata_record r) h p
        (omega (arith, fits, length-map encode_metadata_record rs)) in
    (
      subst (Holds _) (sym (map-append encode_metadata_record rs (r ∷ []))) done.0,
      done.1 ∙ ap pos (length-map encode_metadata_record rs),
    )
