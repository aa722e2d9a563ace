-- ===== src/Replication/Fetcher/Splitting.antt =====
-- Splitting what a leader answers: batches whose length fields are right come apart as they were joined,
-- and the follower's log grows by them.
use gokaf.Base.{
  length-drop, le→ltb_false, ℕ, zero, suc, ◌+◌, ◌^◌, ◌≤◌, ◌<◌, ◌≡◌, refl, sym, ap, ◌∙◌, List, [],
  ◌∷◌, ◌++◌, append_assoc, append-nil, ltb, false, length, length-append, take, drop, take-append,
  drop-append, All, arith,
}
use mathlib.Core.Path.{subst}
use gokaf.Protocol.Bytes.{get_be}
use gokaf.Protocol.RecordBatch.{word_at}
use gokaf.Storage.Segment.Entries.{IsPayload}
use gokaf.Storage.Log.{Log, append}
use gokaf.Storage.Log.Invariant.{Holds, append-Holds}
use gokaf.Replication.Fetcher.{split_from, split_batches, append_all}

-- The length field in bytes 8 to 11 says how many bytes follow it.
pub record IsSized (b : List ℕ) : Type 0 where
  pub long : 12 ≤ length b
  pub total : 12 + word_at 8 4 b ≡ length b

abbrev pub joined : List (List ℕ) → List ℕ
joined [] = []
joined (b ∷ bs) = b ++ joined bs

-- A field that lies in the front part is read from it.
take-front : (n : ℕ) (xs ys : List ℕ) → n ≤ length xs → take n (xs ++ ys) ≡ take n xs
take-front zero xs ys h = refl
take-front (suc n) [] ys h = absurd (omega (arith, h))
take-front (suc n) (x ∷ xs) ys h = ap (◌∷◌ x) (take-front n xs ys (omega (arith, h)))

drop-front : (n : ℕ) (xs ys : List ℕ) → n ≤ length xs → drop n (xs ++ ys) ≡ drop n xs ++ ys
drop-front zero xs ys h = refl
drop-front (suc n) [] ys h = absurd (omega (arith, h))
drop-front (suc n) (x ∷ xs) ys h = drop-front n xs ys (omega (arith, h))

word_at-front :
    (at n : ℕ) (xs ys : List ℕ) → at + n ≤ length xs → word_at at n (xs ++ ys) ≡ word_at at n xs
word_at-front at n xs ys h = ap get_be (
    ap (take n) (drop-front at xs ys (omega (arith, h)))
    ∙ take-front n (drop at xs) ys (omega (arith, h, length-drop at xs (omega (arith, h)))))

-- One round on a batch whose length field is right.
split-round :
    (fuel : ℕ) (b rest : List ℕ)
    → IsSized b
    → split_from (suc fuel) (b ++ rest) ≡ b ∷ split_from fuel rest
unfolding split_from
split-round fuel b rest h =
    rw (total, long, fits, enough, take-append b rest, drop-append b rest) refl
  where
    total : 12 + word_at 8 4 (b ++ rest) ≡ length b
    total = ap (λ n. 12 + n) (word_at-front 8 4 b rest h.long) ∙ h.total

    whole : length (b ++ rest) ≡ length b + length rest
    whole = length-append b rest

    long : ltb (length (b ++ rest)) 12 ≡ false
    long = le→ltb_false _ 12 (omega (arith, whole, h.long))

    fits : ltb (length (b ++ rest)) (length b) ≡ false
    fits = le→ltb_false _ (length b) (omega (arith, whole))

    enough : ltb (length b) 12 ≡ false
    enough = le→ltb_false _ 12 h.long

split_from-nil : (fuel : ℕ) → split_from fuel [] ≡ []
unfolding split_from
split_from-nil zero = refl
split_from-nil (suc fuel) = refl

split_from-joined :
    (fuel : ℕ) (bs : List (List ℕ))
    → All IsSized bs
    → length (joined bs) ≤ fuel
    → split_from fuel (joined bs) ≡ bs
split_from-joined fuel [] h enough = split_from-nil fuel
split_from-joined zero (b ∷ bs) h enough =
    absurd (omega (arith, enough, length-append b (joined bs), IsSized.long h.0))
split_from-joined (suc fuel) (b ∷ bs) h enough =
    split-round fuel b (joined bs) h.0
    ∙ ap (◌∷◌ b) (
        split_from-joined fuel bs h.1
          (omega (arith, enough, length-append b (joined bs), IsSized.long h.0)))

-- `splitBatches` takes batches apart that stand one behind the other, whatever is in them, if each
-- has at least twelve bytes and its length field says how many bytes follow the field.
pub split_batches-joined : (bs : List (List ℕ)) → All IsSized bs → split_batches (joined bs) ≡ bs
unfolding split_batches
split_batches-joined bs h = split_from-joined (length (joined bs)) bs h (omega arith)

-- Appending payloads one by one to a log that holds others.
pub append_all-Holds :
    (l : Log) (ps bs : List (List ℕ))
    → Holds l ps
    → All IsPayload bs
    → length ps + length bs < 2 ^ 63
    → Holds (append_all l bs) (ps ++ bs)
unfolding append_all
append_all-Holds l ps [] h f fits = subst (Holds l) (sym (append-nil ps)) h
append_all-Holds l ps (b ∷ bs) h f fits = subst (Holds _) (append_assoc ps (b ∷ []) bs) (
    append_all-Holds (append l b).0 (ps ++ (b ∷ [])) bs
      (append-Holds l ps b h f.0 (omega (arith, fits))).0 f.1
      (omega (arith, fits, length-append ps (b ∷ []))))
