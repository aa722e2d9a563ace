-- ===== src/Storage/Log/Invariant.antt =====
-- The log as one list of payloads: the segments hold consecutive parts of it.
pub mod Reads
use gokaf.Base.{
  ℕ, zero, suc, ◌+◌, ◌-◌, ◌^◌, ◌≤◌, ◌<◌, ◌≡◌, refl, sym, ap, ◌∙◌, List, [], ◌∷◌, ◌++◌, append-nil,
  append_assoc, ℤ, pos, ◌+ℤ◌, wrap64, ◌&&◌, true, false, Bool-cases, inl, inr, ltb, if◌then◌else◌,
  length, length-append, arith,
}
use mathlib.Core.Path.{subst}
use gokaf.Storage.Segment.{Segment, max_segment_bytes, create_segment, append_entry}
use gokaf.Storage.Segment.Entries.{entries, IsPayload}
use gokaf.Storage.Segment.Indexing.{Stores, create_segment-Stores, append_entry-Stores}
use gokaf.Storage.Log.{Log, segments, open_empty, roll, append_with_offset, append, end_offset}

abbrev pub join {ℓ} : {A : Type ℓ} → List (List A) → List A
join [] = []
join (xs ∷ xss) = xs ++ join xss

pub join-snoc {ℓ} :
    {A : Type ℓ} (xss : List (List A)) (xs : List A) → join (xss ++ (xs ∷ [])) ≡ join xss ++ xs
join-snoc [] xs = append-nil xs
join-snoc (ys ∷ xss) xs = rw (join-snoc xss xs, append_assoc ys (join xss) xs)

-- Segments that hold consecutive parts, the first of which starts at offset `b`.
abbrev pub StoreAll : ℕ → List Segment → List (List (List ℕ)) → Type 0
StoreAll b [] [] = Unit {0}
StoreAll b [] (ps ∷ parts) = ⊥
StoreAll b (s ∷ ss) [] = ⊥
StoreAll b (s ∷ ss) (ps ∷ parts) = Stores s b ps × StoreAll (b + length ps) ss parts

pub StoreAll-snoc :
    (b : ℕ) (ss : List Segment) (parts : List (List (List ℕ))) (s : Segment) (ps : List (List ℕ))
    → StoreAll b ss parts
    → Stores s (b + length (join parts)) ps
    → StoreAll b (ss ++ (s ∷ [])) (parts ++ (ps ∷ []))
StoreAll-snoc b [] [] s ps h st = (subst (λ k. Stores s k ps) (omega arith) st, tt)
StoreAll-snoc b [] (qs ∷ parts) s ps h st = elim h [ ]
StoreAll-snoc b (t ∷ ss) [] s ps h st = elim h [ ]
StoreAll-snoc b (t ∷ ss) (qs ∷ parts) s ps h st = (
  h.0,
  StoreAll-snoc (b + length qs) ss parts s ps h.1
      (subst (λ k. Stores s k ps) (omega (arith, length-append qs (join parts))) st),
)

-- The log holds exactly the payloads `ps`, with the offsets 0, 1, 2, …
pub record Holds (l : Log) (ps : List (List ℕ)) : Type 0 where
  pub parts : List (List (List ℕ))
  pub last : List (List ℕ)
  pub whole : ps ≡ join parts ++ last
  pub older : StoreAll 0 l.older parts
  pub active : Stores l.active (length (join parts)) last
  pub next : l.next_offset ≡ pos (length ps)

pub open_empty-Holds : Holds open_empty []
unfolding open_empty
open_empty-Holds = record {
  parts = [];
  last = [];
  whole = refl;
  older = tt;
  active = create_segment-Stores 0;
  next = refl;
}

-- Rolling changes nothing of the contents, and the active segment has not outgrown its limit.
roll-Holds : (l : Log) (ps : List (List ℕ)) (n : ℕ) → Holds l ps → Holds (roll l n) ps
unfolding roll
roll-Holds l ps n h =
    elim (Bool-cases (ltb 0 l.active.log_size && ltb max_segment_bytes (l.active.log_size + n))) [
      | inl p ↦ rw p (record {
        parts = h.parts ++ (h.last ∷ []);
        last = [];
        whole = h.whole ∙ sym (join-snoc h.parts h.last) ∙ sym (append-nil _);
        older =
            StoreAll-snoc 0 l.older h.parts l.active h.last h.older
              (subst (λ k. Stores l.active k h.last) (omega arith) h.active);
        active = rw h.next (
            subst (λ k. Stores (create_segment (pos (length ps))) k [])
              (ap length (h.whole ∙ sym (join-snoc h.parts h.last)))
              (create_segment-Stores (length ps)));
        next = h.next;
      })
      | inr p ↦ rw p h
    ]

roll-log_size : (l : Log) (n : ℕ) → (roll l n).active.log_size ≤ max_segment_bytes
unfolding roll create_segment
roll-log_size l n = ground arith

roll-next_offset : (l : Log) (n : ℕ) → (roll l n).next_offset ≡ l.next_offset
unfolding roll
roll-next_offset l n = ground arith

-- The callback rewrites the payload in place, so it keeps its length.
abbrev pub IsInPlace : (ℤ → List ℕ → List ℕ) → Type 0
IsInPlace stamp = (offset : ℤ) (p : List ℕ) → length (stamp offset p) ≡ length p

append_entry-at :
    (s : Segment) (b : ℕ) (ps : List (List ℕ)) (o : ℤ) (q q' : List ℕ)
    → Stores s b ps
    → o ≡ pos (b + length ps)
    → q ≡ q'
    → IsPayload q'
    → s.log_size ≤ max_segment_bytes
    → Stores (append_entry s o q) b (ps ++ (q' ∷ []))
append_entry-at s b ps o q q' st ho hq hp hs = rw (ho, hq) (append_entry-Stores s b ps q' st hp hs)

bump : (o : ℤ) (n : ℕ) → o ≡ pos n → suc n < 2 ^ 63 → wrap64 (o +ℤ pos 1) ≡ pos (n + 1)
bump o n e h = rw e (ground arith)

-- An append returns the number of payloads before it as the offset and adds the stamped payload
-- behind them, whatever segment it goes to, if the payload is shorter than 2^32 bytes, the
-- callback keeps its length, and the next offset still fits an int64.
pub append_with_offset-Holds :
    (l : Log) (ps : List (List ℕ)) (p : List ℕ) (stamp : ℤ → List ℕ → List ℕ)
    → Holds l ps
    → IsPayload p
    → IsInPlace stamp
    → suc (length ps) < 2 ^ 63
    → Holds (append_with_offset l p stamp).0 (ps ++ (stamp (pos (length ps)) p ∷ []))
      × ((append_with_offset l p stamp).1 ≡ pos (length ps))
unfolding append_with_offset
append_with_offset-Holds l ps p stamp h hp place fits = (
  record {
    parts = rolled.parts;
    last = rolled.last ++ (q ∷ []);
    whole =
        ap (λ t. t ++ (q ∷ [])) rolled.whole
        ∙ append_assoc (join rolled.parts) rolled.last (q ∷ []);
    older = rolled.older;
    active =
        append_entry-at _ _ rolled.last l.next_offset _ q rolled.active at
          (ap (λ o. stamp o p) h.next) (omega (arith, place (pos (length ps)) p))
          (roll-log_size l (12 + length p));
    next = bump l.next_offset (length ps) h.next fits ∙ ap pos (sym (length-append ps (q ∷ [])));
  },
  h.next,
)
  where
    q : List ℕ
    q = stamp (pos (length ps)) p

    rolled : Holds (roll l (12 + length p)) ps
    rolled = roll-Holds l ps (12 + length p) h

    at : l.next_offset ≡ pos (length (join rolled.parts) + length rolled.last)
    at = h.next ∙ ap pos (ap length rolled.whole ∙ length-append (join rolled.parts) rolled.last)

-- The same for a payload that is written as it is.
pub append-Holds :
    (l : Log) (ps : List (List ℕ)) (p : List ℕ)
    → Holds l ps
    → IsPayload p
    → suc (length ps) < 2 ^ 63
    → Holds (append l p).0 (ps ++ (p ∷ [])) × ((append l p).1 ≡ pos (length ps))
unfolding append
append-Holds l ps p h hp fits = append_with_offset-Holds l ps p (λ o q. q) h hp (λ o q. refl) fits
