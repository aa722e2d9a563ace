-- ===== src/Producer/ExactlyOnce.antt =====
-- Whatever a producer sends, in whatever order and however often: what is appended for a
-- partition is one run of sequence numbers without a gap or a repetition.
use gokaf.Base.{
  ℕ, ◌+◌, ◌^◌, ◌<◌, ◌≡◌, refl, sym, ap, ◌∙◌, ℤ, pos, ◌+ℤ◌, ◌<ℤ◌, Option, some, none, arith, List,
  [], ◌∷◌, ◌++◌, All, length,
}
use gokaf.Base.Map.{lookup, lookup-insert_self}
use gokaf.Producer.{
  Decision, append, duplicate, out_of_order, SeqKey, Manager, SeqKey-discrete, check_sequence,
  committed_state, committed, append_batch, new_manager,
}
use gokaf.Producer.Sequence.{check_state-fresh, check_state-next}

-- A batch as the producer numbers it: its first sequence number and its number of records.
pub record Batch : Type 0 where
  pub base_seq : ℤ
  pub record_count : ℕ

-- A log that takes every batch and answers the number of batches before it as the offset.
abbrev pub push : Batch → List Batch → List Batch × Option ℤ
push b log = (log ++ (b ∷ []), some (pos (length log)))

-- One producer sends batches for one partition; a batch is sent again as often as it likes.
pub send_all : SeqKey → List Batch → Manager × List Batch → Manager × List Batch
send_all key [] (m, log) = (m, log)
send_all key (b ∷ bs) (m, log) =
    let sent = append_batch m key b.base_seq (pos b.record_count) (push b) log in
    send_all key bs (sent.0, sent.1)

-- The batches follow one another from sequence number `n` on.
abbrev pub Contiguous : ℕ → List Batch → Type 0
Contiguous n [] = Unit {0}
Contiguous n (b ∷ bs) = (b.base_seq ≡ pos n) × Contiguous (n + b.record_count) bs

abbrev pub total : List Batch → ℕ
total [] = 0
total (b ∷ bs) = b.record_count + total bs

-- A batch has records, and its last sequence number is below the largest int32.
abbrev pub IsNumbered : Batch → Type 0
IsNumbered b = (0 < b.record_count) × (b.base_seq +ℤ pos b.record_count <ℤ pos (2 ^ 31))

-- The manager's state for the key is that of a run of `n` sequence numbers.
data Knows (m : Manager) (key : SeqKey) : ℕ → Type 0 where
  fresh : lookup SeqKey-discrete key m.seqs ≡ none → {t : ℕ} → t ≡ 0 → Knows m key t
  after :
      (s n : ℕ) (offset : ℤ)
      → 0 < n
      → s + n < 2 ^ 31
      → lookup SeqKey-discrete key m.seqs ≡ some (committed_state (pos s) (pos n) offset)
      → {t : ℕ} → t ≡ s + n
      → Knows m key t

expects :
    {m : Manager} {key : SeqKey} {t : ℕ} (b : ℤ)
    → Knows m key t
    → (check_sequence m key b).decision ≡ append
    → b ≡ pos t
unfolding check_sequence
expects b (fresh e h) d = check_state-fresh b (rw e at d) ∙ ap pos (sym h)
expects b (after s n offset hn fits e h) d =
    check_state-next s n offset b hn fits (rw e at d) ∙ ap pos (sym h)

committed-Knows :
    (m : Manager) (key : SeqKey) (base : ℤ) (s n : ℕ) (offset : ℤ)
    → 0 < n
    → s + n < 2 ^ 31
    → base ≡ pos s
    → {t : ℕ} → t ≡ s + n
    → Knows (committed m key base (pos n) offset) key t
unfolding committed
committed-Knows m key base s n offset hn fits e h =
    after s n offset hn fits (rw e (lookup-insert_self SeqKey-discrete key _ m.seqs)) h

Contiguous-snoc :
    (n : ℕ) (bs : List Batch) (b : Batch)
    → Contiguous n bs
    → b.base_seq ≡ pos (n + total bs)
    → Contiguous n (bs ++ (b ∷ []))
Contiguous-snoc n [] b h e = (e ∙ ap pos (omega arith), tt)
Contiguous-snoc n (c ∷ bs) b h e =
    (h.0, Contiguous-snoc (n + c.record_count) bs b h.1 (e ∙ ap pos (omega arith)))

total-snoc : (bs : List Batch) (b : Batch) → total (bs ++ (b ∷ [])) ≡ total bs + b.record_count
total-snoc [] b = omega arith
total-snoc (c ∷ bs) b = omega (arith, total-snoc bs b)

abbrev IsRun : SeqKey → Manager × List Batch → Type 0
IsRun key (m, log) = Contiguous 0 log × Knows m key (total log)

send-IsRun :
    (key : SeqKey) (b : Batch) (m : Manager) (log : List Batch)
    → IsNumbered b
    → IsRun key (m, log)
    → IsRun key (
      (append_batch m key b.base_seq (pos b.record_count) (push b) log).0,
      (append_batch m key b.base_seq (pos b.record_count) (push b) log).1,
    )
unfolding append_batch
send-IsRun key b m log hb h = go (check_sequence m key b.base_seq).decision refl
  where
    in_range : b.base_seq ≡ pos (total log) → total log + b.record_count < 2 ^ 31
    in_range next = below (rw next at hb.1)
      where
        below :
            pos (total log) +ℤ pos b.record_count <ℤ pos (2 ^ 31)
            → total log + b.record_count < 2 ^ 31
        below h' = ground arith

    go :
        (d : Decision)
        → (check_sequence m key b.base_seq).decision ≡ d
        → IsRun key (
          (append_batch m key b.base_seq (pos b.record_count) (push b) log).0,
          (append_batch m key b.base_seq (pos b.record_count) (push b) log).1,
        )
    go append e =
        let next : b.base_seq ≡ pos (total log) = expects b.base_seq h.1 e in
        rw e (
          Contiguous-snoc 0 log b h.0 (next ∙ ap pos (omega arith)),
          committed-Knows m key b.base_seq (total log) b.record_count (pos (length log)) hb.0
              (in_range next) next (total-snoc log b),
        )
    go duplicate e = rw e h
    go out_of_order e = rw e h

send_all-IsRun :
    (key : SeqKey) (bs : List Batch) (s : Manager × List Batch)
    → All IsNumbered bs
    → IsRun key s
    → IsRun key (send_all key bs s)
unfolding send_all
send_all-IsRun key [] s hb h = h
send_all-IsRun key (b ∷ bs) (m, log) hb h =
    send_all-IsRun key bs _ hb.1 (send-IsRun key b m log hb.0 h)

-- Whatever batches a producer sends for a partition, new or repeated, in any order: those that
-- reach the log are one run of sequence numbers from 0 on, without a gap and without a repetition,
-- if every batch has records and their numbers stay below the largest int32.
pub send_all-Contiguous :
    (key : SeqKey) (bs : List Batch)
    → All IsNumbered bs
    → Contiguous 0 (send_all key bs (new_manager, [])).1
send_all-Contiguous key bs hb =
    (send_all-IsRun key bs (new_manager, []) hb
      (tt, fresh (unfold new_manager lookup in refl) refl)).0
