-- ===== src/Producer/Sequence.antt =====
-- The decision on a batch, in terms of the sequence number that is expected next.
use gokaf.Base.{ℕ, ◌+◌, ◌-◌, ◌^◌, ◌<◌, ◌≡◌, ℤ, pos, ltb_ℤ, eq_ℤ, some, none, if◌then◌else◌, arith}
use gokaf.Producer.{
  append, duplicate, out_of_order, Check, check_of, SeqState, check_state, committed_state,
}

-- After a committed batch of `n` records from sequence `s` on, every batch that starts below the
-- next expected number is a duplicate and is answered with the offset of the committed one, the
-- expected batch is appended, and any other is out of order. The numbers fit an int32.
pub check_state-committed :
    (s n : ℕ) (offset b : ℤ)
    → 0 < n
    → s + n < 2 ^ 31
    → check_state (some (committed_state (pos s) (pos n) offset)) b ≡ (
        if ltb_ℤ b (pos (s + n))
        then record { decision = duplicate; cached_offset = offset }
        else (if eq_ℤ b (pos (s + n)) then check_of append else check_of out_of_order))
unfolding check_state committed_state
check_state-committed s n offset b hn fits = ground arith

-- Once the last sequence number is the largest int32, every batch with a sequence number of 0 or
-- more is taken for a duplicate, the one with number 0 that follows by the protocol included.
pub check_state-exhausted :
    (state : SeqState) (n : ℕ)
    → state.last_sequence ≡ pos (2 ^ 31 - 1)
    → n < 2 ^ 31
    → (check_state (some state) (pos n)).decision ≡ duplicate
unfolding check_state
check_state-exhausted state n h fits = rw h (ground arith)

pub check_state-fresh : (b : ℤ) → (check_state none b).decision ≡ append → b ≡ pos 0
unfolding check_state
check_state-fresh b h = ground arith

pub check_state-next :
    (s n : ℕ) (offset b : ℤ)
    → 0 < n
    → s + n < 2 ^ 31
    → (check_state (some (committed_state (pos s) (pos n) offset)) b).decision ≡ append
    → b ≡ pos (s + n)
check_state-next s n offset b hn fits h =
    split (rw (check_state-committed s n offset b hn fits) at h)
  where
    split :
        Check.decision (
            if ltb_ℤ b (pos (s + n))
            then record { decision = duplicate; cached_offset = offset }
            else (if eq_ℤ b (pos (s + n)) then check_of append else check_of out_of_order))
          ≡ append
        → b ≡ pos (s + n)
    split h' = ground arith
