-- ===== src/Network/Produce/Appending.antt =====
-- What producing a batch does to the logs of the broker.
use gokaf.Base.{
  ℕ, suc, ◌^◌, ◌≤◌, ◌<◌, ◌≡◌, ◌≢◌, refl, sym, ap, ◌∙◌, List, [], ◌∷◌, ◌++◌, some, ℤ, pos, negsuc,
  eq_ℤ, is_negative, Bool, true, false, Bool-cases, inl, inr, if◌then◌else◌, leb, leb→le, ltb,
  length, arith,
}
use gokaf.Base.Map.{lookup, lookup-insert_self, lookup-insert_ne}
use mathlib.Core.Path.{subst}
use gokaf.Protocol.Errors.{no_error}
use gokaf.Storage.Segment.Entries.{IsPayload}
use gokaf.Storage.Log.{Log, append_with_offset}
use gokaf.Storage.Log.Invariant.{Holds, IsInPlace, append_with_offset-Holds}
use gokaf.Storage.LogManager.{Name-discrete, log_at, put_log}
use gokaf.Storage.LogManager
use gokaf.Topic.Registry.{Partition}
use gokaf.Network.Handler.{Broker, Env, find_partition, open_log, store_log}
use gokaf.Network.Produce.{
  answer, valid_record_batch, stamp, pid_of, wait_for_all_acks, append_plain, produce_partition,
}
use gokaf.Network.Produce.Batches.{length-stamp}

-- The callback on batches that are long enough for it; it is not called on others.
abbrev stamp_long : ℤ → List ℕ → List ℕ
stamp_long o b = if leb 8 (length b) then stamp o b else b

stamp_long-IsInPlace : IsInPlace stamp_long
stamp_long-IsInPlace o b = elim (Bool-cases (leb 8 (length b))) [
  | inl p ↦ rw p (length-stamp o b (leb→le 8 (length b) p))
  | inr p ↦ rw p refl
]

long : (n : ℕ) → 8 ≤ n → leb 8 n ≡ true
long n h = ground arith

same_stamp : (o : ℤ) (batch : List ℕ) → 8 ≤ length batch → stamp_long o batch ≡ stamp o batch
same_stamp o batch size = rw (long (length batch) size) refl

same_append :
    (l : Log) (batch : List ℕ)
    → 8 ≤ length batch
    → append_with_offset l batch stamp_long ≡ append_with_offset l batch stamp
unfolding append_with_offset
same_append l batch size = rw (same_stamp l.next_offset batch size) refl

append_with_offset-stamp :
    (l : Log) (ps : List (List ℕ)) (batch : List ℕ)
    → Holds l ps
    → 8 ≤ length batch
    → IsPayload batch
    → suc (length ps) < 2 ^ 63
    → Holds (append_with_offset l batch stamp).0 (ps ++ (stamp (pos (length ps)) batch ∷ []))
      × ((append_with_offset l batch stamp).1 ≡ pos (length ps))
append_with_offset-stamp l ps batch h size small fits =
    subst
      (λ q.
        Holds (append_with_offset l batch stamp).0 (ps ++ (q ∷ []))
        × ((append_with_offset l batch stamp).1 ≡ pos (length ps)))
      (same_stamp (pos (length ps)) batch size)
      (subst
        (λ r. Holds r.0 (ps ++ (stamp_long (pos (length ps)) batch ∷ [])) × (r.1 ≡ pos (length ps)))
        (same_append l batch size)
        (append_with_offset-Holds l ps batch stamp_long h small stamp_long-IsInPlace fits))

-- The answer to a batch that was appended, and the logs afterwards: one has grown by a payload.
pub record Grown (b after : Broker) (dir : List ℕ) (ps : List (List ℕ)) : Type 0 where
  pub log : Log
  pub found : lookup Name-discrete dir (LogManager.Manager.logs after.logs) ≡ some log
  pub holds : Holds log ps
  pub others :
      (other : List ℕ)
      → dir ≢ other
      → lookup Name-discrete other (LogManager.Manager.logs after.logs)
        ≡ lookup Name-discrete other (LogManager.Manager.logs b.logs)

pub opened-same :
    (env : Env) (b : Broker) (topic : List ℕ) (index : ℤ) (l : Log)
    → lookup Name-discrete (env.log_key topic index) (LogManager.Manager.logs b.logs) ≡ some l
    → open_log env b topic index ≡ (b, some l)
unfolding open_log log_at
opened-same env b topic index l e = rw e refl

stored-Grown :
    (env : Env) (b : Broker) (topic : List ℕ) (index : ℤ) (l : Log) (ps : List (List ℕ))
    → Holds l ps
    → Grown b (store_log env b topic index l) (env.log_key topic index) ps
unfolding store_log put_log
stored-Grown env b topic index l ps h = record {
  log = l;
  found =
      lookup-insert_self Name-discrete (env.log_key topic index) l (LogManager.Manager.logs b.logs);
  holds = h;
  others = λ other ne.
      lookup-insert_ne Name-discrete (env.log_key topic index) other l
        (LogManager.Manager.logs b.logs) ne;
}

produced :
    (env : Env) (b : Broker) (topic : List ℕ) (index : ℤ) (batch : List ℕ) (acks timeout : ℤ)
    (p : Partition) (l : Log)
    → find_partition b topic index ≡ some p
    → eq_ℤ p.leader b.node_id ≡ true
    → valid_record_batch env.crc batch ≡ true
    → lookup Name-discrete (env.log_key topic index) (LogManager.Manager.logs b.logs) ≡ some l
    → is_negative (pid_of batch) ≡ true
    → eq_ℤ acks (negsuc 0) ≡ false
    → produce_partition env b topic index batch acks timeout ≡ (
      store_log env b topic index (append_with_offset l batch stamp).0,
      answer index no_error (append_with_offset l batch stamp).1,
    )
unfolding produce_partition append_plain wait_for_all_acks
produced env b topic index batch acks timeout p l found led valid opened plain acked =
    rw (found, led, valid, opened-same env b topic index l opened, plain, acked) refl

valid-long :
    (crc : List ℕ → ℕ) (batch : List ℕ) → valid_record_batch crc batch ≡ true → 61 ≤ length batch
unfolding valid_record_batch
valid-long crc batch h = elim (Bool-cases (ltb (length batch) 61)) [
  | inl p ↦ absurd (true-false (sym (rw p at h)))
  | inr p ↦ not_less (length batch) p
]
  where
    true-false : ¬ Path Bool true false
    true-false p = cc p

    not_less : (n : ℕ) → ltb n 61 ≡ false → 61 ≤ n
    not_less n q = ground arith

-- A batch without a producer's id, for a partition that the broker leads and whose log is open, that
-- passes the check and that needs no acknowledgement of the followers: it is answered with the number of
-- the payloads before it, the partition's log has it behind them with this number over its first bytes,
-- and no other log changes. The batch is shorter than 2^32 bytes, and the payloads fewer than 2^63.
pub produce_partition-Grown :
    (env : Env) (b : Broker) (topic : List ℕ) (index : ℤ) (batch : List ℕ) (acks timeout : ℤ)
    (p : Partition) (l : Log) (ps : List (List ℕ))
    → find_partition b topic index ≡ some p
    → eq_ℤ p.leader b.node_id ≡ true
    → valid_record_batch env.crc batch ≡ true
    → lookup Name-discrete (env.log_key topic index) (LogManager.Manager.logs b.logs) ≡ some l
    → is_negative (pid_of batch) ≡ true
    → eq_ℤ acks (negsuc 0) ≡ false
    → Holds l ps
    → IsPayload batch
    → suc (length ps) < 2 ^ 63
    → ((produce_partition env b topic index batch acks timeout).1
        ≡ answer index no_error (pos (length ps)))
      × Grown b
          (produce_partition env b topic index batch acks timeout).0
          (env.log_key topic index)
          (ps ++ (stamp (pos (length ps)) batch ∷ []))
produce_partition-Grown env b topic index batch acks timeout p l ps found led valid opened plain
      acked h small fits =
    let done =
      produced env b topic index batch acks timeout p l found led valid opened plain acked in
    let size = valid-long env.crc batch valid in
    let grown = append_with_offset-stamp l ps batch h (omega (arith, size)) small fits in
    (
      ap (λ r. r.1) done ∙ ap (answer index no_error) grown.1,
      subst
          (λ r. Grown b r.0 (env.log_key topic index) (ps ++ (stamp (pos (length ps)) batch ∷ [])))
          (sym done)
          (stored-Grown env b topic index (append_with_offset l batch stamp).0 _ grown.0),
    )
