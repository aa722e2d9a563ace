-- ===== src/Replication/PartitionState/Waiters.antt =====
-- Who waits for the high watermark, and who is let go.
use mathlib.Core.Path.{subst}
use mathlib.Core.List.{Memᴰ}
use gokaf.Base.{
  ℕ, ◌≡◌, ◌≢◌, ◌⊎◌, refl, sym, ap, some, inl, inr, List, [], ◌∷◌, ℤ, ◌≤ℤ◌, ◌<ℤ◌, leb_ℤ, eq_ℤ,
  eq_ℤ_iff, true, Bool-cases, All, All-append, ◌==◌, arith,
}
use gokaf.Base.Map.{lookup, insert, lookup-insert_self, lookup-insert_ne}
use gokaf.Replication.PartitionState.Watermark.{IsReached, IsOffsetOf, recompute-IsLowest}
use gokaf.Replication.PartitionState.{
  ℤ-discrete, or_zero, PartitionState, Waiter, lower, lowest, counts, offset_of, follower_in_isr,
  recompute, kept, released, release_waiters, recompute_and_release, record_follower_fetch, park,
  begin_wait, remove_waiter, time_out, high_watermark_at, isr,
}

-- Nobody waits for an offset that the high watermark has reached.
abbrev pub AllWait : ℤ → List Waiter → Type 0
AllWait hw = All (λ w. hw <ℤ w.target)

abbrev pub NobodyLeft : PartitionState → Type 0
NobodyLeft s = AllWait s.high_watermark s.waiters

kept-AllWait : (hw : ℤ) (ws : List Waiter) → AllWait hw (kept hw ws)
unfolding kept
kept-AllWait hw [] = tt
kept-AllWait hw (w ∷ ws) = elim (Bool-cases (leb_ℤ w.target hw)) [
  | inl p ↦ rw p (kept-AllWait hw ws)
  | inr p ↦ rw p (ground arith, kept-AllWait hw ws)
]

same-AllWait : (hw hw' : ℤ) (ws : List Waiter) → eq_ℤ hw' hw ≡ true → AllWait hw ws → AllWait hw' ws
same-AllWait hw hw' ws p h = subst (λ k. AllWait k ws) (sym ((eq_ℤ_iff hw' hw).0 p)) h

recompute_and_release-NobodyLeft :
    (s : PartitionState) (now : ℕ) → NobodyLeft s → NobodyLeft (recompute_and_release s now).0
unfolding recompute_and_release recompute release_waiters
recompute_and_release-NobodyLeft s now h =
    elim (Bool-cases (eq_ℤ (lowest s now s.leader_end_offset s.replicas) s.high_watermark)) [
      | inl p ↦ rw p (
          same-AllWait s.high_watermark (lowest s now s.leader_end_offset s.replicas) s.waiters p h)
      | inr p ↦ rw p (kept-AllWait (lowest s now s.leader_end_offset s.replicas) s.waiters)
    ]

park-NobodyLeft :
    (w : Waiter) (s : PartitionState) (out : List Waiter)
    → NobodyLeft s
    → NobodyLeft (park w (s, out)).0
park-NobodyLeft w s out h = elim (Bool-cases (leb_ℤ w.target s.high_watermark)) [
  | inl p ↦ rw p h
  | inr p ↦ rw p (All-append _ s.waiters (w ∷ []) h (ground arith, tt))
]

-- If every parked request waits for an offset above the high watermark, the same holds after another
-- request begins to wait: it parks only if its offset is above the high watermark.
pub begin_wait-NobodyLeft :
    (s : PartitionState) (w : Waiter) (now : ℕ) → NobodyLeft s → NobodyLeft (begin_wait s w now).0
unfolding begin_wait
begin_wait-NobodyLeft s w now h =
    park-NobodyLeft w _ _
      (recompute_and_release-NobodyLeft (record s { leader_end_offset = _ }) now h)

remove_waiter-AllWait :
    (hw : ℤ) (id : ℕ) (ws : List Waiter) → AllWait hw ws → AllWait hw (remove_waiter id ws)
unfolding remove_waiter
remove_waiter-AllWait hw id [] h = tt
remove_waiter-AllWait hw id (w ∷ ws) h = elim (Bool-cases (w.id == id)) [
  | inl p ↦ rw p (remove_waiter-AllWait hw id ws h.1)
  | inr p ↦ rw p (h.0, remove_waiter-AllWait hw id ws h.1)
]

pub time_out-NobodyLeft : (s : PartitionState) (id : ℕ) → NobodyLeft s → NobodyLeft (time_out s id)
unfolding time_out
time_out-NobodyLeft s id h = remove_waiter-AllWait s.high_watermark id s.waiters h

pub high_watermark_at-NobodyLeft :
    (s : PartitionState) (end : ℤ) (now : ℕ)
    → NobodyLeft s
    → NobodyLeft (high_watermark_at s end now).0
unfolding high_watermark_at
high_watermark_at-NobodyLeft s end now h =
    recompute_and_release-NobodyLeft (record s { leader_end_offset = _ }) now h

-- Every waiter of the list waits for an offset that the high watermark has reached.
abbrev pub Reached : ℤ → List Waiter → Type 0
Reached hw = All (λ w. w.target ≤ℤ hw)

released-Reached : (hw : ℤ) (ws : List Waiter) → Reached hw (released hw ws)
unfolding released
released-Reached hw [] = tt
released-Reached hw (w ∷ ws) = elim (Bool-cases (leb_ℤ w.target hw)) [
  | inl p ↦ rw p (ground arith, released-Reached hw ws)
  | inr p ↦ rw p (released-Reached hw ws)
]

-- Only requests whose offset the new high watermark has reached are released.
pub recompute_and_release-Reached :
    (s : PartitionState) (now : ℕ)
    → Reached (recompute_and_release s now).0.high_watermark (recompute_and_release s now).1
unfolding recompute_and_release recompute release_waiters
recompute_and_release-Reached s now =
    elim (Bool-cases (eq_ℤ (lowest s now s.leader_end_offset s.replicas) s.high_watermark)) [
      | inl p ↦ rw p tt
      | inr p ↦ rw p (released-Reached (lowest s now s.leader_end_offset s.replicas) s.waiters)
    ]

parted :
    (hw : ℤ) (w : Waiter) (ws : List Waiter)
    → Memᴰ w ws
    → Memᴰ w (released hw ws) ⊎ Memᴰ w (kept hw ws)
unfolding released kept
parted hw w [] m = inl m
parted hw w (v ∷ ws) (Memᴰ.head e) = elim (Bool-cases (leb_ℤ v.target hw)) [
  | inl p ↦ rw p (inl (Memᴰ.head e))
  | inr p ↦ rw p (inr (Memᴰ.head e))
]
parted hw w (v ∷ ws) (Memᴰ.tail m) = elim (Bool-cases (leb_ℤ v.target hw)) [
  | inl p ↦ rw p (elim (parted hw w ws m) [ inl a ↦ inl (Memᴰ.tail a) | inr b ↦ inr b ])
  | inr p ↦ rw p (elim (parted hw w ws m) [ inl a ↦ inl a | inr b ↦ inr (Memᴰ.tail b) ])
]

-- What a state and the released waiters are, of a state `s` whose watermark was computed anew: the
-- watermark is the lowest of the leader's end offset and the in-sync followers' offsets, each parked
-- request was released if this reached its offset and waits on if not, and the rest is as in `s`.
pub record IsReleased (s : PartitionState) (now : ℕ) (t : PartitionState) (out : List Waiter)
    : Type 0 where
  pub below_end : t.high_watermark ≤ℤ s.leader_end_offset
  pub below_all : IsReached s now t.high_watermark s.replicas
  pub one_of :
      (t.high_watermark ≡ s.leader_end_offset) ⊎ IsOffsetOf s now t.high_watermark s.replicas
  pub reached : Reached t.high_watermark out
  pub waiting : AllWait t.high_watermark t.waiters
  pub nobody_lost : (w : Waiter) → Memᴰ w s.waiters → Memᴰ w out ⊎ Memᴰ w t.waiters
  pub offsets : t.follower_offset ≡ s.follower_offset
  pub seen : t.follower_seen ≡ s.follower_seen
  pub end : t.leader_end_offset ≡ s.leader_end_offset

recompute_and_release-IsReleased :
    (s : PartitionState) (now : ℕ)
    → NobodyLeft s
    → IsReleased s now (recompute_and_release s now).0 (recompute_and_release s now).1
unfolding recompute_and_release recompute release_waiters
recompute_and_release-IsReleased s now h =
    let hw = lowest s now s.leader_end_offset s.replicas in
    let low = recompute-IsLowest s now in
    elim (Bool-cases (eq_ℤ hw s.high_watermark)) [
      | inl p ↦ rw p (record {
        below_end = low.0;
        below_all = low.1;
        one_of = low.2;
        reached = tt;
        waiting = same-AllWait s.high_watermark hw s.waiters p h;
        nobody_lost = λ w m. inr m;
        offsets = refl;
        seen = refl;
        end = refl;
      })
      | inr p ↦ rw p (record {
        below_end = low.0;
        below_all = low.1;
        one_of = low.2;
        reached = released-Reached hw s.waiters;
        waiting = kept-AllWait hw s.waiters;
        nobody_lost = λ w m. parted hw w s.waiters m;
        offsets = refl;
        seen = refl;
        end = refl;
      })
    ]

-- A state that is `s` but for the end offset of the leader and for the offset and the time of one follower.
pub record IsFetched (s : PartitionState) (broker offset end : ℤ) (seen : ℕ) (t : PartitionState)
    : Type 0 where
  pub waiters : t.waiters ≡ s.waiters
  pub replicas : t.replicas ≡ s.replicas
  pub leader : t.leader_id ≡ s.leader_id
  pub lag : t.lag_timeout ≡ s.lag_timeout
  pub end_offset : t.leader_end_offset ≡ end
  pub its_offset : offset_of t broker ≡ offset
  pub its_time : lookup ℤ-discrete broker t.follower_seen ≡ some seen
  pub offsets : (other : ℤ) → broker ≢ other → offset_of t other ≡ offset_of s other
  pub times :
      (other : ℤ)
      → broker ≢ other
      → lookup ℤ-discrete other t.follower_seen ≡ lookup ℤ-discrete other s.follower_seen

-- If every parked request waits for an offset above the high watermark, then a follower's fetch is
-- recorded so: the follower's offset and time and the leader's end offset are those of the fetch, and the
-- other followers' as they were; with these, the high watermark is the lowest of the end offset and the
-- in-sync followers' offsets; every parked request whose offset it has reached was released, and every
-- other still waits, for an offset above it.
pub record_follower_fetch-NobodyLeft :
    (s : PartitionState) (broker fetch_offset end : ℤ) (seen now : ℕ)
    → NobodyLeft s
    → let after = record_follower_fetch s broker fetch_offset end seen now in
      (fetched : PartitionState) × IsFetched s broker fetch_offset end seen fetched
      × IsReleased fetched now after.0 after.1
unfolding record_follower_fetch offset_of
record_follower_fetch-NobodyLeft s broker fetch_offset end seen now h =
    let fetched : PartitionState = record s {
      follower_offset = insert ℤ-discrete broker fetch_offset s.follower_offset;
      follower_seen = insert ℤ-discrete broker seen s.follower_seen;
      leader_end_offset = end;
    } in
    (
      fetched,
      record {
        waiters = refl;
        replicas = refl;
        leader = refl;
        lag = refl;
        end_offset = refl;
        its_offset =
            ap or_zero (lookup-insert_self ℤ-discrete broker fetch_offset s.follower_offset);
        its_time = lookup-insert_self ℤ-discrete broker seen s.follower_seen;
        offsets = λ b n.
            ap or_zero (lookup-insert_ne ℤ-discrete broker b fetch_offset s.follower_offset n);
        times = λ b n. lookup-insert_ne ℤ-discrete broker b seen s.follower_seen n;
      },
      recompute_and_release-IsReleased fetched now h,
    )

lowest-same :
    (s : PartitionState) (now : ℕ) (hw next : ℤ) (bs : List ℤ)
    → lowest (record s { high_watermark = hw }) now next bs ≡ lowest s now next bs
unfolding lowest lower counts offset_of follower_in_isr
lowest-same s now hw next [] = refl
lowest-same s now hw next (b ∷ bs) = lowest-same s now hw (lower s now next b) bs

-- After `ISR`, `HighWatermark` at the same time and end offset releases nobody, whatever the requests
-- wait for: the parked requests are those from before.
pub isr-high_watermark_at :
    (s : PartitionState) (now later : ℕ)
    → (high_watermark_at (isr s now later).0 s.leader_end_offset now).0.waiters ≡ s.waiters
unfolding high_watermark_at isr recompute_and_release recompute
isr-high_watermark_at s now later =
    rw
      (lowest-same s now (lowest s now s.leader_end_offset s.replicas) s.leader_end_offset
        s.replicas)
      rw ((eq_ℤ_iff (lowest s now s.leader_end_offset s.replicas) _).1 refl) refl
