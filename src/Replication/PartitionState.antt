-- ===== src/Replication/PartitionState.antt =====
-- internal/replication/partition_state.go: what a leader knows of its followers, the high
-- watermark, and the produce requests that wait for it. The clock is an argument. A waiter is
-- known by a number; closing its channel is modelled by handing the waiter out as released.
pub mod Watermark
pub mod Waiters
use gokaf.Base.{
  ℕ, ◌+◌, List, [], ◌∷◌, ◌++◌, Option, none, some, ℤ, pos, ltb_ℤ, leb_ℤ, eq_ℤ, Bool, true, false,
  not, ◌&&◌, ◌||◌, if◌then◌else◌, leb, ◌==◌, ℕ_discrete,
}
use gokaf.Base.Map.{lookup, insert}

pub record Waiter : Type 0 where
  pub id : ℕ
  pub target : ℤ

pub record PartitionState : Type 0 where
  pub replicas : List ℤ
  pub leader_id : ℤ
  pub follower_offset : List (ℤ × ℤ)
  pub follower_seen : List (ℤ × ℕ)
  pub leader_end_offset : ℤ
  pub high_watermark : ℤ
  pub lag_timeout : ℕ
  pub waiters : List Waiter

pub ℤ-discrete : Discrete ℤ
ℤ-discrete = hlevel ℕ_discrete

abbrev pub seen_in_time : Option ℕ → ℕ → ℕ → Bool
seen_in_time none now lag = false
seen_in_time (some seen) now lag = leb now (seen + lag)

unfoldable pub follower_in_isr : PartitionState → ℕ → ℤ → Bool
follower_in_isr s now broker =
    seen_in_time (lookup ℤ-discrete broker s.follower_seen) now s.lag_timeout

-- A missing key of a Go map reads as 0.
abbrev pub or_zero : Option ℤ → ℤ
or_zero none = pos 0
or_zero (some o) = o

unfoldable pub offset_of : PartitionState → ℤ → ℤ
offset_of s broker = or_zero (lookup ℤ-discrete broker s.follower_offset)

-- Whether the loops of `recompute` and `isr` reach their last lines for the replica.
unfoldable pub counts : PartitionState → ℕ → ℤ → Bool
counts s now broker = not (eq_ℤ broker s.leader_id) && follower_in_isr s now broker

unfoldable pub lower : PartitionState → ℕ → ℤ → ℤ → ℤ
lower s now next broker =
    if counts s now broker && ltb_ℤ (offset_of s broker) next then offset_of s broker else next

unfoldable pub lowest : PartitionState → ℕ → ℤ → List ℤ → ℤ
lowest s now next [] = next
lowest s now next (b ∷ bs) = lowest s now (lower s now next b) bs

-- The state with the new high watermark, and whether it changed.
unfoldable pub recompute : PartitionState → ℕ → PartitionState × Bool
recompute s now =
    let next = lowest s now s.leader_end_offset s.replicas in
    (record s { high_watermark = next }, not (eq_ℤ next s.high_watermark))

unfoldable pub kept : ℤ → List Waiter → List Waiter
kept hw [] = []
kept hw (w ∷ ws) = if leb_ℤ w.target hw then kept hw ws else w ∷ kept hw ws

unfoldable pub released : ℤ → List Waiter → List Waiter
released hw [] = []
released hw (w ∷ ws) = if leb_ℤ w.target hw then w ∷ released hw ws else released hw ws

-- The state with the waiters that remain, and those whose channel was closed.
unfoldable pub release_waiters : PartitionState → PartitionState × List Waiter
release_waiters s =
    (record s { waiters = kept s.high_watermark s.waiters }, released s.high_watermark s.waiters)

abbrev pub release_if : PartitionState × Bool → PartitionState × List Waiter
release_if (s, true) = release_waiters s
release_if (s, false) = (s, [])

-- `if s.recompute(now) { s.releaseWaiters() }`
unfoldable pub recompute_and_release : PartitionState → ℕ → PartitionState × List Waiter
recompute_and_release s now = release_if (recompute s now)

-- The loop of `NewPartitionState` over the replicas.
unfoldable pub enter_followers :
    ℕ → ℤ → List ℤ → List (ℤ × ℤ) × List (ℤ × ℕ) → List (ℤ × ℤ) × List (ℤ × ℕ)
enter_followers now leader [] maps = maps
enter_followers now leader (b ∷ bs) (offsets, seen) = enter_followers now leader bs (
    if eq_ℤ b leader
    then (offsets, seen)
    else (insert ℤ-discrete b (pos 0) offsets, insert ℤ-discrete b now seen))

unfoldable pub new_partition_state : List ℤ → ℤ → ℕ → ℕ → PartitionState
new_partition_state replicas leader lag_timeout now =
    let maps = enter_followers now leader replicas ([], []) in
    (recompute
      (record {
        replicas = replicas;
        leader_id = leader;
        follower_offset = maps.0;
        follower_seen = maps.1;
        leader_end_offset = pos 0;
        high_watermark = pos 0;
        lag_timeout = lag_timeout;
        waiters = [];
      })
      now).0

-- The clock is read twice: for the time of the fetch, and for `recompute`.
unfoldable pub record_follower_fetch :
    PartitionState → ℤ → ℤ → ℤ → ℕ → ℕ → PartitionState × List Waiter
record_follower_fetch s broker fetch_offset leader_end_offset seen now =
    recompute_and_release
      (record s {
        follower_offset = insert ℤ-discrete broker fetch_offset s.follower_offset;
        follower_seen = insert ℤ-discrete broker seen s.follower_seen;
        leader_end_offset = leader_end_offset;
      })
      now

-- `WaitForHighWatermark` up to its `select`: `true` if it returns at once, else the waiter parks.
abbrev pub park : Waiter → PartitionState × List Waiter → PartitionState × List Waiter × Bool
park w (s, out) =
    if leb_ℤ w.target s.high_watermark
    then (s, out, true)
    else (record s { waiters = s.waiters ++ (w ∷ []) }, out, false)

unfoldable pub begin_wait : PartitionState → Waiter → ℕ → PartitionState × List Waiter × Bool
begin_wait s w now =
    let end = if ltb_ℤ s.leader_end_offset w.target then w.target else s.leader_end_offset in
    park w (recompute_and_release (record s { leader_end_offset = end }) now)

unfoldable pub remove_waiter : ℕ → List Waiter → List Waiter
remove_waiter id [] = []
remove_waiter id (w ∷ ws) = if w.id == id then remove_waiter id ws else w ∷ remove_waiter id ws

-- The timer's case of the `select`.
unfoldable pub time_out : PartitionState → ℕ → PartitionState
time_out s id = record s { waiters = remove_waiter id s.waiters }

unfoldable pub high_watermark_at : PartitionState → ℤ → ℕ → PartitionState × List Waiter × ℤ
high_watermark_at s leader_end_offset now =
    let after = recompute_and_release (record s { leader_end_offset = leader_end_offset }) now in
    (after.0, after.1, after.0.high_watermark)

unfoldable pub in_sync : PartitionState → ℕ → List ℤ → List ℤ
in_sync s now [] = []
in_sync s now (b ∷ bs) = if counts s now b then b ∷ in_sync s now bs else in_sync s now bs

-- `ISR`: it recomputes the high watermark, and releases nobody.
unfoldable pub isr : PartitionState → ℕ → ℕ → PartitionState × List ℤ
isr s now later =
    let after = (recompute s now).0 in (after, after.leader_id ∷ in_sync after later after.replicas)
