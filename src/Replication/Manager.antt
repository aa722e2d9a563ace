-- ===== src/Replication/Manager.antt =====
-- internal/replication/manager.go: which partitions a broker leads, and which it follows. A fetcher that
-- runs stands for the function that cancels it; the clock and the names of the logs are arguments.
pub mod Roles
pub mod Plans
pub mod Interleaving
use gokaf.Base.{
  ℕ, List, [], ◌∷◌, ◌++◌, Option, none, some, ℤ, pos, eq_ℤ, ltb_ℤ, Bool, true, false, not, ◌||◌,
  if◌then◌else◌, ℕ_discrete,
}
use gokaf.Base.Map.{lookup, insert, remove}
use gokaf.Storage.Log.{Log}
use gokaf.Storage.LogManager.{log_at}
use gokaf.Topic.Registry.{Partition, Topic}
use gokaf.Cluster.Membership.{Broker, Membership, get}
use gokaf.Replication.Fetcher.{Fetcher}
use gokaf.Replication.PartitionState.{
  PartitionState, Waiter, new_partition_state, record_follower_fetch, high_watermark_at, isr,
  begin_wait, time_out,
}
use gokaf.Storage.LogManager

pub record Tp : Type 0 where
  pub topic : List ℕ
  pub partition : ℤ

pub Tp-discrete : Discrete Tp
Tp-discrete = hlevel ℕ_discrete

pub record Manager : Type 0 where
  pub self_id : ℤ
  pub membership : Membership
  pub lag_timeout : ℕ
  pub fetchers : List (Tp × Fetcher)
  pub led : List (Tp × PartitionState)

-- `NewManager`: a follower that is silent for ten seconds leaves the replicas in sync.
unfoldable pub new_manager : ℤ → Membership → Manager
new_manager self_id membership = record {
  self_id = self_id;
  membership = membership;
  lag_timeout = 10000000000;
  fetchers = [];
  led = [];
}

unfoldable pub contains_broker : List ℤ → ℤ → Bool
contains_broker [] want = false
contains_broker (id ∷ ids) want = eq_ℤ id want || contains_broker ids want

unfoldable pub stop_following_key : Manager → Tp → Manager
stop_following_key m key = record m { fetchers = remove Tp-discrete key m.fetchers }

unfoldable pub stop_following : Manager → List ℕ → ℤ → Manager
stop_following m topic partition =
    stop_following_key m (record { topic = topic; partition = partition })

unfoldable pub stop_all : Manager → Manager
stop_all m = record m { fetchers = [] }

-- A new state, if the broker does not lead the partition yet.
abbrev pub lead_new : Manager → Tp → List ℤ → ℕ → Option PartitionState → Manager
lead_new m key replicas now none = record m {
  led = insert Tp-discrete key (new_partition_state replicas m.self_id m.lag_timeout now) m.led;
}
lead_new m key replicas now (some s) = m

-- The fetcher of `StartFollowing`, which reads at most a mebibyte at once.
unfoldable pub fetcher_of : Manager → Tp → Broker → Fetcher
fetcher_of m key leader = record {
  topic = key.topic;
  partition = key.partition;
  self_id = m.self_id;
  leader = leader;
  max_bytes = pos 1048576;
}

abbrev pub start_fetcher : Manager → Tp → Broker → Option Fetcher → Manager
start_fetcher m key leader none = record m {
  led = remove Tp-discrete key m.led;
  fetchers = insert Tp-discrete key (fetcher_of m key leader) m.fetchers;
}
start_fetcher m key leader (some f) = m

-- What a call does to the maps while it holds the mutex once: `stopFollowingKey`, `StopAll`, the entry of
-- a state for a partition that is led, and the entry of a fetcher. Between two of them the mutex is free.
pub data Section : Type 0 where
  stop : Tp → Section
  stop_each : Section
  take_lead : Tp → List ℤ → ℕ → Section
  start_fetch : Tp → Broker → Section

unfoldable pub run_section : Manager → Section → Manager
run_section m (stop key) = stop_following_key m key
run_section m stop_each = stop_all m
run_section m (take_lead key replicas now) =
    lead_new m key replicas now (lookup Tp-discrete key m.led)
run_section m (start_fetch key leader) =
    start_fetcher m key leader (lookup Tp-discrete key m.fetchers)

unfoldable pub run_sections : Manager → List Section → Manager
run_sections m [] = m
run_sections m (s ∷ ss) = run_sections (run_section m s) ss

unfoldable pub lead_sections : Tp → List ℤ → ℕ → List Section
lead_sections key replicas now = stop key ∷ take_lead key replicas now ∷ []

-- `Lead`, with nothing between its sections.
unfoldable pub lead : Manager → List ℕ → ℤ → List ℤ → ℕ → Manager
lead m topic partition isr now =
    run_sections m (lead_sections (record { topic = topic; partition = partition }) isr now)

abbrev pub or_replicas : List ℤ → List ℤ → List ℤ
or_replicas [] replicas = replicas
or_replicas (id ∷ isr) replicas = id ∷ isr

abbrev pub opened_sections :
    Tp → Broker → LogManager.Manager × Option Log → List Section × LogManager.Manager
opened_sections key leader (logs, none) = ([], logs)
opened_sections key leader (logs, some l) = (start_fetch key leader ∷ [], logs)

abbrev pub leader_sections :
    LogManager.Manager → Tp → List ℕ → Option Broker → List Section × LogManager.Manager
leader_sections logs key dir none = ([], logs)
leader_sections logs key dir (some leader) = opened_sections key leader (log_at logs dir)

-- The sections of a round of the loop of `StartFollowing`, for the broker of the number and the
-- membership. The first argument names the directory of a log.
unfoldable pub partition_sections :
    (List ℕ → ℤ → List ℕ)
    → ℕ
    → ℤ
    → Membership
    → LogManager.Manager
    → List ℕ
    → Partition
    → List Section × LogManager.Manager
partition_sections log_key now self_id members logs topic p =
    let key : Tp = record { topic = topic; partition = p.id } in
    if not (contains_broker p.replicas self_id)
    then ([], logs)
    else (if eq_ℤ p.leader self_id
        then (lead_sections key (or_replicas p.isr p.replicas) now, logs)
        else leader_sections logs key (log_key topic p.id) (get members p.leader))

unfoldable pub follow_sections :
    (List ℕ → ℤ → List ℕ)
    → ℕ
    → ℤ
    → Membership
    → LogManager.Manager
    → List ℕ
    → List Partition
    → List Section × LogManager.Manager
follow_sections log_key now self_id members logs topic [] = ([], logs)
follow_sections log_key now self_id members logs topic (p ∷ ps) =
    let first = partition_sections log_key now self_id members logs topic p in
    let rest = follow_sections log_key now self_id members first.1 topic ps in
    (first.0 ++ rest.0, rest.1)

-- `StartFollowing`, with nothing between its sections.
unfoldable pub start_following :
    (List ℕ → ℤ → List ℕ) → ℕ → Manager → LogManager.Manager → Topic → Manager × LogManager.Manager
start_following log_key now m logs t =
    let plan = follow_sections log_key now m.self_id m.membership logs t.name t.partitions in
    (run_sections m plan.0, plan.1)

unfoldable pub partition_state : Manager → List ℕ → ℤ → Option PartitionState
partition_state m topic partition =
    lookup Tp-discrete (record { topic = topic; partition = partition }) m.led

abbrev pub put_state : Manager → List ℕ → ℤ → PartitionState → Manager
put_state m topic partition s = record m {
  led = insert Tp-discrete (record { topic = topic; partition = partition }) s m.led;
}

-- The new manager, and the waiters whose channels were closed.
abbrev pub fetch_recorded :
    Manager → List ℕ → ℤ → Option PartitionState → ℤ → ℤ → ℤ → ℕ → Manager × List Waiter
fetch_recorded m topic partition none broker offset end now = (m, [])
fetch_recorded m topic partition (some s) broker offset end now =
    let after = record_follower_fetch s broker offset end now now in
    (put_state m topic partition after.0, after.1)

-- `RecordFollowerFetch`
unfoldable pub record_fetch : Manager → List ℕ → ℤ → ℤ → ℤ → ℤ → ℕ → Manager × List Waiter
record_fetch m topic partition broker offset end now =
    fetch_recorded m topic partition (partition_state m topic partition) broker offset end now

abbrev pub watermark_of :
    Manager → List ℕ → ℤ → Option PartitionState → ℤ → ℕ → Manager × List Waiter × ℤ
watermark_of m topic partition none end now = (m, [], end)
watermark_of m topic partition (some s) end now =
    let after = high_watermark_at s end now in
    (put_state m topic partition after.0, after.1, after.2)

-- `HighWatermark`
unfoldable pub high_watermark : Manager → List ℕ → ℤ → ℤ → ℕ → Manager × List Waiter × ℤ
high_watermark m topic partition end now =
    watermark_of m topic partition (partition_state m topic partition) end now

abbrev pub isr_of : Manager → List ℕ → ℤ → Option PartitionState → ℕ → Manager × List ℤ
isr_of m topic partition none now = (m, [])
isr_of m topic partition (some s) now =
    let after = isr s now now in (put_state m topic partition after.0, after.1)

-- `ISR`
unfoldable pub in_sync_replicas : Manager → List ℕ → ℤ → ℕ → Manager × List ℤ
in_sync_replicas m topic partition now =
    isr_of m topic partition (partition_state m topic partition) now

-- `WaitForHighWatermark` up to the wait: `true` if it returns at once.
abbrev pub wait_of :
    Manager → List ℕ → ℤ → Option PartitionState → Waiter → ℕ → Manager × List Waiter × Bool
wait_of m topic partition none w now = (m, [], true)
wait_of m topic partition (some s) w now =
    let after = begin_wait s w now in (put_state m topic partition after.0, after.1, after.2)

unfoldable pub wait_for_high_watermark :
    Manager → List ℕ → ℤ → Waiter → ℕ → Manager × List Waiter × Bool
wait_for_high_watermark m topic partition w now =
    wait_of m topic partition (partition_state m topic partition) w now

-- What the wait is limited to, in nanoseconds: 30 seconds, if the caller gives no positive time.
unfoldable pub wait_limit : ℤ → ℤ
wait_limit timeout = if ltb_ℤ (pos 0) timeout then timeout else pos 30000000000

abbrev pub timed_out_of : Manager → List ℕ → ℤ → Option PartitionState → ℕ → Manager
timed_out_of m topic partition none waiter = m
timed_out_of m topic partition (some s) waiter = put_state m topic partition (time_out s waiter)

-- The wait ends by its timer.
unfoldable pub wait_timed_out : Manager → List ℕ → ℤ → ℕ → Manager
wait_timed_out m topic partition waiter =
    timed_out_of m topic partition (partition_state m topic partition) waiter
