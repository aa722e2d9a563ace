-- ===== src/Cluster/Liveness.antt =====
-- internal/cluster/liveness.go: which peers answer pings, and the controller. Whether a ping succeeds is
-- an argument; the callbacks are events.
pub mod Tracking
use gokaf.Base.{
  ℕ, suc, ◌+◌, List, [], ◌∷◌, ◌++◌, Option, none, some, ℤ, pos, negsuc, ltb_ℤ, eq_ℤ, leb, Bool,
  true, false, not, ◌&&◌, if◌then◌else◌, ℕ_discrete, ◌==◌,
}
use gokaf.Base.Map.{lookup, insert}
use gokaf.Cluster.Membership.{Broker, Membership}

pub record Monitor : Type 0 where
  pub self : ℤ
  pub membership : Membership
  pub fail_after : ℕ
  pub alive : List (ℤ × Bool)
  pub misses : List (ℤ × ℕ)

-- `onDown` and `onUp`.
pub data Event : Type 0 where
  down up : ℤ → Event

pub ℤ-discrete : Discrete ℤ
ℤ-discrete = hlevel ℕ_discrete

abbrev pub or_false : Option Bool → Bool
or_false none = false
or_false (some b) = b

abbrev pub or_zero : Option ℕ → ℕ
or_zero none = 0
or_zero (some n) = n

unfoldable pub mark_alive : List Broker → List (ℤ × Bool) → List (ℤ × Bool)
mark_alive [] alive = alive
mark_alive (b ∷ bs) alive = mark_alive bs (insert ℤ-discrete b.id true alive)

-- `NewLivenessMonitor`; the first argument is `failAfter`, which 1 replaces if it is not positive.
unfoldable pub new_monitor : ℕ → Membership → ℤ → Monitor
new_monitor fail_after m self = record {
  self = self;
  membership = m;
  fail_after = if fail_after == 0 then 1 else fail_after;
  alive = mark_alive m.brokers (insert ℤ-discrete self true []);
  misses = [];
}

unfoldable pub is_marked : Monitor → ℤ → Bool
is_marked lm id = or_false (lookup ℤ-discrete id lm.alive)

unfoldable pub misses_of : Monitor → ℤ → ℕ
misses_of lm id = or_zero (lookup ℤ-discrete id lm.misses)

-- `Alive`
unfoldable pub is_alive : Monitor → ℤ → Bool
is_alive lm id = if eq_ℤ id lm.self then true else is_marked lm id

-- The loop of `ControllerID`.
unfoldable pub highest_alive : Monitor → ℤ → List Broker → ℤ
highest_alive lm best [] = best
highest_alive lm best (b ∷ bs) =
    highest_alive lm (if is_marked lm b.id && ltb_ℤ best b.id then b.id else best) bs

unfoldable pub controller_id : Monitor → ℤ
controller_id lm = highest_alive lm (negsuc 0) lm.membership.brokers

unfoldable pub record_miss : Monitor → ℤ → Monitor × List Event
record_miss lm id =
    let count = suc (misses_of lm id) in
    let missed = record lm { misses = insert ℤ-discrete id count lm.misses } in
    if leb lm.fail_after count && is_marked lm id
    then (record missed { alive = insert ℤ-discrete id false lm.alive }, down id ∷ [])
    else (missed, [])

unfoldable pub record_success : Monitor → ℤ → Monitor × List Event
record_success lm id = (
  record lm {
    misses = insert ℤ-discrete id 0 lm.misses;
    alive = insert ℤ-discrete id true lm.alive;
  },
  if is_marked lm id then [] else up id ∷ [],
)

abbrev pub record_ping : Bool → Monitor → ℤ → Monitor × List Event
record_ping true lm id = record_success lm id
record_ping false lm id = record_miss lm id

-- The loop of `checkPeers`, where `ping` says which peers answer.
unfoldable pub check_brokers : (ℤ → Bool) → Monitor → List Broker → Monitor × List Event
check_brokers ping lm [] = (lm, [])
check_brokers ping lm (b ∷ bs) =
    let first = if eq_ℤ b.id lm.self then (lm, []) else record_ping (ping b.id) lm b.id in
    let rest = check_brokers ping first.0 bs in (rest.0, first.1 ++ rest.1)

unfoldable pub check_peers : (ℤ → Bool) → Monitor → Monitor × List Event
check_peers ping lm = check_brokers ping lm lm.membership.brokers
