-- ===== src/Group/State.antt =====
-- internal/group/coordinator.go: the state of the groups. Timers and
-- channels belong to the run time: an operation answers what it asks of them as a list of effects, in
-- order. A channel is known by a number. The maps iterate in the order of insertion.
use gokaf.Base.{
  ℕ, List, [], ◌∷◌, ◌++◌, Option, none, some, ℤ, pos, ltb_ℤ, Bool, true, false, if◌then◌else◌,
  ℕ_discrete,
}
use gokaf.Base.Map.{lookup, insert}
use mathlib.Core.Logic.{ite}

abbrev pub Name : Type 0
Name = List ℕ

pub data GroupState : Type 0 where
  empty preparing_rebalance completing_rebalance stable : GroupState

pub record Protocol : Type 0 where
  pub name : Name
  pub metadata : List ℕ

pub record JoinRequest : Type 0 where
  pub group_id : Name
  pub client_id : Name
  pub session_timeout_ms : ℤ
  pub member_id : Name
  pub protocol_type : Name
  pub protocols : List Protocol

pub record JoinMember : Type 0 where
  pub id : Name
  pub metadata : List ℕ

pub record JoinResult : Type 0 where
  pub generation_id : ℤ
  pub protocol : Name
  pub leader_id : Name
  pub member_id : Name
  pub members : List JoinMember
  pub error_code : ℤ

pub record SyncRequest : Type 0 where
  pub group_id : Name
  pub generation_id : ℤ
  pub member_id : Name
  pub assignments : List (Name × List ℕ)

pub record SyncResult : Type 0 where
  pub assignment : List ℕ
  pub error_code : ℤ

-- `session_timer` is whether the member's timer is set.
pub record Member : Type 0 where
  pub id : Name
  pub protocol : Name
  pub metadata : List ℕ
  pub assignment : List ℕ
  pub session_timeout_ms : ℤ
  pub await_join : ℕ
  pub await_sync : ℕ
  pub session_timer : Bool

-- `join_timer` is whether the pointer is not nil.
pub record Group : Type 0 where
  pub id : Name
  pub state : GroupState
  pub generation_id : ℤ
  pub leader_id : Name
  pub protocol : Name
  pub members : List (Name × Member)
  pub join_order : List Name
  pub join_timer : Bool

pub record Coordinator : Type 0 where
  pub groups : List (Name × Group)
  pub next_member_seq : ℤ
  pub next_channel : ℕ

-- A send is one that gives up when the channel is full.
pub data Effect : Type 0 where
  join_timer_started join_timer_stopped : Name → Effect
  session_timer_started session_timer_reset : Name → Name → ℤ → Effect
  session_timer_stopped : Name → Effect
  join_sent : ℕ → JoinResult → Effect
  sync_sent : ℕ → SyncResult → Effect

-- The answer of `Sync`: at once, or what arrives on a channel.
pub data Answer : Type 0 where
  now : SyncResult → Answer
  await : ℕ → Answer

pub Name-discrete : Discrete Name
Name-discrete = hlevel ℕ_discrete

abbrev pub no_error : ℤ
no_error = pos 0

abbrev pub illegal_generation : ℤ
illegal_generation = pos 22

abbrev pub unknown_member_id : ℤ
unknown_member_id = pos 25

abbrev pub rebalance_in_progress : ℤ
rebalance_in_progress = pos 27

abbrev pub is_name : Name → Name → Bool
is_name a b = ite (Name-discrete a b) true false

-- `firstProtocolName` and `firstProtocolMetadata`.
abbrev pub first_protocol_name : List Protocol → Name
first_protocol_name [] = []
first_protocol_name (p ∷ ps) = p.name

abbrev pub first_protocol_metadata : List Protocol → List ℕ
first_protocol_metadata [] = []
first_protocol_metadata (p ∷ ps) = p.metadata

-- `stopSessionTimer`
unfoldable pub stop_session_timer : Member → Member × List Effect
stop_session_timer m =
    if m.session_timer
    then (record m { session_timer = false }, session_timer_stopped m.id ∷ [])
    else (m, [])

unfoldable pub touch : Name → Member → Member × List Effect
touch group m =
    let timeout = if ltb_ℤ m.session_timeout_ms (pos 100) then pos 100 else m.session_timeout_ms in
    if m.session_timer
    then (m, session_timer_reset group m.id timeout ∷ [])
    else (record m { session_timer = true }, session_timer_started group m.id timeout ∷ [])

unfoldable pub new_group : Name → Group
new_group id = record {
  id = id;
  state = empty;
  generation_id = pos 0;
  leader_id = [];
  protocol = [];
  members = [];
  join_order = [];
  join_timer = false;
}

-- `getOrCreateGroup`; that the new group is in the map shows once the operation stores it.
abbrev pub or_new_group : Name → Option Group → Group
or_new_group id none = new_group id
or_new_group id (some g) = g

unfoldable pub new_member : Name → Member
new_member id = record {
  id = id;
  protocol = [];
  metadata = [];
  assignment = [];
  session_timeout_ms = pos 0;
  await_join = 0;
  await_sync = 0;
  session_timer = false;
}

-- The member of a joining id, and the order of joining behind it: a new id goes to the end.
abbrev pub or_new_member : Name → Option Member → Member
or_new_member id none = new_member id
or_new_member id (some m) = m

abbrev pub joined_order : Name → Option Member → List Name → List Name
joined_order id none order = order ++ (id ∷ [])
joined_order id (some m) order = order

abbrev pub is_preparing : GroupState → Bool
is_preparing preparing_rebalance = true
is_preparing empty = false
is_preparing completing_rebalance = false
is_preparing stable = false

abbrev pub is_stable : GroupState → Bool
is_stable stable = true
is_stable empty = false
is_stable completing_rebalance = false
is_stable preparing_rebalance = false

abbrev pub put_group : Coordinator → Name → Group → Coordinator
put_group c id g = record c { groups = insert Name-discrete id g c.groups }

abbrev pub put_member : Group → Name → Member → Group
put_member g id m = record g { members = insert Name-discrete id m g.members }

unfoldable pub at_group {ℓ} :
    {A : Type ℓ}
    → Coordinator
    → Name
    → A
    → (Group → Group × List Effect × A)
    → Option Group
    → Coordinator × List Effect × A
at_group c id missing f none = (c, [], missing)
at_group c id missing f (some g) = let done = f g in (put_group c id done.0, done.1, done.2)

-- The state change of an operation on a group that may be missing.
unfoldable pub on_group {ℓ} :
    {A : Type ℓ}
    → Coordinator
    → Name
    → A
    → (Group → Group × List Effect × A)
    → Coordinator × List Effect × A
on_group c id missing f = at_group c id missing f (lookup Name-discrete id c.groups)
