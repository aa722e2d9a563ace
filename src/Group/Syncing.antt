-- ===== src/Group/Syncing.antt =====
-- internal/group/coordinator.go: the leader's assignments, and heartbeats.
use gokaf.Base.{ℕ, List, [], ◌∷◌, ◌++◌, Option, none, some, ℤ, eq_ℤ, not, if◌then◌else◌}
use gokaf.Base.Map.{lookup, insert}
use gokaf.Group.State.{
  Name, GroupState, empty, stable, SyncRequest, SyncResult, Member, Group, Coordinator, Effect,
  sync_sent, Answer, now, await, Name-discrete, no_error, illegal_generation, unknown_member_id,
  rebalance_in_progress, is_name, touch, is_preparing, is_stable, put_member, on_group,
}

unfoldable pub assign_to :
    Name → List ℕ → Option Member → List (Name × Member) → List (Name × Member)
assign_to id assignment none members = members
assign_to id assignment (some m) members =
    insert Name-discrete id (record m { assignment = assignment }) members

-- The leader's assignments, each for a member that is there.
unfoldable pub assign : List (Name × List ℕ) → List (Name × Member) → List (Name × Member)
assign [] members = members
assign ((id, assignment) ∷ rest) members =
    assign rest (assign_to id assignment (lookup Name-discrete id members) members)

-- `touch` of every member.
unfoldable pub touch_all : Name → List (Name × Member) → List (Name × Member) × List Effect
touch_all group [] = ([], [])
touch_all group ((id, m) ∷ ms) =
    let touched = touch group m in
    let rest = touch_all group ms in ((id, touched.0) ∷ rest.0, touched.1 ++ rest.1)

abbrev pub granted : Member → SyncResult
granted m = record { assignment = m.assignment; error_code = no_error }

abbrev pub refused : ℤ → Answer
refused code = now (record { assignment = []; error_code = code })

-- The assignments go out to all members but the leader.
unfoldable pub send_others : Name → List (Name × Member) → List Effect
send_others leader [] = []
send_others leader ((id, m) ∷ ms) =
    let rest = send_others leader ms in
    if is_name m.id leader then rest else sync_sent m.await_sync (granted m) ∷ rest

-- The member that `Sync` holds a pointer to, after the assignments.
abbrev pub answer_leader : Option Member → Answer
answer_leader none = refused unknown_member_id
answer_leader (some m) = now (granted m)

-- `Sync` by the leader.
unfoldable pub sync_leader : Group → SyncRequest → Group × List Effect × Answer
sync_leader g req =
    let touched = touch_all g.id (assign req.assignments g.members) in
    (
      record g { members = touched.0; state = stable },
      touched.1 ++ send_others req.member_id touched.0,
      answer_leader (lookup Name-discrete req.member_id touched.0),
    )

-- `Sync` by another member.
unfoldable pub sync_follower : Group → Member → SyncRequest → Group × List Effect × Answer
sync_follower g m req =
    let touched = touch g.id m in
    (
      put_member g req.member_id touched.0,
      touched.1,
      if is_stable g.state then now (granted m) else await m.await_sync,
    )

unfoldable pub sync_member : Group → Option Member → SyncRequest → Group × List Effect × Answer
sync_member g none req = (g, [], refused unknown_member_id)
sync_member g (some m) req =
    if not (eq_ℤ req.generation_id g.generation_id)
    then (g, [], refused illegal_generation)
    else (if is_name req.member_id g.leader_id then sync_leader g req else sync_follower g m req)

unfoldable pub sync_group : Group → SyncRequest → Group × List Effect × Answer
sync_group g req = sync_member g (lookup Name-discrete req.member_id g.members) req

unfoldable pub sync : Coordinator → SyncRequest → Coordinator × List Effect × Answer
sync c req = on_group c req.group_id (refused unknown_member_id) (λ g. sync_group g req)

abbrev pub state_of : Option Group → GroupState
state_of none = empty
state_of (some g) = g.state

-- `State`
unfoldable pub state : Coordinator → Name → GroupState
state c id = state_of (lookup Name-discrete id c.groups)

unfoldable pub heartbeat_group : Group → Name → ℤ → Option Member → Group × List Effect × ℤ
heartbeat_group g id generation none = (g, [], unknown_member_id)
heartbeat_group g id generation (some m) =
    if is_preparing g.state
    then (g, [], rebalance_in_progress)
    else (if not (eq_ℤ generation g.generation_id)
        then (g, [], illegal_generation)
        else (let touched = touch g.id m in (put_member g id touched.0, touched.1, no_error)))

unfoldable pub heartbeat : Coordinator → Name → ℤ → Name → Coordinator × List Effect × ℤ
heartbeat c group generation id =
    on_group c group unknown_member_id
      (λ g. heartbeat_group g id generation (lookup Name-discrete id g.members))
