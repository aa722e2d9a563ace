-- ===== src/Group/Leaving.antt =====
-- internal/group/coordinator.go: leaving a group. A session timer that goes
-- off is the operation `expire_member`, which may run in any state.
use gokaf.Base.{List, [], ◌∷◌, ◌++◌, Option, none, some, ℤ, true, if◌then◌else◌}
use gokaf.Base.Map.{lookup, remove}
use gokaf.Group.State.{
  Name, GroupState, empty, preparing_rebalance, completing_rebalance, stable, Member, Group,
  Coordinator, Effect, join_timer_started, join_timer_stopped, Name-discrete, no_error,
  unknown_member_id, is_name, stop_session_timer, on_group,
}

-- `removeMember`'s loop over the order of joining.
unfoldable pub without : Name → List Name → List Name
without id [] = []
without id (j ∷ js) = if is_name j id then without id js else j ∷ without id js

unfoldable pub remove_member : Group → Name → Group
remove_member g id = record g {
  members = remove Name-discrete id g.members;
  join_order = without id g.join_order;
  leader_id = if is_name g.leader_id id then [] else g.leader_id;
}

unfoldable pub restart : Group → Group × List Effect
restart g = (
  record g { state = preparing_rebalance; join_timer = true },
  (if g.join_timer then join_timer_stopped g.id ∷ [] else []) ++ (join_timer_started g.id ∷ []),
)

abbrev pub restart_from : GroupState → Group → Group × List Effect
restart_from empty g = (g, [])
restart_from preparing_rebalance g = (g, [])
restart_from completing_rebalance g = restart g
restart_from stable g = restart g

unfoldable pub maybe_rebalance : List (Name × Member) → Group → Group × List Effect
maybe_rebalance [] g = (record g { state = empty; leader_id = []; protocol = [] }, [])
maybe_rebalance (m ∷ ms) g = restart_from g.state g

-- The lines that `Leave` and `expireMember` share.
unfoldable pub drop_member : Group → Name → Member → Group × List Effect
drop_member g id m =
    let left = remove_member g id in
    let stopped = stop_session_timer m in
    let done = maybe_rebalance left.members left in (done.0, stopped.1 ++ done.1)

unfoldable pub leave_group : Group → Name → Option Member → Group × List Effect × ℤ
leave_group g id none = (g, [], unknown_member_id)
leave_group g id (some m) = let done = drop_member g id m in (done.0, done.1, no_error)

unfoldable pub leave : Coordinator → Name → Name → Coordinator × List Effect × ℤ
leave c group id =
    on_group c group unknown_member_id (λ g. leave_group g id (lookup Name-discrete id g.members))

-- `expireMember`: `Leave` without an answer.
unfoldable pub expire_member : Coordinator → Name → Name → Coordinator × List Effect
expire_member c group id = let done = leave c group id in (done.0, done.1)
