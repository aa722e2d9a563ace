-- ===== src/Runs/Groups.antt =====
-- Examples of the consumer groups: a member joins, is told its generation, syncs and leaves.
use gokaf.Base.{◌≡◌, List, [], ◌∷◌, some, ℤ, pos}
use gokaf.Group.State.{Name, Coordinator, Group, Effect, JoinRequest, SyncRequest, new_group}
use gokaf.Group.Joining.{join_group, complete_group}
use gokaf.Group.Rebalance.{IsConsistent, join_group-IsConsistent}
use gokaf.Group.Sessions.{Completes, complete_group-total}
use gokaf.Group.Steps.{
  Event, joins, syncs, leaves, completes, run, AllConsistent, new_coordinator,
  new_coordinator-AllConsistent, run-AllConsistent, new_group-IsConsistent,
}

abbrev request : JoinRequest
request = record {
  group_id = 103 ∷ [];
  client_id = 99 ∷ [];
  session_timeout_ms = pos 6000;
  member_id = 97 ∷ [];
  protocol_type = [];
  protocols = [];
}

abbrev assignment : SyncRequest
assignment = record {
  group_id = 103 ∷ [];
  generation_id = pos 1;
  member_id = 97 ∷ [];
  assignments = (97 ∷ [], 1 ∷ []) ∷ [];
}

abbrev events : List Event
events = joins request ∷ completes (103 ∷ []) ∷ syncs assignment ∷ leaves (103 ∷ []) (97 ∷ []) ∷ []

abbrev plain : Name → ℤ → Name
plain client seq = client

run-AllConsistent_example :
    (c : Coordinator) × (run plain new_coordinator events ≡ some c) × AllConsistent c
run-AllConsistent_example =
    run-AllConsistent plain new_coordinator events new_coordinator-AllConsistent

abbrev joined : Group
joined = (join_group (new_group (103 ∷ [])) (97 ∷ []) request 0 1).0

joined-IsConsistent : IsConsistent joined
joined-IsConsistent =
    join_group-IsConsistent (new_group (103 ∷ [])) (97 ∷ []) request 0 1
      (new_group-IsConsistent (103 ∷ []))

complete_group-total_example :
    (done : Group × List Effect) × (complete_group joined ≡ some done)
    × IsConsistent done.0
    × Completes joined joined.join_order done
complete_group-total_example = complete_group-total joined joined-IsConsistent
