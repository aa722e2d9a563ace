-- ===== src/Group/Joining.antt =====
-- internal/group/coordinator.go: joining a group, and the end of a rebalance:
-- the join timer that goes off is the operation `complete_join`, which may run in any state.
use gokaf.Base.{
  ℕ, ◌+◌, List, [], ◌∷◌, ◌++◌, Option, none, some, ℤ, pos, ◌+ℤ◌, wrap32, wrap64, true,
  if◌then◌else◌,
}
use gokaf.Base.Map.{lookup, insert}
use mathlib.Core.Option
use gokaf.Group.State.{
  Name, preparing_rebalance, completing_rebalance, JoinRequest, JoinMember, JoinResult, Member,
  Group, Coordinator, Effect, join_timer_started, join_sent, Name-discrete, no_error, is_name,
  first_protocol_name, first_protocol_metadata, stop_session_timer, touch, or_new_group,
  or_new_member, joined_order, is_preparing, put_group,
}

-- `if group.State != PreparingRebalance` of `Join`. A timer that still runs is not stopped.
unfoldable pub prepare : Group → Group × List Effect
prepare g =
    if is_preparing g.state
    then (g, [])
    else (record g { state = preparing_rebalance; join_timer = true }, join_timer_started g.id ∷ [])

-- `Join` on its group, with the member's id and its two new channels.
unfoldable pub join_group : Group → Name → JoinRequest → ℕ → ℕ → Group × List Effect
join_group g id req await_join await_sync =
    let found = lookup Name-discrete id g.members in
    let m = or_new_member id found in
    let stopped = stop_session_timer (record m {
      session_timeout_ms = req.session_timeout_ms;
      protocol = first_protocol_name req.protocols;
      metadata = first_protocol_metadata req.protocols;
      await_join = await_join;
      await_sync = await_sync;
    }) in
    let prepared = prepare (record g {
      members = insert Name-discrete id stopped.0 g.members;
      join_order = joined_order id found g.join_order;
    }) in
    (prepared.0, stopped.1 ++ prepared.1)

-- `nextMemberID`, where `sprintf` is `fmt.Sprintf("%s-%d", …)`.
unfoldable pub next_member_id : (Name → ℤ → Name) → Coordinator → Name → Coordinator × Name
next_member_id sprintf c client_id =
    let seq = wrap64 (c.next_member_seq +ℤ pos 1) in
    let client =
      if is_name client_id [] then 109 ∷ 101 ∷ 109 ∷ 98 ∷ 101 ∷ 114 ∷ [] else client_id in
    (record c { next_member_seq = seq }, sprintf client seq)

-- `Join` up to the receive: the channel on which the caller's result arrives comes last.
unfoldable pub join : (Name → ℤ → Name) → Coordinator → JoinRequest → Coordinator × List Effect × ℕ
join sprintf c req =
    let named =
      if is_name req.member_id []
      then next_member_id sprintf c req.client_id
      else (c, req.member_id) in
    let g = or_new_group req.group_id (lookup Name-discrete req.group_id c.groups) in
    let joined = join_group g named.1 req c.next_channel (c.next_channel + 1) in
    (
      record (put_group named.0 req.group_id joined.0) { next_channel = c.next_channel + 2 },
      joined.1,
      c.next_channel,
    )

infixl 5 ◌>>=◌
abbrev ◌>>=◌ : {A B : Type 0} → Option A → (A → Option B) → Option B
◌>>=◌ m f = Option.bind m f

-- `completeJoin`'s first loop: every member in the order of joining is touched, and named to the
-- leader. `none` is the nil dereference for an id that is not in the map.
unfoldable pub touch_joined :
    Name
    → List Name
    → List (Name × Member)
    → Option (List (Name × Member) × List Effect × List JoinMember)
touch_joined group [] members = some (members, [], [])
touch_joined group (id ∷ ids) members = do
  m ← lookup Name-discrete id members
  let touched = touch group m
  rest ← touch_joined group ids (insert Name-discrete id touched.0 members)
  some (rest.0, touched.1 ++ rest.1, record { id = m.id; metadata = m.metadata } ∷ rest.2)

unfoldable pub join_result : Group → List JoinMember → Member → JoinResult
join_result g joined m = record {
  generation_id = g.generation_id;
  protocol = g.protocol;
  leader_id = g.leader_id;
  member_id = m.id;
  members = if is_name m.id g.leader_id then joined else [];
  error_code = no_error;
}

-- The second loop.
unfoldable pub send_joined : Group → List JoinMember → List Name → Option (List Effect)
send_joined g joined [] = some []
send_joined g joined (id ∷ ids) = do
  m ← lookup Name-discrete id g.members
  effects ← send_joined g joined ids
  some (join_sent m.await_join (join_result g joined m) ∷ effects)

-- `completeJoin` on a group whose order of joining starts with the id.
unfoldable pub complete_led : Group → Name → Option (Group × List Effect)
complete_led g leader = do
  m ← lookup Name-discrete leader g.members
  rest ← touch_joined g.id g.join_order g.members
  let done : Group = record g {
    leader_id = leader;
    protocol = m.protocol;
    generation_id = wrap32 (g.generation_id +ℤ pos 1);
    state = completing_rebalance;
    members = rest.0;
  }
  sent ← send_joined done rest.2 g.join_order
  some (done, rest.1 ++ sent)

abbrev pub complete_from : Group → List Name → Option (Group × List Effect)
complete_from g [] = some (g, [])
complete_from g (leader ∷ ids) = complete_led g leader

unfoldable pub complete_group : Group → Option (Group × List Effect)
complete_group g = complete_from g g.join_order

unfoldable pub complete_at : Coordinator → Name → Option Group → Option (Coordinator × List Effect)
complete_at c id none = some (c, [])
complete_at c id (some g) = do done ← complete_group g; some (put_group c id done.0, done.1)

unfoldable pub complete_join : Coordinator → Name → Option (Coordinator × List Effect)
complete_join c id = complete_at c id (lookup Name-discrete id c.groups)
