-- ===== src/Group/Sessions.antt =====
-- Sync, heartbeats and the end of a join leave the group consistent, and `completeJoin` never fails.
use gokaf.Base.{
  ℕ, ◌≡◌, ◌≢◌, refl, sym, ap, ◌∙◌, ◌⊎◌, inl, inr, List, [], ◌∷◌, ◌++◌, Option, none, some,
  Bool-cases, arith, ℤ, eq_ℤ, All, pos, ◌+ℤ◌, wrap32, get_elem?, ◌≤◌,
}
use gokaf.Base.Map.{lookup, insert, lookup-insert_self, lookup-insert_ne}
use mathlib.Core.Option
use mathlib.Core.Path.{subst}
use mathlib.Core.Logic.{if_pos, if_neg}
use gokaf.Group.State.{
  Name, Name-discrete, is_name, GroupState, empty, stable, completing_rebalance, Member, Group,
  SyncRequest, Effect, JoinMember, touch, is_preparing, join_sent,
}
use gokaf.Group.Syncing.{
  assign, assign_to, touch_all, sync_leader, sync_follower, sync_member, heartbeat_group,
}
use gokaf.Group.Joining.{
  touch_joined, join_result, send_joined, complete_from, complete_led, complete_group,
}
use gokaf.Group.Invariant.{occurrences, present, Agree, occurrences-head}
use gokaf.Group.Rebalance.{IsConsistent, Laws, busy}

-- The two maps have the same keys.
SameKeys : List (Name × Member) → List (Name × Member) → Type 0
SameKeys ms ms' =
    (id : Name) → present (lookup Name-discrete id ms') ≡ present (lookup Name-discrete id ms)

SameKeys-refl : (ms : List (Name × Member)) → SameKeys ms ms
unfolding SameKeys
SameKeys-refl ms id = refl

SameKeys-trans : (a b c : List (Name × Member)) → SameKeys a b → SameKeys b c → SameKeys a c
unfolding SameKeys
SameKeys-trans a b c h k id = k id ∙ h id

SameKeys-insert :
    (id : Name) (m n : Member) (ms : List (Name × Member))
    → lookup Name-discrete id ms ≡ some n
    → SameKeys ms (insert Name-discrete id m ms)
unfolding SameKeys
SameKeys-insert id m n ms h j = elim (Name-discrete id j) [
  | yes p ↦
      ap (λ k. present (lookup Name-discrete k (insert Name-discrete id m ms))) (sym p)
      ∙ ap present (lookup-insert_self Name-discrete id m ms)
      ∙ ap present (sym h)
      ∙ ap (λ k. present (lookup Name-discrete k ms)) p
  | no p ↦ ap present (lookup-insert_ne Name-discrete id j m ms p)
]

-- Only the members' own fields and the state change.
keep :
    (g : Group) (s : GroupState) (ms : List (Name × Member))
    → s ≢ empty
    → g.state ≢ empty
    → SameKeys g.members ms
    → IsConsistent g
    → Laws s g.leader_id g.join_order ms
unfolding SameKeys Agree
keep g s ms e f k h = record {
  agree = λ id. h.agree id ∙ sym (k id);
  led = elim h.led [ inl p ↦ inl p | inr p ↦ inr (k g.leader_id ∙ p) ];
  staffed = elim h.staffed [ inl (p, n) ↦ absurd (f p) | inr (p, n) ↦ inr (e, n) ];
}

assign_to-SameKeys :
    (id : Name) (a : List ℕ) (found : Option Member) (ms : List (Name × Member))
    → lookup Name-discrete id ms ≡ found
    → SameKeys ms (assign_to id a found ms)
unfolding assign_to
assign_to-SameKeys id a none ms h = SameKeys-refl ms
assign_to-SameKeys id a (some m) ms h = SameKeys-insert id _ m ms h

assign-SameKeys :
    (given : List (Name × List ℕ)) (ms : List (Name × Member)) → SameKeys ms (assign given ms)
unfolding assign
assign-SameKeys [] ms = SameKeys-refl ms
assign-SameKeys ((id, a) ∷ rest) ms =
    SameKeys-trans ms _ _ (assign_to-SameKeys id a (lookup Name-discrete id ms) ms refl)
      (assign-SameKeys rest (assign_to id a (lookup Name-discrete id ms) ms))

touch_all-SameKeys : (group : Name) (ms : List (Name × Member)) → SameKeys ms (touch_all group ms).0
unfolding SameKeys touch_all lookup
touch_all-SameKeys group [] id = refl
touch_all-SameKeys group ((j, m) ∷ ms) id = elim (Name-discrete j id) [
  | yes p ↦ rw (if_pos (Name-discrete j id) p) (rw (if_pos (Name-discrete j id) p) refl)
  | no p ↦
      rw (if_neg (Name-discrete j id) p)
        (rw (if_neg (Name-discrete j id) p) (touch_all-SameKeys group ms id))
]

sync_leader-IsConsistent :
    (g : Group) (req : SyncRequest)
    → g.state ≢ empty
    → IsConsistent g
    → IsConsistent (sync_leader g req).0
unfolding sync_leader
sync_leader-IsConsistent g req e h =
    keep g stable (touch_all g.id (assign req.assignments g.members)).0 (λ p. cc p) e
      (SameKeys-trans g.members (assign req.assignments g.members) _
        (assign-SameKeys req.assignments g.members)
        (touch_all-SameKeys g.id (assign req.assignments g.members)))
      h

sync_follower-IsConsistent :
    (g : Group) (m : Member) (req : SyncRequest)
    → lookup Name-discrete req.member_id g.members ≡ some m
    → g.state ≢ empty
    → IsConsistent g
    → IsConsistent (sync_follower g m req).0
unfolding sync_follower
sync_follower-IsConsistent g m req f e h =
    keep g g.state _ e e (SameKeys-insert req.member_id (touch g.id m).0 m g.members f) h

-- `Sync` keeps the group consistent on every branch.
pub sync_member-IsConsistent :
    (g : Group) (found : Option Member) (req : SyncRequest)
    → lookup Name-discrete req.member_id g.members ≡ found
    → IsConsistent g
    → IsConsistent (sync_member g found req).0
unfolding sync_member
sync_member-IsConsistent g none req f h = h
sync_member-IsConsistent g (some m) req f h =
    elim (Bool-cases (eq_ℤ req.generation_id g.generation_id)) [
      | inl p ↦ rw p (elim (Bool-cases (is_name req.member_id g.leader_id)) [
        | inl q ↦ rw q (sync_leader-IsConsistent g req (busy req.member_id g h (ap present f)) h)
        | inr q ↦
            rw q (sync_follower-IsConsistent g m req f (busy req.member_id g h (ap present f)) h)
      ])
      | inr p ↦ rw p h
    ]

pub heartbeat_group-IsConsistent :
    (g : Group) (id : Name) (generation : ℤ) (found : Option Member)
    → lookup Name-discrete id g.members ≡ found
    → IsConsistent g
    → IsConsistent (heartbeat_group g id generation found).0
unfolding heartbeat_group
heartbeat_group-IsConsistent g id generation none f h = h
heartbeat_group-IsConsistent g id generation (some m) f h =
    elim (Bool-cases (is_preparing g.state)) [
      | inl p ↦ rw p h
      | inr p ↦ rw p (elim (Bool-cases (eq_ℤ generation g.generation_id)) [
        | inl q ↦ rw q (
            keep g g.state _ (busy id g h (ap present f)) (busy id g h (ap present f))
              (SameKeys-insert id (touch g.id m).0 m g.members f) h)
        | inr q ↦ rw q h
      ])
    ]

-- Every id of the list is a key of the map.
AllKeys : List (Name × Member) → List Name → Type 0
AllKeys ms = All (λ id. present (lookup Name-discrete id ms) ≡ 1)

AllKeys-same :
    (a b : List (Name × Member)) (ids : List Name) → SameKeys a b → AllKeys a ids → AllKeys b ids
unfolding AllKeys SameKeys
AllKeys-same a b [] k h = tt
AllKeys-same a b (id ∷ ids) k h = (k id ∙ h.0, AllKeys-same a b ids k h.1)

present-some : {A : Type 0} (o : Option A) → present o ≡ 1 → (a : A) × (o ≡ some a)
present-some none h = absurd (omega (arith, h))
present-some (some a) h = (a, refl)

present-positive : {A : Type 0} (o : Option A) → present o ≢ 0 → present o ≡ 1
present-positive none h = absurd (h refl)
present-positive (some a) h = refl

touch_joined-total :
    (group : Name) (ids : List Name) (ms : List (Name × Member))
    → AllKeys ms ids
    → (r : List (Name × Member) × List Effect × List JoinMember) × (touch_joined group ids ms
        ≡ some r)
      × SameKeys ms r.0
unfolding touch_joined Option.bind AllKeys
touch_joined-total group [] ms h = ((ms, [], []), refl, SameKeys-refl ms)
touch_joined-total group (id ∷ ids) ms h =
    let found = present-some (lookup Name-discrete id ms) h.0 in
    let same = SameKeys-insert id (touch group found.0).0 found.0 ms found.1 in
    let rest =
      touch_joined-total group ids (insert Name-discrete id (touch group found.0).0 ms)
        (AllKeys-same ms _ ids same h.1) in
    let m = found.0 in
    (
      (
        rest.0.0,
        (touch group m).1 ++ rest.0.1,
        record { id = m.id; metadata = m.metadata } ∷ rest.0.2,
      ),
      rw (found.1, rest.1) refl,
      SameKeys-trans ms _ rest.0.0 same rest.2,
    )

send_joined-total :
    (g : Group) (joined : List JoinMember) (ids : List Name)
    → AllKeys g.members ids
    → (r : List Effect) × (send_joined g joined ids ≡ some r)
unfolding send_joined Option.bind AllKeys
send_joined-total g joined [] h = ([], refl)
send_joined-total g joined (id ∷ ids) h =
    let found = present-some (lookup Name-discrete id g.members) h.0 in
    let rest = send_joined-total g joined ids h.1 in
    (
      join_sent found.0.await_join (join_result g joined found.0) ∷ rest.0,
      rw (found.1, rest.1) refl,
    )

order-keys :
    (xs order : List Name) (ms : List (Name × Member))
    → Agree order ms
    → ((id : Name) → occurrences id xs ≤ occurrences id order)
    → AllKeys ms xs
unfolding AllKeys Agree occurrences
order-keys [] order ms a h = tt
order-keys (id ∷ ids) order ms a h = (
  present-positive (lookup Name-discrete id ms)
      (omega (arith, a id, h id, occurrences-head id ids)),
  order-keys ids order ms a (λ j. omega (arith, h j)),
)

-- What `completeJoin` does: nothing if nobody has joined, else the first of the order leads the next
-- generation.
abbrev pub Completes : Group → List Name → Group × List Effect → Type 0
Completes g order done =
    ((order ≡ []) × (done ≡ (g, [])))
    ⊎ ((done.0.state ≡ completing_rebalance)
        × (done.0.generation_id ≡ wrap32 (g.generation_id +ℤ pos 1))
        × (get_elem? order 0 ≡ some done.0.leader_id))

complete_led-total :
    (g : Group) (leader : Name) (ids : List Name)
    → leader ∷ ids ≡ g.join_order
    → IsConsistent g
    → (done : Group × List Effect) × (complete_led g leader ≡ some done)
      × IsConsistent done.0
      × Completes g (leader ∷ ids) done
unfolding complete_led Option.bind AllKeys SameKeys Agree
complete_led-total g leader ids e h =
    let keys = order-keys g.join_order g.join_order g.members h.agree (λ id. omega arith) in
    let first =
      present-some (lookup Name-discrete leader g.members)
        (subst (AllKeys g.members) (sym e) keys).0 in
    let rest = touch_joined-total g.id g.join_order g.members keys in
    let done : Group = record g {
      leader_id = leader;
      protocol = first.0.protocol;
      generation_id = wrap32 (g.generation_id +ℤ pos 1);
      state = completing_rebalance;
      members = rest.0.0;
    } in
    let sent =
      send_joined-total done rest.0.2 g.join_order
        (AllKeys-same g.members rest.0.0 g.join_order rest.2 keys) in
    (
      (done, rest.0.1 ++ sent.0),
      rw (first.1, rest.1, sent.1) refl,
      record {
        agree = λ id. h.agree id ∙ sym (rest.2 id);
        led = inr (rest.2 leader ∙ ap present first.1);
        staffed = inr ((λ f. cc f), (λ f. cons-nil (e ∙ f)));
      },
      inr (refl, refl, refl),
    )
  where
    cons-nil : leader ∷ ids ≢ []
    cons-nil f = cc f

complete_from-total :
    (g : Group) (order : List Name)
    → order ≡ g.join_order
    → IsConsistent g
    → (done : Group × List Effect) × (complete_from g order ≡ some done)
      × IsConsistent done.0
      × Completes g order done
complete_from-total g [] e h = ((g, []), refl, h, inl (refl, refl))
complete_from-total g (leader ∷ ids) e h = complete_led-total g leader ids e h

-- `completeJoin` on a consistent group dereferences no nil pointer and leaves the group consistent.
-- If nobody has joined nothing changes; otherwise the first to have joined leads, the generation is
-- one more (in 32 bits) and the group waits for the leader's assignment.
pub complete_group-total :
    (g : Group)
    → IsConsistent g
    → (done : Group × List Effect) × (complete_group g ≡ some done)
      × IsConsistent done.0
      × Completes g g.join_order done
unfolding complete_group
complete_group-total g h = complete_from-total g g.join_order refl h
