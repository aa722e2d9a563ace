-- ===== src/Group/Steps.antt =====
-- The coordinator as a whole: requests and timers in any order.
use gokaf.Base.{
  ℕ, ◌≡◌, refl, sym, ap, ◌∙◌, inl, inr, List, [], ◌∷◌, Option, none, some, Bool-cases, ℤ, pos,
}
use gokaf.Base.Map.{lookup, insert, lookup-insert_self, lookup-insert_ne}
use mathlib.Core.Option
use mathlib.Core.Path.{subst}
use gokaf.Group.State.{
  Name, Name-discrete, is_name, Member, Group, Effect, Coordinator, JoinRequest, SyncRequest,
  new_group, or_new_group, put_group, at_group, on_group,
}
use gokaf.Group.Joining.{next_member_id, join_group, join, complete_at, complete_join}
use gokaf.Group.Syncing.{sync_group, sync, heartbeat}
use gokaf.Group.Leaving.{leave_group, leave, expire_member}
use gokaf.Group.Invariant.{Agree, occurrences}
use gokaf.Group.Rebalance.{IsConsistent, join_group-IsConsistent, drop_member-IsConsistent}
use gokaf.Group.Sessions.{
  sync_member-IsConsistent, heartbeat_group-IsConsistent, complete_group-total,
}

-- `NewCoordinator`
abbrev pub new_coordinator : Coordinator
new_coordinator = record { groups = []; next_member_seq = pos 0; next_channel = 0 }

-- A request that arrives, or a timer that goes off.
pub data Event : Type 0 where
  joins : JoinRequest → Event
  syncs : SyncRequest → Event
  beats : Name → ℤ → Name → Event
  leaves : Name → Name → Event
  expires : Name → Name → Event
  completes : Name → Event

-- `none` is a nil dereference.
unfoldable pub step : (Name → ℤ → Name) → Coordinator → Event → Option Coordinator
step sprintf c (joins req) = some (join sprintf c req).0
step sprintf c (syncs req) = some (sync c req).0
step sprintf c (beats group generation id) = some (heartbeat c group generation id).0
step sprintf c (leaves group id) = some (leave c group id).0
step sprintf c (expires group id) = some (expire_member c group id).0
step sprintf c (completes group) = Option.map (λ r. r.0) (complete_join c group)

unfoldable pub run : (Name → ℤ → Name) → Coordinator → List Event → Option Coordinator
run sprintf c [] = some c
run sprintf c (e ∷ es) = Option.bind (step sprintf c e) (λ c'. run sprintf c' es)

-- Every group of the coordinator is consistent.
unfoldable pub AllConsistent : Coordinator → Type 0
AllConsistent c =
    (id : Name) (g : Group) → lookup Name-discrete id c.groups ≡ some g → IsConsistent g

put_group-AllConsistent :
    (c : Coordinator) (id : Name) (g : Group)
    → AllConsistent c
    → IsConsistent g
    → AllConsistent (put_group c id g)
unfolding AllConsistent
put_group-AllConsistent c id g h k j f e = elim (Name-discrete id j) [
  | yes p ↦ subst IsConsistent (same p) k
  | no p ↦ h j f (sym (lookup-insert_ne Name-discrete id j g c.groups p) ∙ e)
]
  where
    same : id ≡ j → g ≡ f
    same p = cc (
      lookup-insert_self Name-discrete id g c.groups,
      ap (λ i. lookup Name-discrete i (insert Name-discrete id g c.groups)) p,
      e,
    )

pub new_group-IsConsistent : (id : Name) → IsConsistent (new_group id)
unfolding new_group Agree occurrences lookup
new_group-IsConsistent id = record { agree = λ j. refl; led = inl refl; staffed = inl (refl, refl) }

or_new_group-IsConsistent :
    (c : Coordinator) (id : Name) (found : Option Group)
    → lookup Name-discrete id c.groups ≡ found
    → AllConsistent c
    → IsConsistent (or_new_group id found)
unfolding AllConsistent
or_new_group-IsConsistent c id none e h = new_group-IsConsistent id
or_new_group-IsConsistent c id (some g) e h = h id g e

on_group-AllConsistent :
    {A : Type 0} (c : Coordinator) (id : Name) (missing : A) (f : Group → Group × List Effect × A)
    → ((g : Group) → IsConsistent g → IsConsistent (f g).0)
    → AllConsistent c
    → AllConsistent (on_group c id missing f).0
unfolding on_group at_group AllConsistent
on_group-AllConsistent c id missing f k h = go (lookup Name-discrete id c.groups) refl
  where
    go :
        (found : Option Group)
        → lookup Name-discrete id c.groups ≡ found
        → AllConsistent (at_group c id missing f found).0
    go none e = h
    go (some g) e = put_group-AllConsistent c id (f g).0 h (k g (h id g e))

leave_group-IsConsistent :
    (g : Group) (id : Name) (found : Option Member)
    → lookup Name-discrete id g.members ≡ found
    → IsConsistent g
    → IsConsistent (leave_group g id found).0
unfolding leave_group
leave_group-IsConsistent g id none e h = h
leave_group-IsConsistent g id (some m) e h = drop_member-IsConsistent g id m e h

leave-AllConsistent :
    (c : Coordinator) (group id : Name) → AllConsistent c → AllConsistent (leave c group id).0
unfolding leave
leave-AllConsistent c group id h =
    on_group-AllConsistent c group _ _
      (λ g k. leave_group-IsConsistent g id (lookup Name-discrete id g.members) refl k) h

stored :
    (c : Coordinator) (req : JoinRequest) (id : Name) (await_join await_sync : ℕ)
    → AllConsistent c
    → let g = or_new_group req.group_id (lookup Name-discrete req.group_id c.groups) in
      AllConsistent (put_group c req.group_id (join_group g id req await_join await_sync).0)
stored c req id await_join await_sync h = put_group-AllConsistent c req.group_id _ h (
    join_group-IsConsistent _ id req await_join await_sync (
      or_new_group-IsConsistent c req.group_id (lookup Name-discrete req.group_id c.groups) refl h))

join-AllConsistent :
    (sprintf : Name → ℤ → Name) (c : Coordinator) (req : JoinRequest)
    → AllConsistent c
    → AllConsistent (join sprintf c req).0
unfolding join next_member_id AllConsistent
join-AllConsistent sprintf c req h = elim (Bool-cases (is_name req.member_id [])) [
  | inl p ↦ rw p (stored c req _ _ _ h)
  | inr p ↦ rw p (stored c req _ _ _ h)
]

sync_group-IsConsistent :
    (g : Group) (req : SyncRequest) → IsConsistent g → IsConsistent (sync_group g req).0
unfolding sync_group
sync_group-IsConsistent g req h =
    sync_member-IsConsistent g (lookup Name-discrete req.member_id g.members) req refl h

complete_join-AllConsistent :
    (c : Coordinator) (id : Name)
    → AllConsistent c
    → (r : Coordinator × List Effect) × (complete_join c id ≡ some r) × AllConsistent r.0
unfolding complete_join complete_at Option.bind AllConsistent
complete_join-AllConsistent c id h = go (lookup Name-discrete id c.groups) refl
  where
    go :
        (found : Option Group)
        → lookup Name-discrete id c.groups ≡ found
        → (r : Coordinator × List Effect) × (complete_at c id found ≡ some r) × AllConsistent r.0
    go none e = ((c, []), refl, h)
    go (some g) e =
        let done = complete_group-total g (h id g e) in
        (
          (put_group c id done.0.0, done.0.1),
          rw done.1 refl,
          put_group-AllConsistent c id done.0.0 h done.2,
        )

step-AllConsistent :
    (sprintf : Name → ℤ → Name) (c : Coordinator) (e : Event)
    → AllConsistent c
    → (c' : Coordinator) × (step sprintf c e ≡ some c') × AllConsistent c'
unfolding step sync heartbeat expire_member
step-AllConsistent sprintf c (joins req) h = (_, refl, join-AllConsistent sprintf c req h)
step-AllConsistent sprintf c (syncs req) h =
    (_, refl, on_group-AllConsistent c req.group_id _ _ (λ g k. sync_group-IsConsistent g req k) h)
step-AllConsistent sprintf c (beats group generation id) h = (
  _,
  refl,
  on_group-AllConsistent c group _ _
      (λ g k.
        heartbeat_group-IsConsistent g id generation (lookup Name-discrete id g.members) refl k)
      h,
)
step-AllConsistent sprintf c (leaves group id) h = (_, refl, leave-AllConsistent c group id h)
step-AllConsistent sprintf c (expires group id) h = (_, refl, leave-AllConsistent c group id h)
step-AllConsistent sprintf c (completes group) h =
    let done = complete_join-AllConsistent c group h in
    (done.0.0, ap (Option.map (λ r. r.0)) done.1, done.2)

-- From a coordinator whose groups are all consistent, whatever requests arrive and timers go off, in any
-- order, no nil pointer is dereferenced and every group stays consistent: its members are those of its order of joining, each once, its leader is a
-- member if it has one, and its state is `empty` exactly if it has no member.
pub run-AllConsistent :
    (sprintf : Name → ℤ → Name) (c : Coordinator) (es : List Event)
    → AllConsistent c
    → (c' : Coordinator) × (run sprintf c es ≡ some c') × AllConsistent c'
unfolding run Option.bind
run-AllConsistent sprintf c [] h = (c, refl, h)
run-AllConsistent sprintf c (e ∷ es) h =
    let one = step-AllConsistent sprintf c e h in
    let rest = run-AllConsistent sprintf one.0 es one.2 in (rest.0, rw one.1 rest.1, rest.2)

pub new_coordinator-AllConsistent : AllConsistent new_coordinator
unfolding AllConsistent lookup
new_coordinator-AllConsistent id g e = absurd (none-some e)
  where
    none-some : ¬ Path (Option Group) none (some g)
    none-some p = cc p
