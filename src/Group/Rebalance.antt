-- ===== src/Group/Rebalance.antt =====
-- Every operation keeps a group consistent.
use gokaf.Base.{
  ℕ, ◌≡◌, ◌≢◌, refl, sym, ap, ◌∙◌, ◌⊎◌, inl, inr, List, [], ◌∷◌, some, Bool, true, false,
  Bool-cases, arith,
}
use gokaf.Base.Map.{lookup, insert, lookup-insert_self, lookup-insert_ne, lookup-remove_ne}
use mathlib.Core.Path.{subst}
use mathlib.Core.Logic.{if_pos}
use gokaf.Group.State.{
  Name, Name-discrete, is_name, GroupState, empty, preparing_rebalance, completing_rebalance,
  stable, Member, Group, JoinRequest, joined_order, is_preparing,
}
use gokaf.Group.Joining.{prepare, join_group}
use gokaf.Group.Leaving.{remove_member, restart, restart_from, maybe_rebalance, drop_member}
use gokaf.Group.Invariant.{
  occurrences, present, Agree, Agree-insert, Agree-remove, is_name_iff, occurrences-head,
}

-- A group is empty exactly if nobody has joined.
abbrev pub Staffed : GroupState → List Name → Type 0
Staffed s order = ((s ≡ empty) × (order ≡ [])) ⊎ ((s ≢ empty) × (order ≢ []))

pub record Laws (s : GroupState) (leader : Name) (order : List Name)
    (members : List (Name × Member)) : Type 0 where
  pub agree : Agree order members
  pub led : (leader ≡ []) ⊎ (present (lookup Name-discrete leader members) ≡ 1)
  pub staffed : Staffed s order

-- The order of joining and the map name the same ids, each once; the leader is a member or there is
-- none; the state is `empty` exactly if nobody has joined.
abbrev pub IsConsistent : Group → Type 0
IsConsistent g = Laws g.state g.leader_id g.join_order g.members

zero-one : ¬ Path ℕ 0 1
zero-one q = omega (arith, q)

present-nonempty :
    (id : Name) (order : List Name) (members : List (Name × Member))
    → Agree order members
    → present (lookup Name-discrete id members) ≡ 1
    → order ≢ []
unfolding Agree occurrences
present-nonempty id order members h p e = zero-one (ap (occurrences id) (sym e) ∙ h id ∙ p)

present-insert :
    (id j : Name) (m : Member) (members : List (Name × Member))
    → present (lookup Name-discrete j members) ≡ 1
    → present (lookup Name-discrete j (insert Name-discrete id m members)) ≡ 1
present-insert id j m members h = elim (Name-discrete id j) [
  | yes p ↦
      ap (λ k. present (lookup Name-discrete k (insert Name-discrete id m members))) (sym p)
      ∙ ap present (lookup-insert_self Name-discrete id m members)
  | no p ↦ ap present (lookup-insert_ne Name-discrete id j m members p) ∙ h
]

is_preparing-state : (s : GroupState) → is_preparing s ≡ true → s ≢ empty
is_preparing-state empty h e = cc h
is_preparing-state preparing_rebalance h e = cc e
is_preparing-state completing_rebalance h e = cc e
is_preparing-state stable h e = cc e

prepare-IsConsistent :
    (g : Group)
    → g.join_order ≢ []
    → Agree g.join_order g.members
    → (g.leader_id ≡ []) ⊎ (present (lookup Name-discrete g.leader_id g.members) ≡ 1)
    → IsConsistent (prepare g).0
unfolding prepare
prepare-IsConsistent g n a l = elim (Bool-cases (is_preparing g.state)) [
  | inl p ↦ rw p (record { agree = a; led = l; staffed = inr (is_preparing-state g.state p, n) })
  | inr p ↦ rw p (record { agree = a; led = l; staffed = inr ((λ e. cc e), n) })
]

-- `Join` keeps the group consistent, whoever joins.
pub join_group-IsConsistent :
    (g : Group) (id : Name) (req : JoinRequest) (await_join await_sync : ℕ)
    → IsConsistent g
    → IsConsistent (join_group g id req await_join await_sync).0
unfolding join_group
join_group-IsConsistent g id req await_join await_sync h =
    let agree = Agree-insert g.join_order g.members id _ h.agree in
    prepare-IsConsistent
      (record g {
        members = _;
        join_order = joined_order id (lookup Name-discrete id g.members) g.join_order;
      })
      (present-nonempty id _ _ agree (ap present (lookup-insert_self Name-discrete id _ g.members)))
      agree
      (elim h.led [ inl e ↦ inl e | inr e ↦ inr (present-insert id g.leader_id _ g.members e) ])

false-true : ¬ Path Bool false true
false-true q = cc q

led-remove :
    (g : Group) (id : Name)
    → (g.leader_id ≡ []) ⊎ (present (lookup Name-discrete g.leader_id g.members) ≡ 1)
    → let left = remove_member g id in
      (left.leader_id ≡ []) ⊎ (present (lookup Name-discrete left.leader_id left.members) ≡ 1)
unfolding remove_member
led-remove g id h = elim (Bool-cases (is_name g.leader_id id)) [
  | inl p ↦ rw p (inl refl)
  | inr p ↦ rw p (elim h [
    | inl e ↦ inl e
    | inr e ↦ inr (
        ap present (
          lookup-remove_ne Name-discrete id g.leader_id g.members
            (λ q. false-true (sym p ∙ (is_name_iff g.leader_id id).1 (sym q))))
        ∙ e)
  ])
]

Agree-nil : (order : List Name) → Agree order [] → order ≡ []
unfolding Agree lookup
Agree-nil [] h = refl
Agree-nil (id ∷ ids) h = absurd (occurrences-head id ids (h id))

restart_from-IsConsistent :
    (s : GroupState) (g : Group)
    → s ≡ g.state
    → s ≢ empty
    → g.join_order ≢ []
    → Agree g.join_order g.members
    → (g.leader_id ≡ []) ⊎ (present (lookup Name-discrete g.leader_id g.members) ≡ 1)
    → IsConsistent (restart_from s g).0
unfolding restart
restart_from-IsConsistent empty g e m n a l = absurd (m refl)
restart_from-IsConsistent preparing_rebalance g e m n a l = record {
  agree = a;
  led = l;
  staffed = inr ((λ f. m (e ∙ f)), n);
}
restart_from-IsConsistent completing_rebalance g e m n a l = record {
  agree = a;
  led = l;
  staffed = inr ((λ f. cc f), n);
}
restart_from-IsConsistent stable g e m n a l = record {
  agree = a;
  led = l;
  staffed = inr ((λ f. cc f), n);
}

present-here :
    (id : Name) (m : Member) (members : List (Name × Member))
    → present (lookup Name-discrete id ((id, m) ∷ members)) ≡ 1
unfolding lookup
present-here id m members =
    ap present (if_pos (Name-discrete id id) refl (some m) (lookup Name-discrete id members))

pub busy :
    (id : Name) (g : Group)
    → IsConsistent g
    → present (lookup Name-discrete id g.members) ≡ 1
    → g.state ≢ empty
busy id g h p = elim h.staffed [
  | inl (e, n) ↦ absurd (present-nonempty id g.join_order g.members h.agree p n)
  | inr (e, n) ↦ e
]

maybe_rebalance-IsConsistent :
    (members : List (Name × Member)) (g : Group)
    → members ≡ g.members
    → g.state ≢ empty
    → Agree g.join_order members
    → (g.leader_id ≡ []) ⊎ (present (lookup Name-discrete g.leader_id g.members) ≡ 1)
    → IsConsistent (maybe_rebalance members g).0
unfolding maybe_rebalance
maybe_rebalance-IsConsistent [] g e m a l = record {
  agree = subst (Agree g.join_order) e a;
  led = inl refl;
  staffed = inl (refl, Agree-nil g.join_order a);
}
maybe_rebalance-IsConsistent ((id, k) ∷ ks) g e m a l =
    restart_from-IsConsistent g.state g refl m
      (present-nonempty id g.join_order ((id, k) ∷ ks) a (present-here id k ks))
      (subst (Agree g.join_order) e a) l

pub drop_member-IsConsistent :
    (g : Group) (id : Name) (m : Member)
    → lookup Name-discrete id g.members ≡ some m
    → IsConsistent g
    → IsConsistent (drop_member g id m).0
unfolding drop_member remove_member
drop_member-IsConsistent g id m f h =
    maybe_rebalance-IsConsistent _ (remove_member g id) refl (busy id g h (ap present f))
      (Agree-remove g.join_order g.members id h.agree) (led-remove g id h.led)
