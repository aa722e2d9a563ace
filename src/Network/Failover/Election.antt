-- ===== src/Network/Failover/Election.antt =====
-- What an election gives a partition: a leader that is up and was in sync, and nothing to the others.
use gokaf.Base.{
  ◌≡◌, ◌≢◌, refl, List, [], ◌∷◌, ℤ, eq_ℤ, eq_ℤ_iff, Bool, true, false, ◌⊎◌, Bool-cases, inl, inr,
  All, sym, ◌∙◌, not, ◌||◌,
}
use gokaf.Base.Sorting.{IsSorted, All-sort_by, sort_by-IsSorted, Mem-sort_by}
use mathlib.Core.Path.{subst}
use mathlib.Core.List.{Memᴰ}
use gokaf.Topic.Registry.{Partition}
use gokaf.Network.Handler.{Broker}
use gokaf.Network.Topics.{peer_alive}
use gokaf.Network.Failover.{live_of, live_isr, elect, reassign}

-- A replica that may lead: it was in sync, is up, and is not the one that went down.
pub record IsLive (b : Broker) (dead : ℤ) (isr : List ℤ) (id : ℤ) : Type 0 where
  pub in_sync : Memᴰ id isr
  pub up : peer_alive b id ≡ true
  pub other : eq_ℤ id dead ≡ false

wider :
    (b : Broker) (dead x : ℤ) (isr ids : List ℤ)
    → All (IsLive b dead isr) ids
    → All (IsLive b dead (x ∷ isr)) ids
wider b dead x isr [] h = tt
wider b dead x isr (id ∷ ids) h = (
  record { in_sync = Memᴰ.tail (IsLive.in_sync h.0); up = IsLive.up h.0; other = IsLive.other h.0 },
  wider b dead x isr ids h.1,
)

true-false : ¬ Path Bool true false
true-false p = cc p

live_of-IsLive :
    (b : Broker) (dead : ℤ) (isr : List ℤ) → All (IsLive b dead isr) (live_of b dead isr)
unfolding live_of
live_of-IsLive b dead [] = tt
live_of-IsLive b dead (id ∷ ids) = elim (Bool-cases (eq_ℤ id dead)) [
  | inl p ↦ rw p (wider b dead id ids (live_of b dead ids) (live_of-IsLive b dead ids))
  | inr p ↦ elim (Bool-cases (peer_alive b id)) [
    | inl q ↦
        rw (p, q)
          (
            record { in_sync = Memᴰ.head refl; up = q; other = p },
            wider b dead id ids (live_of b dead ids) (live_of-IsLive b dead ids),
          )
    | inr q ↦ rw (p, q) (wider b dead id ids (live_of b dead ids) (live_of-IsLive b dead ids))
  ]
]

-- Nobody that may lead is left out.
live_of-Mem :
    (b : Broker) (dead id : ℤ) (isr : List ℤ) → IsLive b dead isr id → Memᴰ id (live_of b dead isr)
unfolding live_of
live_of-Mem b dead id [] h = h.in_sync
live_of-Mem b dead id (x ∷ isr) h = elim (Bool-cases (eq_ℤ x dead || not (peer_alive b x))) [
  | inl p ↦ rw p (
      live_of-Mem b dead id isr
        (record { in_sync = other p h.in_sync; up = h.up; other = h.other }))
  | inr p ↦ rw p (elim h.in_sync [
    | Memᴰ.head e ↦ Memᴰ.head e
    | Memᴰ.tail m ↦
        Memᴰ.tail (live_of-Mem b dead id isr (record { in_sync = m; up = h.up; other = h.other }))
  ])
]
  where
    other : (eq_ℤ x dead || not (peer_alive b x)) ≡ true → Memᴰ id (x ∷ isr) → Memᴰ id isr
    other p (Memᴰ.tail m) = m
    other p (Memᴰ.head e) =
        absurd (left_out (subst (λ y. (eq_ℤ y dead || not (peer_alive b y)) ≡ true) (sym e) p))
      where
        left_out : ¬ ((eq_ℤ id dead || not (peer_alive b id)) ≡ true)
        left_out q = true-false (sym q ∙ rw (h.other, h.up) refl)

live_isr-Mem :
    (b : Broker) (dead id : ℤ) (isr : List ℤ) → IsLive b dead isr id → Memᴰ id (live_isr b isr dead)
unfolding live_isr
live_isr-Mem b dead id isr h =
    Mem-sort_by (λ x. x) id (live_of b dead isr) (live_of-Mem b dead id isr h)

-- The new in-sync replicas are those that may lead, in increasing order, and the leader is the first.
pub record IsElected (b : Broker) (dead : ℤ) (p q : Partition) : Type 0 where
  pub live : All (IsLive b dead p.isr) q.isr
  pub all : (id : ℤ) → IsLive b dead p.isr id → Memᴰ id q.isr
  pub sorted : IsSorted (λ id. id) q.isr
  pub first : (others : List ℤ) × (q.isr ≡ q.leader ∷ others)
  pub kept : (q.id ≡ p.id) × (q.replicas ≡ p.replicas)

-- What the election did: it changed the partition and elected a leader, or it left it as it was, since
-- its leader is not the dead broker or none of its in-sync replicas may lead.
abbrev pub Reassigned : Broker → ℤ → Partition → Partition × Bool → Type 0
Reassigned b dead p (q, true) = (p.leader ≡ dead) × IsElected b dead p q
Reassigned b dead p (q, false) =
    (q ≡ p) × ((p.leader ≢ dead) ⊎ ((id : ℤ) → ¬ IsLive b dead p.isr id))

elect-Reassigned :
    (b : Broker) (dead : ℤ) (p : Partition) (ids : List ℤ)
    → p.leader ≡ dead
    → All (IsLive b dead p.isr) ids
    → IsSorted (λ id. id) ids
    → ((id : ℤ) → IsLive b dead p.isr id → Memᴰ id ids)
    → Reassigned b dead p (elect p ids)
elect-Reassigned b dead p [] led live sorted every = (refl, inr (λ id h. none_in (every id h)))
  where
    none_in : {id : ℤ} → ¬ Memᴰ id []
    none_in m = elim m [ ]
elect-Reassigned b dead p (leader ∷ others) led live sorted every = (
  led,
  record { live = live; all = every; sorted = sorted; first = (others, refl); kept = (refl, refl) },
)

-- A partition that the election changes was led by the dead broker: its in-sync replicas are then
-- exactly those that were in sync, are up and are not the dead broker, in increasing order, the first
-- is the leader, and the id and the replicas stay. It leaves a partition as it is only if that has
-- another leader, or if no in-sync replica is up and not the dead broker.
pub reassign-Reassigned :
    (b : Broker) (dead : ℤ) (p : Partition) → Reassigned b dead p (reassign b dead p)
unfolding reassign live_isr
reassign-Reassigned b dead p = elim (Bool-cases (eq_ℤ p.leader dead)) [
  | inl e ↦ rw e (
      elect-Reassigned b dead p (live_isr b p.isr dead) ((eq_ℤ_iff p.leader dead).0 e)
        (All-sort_by (λ id. id) (IsLive b dead p.isr) (live_of b dead p.isr)
          (live_of-IsLive b dead p.isr))
        (sort_by-IsSorted (λ id. id) (live_of b dead p.isr))
        (λ id h. live_isr-Mem b dead id p.isr h))
  | inr e ↦ rw e (refl, inl (λ q. true-false (sym-true e ((eq_ℤ_iff p.leader dead).1 q))))
]
  where
    sym-true : {x : Bool} → x ≡ false → x ≡ true → true ≡ false
    sym-true p q = cc (p, q)
