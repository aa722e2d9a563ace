-- ===== src/Cluster/Liveness/Tracking.antt =====
-- What the monitor knows of a peer is what the peer's last pings say.
use gokaf.Base.{
  ℕ, suc, ◌<◌, ◌≡◌, refl, sym, ap, ◌∙◌, ◌⊎◌, inl, inr, List, [], ◌∷◌, ℤ, negsuc, ltb_ℤ, ◌≤ℤ◌, leb,
  ltb, Bool, true, false, ◌&&◌, if◌then◌else◌, Bool-cases, All, arith,
}
use gokaf.Base.Map.{lookup-insert_self}
use gokaf.Cluster.Membership.{Broker}
use gokaf.Cluster.Liveness.{
  Monitor, ℤ-discrete, is_marked, misses_of, highest_alive, controller_id, record_miss,
  record_success, record_ping,
}

-- The outcomes of the pings of one peer, the last one first: how many misses lead the list.
abbrev pub trailing_misses : List Bool → ℕ
trailing_misses [] = 0
trailing_misses (true ∷ outcomes) = 0
trailing_misses (false ∷ outcomes) = suc (trailing_misses outcomes)

-- The monitor after the pings of one peer, of which the last one comes first.
unfoldable pub after_pings : Monitor → ℤ → List Bool → Monitor
after_pings lm id [] = lm
after_pings lm id (o ∷ outcomes) = (record_ping o (after_pings lm id outcomes) id).0

-- The number of misses is that of the outcomes, and the peer is marked unless they are too many.
Tracks : Monitor → ℤ → ℕ → List Bool → Type 0
Tracks lm id fail_after outcomes =
    (lm.fail_after ≡ fail_after)
    × (misses_of lm id ≡ trailing_misses outcomes)
    × (is_marked lm id ≡ ltb (trailing_misses outcomes) fail_after)

positive : (n : ℕ) → 0 < n → ltb 0 n ≡ true
positive n h = ground arith

too_many :
    (f g m t : ℕ) (marked : Bool)
    → f ≡ g
    → m ≡ t
    → (leb f (suc m) && marked) ≡ true
    → false ≡ ltb (suc t) g
too_many f g m t marked hf hm h = ground arith

still :
    (f g m t : ℕ) (marked : Bool)
    → f ≡ g
    → m ≡ t
    → (leb f (suc m) && marked) ≡ false
    → marked ≡ ltb t g
    → marked ≡ ltb (suc t) g
still f g m t marked hf hm h k = ground arith

record_ping-Tracks :
    (o : Bool) (lm : Monitor) (id : ℤ) (fail_after : ℕ) (outcomes : List Bool)
    → 0 < fail_after
    → Tracks lm id fail_after outcomes
    → Tracks (record_ping o lm id).0 id fail_after (o ∷ outcomes)
unfolding Tracks record_miss record_success is_marked misses_of
record_ping-Tracks true lm id fail_after outcomes hf h = (
  h.0,
  rw (lookup-insert_self ℤ-discrete id 0 lm.misses) refl,
  rw (lookup-insert_self ℤ-discrete id true lm.alive) (ground arith),
)
record_ping-Tracks false lm id fail_after outcomes hf h =
    elim (Bool-cases (leb lm.fail_after (suc (misses_of lm id)) && is_marked lm id)) [
      | inl p ↦ rw p (
        h.0,
        rw (lookup-insert_self ℤ-discrete id (suc (misses_of lm id)) lm.misses) (ap suc h.1),
        rw (lookup-insert_self ℤ-discrete id false lm.alive) (
            too_many lm.fail_after fail_after (misses_of lm id) (trailing_misses outcomes)
              (is_marked lm id) h.0 h.1 p),
      )
      | inr p ↦ rw p (
        h.0,
        rw (lookup-insert_self ℤ-discrete id (suc (misses_of lm id)) lm.misses) (ap suc h.1),
        still lm.fail_after fail_after (misses_of lm id) (trailing_misses outcomes)
            (is_marked lm id) h.0 h.1 p h.2,
      )
    ]

after_pings-Tracks :
    (lm : Monitor) (id : ℤ) (outcomes : List Bool)
    → 0 < lm.fail_after
    → misses_of lm id ≡ 0
    → is_marked lm id ≡ true
    → Tracks (after_pings lm id outcomes) id lm.fail_after outcomes
unfolding after_pings Tracks
after_pings-Tracks lm id [] hf hm ha = (refl, hm, ha ∙ sym (positive lm.fail_after hf))
after_pings-Tracks lm id (o ∷ outcomes) hf hm ha =
    record_ping-Tracks o (after_pings lm id outcomes) id lm.fail_after outcomes hf
      (after_pings-Tracks lm id outcomes hf hm ha)

-- A peer that is marked alive and has no misses, whatever pings of it succeed and fail from then on, is
-- marked alive exactly if fewer than `failAfter` misses in a row came last.
pub is_marked-after_pings :
    (lm : Monitor) (id : ℤ) (outcomes : List Bool)
    → 0 < lm.fail_after
    → misses_of lm id ≡ 0
    → is_marked lm id ≡ true
    → is_marked (after_pings lm id outcomes) id ≡ ltb (trailing_misses outcomes) lm.fail_after
unfolding Tracks
is_marked-after_pings lm id outcomes hf hm ha = (after_pings-Tracks lm id outcomes hf hm ha).2

-- An alive broker of the list is no higher than the number.
abbrev pub NoneHigher : Monitor → ℤ → List Broker → Type 0
NoneHigher lm best = All (λ b. is_marked lm b.id ≡ true → b.id ≤ℤ best)

abbrev pub IsAliveIn : Monitor → ℤ → List Broker → Type 0
IsAliveIn lm best [] = ⊥
IsAliveIn lm best (b ∷ bs) = ((is_marked lm b.id ≡ true) × (b.id ≡ best)) ⊎ IsAliveIn lm best bs

abbrev better : Monitor → ℤ → Broker → ℤ
better lm best b = if is_marked lm b.id && ltb_ℤ best b.id then b.id else best

highest_alive-le : (lm : Monitor) (best : ℤ) (bs : List Broker) → best ≤ℤ highest_alive lm best bs
unfolding highest_alive
highest_alive-le lm best [] = omega arith
highest_alive-le lm best (b ∷ bs) =
    omega (arith, highest_alive-le lm (better lm best b) bs, grows (is_marked lm b.id) best b.id)
  where
    grows : (m : Bool) (x y : ℤ) → x ≤ℤ (if m && ltb_ℤ x y then y else x)
    grows m x y = ground arith

highest_alive-NoneHigher :
    (lm : Monitor) (best : ℤ) (bs : List Broker) → NoneHigher lm (highest_alive lm best bs) bs
unfolding highest_alive
highest_alive-NoneHigher lm best [] = tt
highest_alive-NoneHigher lm best (b ∷ bs) = (
  λ h.
      omega
        (arith, highest_alive-le lm (better lm best b) bs, reached (is_marked lm b.id) best b.id h),
  highest_alive-NoneHigher lm (better lm best b) bs,
)
  where
    reached : (m : Bool) (x y : ℤ) → m ≡ true → y ≤ℤ (if m && ltb_ℤ x y then y else x)
    reached m x y h = ground arith

highest_alive-cases :
    (lm : Monitor) (best : ℤ) (bs : List Broker)
    → (highest_alive lm best bs ≡ best) ⊎ IsAliveIn lm (highest_alive lm best bs) bs
unfolding highest_alive
highest_alive-cases lm best [] = inl refl
highest_alive-cases lm best (b ∷ bs) = elim (Bool-cases (is_marked lm b.id && ltb_ℤ best b.id)) [
  | inl p ↦ elim (highest_alive-cases lm (better lm best b) bs) [
    | inl e ↦ inr (inl (left (is_marked lm b.id) (ltb_ℤ best b.id) p, sym (e ∙ rw p refl)))
    | inr i ↦ inr (inr i)
  ]
  | inr p ↦ elim (highest_alive-cases lm (better lm best b) bs) [
    | inl e ↦ inl (e ∙ rw p refl)
    | inr i ↦ inr (inr i)
  ]
]
  where
    left : (m n : Bool) → (m && n) ≡ true → m ≡ true
    left m n h = ground arith

-- The controller is an alive broker of the membership that no alive one is higher than, and it is -1 only
-- if no alive broker has an id of 0 or more.
pub controller_id-NoneHigher :
    (lm : Monitor)
    → NoneHigher lm (controller_id lm) lm.membership.brokers
      × ((controller_id lm ≡ negsuc 0) ⊎ IsAliveIn lm (controller_id lm) lm.membership.brokers)
unfolding controller_id
controller_id-NoneHigher lm = (
  highest_alive-NoneHigher lm (negsuc 0) lm.membership.brokers,
  highest_alive-cases lm (negsuc 0) lm.membership.brokers,
)
