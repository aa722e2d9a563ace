-- ===== src/Replication/PartitionState/Watermark.antt =====
-- The high watermark is the lowest offset of the replicas that are in sync.
use gokaf.Base.{
  ℕ, ◌≡◌, refl, ◌∙◌, ◌⊎◌, inl, inr, List, [], ◌∷◌, ℤ, ◌≤ℤ◌, ltb_ℤ, true, Bool-cases, ◌&&◌, All,
  arith,
}
use gokaf.Replication.PartitionState.{PartitionState, counts, offset_of, lower, lowest, recompute}

-- No in-sync follower of the list is behind the offset.
abbrev pub IsReached : PartitionState → ℕ → ℤ → List ℤ → Type 0
IsReached s now hw bs = All (λ b. counts s now b ≡ true → hw ≤ℤ offset_of s b) bs

-- The offset is that of an in-sync follower of the list.
abbrev pub IsOffsetOf : PartitionState → ℕ → ℤ → List ℤ → Type 0
IsOffsetOf s now hw [] = ⊥
IsOffsetOf s now hw (b ∷ bs) =
    ((counts s now b ≡ true) × (hw ≡ offset_of s b)) ⊎ IsOffsetOf s now hw bs

lower-le : (s : PartitionState) (now : ℕ) (next b : ℤ) → lower s now next b ≤ℤ next
unfolding lower
lower-le s now next b = ground arith

lowest-le : (s : PartitionState) (now : ℕ) (next : ℤ) (bs : List ℤ) → lowest s now next bs ≤ℤ next
unfolding lowest
lowest-le s now next [] = omega arith
lowest-le s now next (b ∷ bs) =
    omega (arith, lowest-le s now (lower s now next b) bs, lower-le s now next b)

lower-reached :
    (s : PartitionState) (now : ℕ) (next b : ℤ)
    → counts s now b ≡ true
    → lower s now next b ≤ℤ offset_of s b
unfolding lower
lower-reached s now next b h = ground arith

lowest-IsReached :
    (s : PartitionState) (now : ℕ) (next : ℤ) (bs : List ℤ)
    → IsReached s now (lowest s now next bs) bs
unfolding lowest
lowest-IsReached s now next [] = tt
lowest-IsReached s now next (b ∷ bs) = (
  λ h. omega (arith, lowest-le s now (lower s now next b) bs, lower-reached s now next b h),
  lowest-IsReached s now (lower s now next b) bs,
)

lower-cases :
    (s : PartitionState) (now : ℕ) (next b : ℤ)
    → (lower s now next b ≡ next) ⊎ ((counts s now b ≡ true) × (lower s now next b ≡ offset_of s b))
unfolding lower
lower-cases s now next b = elim (Bool-cases (counts s now b && ltb_ℤ (offset_of s b) next)) [
  | inl p ↦ rw p (inr (ground arith, refl))
  | inr p ↦ rw p (inl refl)
]

lowest-cases :
    (s : PartitionState) (now : ℕ) (next : ℤ) (bs : List ℤ)
    → (lowest s now next bs ≡ next) ⊎ IsOffsetOf s now (lowest s now next bs) bs
unfolding lowest
lowest-cases s now next [] = inl refl
lowest-cases s now next (b ∷ bs) = elim (lowest-cases s now (lower s now next b) bs) [
  | inl e ↦ elim (lower-cases s now next b) [
    | inl f ↦ inl (e ∙ f)
    | inr (h, f) ↦ inr (inl (h, e ∙ f))
  ]
  | inr i ↦ inr (inr i)
]

-- After `recompute` the high watermark is the lowest offset among the leader's end offset and the
-- offsets of its in-sync followers: it is at most each of them, and it is one of them.
pub recompute-IsLowest :
    (s : PartitionState) (now : ℕ)
    → let hw = (recompute s now).0.high_watermark in
      (hw ≤ℤ s.leader_end_offset)
      × IsReached s now hw s.replicas
      × ((hw ≡ s.leader_end_offset) ⊎ IsOffsetOf s now hw s.replicas)
unfolding recompute
recompute-IsLowest s now = (
  lowest-le s now s.leader_end_offset s.replicas,
  lowest-IsReached s now s.leader_end_offset s.replicas,
  lowest-cases s now s.leader_end_offset s.replicas,
)
