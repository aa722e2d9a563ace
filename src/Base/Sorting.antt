-- ===== src/Base/Sorting.antt =====
-- Sorting by an integer key, as sort.Slice with `<` on the keys does.
use mathlib.Core.Logic.{inl, inr}
use mathlib.Core.List.{List, [], ◌∷◌, Memᴰ}
use native.Mathlib.Omega.{arith}
use gokaf.Base.Tests.{if◌then◌else◌, Bool-cases}
use gokaf.Base.Lists.{All}
use gokaf.Base.Int.{ℤ, leb_ℤ, ◌≤ℤ◌}

module _ {A : Type 0} (key : A → ℤ) where
  unfoldable pub insert_sorted : A → List A → List A
  insert_sorted x [] = x ∷ []
  insert_sorted x (y ∷ ys) =
      let rest = insert_sorted x ys in if leb_ℤ (key x) (key y) then x ∷ y ∷ ys else y ∷ rest

  unfoldable pub sort_by : List A → List A
  sort_by [] = []
  sort_by (x ∷ xs) = insert_sorted x (sort_by xs)

  abbrev pub IsSorted : List A → Type 0
  IsSorted [] = Unit {0}
  IsSorted (x ∷ xs) = All (λ y. key x ≤ℤ key y) xs × IsSorted xs

  pub All-insert_sorted :
      (P : A → Type 0) (x : A) (ys : List A) → P x → All P ys → All P (insert_sorted x ys)
  unfolding insert_sorted
  All-insert_sorted P x [] h hs = (h, tt)
  All-insert_sorted P x (y ∷ ys) h hs = elim (Bool-cases (leb_ℤ (key x) (key y))) [
    | inl p ↦ rw p (h, hs)
    | inr p ↦ rw p (hs.0, All-insert_sorted P x ys h hs.1)
  ]

  pub All-sort_by : (P : A → Type 0) (xs : List A) → All P xs → All P (sort_by xs)
  unfolding sort_by
  All-sort_by P [] h = tt
  All-sort_by P (x ∷ xs) h = All-insert_sorted P x (sort_by xs) h.0 (All-sort_by P xs h.1)

  Mem-insert_sorted : (z x : A) (ys : List A) → Memᴰ z (x ∷ ys) → Memᴰ z (insert_sorted x ys)
  unfolding insert_sorted
  Mem-insert_sorted z x [] h = h
  Mem-insert_sorted z x (y ∷ ys) h = elim (Bool-cases (leb_ℤ (key x) (key y))) [
    | inl p ↦ rw p h
    | inr p ↦ rw p (elim h [
      | Memᴰ.head e ↦ Memᴰ.tail (Mem-insert_sorted z x ys (Memᴰ.head e))
      | Memᴰ.tail (Memᴰ.head e) ↦ Memᴰ.head e
      | Memᴰ.tail (Memᴰ.tail m) ↦ Memᴰ.tail (Mem-insert_sorted z x ys (Memᴰ.tail m))
    ])
  ]

  -- Sorting loses nothing.
  pub Mem-sort_by : (z : A) (xs : List A) → Memᴰ z xs → Memᴰ z (sort_by xs)
  unfolding sort_by
  Mem-sort_by z [] m = m
  Mem-sort_by z (x ∷ xs) (Memᴰ.head e) = Mem-insert_sorted z x (sort_by xs) (Memᴰ.head e)
  Mem-sort_by z (x ∷ xs) (Memᴰ.tail m) =
      Mem-insert_sorted z x (sort_by xs) (Memᴰ.tail (Mem-sort_by z xs m))

  below-All : (a b : ℤ) (ys : List A) → a ≤ℤ b → All (λ y. b ≤ℤ key y) ys → All (λ y. a ≤ℤ key y) ys
  below-All a b [] h hs = tt
  below-All a b (y ∷ ys) h hs = (omega (arith, h, hs.0), below-All a b ys h hs.1)

  insert_sorted-IsSorted : (x : A) (ys : List A) → IsSorted ys → IsSorted (insert_sorted x ys)
  unfolding insert_sorted
  insert_sorted-IsSorted x [] h = (tt, tt)
  insert_sorted-IsSorted x (y ∷ ys) h = elim (Bool-cases (leb_ℤ (key x) (key y))) [
    | inl p ↦ rw p ((ground arith, below-All (key x) (key y) ys (ground arith) h.0), h)
    | inr p ↦ rw p (
      All-insert_sorted (λ z. key y ≤ℤ key z) x ys (ground arith) h.0,
      insert_sorted-IsSorted x ys h.1,
    )
  ]

  pub sort_by-IsSorted : (xs : List A) → IsSorted (sort_by xs)
  unfolding sort_by
  sort_by-IsSorted [] = tt
  sort_by-IsSorted (x ∷ xs) = insert_sorted-IsSorted x (sort_by xs) (sort_by-IsSorted xs)
