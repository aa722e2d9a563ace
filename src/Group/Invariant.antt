-- ===== src/Group/Invariant.antt =====
-- What holds of every group between two operations: the map of members and the order of joining
-- name the same ids.
use gokaf.Base.{
  ℕ, ◌+◌, ◌≡◌, ◌≢◌, refl, sym, ap, ◌∙◌, inl, inr, ◌↔◌, List, [], ◌∷◌, ◌++◌, Option, none, some,
  Bool, true, false, Bool-cases, arith,
}
use gokaf.Base.Map.{
  lookup, insert, remove, lookup-insert_self, lookup-insert_ne, lookup-remove_self,
  lookup-remove_ne,
}
use mathlib.Core.Logic.{ite, if_neg}
use gokaf.Group.State.{Name, Name-discrete, is_name, Member, joined_order}
use gokaf.Group.Leaving.{without}

pub one_if : Bool → ℕ
one_if true = 1
one_if false = 0

-- How often the id stands in the order of joining.
unfoldable pub occurrences : Name → List Name → ℕ
occurrences id [] = 0
occurrences id (j ∷ js) = one_if (is_name j id) + occurrences id js

abbrev pub present {ℓ} : {V : Type ℓ} → Option V → ℕ
present none = 0
present (some v) = 1

-- The ids in the order of joining are the keys of the map, each once.
unfoldable pub Agree : List Name → List (Name × Member) → Type 0
Agree order members = (id : Name) → occurrences id order ≡ present (lookup Name-discrete id members)

pub occurrences-append :
    (id : Name) (xs ys : List Name)
    → occurrences id (xs ++ ys) ≡ occurrences id xs + occurrences id ys
unfolding occurrences
occurrences-append id [] ys = omega arith
occurrences-append id (x ∷ xs) ys = omega (arith, occurrences-append id xs ys)

pub occurrences-without_self : (id : Name) (xs : List Name) → occurrences id (without id xs) ≡ 0
unfolding occurrences without one_if
occurrences-without_self id [] = refl
occurrences-without_self id (x ∷ xs) = elim (Bool-cases (is_name x id)) [
  | inl p ↦ rw p (occurrences-without_self id xs)
  | inr p ↦ rw p (rw p (omega (arith, occurrences-without_self id xs)))
]

pub is_name_iff : (a b : Name) → (is_name a b ≡ true) ↔ (a ≡ b)
is_name_iff a b = elim (Name-discrete a b) as (λ d. (ite d true false ≡ true) ↔ (a ≡ b)) [
  | yes p ↦ (λ q. p, λ q. refl)
  | no p ↦ (λ q. cc q, λ q. absurd (p q))
]

is_name-ne : (x a b : Name) → a ≢ b → is_name x a ≡ true → is_name x b ≡ false
is_name-ne x a b h p = elim (Bool-cases (is_name x b)) [
  | inl q ↦ absurd (h (sym ((is_name_iff x a).0 p) ∙ (is_name_iff x b).0 q))
  | inr q ↦ q
]

pub occurrences-without_ne :
    (id j : Name) (xs : List Name) → id ≢ j → occurrences j (without id xs) ≡ occurrences j xs
unfolding occurrences without one_if
occurrences-without_ne id j [] h = refl
occurrences-without_ne id j (x ∷ xs) h = elim (Bool-cases (is_name x id)) [
  | inl p ↦ rw (p, is_name-ne x id j h p) (omega (arith, occurrences-without_ne id j xs h))
  | inr p ↦ rw p (ap (λ k. one_if (is_name x j) + k) (occurrences-without_ne id j xs h))
]

present-insert :
    (id j : Name) (m : Member) (members : List (Name × Member)) (order : List Name)
    (found : Option Member)
    → found ≡ lookup Name-discrete id members
    → occurrences j order ≡ present (lookup Name-discrete j members)
    → occurrences j (joined_order id found order)
      ≡ present (lookup Name-discrete j (insert Name-discrete id m members))
unfolding occurrences one_if
present-insert id j m members order (some n) e h = elim (Name-discrete id j) [
  | yes p ↦
      h
      ∙ ap (λ k. present (lookup Name-discrete k members)) (sym p)
      ∙ ap present (sym e)
      ∙ ap present (sym (lookup-insert_self Name-discrete id m members))
      ∙ ap (λ k. present (lookup Name-discrete k (insert Name-discrete id m members))) p
  | no p ↦ h ∙ ap present (sym (lookup-insert_ne Name-discrete id j m members p))
]
present-insert id j m members order none e h = elim (Name-discrete id j) [
  | yes p ↦ omega (
    arith,
    occurrences-append j order (id ∷ []),
    ap one_if ((is_name_iff id j).1 p),
    h,
    ap (λ k. present (lookup Name-discrete k members)) (sym p) ∙ ap present (sym e),
    ap (λ k. present (lookup Name-discrete k (insert Name-discrete id m members))) (sym p)
        ∙ ap present (lookup-insert_self Name-discrete id m members),
  )
  | no p ↦
      rw
        (
          occurrences-append j order (id ∷ []),
          if_neg (Name-discrete id j) p true false,
          lookup-insert_ne Name-discrete id j m members p,
        )
        (omega (arith, h))
]

-- A member that joins, new or not.
pub Agree-insert :
    (order : List Name) (members : List (Name × Member)) (id : Name) (m : Member)
    → Agree order members
    → Agree
        (joined_order id (lookup Name-discrete id members) order)
        (insert Name-discrete id m members)
unfolding Agree
Agree-insert order members id m h j =
    present-insert id j m members order (lookup Name-discrete id members) refl (h j)

pub Agree-remove :
    (order : List Name) (members : List (Name × Member)) (id : Name)
    → Agree order members
    → Agree (without id order) (remove Name-discrete id members)
unfolding Agree
Agree-remove order members id h j = elim (Name-discrete id j) [
  | yes p ↦
      ap (λ k. occurrences k (without id order)) (sym p)
      ∙ occurrences-without_self id order
      ∙ ap present (sym (lookup-remove_self Name-discrete id members))
      ∙ ap (λ k. present (lookup Name-discrete k (remove Name-discrete id members))) p
  | no p ↦
      occurrences-without_ne id j order p
      ∙ h j
      ∙ ap present (sym (lookup-remove_ne Name-discrete id j members p))
]

pub occurrences-head : (id : Name) (ids : List Name) → occurrences id (id ∷ ids) ≢ 0
unfolding occurrences one_if
occurrences-head id ids = omega (arith, ap one_if ((is_name_iff id id).1 refl))
