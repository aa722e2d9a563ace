-- ===== src/Assignor/Balance.antt =====
-- What Range gives the members of a topic: shares that follow each other and differ by one at most.
use gokaf.Base.{
  ℕ, zero, suc, ◌+◌, ◌-◌, ◌*◌, ◌/◌, ◌%◌, ◌^◌, ◌≤◌, ◌<◌, ◌≡◌, ◌⊎◌, inl, inr, refl, sym, ap, ◌∙◌,
  List, [], ◌∷◌, ◌++◌, Option, none, some, ℤ, pos, ◌+ℤ◌, ◌-ℤ◌, wrap32, eq_ℤ, ltb_ℤ, ltb, true,
  false, Bool-cases, if◌then◌else◌, length, All, arith,
}
use gokaf.Base.Map.{lookup, insert}
use mathlib.Core.Option
use native.Mathlib.Nat.{mod-lt, div-add-mod}
use gokaf.Assignor.Strategies.{
  Name, Name-discrete, Assignments, or_empty, count_up, contiguous_partitions, range_members,
  range_topic,
}

-- How many partitions the member at the place `i` gets.
abbrev pub share_size : ℕ → ℕ → ℕ → ℕ
share_size q e i = if ltb i e then suc q else q

-- The members' shares, from the place `i` and the partition `c` on.
abbrev pub shares : ℕ → ℕ → ℕ → ℕ → List Name → List (Name × List ℤ)
shares q e i c [] = []
shares q e i c (m ∷ ms) =
    (m, count_up (share_size q e i) (pos c)) ∷ shares q e (suc i) (c + share_size q e i) ms

abbrev give : Name → Name → List ℤ → Assignments → Assignments
give topic m ps given =
    insert Name-discrete m
      (or_empty (lookup Name-discrete m given) ++ (record { topic = topic; partitions = ps } ∷ []))
      given

-- The assignments with the shares behind what the members have; an empty share leaves no trace.
abbrev pub dealt : Name → List (Name × List ℤ) → Assignments → Assignments
dealt topic [] given = given
dealt topic ((m, []) ∷ ss) given = dealt topic ss given
dealt topic ((m, p ∷ ps) ∷ ss) given = dealt topic ss (give topic m (p ∷ ps) given)

abbrev pub names_of : List (Name × List ℤ) → List Name
names_of [] = []
names_of (s ∷ ss) = s.0 ∷ names_of ss

abbrev pub all_of : List (Name × List ℤ) → List ℤ
all_of [] = []
all_of (s ∷ ss) = s.1 ++ all_of ss

total : ℕ → ℕ → ℕ → ℕ → ℕ
total q e i zero = 0
total q e i (suc n) = share_size q e i + total q e (suc i) n

next32 : (c : ℕ) → suc c < 2 ^ 31 → wrap32 (pos c +ℤ pos 1) ≡ pos (suc c)
next32 c h = ground arith

count_up-append :
    (a b c : ℕ)
    → c + (a + b) < 2 ^ 31
    → count_up (a + b) (pos c) ≡ count_up a (pos c) ++ count_up b (pos (c + a))
unfolding count_up
count_up-append zero b c h =
    ap (λ n. count_up n (pos c)) (omega arith) ∙ ap (λ k. count_up b (pos k)) (omega arith)
count_up-append (suc a) b c h =
    ap (λ n. count_up n (pos c)) (suc-add a b)
    ∙ ap (◌∷◌ (pos c)) (
        ap (count_up (a + b)) (next32 c (omega (arith, h)))
        ∙ count_up-append a b (suc c) (omega (arith, h))
        ∙ ap (λ xs. count_up a (pos (suc c)) ++ xs) (ap (λ k. count_up b (pos k)) (omega arith))
        ∙ ap (λ k. count_up a k ++ count_up b (pos (c + suc a)))
            (sym (next32 c (omega (arith, h)))))
  where
    suc-add : (x y : ℕ) → suc x + y ≡ suc (x + y)
    suc-add x y = omega arith

all_of-shares :
    (q e i c : ℕ) (ms : List Name)
    → c + total q e i (length ms) < 2 ^ 31
    → all_of (shares q e i c ms) ≡ count_up (total q e i (length ms)) (pos c)
unfolding total count_up
all_of-shares q e i c [] h = refl
all_of-shares q e i c (m ∷ ms) h =
    ap (λ xs. count_up (share_size q e i) (pos c) ++ xs)
      (all_of-shares q e (suc i) (c + share_size q e i) ms (omega (arith, h)))
    ∙ sym (count_up-append (share_size q e i) (total q e (suc i) (length ms)) c h)

names_of-shares : (q e i c : ℕ) (ms : List Name) → names_of (shares q e i c ms) ≡ ms
names_of-shares q e i c [] = refl
names_of-shares q e i c (m ∷ ms) =
    ap (◌∷◌ m) (names_of-shares q e (suc i) (c + share_size q e i) ms)

length-count_up : (n : ℕ) (c : ℤ) → length (count_up n c) ≡ n
unfolding count_up
length-count_up zero c = refl
length-count_up (suc n) c = omega (arith, length-count_up n (wrap32 (c +ℤ pos 1)))

abbrev pub IsFair : ℕ → Name × List ℤ → Type 0
IsFair q s = (length s.1 ≡ q) ⊎ (length s.1 ≡ suc q)

shares-IsFair : (q e i c : ℕ) (ms : List Name) → All (IsFair q) (shares q e i c ms)
shares-IsFair q e i c [] = tt
shares-IsFair q e i c (m ∷ ms) = (fair, shares-IsFair q e (suc i) (c + share_size q e i) ms)
  where
    fair : IsFair q (m, count_up (share_size q e i) (pos c))
    fair = elim (Bool-cases (ltb i e)) [
      | inl p ↦ inr (length-count_up (share_size q e i) (pos c) ∙ rw p refl)
      | inr p ↦ inl (length-count_up (share_size q e i) (pos c) ∙ rw p refl)
    ]

add-mul : (n q : ℕ) → suc n * q ≡ q + n * q
add-mul n q = grind arith

total-sum : (q e i n : ℕ) → e ≤ i + n → total q e i n ≡ n * q + (e - i)
unfolding total
total-sum q e i zero h = omega arith
total-sum q e i (suc n) h = elim (Bool-cases (ltb i e)) [
  | inl p ↦ rw p (
      omega
        (arith, gokaf.Base.ltb→lt i e p, add-mul n q, total-sum q e (suc i) n (omega (arith, h))))
  | inr p ↦
      rw p (omega (arith, not_less i e p, add-mul n q, total-sum q e (suc i) n (omega (arith, h))))
]
  where
    not_less : (a b : ℕ) → ltb a b ≡ false → b ≤ a
    not_less a b r = ground arith

end-eq : (c k : ℕ) → c + k < 2 ^ 31 → wrap32 (pos c +ℤ pos k) ≡ pos (c + k)
end-eq c k h = ground arith

size-eq : (c k : ℕ) → c + k < 2 ^ 31 → wrap32 (pos (c + k) -ℤ pos c) ≡ pos k
size-eq c k h = ground arith

not_less_zero : (k : ℕ) → ltb_ℤ (pos k) (pos 0) ≡ false
not_less_zero k = ground arith

not_zero : (k : ℕ) → eq_ℤ (pos (suc k)) (pos 0) ≡ false
not_zero k = ground arith

add_zero : (k : ℕ) → k + 0 ≡ k
add_zero k = omega arith

ltb_ℤ-pos : (i e : ℕ) → ltb_ℤ (pos i) (pos e) ≡ ltb i e
ltb_ℤ-pos i e = rw (add_zero i, add_zero e) refl

contiguous_partitions-count_up :
    (c k : ℕ)
    → c + k < 2 ^ 31
    → contiguous_partitions (pos c) (pos (c + k)) ≡ some (count_up k (pos c))
unfolding contiguous_partitions
contiguous_partitions-count_up c k h = rw (size-eq c k h, not_less_zero k) refl

-- One member's round, where `next` is the rest of the loop.
round_of :
    (topic m : Name) (c k : ℕ) (ss : List (Name × List ℤ)) (given : Assignments)
    (next : ℤ → Assignments → Option Assignments)
    → c + k < 2 ^ 31
    → ((given' : Assignments) → next (pos (c + k)) given' ≡ some (dealt topic ss given'))
    → (if eq_ℤ (pos k) (pos 0)
        then next (pos c) given
        else Option.bind
            (contiguous_partitions (pos c) (wrap32 (pos c +ℤ pos k)))
            (λ ps. next (wrap32 (pos c +ℤ pos k)) (give topic m ps given)))
      ≡ some (dealt topic ((m, count_up k (pos c)) ∷ ss) given)
unfolding count_up Option.bind
round_of topic m c zero ss given next h rest =
    ap (λ n. next (pos n) given) (omega arith) ∙ rest given
round_of topic m c (suc k) ss given next h rest =
    rw (not_zero k, end-eq c (suc k) h, contiguous_partitions-count_up c (suc k) h)
      (rest (give topic m _ given))

-- The count of a round is the member's share.
count-eq :
    (q e i : ℕ)
    → share_size q e i < 2 ^ 31
    → (if ltb_ℤ (pos i) (pos e) then wrap32 (pos q +ℤ pos 1) else pos q) ≡ pos (share_size q e i)
count-eq q e i h = elim (Bool-cases (ltb i e)) [
  | inl p ↦ rw (ltb_ℤ-pos i e, p) (next32 q (small p))
  | inr p ↦ rw (ltb_ℤ-pos i e, p) refl
]
  where
    small : ltb i e ≡ true → suc q < 2 ^ 31
    small p = rw p at h

range_members-dealt :
    (topic : Name) (q e i c : ℕ) (ms : List Name) (given : Assignments)
    → c + total q e i (length ms) < 2 ^ 31
    → range_members topic (pos q) (pos e) i (pos c) ms given
      ≡ some (dealt topic (shares q e i c ms) given)
unfolding range_members total
range_members-dealt topic q e i c [] given h = refl
range_members-dealt topic q e i c (m ∷ ms) given h = rw (count-eq q e i (omega (arith, h))) (
    round_of topic m c (share_size q e i) (shares q e (suc i) (c + share_size q e i) ms) given
      (λ cursor given'. range_members topic (pos q) (pos e) (suc i) cursor ms given')
      (omega (arith, h))
      (λ given'.
        range_members-dealt topic q e (suc i) (c + share_size q e i) ms given' (omega (arith, h))))

-- `Range` deals out a topic in shares, one for each member in the order of the members: a member's share
-- has the quotient of partitions and members as its length, or one more, and one behind the other they
-- are all the partitions from 0 on; each share goes behind what its member had, and `make` is never
-- called with a negative capacity. There is a member, and fewer than 2^31 partitions.
pub range_topic-IsFair :
    (topic : Name) (count : ℕ) (m : Name) (ms : List Name) (given : Assignments)
    → count < 2 ^ 31
    → (ss : List (Name × List ℤ)) × (range_topic topic (pos count) (m ∷ ms) given
        ≡ some (dealt topic ss given))
      × (names_of ss ≡ m ∷ ms)
      × (all_of ss ≡ count_up count (pos 0))
      × All (IsFair (count / suc (length ms))) ss
range_topic-IsFair topic count m ms given h =
    let n = suc (length ms) in
    (
      shares (count / n) (count % n) 0 0 (m ∷ ms),
      range_members-dealt topic (count / n) (count % n) 0 0 (m ∷ ms) given
          (omega (arith, h, whole)),
      names_of-shares (count / n) (count % n) 0 0 (m ∷ ms),
      all_of-shares (count / n) (count % n) 0 0 (m ∷ ms) (omega (arith, h, whole))
          ∙ ap (λ k. count_up k (pos 0)) whole,
      shares-IsFair (count / n) (count % n) 0 0 (m ∷ ms),
    )
  where
    whole : total (count / suc (length ms)) (count % suc (length ms)) 0 (suc (length ms)) ≡ count
    whole =
        total-sum (count / suc (length ms)) (count % suc (length ms)) 0 (suc (length ms))
          (omega (arith, mod-lt count {m = suc (length ms)} (omega arith)))
        ∙ omega (arith, div-add-mod count (suc (length ms)))
