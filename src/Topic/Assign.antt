-- ===== src/Topic/Assign.antt =====
-- internal/topic/assign.go: the replicas of every partition of a new topic.
use gokaf.Base.{
  ℕ, zero, suc, ◌+◌, ◌%◌, ◌≤◌, ◌<◌, ◌≡◌, ◌≢◌, refl, sym, ap, ◌∙◌, inl, inr, List, [], ◌∷◌, Option,
  some, ℤ, pos, pos_part, leb_ℤ, Bool-cases, false, ◌||◌, ◌==◌, if◌then◌else◌, ltb, ◌⊎◌, ◌-◌,
  length, get_elem?, All, arith,
}
use mathlib.Core.Option
use mathlib.Core.List.{Memᴰ}
use mathlib.Core.Path.{subst}
use native.Mathlib.Nat.{mod-lt, mod-add-mod, mod-eq_of_lt, mod-eq-sub-mod}

-- The loop over `replica`, from `from` on, of a partition that starts at the broker of index `start`;
-- `none` is an index out of range.
unfoldable pub replica_row : List ℤ → ℕ → ℕ → ℕ → Option (List ℤ)
replica_row brokers start zero from = some []
replica_row brokers start (suc n) from =
    Option.bind (get_elem? brokers ((start + from) % length brokers))
      λ broker. Option.map (λ row. broker ∷ row) (replica_row brokers start n (suc from))

-- The loop over `partition`, from `from` on.
unfoldable pub replica_rows : List ℤ → ℕ → ℕ → ℕ → Option (List (List ℤ))
replica_rows brokers rf zero from = some []
replica_rows brokers rf (suc n) from =
    Option.bind (replica_row brokers (from % length brokers) rf 0)
      λ row. Option.map (λ rows. row ∷ rows) (replica_rows brokers rf n (suc from))

unfoldable pub assign_replicas : ℤ → List ℤ → ℤ → Option (List (List ℤ))
assign_replicas count brokers rf =
    if leb_ℤ count (pos 0) || length brokers == 0 || leb_ℤ rf (pos 0)
    then some []
    else replica_rows brokers (pos_part rf) (pos_part count) 0

-- The row of the partition `i`: `rf` brokers, the `k`-th of them `k` places behind the broker of
-- index `i`, round the list.
abbrev pub IsRow : List ℤ → ℕ → ℕ → ℕ → List ℤ → Type 0
IsRow brokers i from n row =
    (length row ≡ n)
    × ((k : ℕ) → k < n → get_elem? row k ≡ get_elem? brokers ((i + (from + k)) % length brokers))

get_elem?-lt : (xs : List ℤ) (i : ℕ) (x : ℤ) → get_elem? xs i ≡ some x → i < length xs
get_elem?-lt [] i x h = cc h
get_elem?-lt (y ∷ ys) zero x h = omega arith
get_elem?-lt (y ∷ ys) (suc i) x h = omega (arith, get_elem?-lt ys i x h)

get_elem?-some : (xs : List ℤ) (i : ℕ) → i < length xs → (x : ℤ) × (get_elem? xs i ≡ some x)
get_elem?-some [] i h = absurd (omega (arith, h))
get_elem?-some (x ∷ xs) zero h = (x, refl)
get_elem?-some (x ∷ xs) (suc i) h = get_elem?-some xs i (omega (arith, h))

replica_row-IsRow :
    (brokers : List ℤ) (i n from : ℕ)
    → 0 < length brokers
    → (row : List ℤ) × (replica_row brokers (i % length brokers) n from ≡ some row)
      × IsRow brokers i from n row
unfolding replica_row Option.bind Option.map
replica_row-IsRow brokers i zero from h = ([], refl, (refl, λ k l. absurd (omega (arith, l))))
replica_row-IsRow brokers i (suc n) from h =
    let first =
      get_elem?-some brokers ((i % length brokers + from) % length brokers) (mod-lt _ h) in
    let rest = replica_row-IsRow brokers i n (suc from) h in
    (
      first.0 ∷ rest.0,
      rw (first.1, rest.1) refl,
      (ap suc rest.2.0, places first.0 first.1 rest.0 rest.2.1),
    )
  where
    places :
        (b : ℤ)
        → get_elem? brokers ((i % length brokers + from) % length brokers) ≡ some b
        → (row : List ℤ)
        → ((k : ℕ)
            → k < n
            → get_elem? row k ≡ get_elem? brokers ((i + (suc from + k)) % length brokers))
        → (k : ℕ) → k < suc n
        → get_elem? (b ∷ row) k ≡ get_elem? brokers ((i + (from + k)) % length brokers)
    places b e row f zero l =
        sym e
        ∙ ap (get_elem? brokers) (mod-add-mod i (length brokers) from)
        ∙ ap (λ j. get_elem? brokers ((i + j) % length brokers)) (omega arith)
    places b e row f (suc k) l =
        f k (omega (arith, l))
        ∙ ap (λ j. get_elem? brokers ((i + j) % length brokers)) (omega arith)

replica_rows-IsRow :
    (brokers : List ℤ) (rf n from : ℕ)
    → 0 < length brokers
    → (rows : List (List ℤ)) × (replica_rows brokers rf n from ≡ some rows)
      × (length rows ≡ n)
      × ((i : ℕ)
          → i < n
          → (row : List ℤ) × (get_elem? rows i ≡ some row) × IsRow brokers (from + i) 0 rf row)
unfolding replica_rows Option.bind Option.map
replica_rows-IsRow brokers rf zero from h = ([], refl, refl, λ i l. absurd (omega (arith, l)))
replica_rows-IsRow brokers rf (suc n) from h =
    let first = replica_row-IsRow brokers from rf 0 h in
    let rest = replica_rows-IsRow brokers rf n (suc from) h in
    (
      first.0 ∷ rest.0,
      rw (first.1, rest.1) refl,
      ap suc rest.2,
      places first.0 first.2 rest.0 rest.3,
    )
  where
    places :
        (r : List ℤ)
        → IsRow brokers from 0 rf r
        → (rows : List (List ℤ))
        → ((i : ℕ)
            → i < n
            → (row : List ℤ) × (get_elem? rows i ≡ some row)
              × IsRow brokers (suc from + i) 0 rf row)
        → (i : ℕ) → i < suc n
        → (row : List ℤ) × (get_elem? (r ∷ rows) i ≡ some row) × IsRow brokers (from + i) 0 rf row
    places r hr rows f zero l = (r, refl, subst (λ j. IsRow brokers j 0 rf r) (omega arith) hr)
    places r hr rows f (suc i) l =
        let found = f i (omega (arith, l)) in
        (found.0, found.1, subst (λ j. IsRow brokers j 0 rf found.0) (omega arith) found.2)

-- With a positive count, a positive replication factor and at least one broker, no index is out of
-- range, there is a row for every partition, and the row of partition `i` has `rf` brokers, of which the
-- `k`-th is the broker of index `i + k`, round the list; so the leader is that of index `i`.
pub assign_replicas-IsRow :
    (count rf : ℕ) (brokers : List ℤ)
    → 0 < count
    → 0 < rf
    → 0 < length brokers
    → (rows : List (List ℤ)) × (assign_replicas (pos count) brokers (pos rf) ≡ some rows)
      × (length rows ≡ count)
      × ((i : ℕ)
          → i < count
          → (row : List ℤ) × (get_elem? rows i ≡ some row) × IsRow brokers i 0 rf row)
unfolding assign_replicas
assign_replicas-IsRow count rf brokers hc hr hb =
    rw (positive count hc, positive rf hr, some-broker)
      (from_zero (replica_rows-IsRow brokers rf count 0 hb))
  where
    from_zero :
        {P : List (List ℤ) → Type 0}
        → (rows : List (List ℤ)) × P rows
          × (length rows ≡ count)
          × ((i : ℕ)
              → i < count
              → (row : List ℤ) × (get_elem? rows i ≡ some row) × IsRow brokers (0 + i) 0 rf row)
        → (rows : List (List ℤ)) × P rows
          × (length rows ≡ count)
          × ((i : ℕ)
              → i < count
              → (row : List ℤ) × (get_elem? rows i ≡ some row) × IsRow brokers i 0 rf row)
    from_zero found = (
      found.0,
      found.1,
      found.2,
      λ i h.
          subst (λ j. (row : List ℤ) × (get_elem? found.0 i ≡ some row) × IsRow brokers j 0 rf row)
            (omega arith) (found.3 i h),
    )

    positive : (n : ℕ) → 0 < n → leb_ℤ (pos n) (pos 0) ≡ false
    positive n h = ground arith

    some-broker : (length brokers == 0) ≡ false
    some-broker = ground arith

around : (s c n : ℕ) → s < n → c < n → ((s + c) % n ≡ s + c) ⊎ ((s + c) % n + n ≡ s + c)
around s c n h k = elim (Bool-cases (ltb (s + c) n)) [
  | inl p ↦ inl (mod-eq_of_lt (ground arith))
  | inr p ↦ inr (behind (ground arith))
]
  where
    back : n ≤ s + c → (s + c) % n ≡ s + c - n
    back l = mod-eq-sub-mod l ∙ mod-eq_of_lt (omega (arith, h, k, l))

    behind : n ≤ s + c → (s + c) % n + n ≡ s + c
    behind l = omega (arith, l, back l)

-- Two places less than the length apart are different round the list.
mod-apart : (i a b n : ℕ) → a < b → b < n → (i + a) % n ≢ (i + b) % n
mod-apart i a b n h k e = elim (around (i % n) a n first (omega (arith, h, k))) [
  | inl p ↦ elim (around (i % n) b n first k) [
    | inl q ↦ omega (arith, p, q, same, h)
    | inr q ↦ omega (arith, p, q, same, h, k)
  ]
  | inr p ↦ elim (around (i % n) b n first k) [
    | inl q ↦ omega (arith, p, q, same, h, first, k)
    | inr q ↦ omega (arith, p, q, same, h, k)
  ]
]
  where
    first : i % n < n
    first = mod-lt i {m = n} (omega (arith, k))

    same : (i % n + a) % n ≡ (i % n + b) % n
    same = mod-add-mod i n a ∙ e ∙ sym (mod-add-mod i n b)

-- No broker is listed twice.
abbrev pub Distinct : List ℤ → Type 0
Distinct xs = (a b : ℕ) → a < length xs → b < length xs → get_elem? xs a ≡ get_elem? xs b → a ≡ b

-- If no broker is listed twice and the replication factor is at most the number of brokers, the
-- replicas of a partition are on different brokers.
row-Distinct :
    (brokers : List ℤ) (i n : ℕ) (row : List ℤ)
    → Distinct brokers
    → n ≤ length brokers
    → IsRow brokers i 0 n row
    → Distinct row
row-Distinct brokers i n row d l r a b h k e = elim (Bool-cases (ltb a b)) [
  | inl p ↦
      absurd (mod-apart i a b (length brokers) (ground arith) (omega (arith, k, l, r.0)) places)
  | inr p ↦ elim (Bool-cases (ltb b a)) [
    | inl q ↦
        absurd
          (mod-apart i b a (length brokers) (ground arith) (omega (arith, h, l, r.0)) (sym places))
    | inr q ↦ ground arith
  ]
]
  where
    size : 0 < length brokers
    size = omega (arith, h, l, r.0)

    place :
        (c : ℕ) → c < length row → get_elem? row c ≡ get_elem? brokers ((i + c) % length brokers)
    place c f =
        r.1 c (omega (arith, f, r.0))
        ∙ ap (λ j. get_elem? brokers ((i + j) % length brokers)) (omega arith)

    places : (i + a) % length brokers ≡ (i + b) % length brokers
    places =
        d ((i + a) % length brokers) ((i + b) % length brokers) (mod-lt (i + a) size)
          (mod-lt (i + b) size) (sym (place a h) ∙ e ∙ place b k)

get_elem?-Mem : (xs : List ℤ) (i : ℕ) (x : ℤ) → get_elem? xs i ≡ some x → Memᴰ x xs
get_elem?-Mem [] i x h = cc h
get_elem?-Mem (y ∷ ys) zero x h = Memᴰ.head (cc h)
get_elem?-Mem (y ∷ ys) (suc i) x h = Memᴰ.tail (get_elem?-Mem ys i x h)

All-places :
    (P : ℤ → Type 0) (xs : List ℤ) → ((i : ℕ) (x : ℤ) → get_elem? xs i ≡ some x → P x) → All P xs
All-places P [] h = tt
All-places P (x ∷ xs) h = (h 0 x refl, All-places P xs (λ i y e. h (suc i) y e))

-- The replicas of a row are brokers of the list.
row-All :
    (brokers : List ℤ) (i from n : ℕ) (row : List ℤ)
    → 0 < length brokers
    → IsRow brokers i from n row
    → All (λ id. Memᴰ id brokers) row
row-All brokers i from n row h r =
    All-places (λ id. Memᴰ id brokers) row
      (λ k id e.
        get_elem?-Mem brokers ((i + (from + k)) % length brokers) id
          (sym (r.1 k (omega (arith, r.0, get_elem?-lt row k id e))) ∙ e))

-- With a positive count and replication factor, and distinct brokers that are at least as many as the
-- replication factor, there is a row for every partition, and the row of partition `i` has `rf` different
-- brokers of the list: the `k`-th of them is the broker of index `i + k`, round the list.
pub assign_replicas-Distinct :
    (count rf : ℕ) (brokers : List ℤ)
    → 0 < count
    → 0 < rf
    → rf ≤ length brokers
    → Distinct brokers
    → (rows : List (List ℤ)) × (assign_replicas (pos count) brokers (pos rf) ≡ some rows)
      × (length rows ≡ count)
      × ((i : ℕ)
          → i < count
          → (row : List ℤ) × (get_elem? rows i ≡ some row)
            × IsRow brokers i 0 rf row
            × All (λ id. Memᴰ id brokers) row
            × Distinct row)
assign_replicas-Distinct count rf brokers hc hr hb d =
    let found = assign_replicas-IsRow count rf brokers hc hr (omega (arith, hr, hb)) in
    (
      found.0,
      found.1,
      found.2,
      λ i h.
          let at = found.3 i h in
          (
            at.0,
            at.1,
            at.2,
            row-All brokers i 0 rf at.0 (omega (arith, hr, hb)) at.2,
            row-Distinct brokers i rf at.0 d hb at.2,
          ),
    )
