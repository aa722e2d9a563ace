-- ===== src/Network/Topics/Creation.antt =====
-- Creating a topic: the partitions that it gets.
use gokaf.Base.{
  ℕ, zero, suc, ◌≤◌, ◌<◌, ◌≡◌, refl, ap, ◌∙◌, List, [], ◌∷◌, Option, some, ℤ, pos, negsuc, leb_ℤ,
  ltb_ℤ, if◌then◌else◌, none, ◌||◌, Bool, true, false, Bool-cases, inl, inr, length, get_elem?, All,
  arith,
}
use mathlib.Core.Option
use gokaf.Topic.Registry.{Partition}
use gokaf.Topic.Assign.{assign_replicas-IsRow}
use gokaf.Network.Handler.{Broker, Env}
use gokaf.Network.Topics.{broker_ids, partitions_from, new_partitions, create_topic}

-- A new partition: its id, and replicas of the wanted number that are all in sync and led by the first.
pub record IsNew (at factor : ℕ) (p : Partition) : Type 0 where
  pub id : p.id ≡ pos at
  pub replicas : length p.replicas ≡ factor
  pub isr : p.isr ≡ p.replicas
  pub leader : (others : List ℤ) × (p.replicas ≡ p.leader ∷ others)

-- Partitions with the ids from `from` on.
abbrev pub AllNew : ℕ → ℕ → List Partition → Type 0
AllNew from factor [] = Unit {0}
AllNew from factor (p ∷ ps) = IsNew from factor p × AllNew (suc from) factor ps

HasRows : ℕ → ℕ → List (List ℤ) → Type 0
HasRows count factor rows = (length rows ≡ count) × All (λ row. length row ≡ factor) rows

Made : ℕ → ℕ → ℕ → Option (List Partition) → Type 0
Made from count factor made =
    (ps : List Partition) × (made ≡ some ps) × (length ps ≡ count) × AllNew from factor ps

partitions_from-Made :
    (from count factor : ℕ) (rows : List (List ℤ))
    → 0 < factor
    → length rows ≡ count
    → All (λ row. length row ≡ factor) rows
    → Made from count factor (partitions_from from count rows)
unfolding partitions_from Made
partitions_from-Made from zero factor rows hf hl h = ([], refl, refl, tt)
partitions_from-Made from (suc count) factor [] hf hl h = absurd (omega (arith, hl))
partitions_from-Made from (suc count) factor ([] ∷ rows) hf hl h = absurd (omega (arith, hf, h.0))
partitions_from-Made from (suc count) factor ((leader ∷ others) ∷ rows) hf hl h =
    let more = partitions_from-Made (suc from) count factor rows hf (omega (arith, hl)) h.1 in
    let p : Partition = record {
      id = pos from;
      leader = leader;
      replicas = leader ∷ others;
      isr = leader ∷ others;
    } in
    (
      p ∷ more.0,
      ap (Option.map (λ ps. p ∷ ps)) more.1,
      omega (arith, more.2),
      (record { id = refl; replicas = h.0; isr = refl; leader = (others, refl) }, more.3),
    )

-- Elements that are all found in a list by their places.
All-places :
    (n : ℕ) (rows : List (List ℤ))
    → ((i : ℕ)
        → i < length rows
        → (row : List ℤ) × (get_elem? rows i ≡ some row) × (length row ≡ n))
    → All (λ row. length row ≡ n) rows
All-places n [] h = tt
All-places n (row ∷ rows) h =
    let first = h 0 (omega arith) in
    (
      ap length (some-inj (first.1)) ∙ first.2,
      All-places n rows (λ i l. h (suc i) (omega (arith, l))),
    )
  where
    some-inj : {x y : List ℤ} → Path (Option (List ℤ)) (some x) (some y) → x ≡ y
    some-inj e = cc e

not_negative : (n : ℕ) → ltb_ℤ (pos n) (pos 0) ≡ false
not_negative n = ground arith

-- A new topic gets as many partitions as were asked for, with ids from 0 on, of which each has the wanted
-- number of replicas, all of them in sync, and the first as its leader; no index is out of range. The
-- count and the replication factor are positive, and there is a broker.
pub new_partitions-AllNew :
    (count factor : ℕ) (ids : List ℤ)
    → 0 < count
    → 0 < factor
    → 0 < length ids
    → (ps : List Partition) × (new_partitions (pos count) ids (pos factor) ≡ some ps)
      × (length ps ≡ count)
      × AllNew 0 factor ps
unfolding new_partitions Made Option.bind
new_partitions-AllNew count factor ids hc hf hi =
    let assigned = assign_replicas-IsRow count factor ids hc hf hi in
    let made = partitions_from-Made 0 count factor assigned.0 hf assigned.2 (
      All-places factor assigned.0 (λ i l.
        let row = assigned.3 i (omega (arith, l, assigned.2)) in (row.0, row.1, row.2.0))) in
    (
      made.0,
      ap
            (λ rows.
              Option.bind rows
                (λ rs. if ltb_ℤ (pos count) (pos 0) then none else partitions_from 0 count rs))
            assigned.1
          ∙ rw (not_negative count) made.1,
      made.2,
      made.3,
    )

not-positive : (n : ℕ) → leb_ℤ (pos n) (pos 0) ≡ false → 0 < n
not-positive n h = ground arith

or-false : (a b : Bool) → (a || b) ≡ false → (a ≡ false) × (b ≡ false)
or-false true b h = (h, absurd (true-false h))
  where
    true-false : ¬ Path Bool true false
    true-false p = cc p
or-false false b h = (refl, h)

enough : (n k : ℕ) → ltb_ℤ (pos n) (pos k) ≡ false → k ≤ n
enough n k h = ground arith

-- Counts that pass the tests of `createTopic`.
tested :
    (count factor : ℤ) (ids : List ℤ)
    → leb_ℤ count (pos 0) ≡ false
    → (leb_ℤ factor (pos 0) || ltb_ℤ (pos (length ids)) factor) ≡ false
    → (ps : List Partition) × (new_partitions count ids factor ≡ some ps)
tested (negsuc n) factor ids hc hf = absurd (ground arith)
tested (pos n) (negsuc k) ids hc hf = absurd (ground arith)
tested (pos n) (pos k) ids hc hf =
    let tests = or-false (leb_ℤ (pos k) (pos 0)) (ltb_ℤ (pos (length ids)) (pos k)) hf in
    let made =
      new_partitions-AllNew n k ids (not-positive n hc) (not-positive k tests.0)
        (omega (arith, not-positive k tests.0, enough (length ids) k tests.1)) in
    (made.0, made.1)

answered :
    (made : Option (List Partition)) (ps : List Partition) (f : List Partition → Broker × ℤ)
    → made ≡ some ps
    → (r : Broker × ℤ) × (Option.map f made ≡ some r)
answered made ps f e = (f ps, ap (Option.map f) e)

-- `createTopic` never panics, whatever counts a request asks for: it answers a code for all of them.
pub create_topic-answers :
    (env : Env) (name : List ℕ) (count factor : ℤ) (fan_out : Bool) (b : Broker)
    → (r : Broker × ℤ) × (create_topic env name count factor fan_out b ≡ some r)
unfolding create_topic
create_topic-answers env name count factor fan_out b = elim (Bool-cases (leb_ℤ count (pos 0))) [
  | inl p ↦ rw p ((b, _), refl)
  | inr p ↦ elim (Bool-cases (leb_ℤ factor (pos 0) || ltb_ℤ (pos (length (broker_ids b))) factor)) [
    | inl q ↦ rw (p, q) ((b, _), refl)
    | inr q ↦
        rw (p, q) (let made = tested count factor (broker_ids b) p q in answered _ made.0 _ made.1)
  ]
]
