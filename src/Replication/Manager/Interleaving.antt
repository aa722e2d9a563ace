-- ===== src/Replication/Manager/Interleaving.antt =====
-- Calls of `StartFollowing` whose sections fall between each other's.
use gokaf.Base.{
  append-nil, ℕ, ◌≡◌, ◌≢◌, refl, sym, ap, ◌∙◌, List, [], ◌∷◌, none, some, ℤ, Option, inl, inr, All,
}
use mathlib.Core.Path.{subst}
use gokaf.Base.Map.{insert, remove, lookup, lookup-insert_self, lookup-remove_self}
use gokaf.Replication.PartitionState.{PartitionState, new_partition_state}
use gokaf.Storage.LogManager.{log_at}
use gokaf.Storage.LogManager
use gokaf.Topic.Registry.{Topic}
use gokaf.Cluster.Membership.{Broker, Membership}
use gokaf.Replication.Manager.{
  fetcher_of, stop_following_key, run_section, Tp-discrete, Tp, Manager, Section, stop, stop_each,
  take_lead, start_fetch, run_sections, lead_sections, follow_sections,
}
use gokaf.Replication.Manager.Plans.{Of, IsPlan, follow_sections-IsPlan}
use gokaf.Replication.Fetcher.{Fetcher}
use gokaf.Replication.Manager.Roles.{IsExclusive, IsOrdered, run_sections-IsExclusive}

-- The sections of the third list are those of the two others, each in its order.
pub data Interleaved : List Section → List Section → List Section → Type 0 where
  ended : Interleaved [] [] []
  left :
      {s : Section} {xs ys zs : List Section}
      → Interleaved xs ys zs
      → Interleaved (s ∷ xs) ys (s ∷ zs)
  right :
      {s : Section} {xs ys zs : List Section}
      → Interleaved xs ys zs
      → Interleaved xs (s ∷ ys) (s ∷ zs)

Interleaved-All :
    (P : Section → Type 0) {xs ys zs : List Section}
    → Interleaved xs ys zs
    → All P xs
    → All P ys
    → All P zs
Interleaved-All P ended hx hy = tt
Interleaved-All P (left i) hx hy = (hx.0, Interleaved-All P i hx.1 hy)
Interleaved-All P (right i) hx hy = (hy.0, Interleaved-All P i hx hy.1)

-- A section that is not of a partition of the topic.
abbrev NotOf : List ℕ → Section → Type 0
NotOf name (stop key) = key.topic ≢ name
NotOf name stop_each = Unit {0}
NotOf name (take_lead key replicas now) = key.topic ≢ name
NotOf name (start_fetch key leader) = key.topic ≢ name

-- Ordered runs stay ordered when they interleave, if one is of a topic that the other does not touch.
Interleaved-IsOrdered :
    (name : List ℕ) (hx hy h : Tp → Type 0) {xs ys zs : List Section}
    → Interleaved xs ys zs
    → All (Of name) xs
    → All (NotOf name) ys
    → ((k : Tp) → hx k → (k.topic ≡ name) × h k)
    → ((k : Tp) → hy k → (k.topic ≢ name) × h k)
    → IsOrdered hx xs
    → IsOrdered hy ys
    → IsOrdered h zs
Interleaved-IsOrdered name hx hy h ended ox oy fx fy rx ry = tt
Interleaved-IsOrdered name hx hy h (left {s = stop key} i) ox oy fx fy rx ry =
    Interleaved-IsOrdered name _ hy _ i ox.1 oy
      (λ k e. elim e [
        | inl p ↦ (ap Tp.topic (sym p) ∙ ox.0, inl p)
        | inr f ↦ ((fx k f).0, inr (fx k f).1)
      ])
      (λ k f. ((fy k f).0, inr (fy k f).1)) rx ry
Interleaved-IsOrdered name hx hy h (left {s = stop_each} i) ox oy fx fy rx ry = absurd ox.0
Interleaved-IsOrdered name hx hy h (left {s = take_lead key replicas now} i) ox oy fx fy rx ry =
    ((fx key rx.0).1, Interleaved-IsOrdered name hx hy h i ox.1 oy fx fy rx.1 ry)
Interleaved-IsOrdered name hx hy h (left {s = start_fetch key leader} i) ox oy fx fy rx ry =
    Interleaved-IsOrdered name _ hy _ i ox.1 oy (λ k f. ((fx k f.1).0, (f.0, (fx k f.1).1)))
      (λ k f. ((fy k f).0, ((λ p. (fy k f).0 (ap Tp.topic (sym p) ∙ ox.0)), (fy k f).1))) rx ry
Interleaved-IsOrdered name hx hy h (right {s = stop key} i) ox oy fx fy rx ry =
    Interleaved-IsOrdered name hx _ _ i ox oy.1 (λ k f. ((fx k f).0, inr (fx k f).1))
      (λ k e. elim e [
        | inl p ↦ ((λ q. oy.0 (ap Tp.topic p ∙ q)), inl p)
        | inr f ↦ ((fy k f).0, inr (fy k f).1)
      ])
      rx ry
Interleaved-IsOrdered name hx hy h (right {s = stop_each} i) ox oy fx fy rx ry =
    Interleaved-IsOrdered name hx hy h i ox oy.1 fx fy rx ry
Interleaved-IsOrdered name hx hy h (right {s = take_lead key replicas now} i) ox oy fx fy rx ry =
    ((fy key ry.0).1, Interleaved-IsOrdered name hx hy h i ox oy.1 fx fy rx ry.1)
Interleaved-IsOrdered name hx hy h (right {s = start_fetch key leader} i) ox oy fx fy rx ry =
    Interleaved-IsOrdered name hx _ _ i ox oy.1
      (λ k f. ((fx k f).0, ((λ p. oy.0 (ap Tp.topic p ∙ (fx k f).0)), (fx k f).1)))
      (λ k f. ((fy k f.1).0, (f.0, (fy k f.1).1))) rx ry

-- A call of `StartFollowing`: the clock and the open logs that it finds, and its topic.
pub record Call : Type 0 where
  pub now : ℕ
  pub logs : LogManager.Manager
  pub topic : Topic

-- No two calls have the same topic.
abbrev pub AreApart : List Call → Type 0
AreApart [] = Unit {0}
AreApart (c ∷ cs) = All (λ d. d.topic.name ≢ c.topic.name) cs × AreApart cs

module _ (log_key : List ℕ → ℤ → List ℕ) (self : ℤ) (members : Membership) where
  abbrev pub call_sections : Call → List Section
  call_sections c =
      (follow_sections log_key c.now self members c.logs c.topic.name c.topic.partitions).0

  -- A run of the sections of all calls, each call's in its order.
  pub data Runs : List Call → List Section → Type 0 where
    no_calls : Runs [] []
    with_call :
        {c : Call} {cs : List Call} {ys zs : List Section}
        → Runs cs ys
        → Interleaved (call_sections c) ys zs
        → Runs (c ∷ cs) zs

  Of→NotOf :
      (name other : List ℕ) (ss : List Section)
      → other ≢ name
      → All (Of other) ss
      → All (NotOf name) ss
  Of→NotOf name other [] n h = tt
  Of→NotOf name other (stop key ∷ ss) n h = ((λ p. n (sym h.0 ∙ p)), Of→NotOf name other ss n h.1)
  Of→NotOf name other (stop_each ∷ ss) n h = absurd h.0
  Of→NotOf name other (take_lead key replicas now ∷ ss) n h =
      ((λ p. n (sym h.0 ∙ p)), Of→NotOf name other ss n h.1)
  Of→NotOf name other (start_fetch key leader ∷ ss) n h =
      ((λ p. n (sym h.0 ∙ p)), Of→NotOf name other ss n h.1)

  call_sections-IsPlan : (c : Call) → IsPlan c.topic.name (call_sections c)
  call_sections-IsPlan c =
      follow_sections-IsPlan log_key c.now self members c.logs c.topic.name c.topic.partitions

  Runs-NotOf :
      (name : List ℕ) {cs : List Call} {zs : List Section}
      → Runs cs zs
      → All (λ d. d.topic.name ≢ name) cs
      → All (NotOf name) zs
  Runs-NotOf name no_calls h = tt
  Runs-NotOf name (with_call {c = c} r i) h =
      Interleaved-All (NotOf name) i
        (Of→NotOf name c.topic.name (call_sections c) h.0 (IsPlan.of (call_sections-IsPlan c)))
        (Runs-NotOf name r h.1)

  Runs-IsOrdered :
      {cs : List Call} {zs : List Section} → Runs cs zs → AreApart cs → IsOrdered (λ k. ⊥) zs
  Runs-IsOrdered no_calls h = tt
  Runs-IsOrdered (with_call {c = c} r i) h =
      let plan = call_sections-IsPlan c in
      Interleaved-IsOrdered c.topic.name (λ k. ⊥) (λ k. ⊥) (λ k. ⊥) i (IsPlan.of plan)
        (Runs-NotOf c.topic.name r h.0) (λ k e. absurd e) (λ k e. absurd e)
        (subst (IsOrdered (λ k. ⊥)) (append-nil (call_sections c))
          (IsPlan.ordered plan (λ k. ⊥) [] (λ k. tt)))
        (Runs-IsOrdered r h.1)

-- If a broker leads no partition that it also fetches, the same holds after any number of calls of
-- `StartFollowing` for different topics, in whatever way their sections fall between each other's,
-- whatever the partitions say of their leaders and replicas, and whether the logs open or not.
pub start_following-IsExclusive :
    (log_key : List ℕ → ℤ → List ℕ) (m : Manager) (calls : List Call) (ss : List Section)
    → AreApart calls
    → Runs log_key m.self_id m.membership calls ss
    → IsExclusive m
    → IsExclusive (run_sections m ss)
start_following-IsExclusive log_key m calls ss apart runs h =
    run_sections-IsExclusive m (λ k. ⊥) ss (λ k e. absurd e)
      (Runs-IsOrdered log_key m.self_id m.membership runs apart) h

-- Between the sections of a call that takes the lead of a partition, a fetcher of it starts.
raced :
    (m : Manager) (key : Tp) (replicas : List ℤ) (now : ℕ) (leader : Broker)
    → run_sections m (stop key ∷ start_fetch key leader ∷ take_lead key replicas now ∷ [])
      ≡ record m {
        led =
            insert Tp-discrete key
              (new_partition_state replicas m.self_id m.lag_timeout now)
              (remove Tp-discrete key m.led);
        fetchers =
            insert Tp-discrete key (fetcher_of m key leader) (remove Tp-discrete key m.fetchers);
      }
unfolding run_sections run_section stop_following_key fetcher_of
raced m key replicas now leader =
    rw (lookup-remove_self Tp-discrete key m.fetchers, lookup-remove_self Tp-discrete key m.led)
      refl

both-roles :
    (m : Manager) (key : Tp) (f : Fetcher) (s : PartitionState)
    → lookup Tp-discrete key m.fetchers ≡ some f
    → lookup Tp-discrete key m.led ≡ some s
    → ¬ IsExclusive m
both-roles m key f s e l h = elim (h.role key) [
  | inl n ↦ some-none (sym e ∙ n)
  | inr n ↦ some-none (sym l ∙ n)
]
  where
    some-none : {A : Type 0} {a : A} → ¬ Path (Option A) (some a) none
    some-none p = cc p

-- Two calls for one topic, of which one takes the lead of a partition and the other finds another leader,
-- can leave a broker with both roles, whatever it did before.
start_following-both :
    (m : Manager) (key : Tp) (replicas : List ℤ) (now : ℕ) (leader : Broker)
    → (ss : List Section) × Interleaved
        (lead_sections key replicas now)
        (start_fetch key leader ∷ [])
        ss
      × ¬ IsExclusive (run_sections m ss)
unfolding lead_sections
start_following-both m key replicas now leader = (
  stop key ∷ start_fetch key leader ∷ take_lead key replicas now ∷ [],
  left (right (left ended)),
  λ h.
      both-roles _ key _ _ (lookup-insert_self Tp-discrete key _ _)
        (lookup-insert_self Tp-discrete key _ _)
        (subst IsExclusive (raced m key replicas now leader) h),
)
