-- ===== src/Replication/Manager/Plans.antt =====
-- The sections of one call of `StartFollowing`: what they touch, and in which order.
use gokaf.Base.{
  append-nil, ℕ, ◌≡◌, ◌≢◌, refl, sym, ap, ◌∙◌, List, [], ◌∷◌, ◌++◌, none, some, ℤ, eq_ℤ, not,
  Option, Bool-cases, ◌⊎◌, inl, inr, All,
}
use mathlib.Core.Path.{subst}
use gokaf.Storage.Log.{Log}
use gokaf.Storage.LogManager.{log_at}
use gokaf.Storage.LogManager
use gokaf.Topic.Registry.{Partition}
use gokaf.Cluster.Membership.{Broker, Membership, get}
use gokaf.Replication.Manager.{
  Tp, Section, stop, stop_each, take_lead, start_fetch, lead_sections, opened_sections,
  leader_sections, partition_sections, follow_sections, contains_broker, or_replicas,
}
use gokaf.Replication.Manager.Roles.{IsOrdered}

-- Sections that are of partitions of one topic.
abbrev pub Of : List ℕ → Section → Type 0
Of name (stop key) = key.topic ≡ name
Of name stop_each = ⊥
Of name (take_lead key replicas now) = key.topic ≡ name
Of name (start_fetch key leader) = key.topic ≡ name

-- What a call's sections are: of its topic, and ordered if nothing falls between, whatever follows.
pub record IsPlan (name : List ℕ) (ss : List Section) : Type 1 where
  pub of : All (Of name) ss
  pub ordered :
      (held : Tp → Type 0) (rest : List Section)
      → ((h : Tp → Type 0) → IsOrdered h rest)
      → IsOrdered held (ss ++ rest)

leader_sections-IsPlan :
    (logs : LogManager.Manager) (key : Tp) (dir : List ℕ) (leader : Option Broker)
    → IsPlan key.topic (leader_sections logs key dir leader).0
leader_sections-IsPlan logs key dir none = record { of = tt; ordered = λ held rest h. h held }
leader_sections-IsPlan logs key dir (some leader) = opened (log_at logs dir)
  where
    opened :
        (l : LogManager.Manager × Option Log) → IsPlan key.topic (opened_sections key leader l).0
    opened (logs', none) = record { of = tt; ordered = λ held rest h. h held }
    opened (logs', some l) = record { of = (refl, tt); ordered = λ held rest h. h _ }

lead_sections-IsPlan :
    (key : Tp) (replicas : List ℤ) (now : ℕ) → IsPlan key.topic (lead_sections key replicas now)
unfolding lead_sections
lead_sections-IsPlan key replicas now = record {
  of = (refl, (refl, tt));
  ordered = λ held rest h. (inl refl, h _);
}

partition_sections-IsPlan :
    (log_key : List ℕ → ℤ → List ℕ) (now : ℕ) (self : ℤ) (members : Membership)
    (logs : LogManager.Manager) (topic : List ℕ) (p : Partition)
    → IsPlan topic (partition_sections log_key now self members logs topic p).0
unfolding partition_sections
partition_sections-IsPlan log_key now self members logs topic p =
    let key : Tp = record { topic = topic; partition = p.id } in
    elim (Bool-cases (not (contains_broker p.replicas self))) [
      | inl e ↦ rw e (record { of = tt; ordered = λ held rest h. h held })
      | inr e ↦ elim (Bool-cases (eq_ℤ p.leader self)) [
        | inl q ↦ rw (e, q) (lead_sections-IsPlan key (or_replicas p.isr p.replicas) now)
        | inr q ↦
            rw (e, q) (leader_sections-IsPlan logs key (log_key topic p.id) (get members p.leader))
      ]
    ]

append-IsPlan :
    (name : List ℕ) (xs ys : List Section)
    → IsPlan name xs
    → IsPlan name ys
    → IsPlan name (xs ++ ys)
append-IsPlan name xs ys hx hy = record {
  of = gokaf.Base.All-append (Of name) xs ys hx.of hy.of;
  ordered = λ held rest h.
      subst (IsOrdered held) (sym (gokaf.Base.append_assoc xs ys rest))
        (hx.ordered held (ys ++ rest) (λ k. hy.ordered k rest h));
}

pub follow_sections-IsPlan :
    (log_key : List ℕ → ℤ → List ℕ) (now : ℕ) (self : ℤ) (members : Membership)
    (logs : LogManager.Manager) (topic : List ℕ) (ps : List Partition)
    → IsPlan topic (follow_sections log_key now self members logs topic ps).0
unfolding follow_sections
follow_sections-IsPlan log_key now self members logs topic [] = record {
  of = tt;
  ordered = λ held rest h. h held;
}
follow_sections-IsPlan log_key now self members logs topic (p ∷ ps) =
    let first = partition_sections log_key now self members logs topic p in
    append-IsPlan topic first.0 _ (partition_sections-IsPlan log_key now self members logs topic p)
      (follow_sections-IsPlan log_key now self members first.1 topic ps)
