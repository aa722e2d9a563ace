-- ===== src/Replication/Manager/Roles.antt =====
-- A broker has at most one role for a partition: it leads it, or a fetcher of it runs, never both, as long
-- as no fetcher of a partition starts between the two sections in which a call takes its lead.
use gokaf.Base.{ℕ, ◌≡◌, ◌≢◌, refl, sym, ◌∙◌, List, [], ◌∷◌, Option, none, some, ℤ, ◌⊎◌, inl, inr}
use gokaf.Base.Map.{lookup, insert, remove, lookup-insert_ne, lookup-remove_self, lookup-remove_ne}
use mathlib.Core.Path.{subst}
use gokaf.Cluster.Membership.{Broker, Membership}
use gokaf.Replication.Fetcher.{Fetcher}
use gokaf.Replication.PartitionState.{PartitionState}
use gokaf.Replication.Manager.{
  Tp, Tp-discrete, Manager, new_manager, stop_following_key, stop_all, lead_new, fetcher_of,
  start_fetcher, Section, stop, stop_each, take_lead, start_fetch, run_section, run_sections,
}

pub record IsExclusive (m : Manager) : Type 0 where
  pub role :
      (k : Tp) → (lookup Tp-discrete k m.fetchers ≡ none) ⊎ (lookup Tp-discrete k m.led ≡ none)

pub new_manager-IsExclusive : (self : ℤ) (ms : Membership) → IsExclusive (new_manager self ms)
unfolding new_manager lookup
new_manager-IsExclusive self ms = record { role = λ k. inl refl }

-- A key that is missing is missing after another is removed.
still_missing :
    {A : Type 0} (key k : Tp) (xs : List (Tp × A))
    → lookup Tp-discrete k xs ≡ none
    → lookup Tp-discrete k (remove Tp-discrete key xs) ≡ none
still_missing key k xs e = elim (Tp-discrete key k) [
  | yes p ↦
      subst (λ j. lookup Tp-discrete j (remove Tp-discrete key xs) ≡ none) p
        (lookup-remove_self Tp-discrete key xs)
  | no p ↦ lookup-remove_ne Tp-discrete key k xs p ∙ e
]

-- The key moves from one map to the other.
moved :
    {A B : Type 0} (key k : Tp) (v : B) (xs : List (Tp × A)) (ys : List (Tp × B))
    → (lookup Tp-discrete key xs ≡ none)
    → (lookup Tp-discrete k xs ≡ none) ⊎ (lookup Tp-discrete k ys ≡ none)
    → (lookup Tp-discrete k xs ≡ none) ⊎ (lookup Tp-discrete k (insert Tp-discrete key v ys) ≡ none)
moved key k v xs ys gone (inl e) = inl e
moved key k v xs ys gone (inr e) = elim (Tp-discrete key k) [
  | yes p ↦ inl (subst (λ j. lookup Tp-discrete j xs ≡ none) p gone)
  | no p ↦ inr (lookup-insert_ne Tp-discrete key k v ys p ∙ e)
]

swap : {A B : Type 0} → A ⊎ B → B ⊎ A
swap (inl a) = inr a
swap (inr b) = inl b

-- A run of sections in which every partition whose lead is taken was stopped before, and no fetcher of
-- it started since. `held` says which partitions were stopped so before the run.
abbrev pub IsOrdered : (Tp → Type 0) → List Section → Type 0
IsOrdered held [] = Unit {0}
IsOrdered held (stop key ∷ ss) = IsOrdered (λ k. (key ≡ k) ⊎ held k) ss
IsOrdered held (stop_each ∷ ss) = IsOrdered held ss
IsOrdered held (take_lead key replicas now ∷ ss) = held key × IsOrdered held ss
IsOrdered held (start_fetch key leader ∷ ss) = IsOrdered (λ k. (key ≢ k) × held k) ss

-- No fetcher of these partitions runs.
abbrev IsFree : Manager → (Tp → Type 0) → Type 0
IsFree m held = (k : Tp) → held k → lookup Tp-discrete k m.fetchers ≡ none

stopped-IsFree :
    (m : Manager) (key : Tp) (held : Tp → Type 0)
    → IsFree m held
    → IsFree (run_section m (stop key)) (λ k. (key ≡ k) ⊎ held k)
unfolding run_section stop_following_key
stopped-IsFree m key held f k (inl e) =
    subst (λ j. lookup Tp-discrete j (remove Tp-discrete key m.fetchers) ≡ none) e
      (lookup-remove_self Tp-discrete key m.fetchers)
stopped-IsFree m key held f k (inr h) = still_missing key k m.fetchers (f k h)

stop-IsExclusive : (m : Manager) (key : Tp) → IsExclusive m → IsExclusive (run_section m (stop key))
unfolding run_section stop_following_key
stop-IsExclusive m key h = record {
  role = λ k. elim (h.role k) [ inl e ↦ inl (still_missing key k m.fetchers e) | inr e ↦ inr e ];
}

lead_new-IsExclusive :
    (m : Manager) (key : Tp) (replicas : List ℤ) (now : ℕ) (led : Option PartitionState)
    → lookup Tp-discrete key m.fetchers ≡ none
    → IsExclusive m
    → IsExclusive (lead_new m key replicas now led)
lead_new-IsExclusive m key replicas now none gone h = record {
  role = λ k. moved key k _ m.fetchers m.led gone (h.role k);
}
lead_new-IsExclusive m key replicas now (some s) gone h = h

lead_new-fetchers :
    (m : Manager) (key : Tp) (replicas : List ℤ) (now : ℕ) (led : Option PartitionState)
    → Manager.fetchers (lead_new m key replicas now led) ≡ m.fetchers
lead_new-fetchers m key replicas now none = refl
lead_new-fetchers m key replicas now (some s) = refl

start_fetcher-IsExclusive :
    (m : Manager) (key : Tp) (leader : Broker) (running : Option Fetcher)
    → IsExclusive m
    → IsExclusive (start_fetcher m key leader running)
start_fetcher-IsExclusive m key leader none h = record {
  role = λ k. swap (
      moved key k (fetcher_of m key leader) (remove Tp-discrete key m.led) m.fetchers
        (lookup-remove_self Tp-discrete key m.led)
        (elim (h.role k) [ inl e ↦ inr e | inr e ↦ inl (still_missing key k m.led e) ]));
}
start_fetcher-IsExclusive m key leader (some f) h = h

start_fetcher-IsFree :
    (m : Manager) (key : Tp) (leader : Broker) (running : Option Fetcher) (held : Tp → Type 0)
    → IsFree m held
    → IsFree (start_fetcher m key leader running) (λ k. (key ≢ k) × held k)
start_fetcher-IsFree m key leader none held f k (n, h) =
    lookup-insert_ne Tp-discrete key k (fetcher_of m key leader) m.fetchers n ∙ f k h
start_fetcher-IsFree m key leader (some r) held f k (n, h) = f k h

-- An ordered run keeps the roles apart, whatever calls its sections are from.
pub run_sections-IsExclusive :
    (m : Manager) (held : Tp → Type 0) (ss : List Section)
    → IsFree m held
    → IsOrdered held ss
    → IsExclusive m
    → IsExclusive (run_sections m ss)
unfolding run_sections run_section stop_all lookup
run_sections-IsExclusive m held [] f o h = h
run_sections-IsExclusive m held (stop key ∷ ss) f o h =
    run_sections-IsExclusive (stop_following_key m key) (λ k. (key ≡ k) ⊎ held k) ss
      (stopped-IsFree m key held f) o (stop-IsExclusive m key h)
run_sections-IsExclusive m held (stop_each ∷ ss) f o h =
    run_sections-IsExclusive (stop_all m) held ss (λ k i. refl) o (record { role = λ k. inl refl })
run_sections-IsExclusive m held (take_lead key replicas now ∷ ss) f o h =
    run_sections-IsExclusive (lead_new m key replicas now led) held ss
      (λ k i.
        subst (λ fs. lookup Tp-discrete k fs ≡ none)
          (sym (lead_new-fetchers m key replicas now led)) (f k i))
      o.1 (lead_new-IsExclusive m key replicas now led (f key o.0) h)
  where
    led : Option PartitionState
    led = lookup Tp-discrete key m.led
run_sections-IsExclusive m held (start_fetch key leader ∷ ss) f o h =
    let running = lookup Tp-discrete key m.fetchers in
    run_sections-IsExclusive (start_fetcher m key leader running) (λ k. (key ≢ k) × held k) ss
      (start_fetcher-IsFree m key leader running held f) o
      (start_fetcher-IsExclusive m key leader running h)
