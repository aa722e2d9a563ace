-- ===== src/Topic/Registry.antt =====
-- internal/topic/registry.go: the topics by name.
use gokaf.Base.{ℕ, ◌≡◌, ◌≢◌, refl, sym, ◌∙◌, List, [], map, Option, none, some, ℤ, ℕ_discrete}
use gokaf.Base.Map.{
  lookup, insert, remove, lookup-insert_self, lookup-insert_ne, lookup-remove_self,
  lookup-remove_ne,
}

pub record Partition : Type 0 where
  pub id : ℤ
  pub leader : ℤ
  pub replicas : List ℤ
  pub isr : List ℤ

pub record Topic : Type 0 where
  pub name : List ℕ
  pub partitions : List Partition

pub data RegistryError : Type 0 where
  topic_exists topic_not_found : RegistryError

abbrev pub Registry : Type 0
Registry = List (List ℕ × Topic)

pub Name-discrete : Discrete (List ℕ)
Name-discrete = hlevel ℕ_discrete

abbrev pub new_registry : Registry
new_registry = []

unfoldable pub all : Registry → List Topic
all r = map (λ e. e.1) r

unfoldable pub get : Registry → List ℕ → Option Topic
get r name = lookup Name-discrete name r

-- `Add`
unfoldable pub add : Registry → Topic → Registry
add r t = insert Name-discrete t.name t r

unfoldable pub upsert : Registry → Topic → Registry
upsert r t = insert Name-discrete t.name t r

abbrev pub create_if : Option Topic → Registry → Topic → Registry × Option RegistryError
create_if none r t = (insert Name-discrete t.name t r, none)
create_if (some u) r t = (r, some topic_exists)

unfoldable pub create : Registry → Topic → Registry × Option RegistryError
create r t = create_if (lookup Name-discrete t.name r) r t

abbrev pub delete_if : Option Topic → Registry → List ℕ → Registry × Option RegistryError
delete_if none r name = (r, some topic_not_found)
delete_if (some u) r name = (remove Name-discrete name r, none)

unfoldable pub delete : Registry → List ℕ → Registry × Option RegistryError
delete r name = delete_if (lookup Name-discrete name r) r name

-- A registry that answers nothing else than the first but for one name.
abbrev pub SameBut : List ℕ → Registry → Registry → Type 0
SameBut name r r' = (other : List ℕ) → name ≢ other → get r' other ≡ get r other

-- What `Create` did: the topic was missing, and is found afterwards, or it was there, and nothing
-- changed.
abbrev pub Created : Registry → Topic → Registry × Option RegistryError → Type 0
Created r t (r', none) = (get r t.name ≡ none) × (get r' t.name ≡ some t) × SameBut t.name r r'
Created r t (r', some e) = (e ≡ topic_exists) × (get r t.name ≢ none) × (r' ≡ r)

abbrev pub Deleted : Registry → List ℕ → Registry × Option RegistryError → Type 0
Deleted r name (r', none) = (get r name ≢ none) × (get r' name ≡ none) × SameBut name r r'
Deleted r name (r', some e) = (e ≡ topic_not_found) × (get r name ≡ none) × (r' ≡ r)

-- `Create` adds a topic whose name is missing, which `Get` then finds, and leaves every other name as it
-- was; if the name is there, it answers `ErrTopicExists` and changes nothing.
pub create-Created : (r : Registry) (t : Topic) → Created r t (create r t)
unfolding create get
create-Created r t = go (lookup Name-discrete t.name r) refl
  where
    go :
        (found : Option Topic)
        → lookup Name-discrete t.name r ≡ found
        → Created r t (create_if found r t)
    go none e = (
      e,
      lookup-insert_self Name-discrete t.name t r,
      λ other h. lookup-insert_ne Name-discrete t.name other t r h,
    )
    go (some u) e = (refl, (λ f. some-none (sym e ∙ f)), refl)
      where
        some-none : ¬ Path (Option Topic) (some u) none
        some-none p = cc p

-- `Delete` removes a topic that is there, which `Get` then misses, and leaves every other name as it
-- was; if the name is missing, it answers `ErrTopicNotFound` and changes nothing.
pub delete-Deleted : (r : Registry) (name : List ℕ) → Deleted r name (delete r name)
unfolding delete get
delete-Deleted r name = go (lookup Name-discrete name r) refl
  where
    go :
        (found : Option Topic)
        → lookup Name-discrete name r ≡ found
        → Deleted r name (delete_if found r name)
    go none e = (refl, e, refl)
    go (some u) e = (
      (λ f. some-none (sym e ∙ f)),
      lookup-remove_self Name-discrete name r,
      λ other h. lookup-remove_ne Name-discrete name other r h,
    )
      where
        some-none : ¬ Path (Option Topic) (some u) none
        some-none p = cc p
