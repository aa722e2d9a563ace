-- ===== src/Assignor/Strategies.antt =====
-- internal/assignor/assignor.go: which member gets which partitions. `sort` is sort.Strings; the maps
-- of counts and of assignments are association lists. A slice with a negative capacity, which `make`
-- refuses, is `none`.
use gokaf.Base.{
  ℕ, zero, suc, ◌/◌, ◌%◌, List, [], ◌∷◌, ◌++◌, map, Option, none, some, ℤ, pos, negsuc, ◌+ℤ◌, ◌-ℤ◌,
  wrap32, sub_ℕ, pos_part, eq_ℤ, ltb_ℤ, Bool, true, false, ◌||◌, if◌then◌else◌, length, get_elem?,
  ℕ_discrete,
}
use gokaf.Base.Map.{lookup, insert}
use mathlib.Core.Logic.{ite}
use mathlib.Core.Option
use gokaf.Assignor.{TopicPartitions}

abbrev pub Name : Type 0
Name = List ℕ

pub Name-discrete : Discrete Name
Name-discrete = hlevel ℕ_discrete

abbrev pub is_name : Name → Name → Bool
is_name a b = ite (Name-discrete a b) true false

pub record Subscription : Type 0 where
  pub member_id : Name
  pub topics : List Name

abbrev pub Assignments : Type 0
Assignments = List (Name × List TopicPartitions)

-- Division and remainder of an int32 by a length, rounded towards 0.
abbrev pub quotient : ℤ → ℕ → ℤ
quotient (pos n) m = pos (n / m)
quotient (negsuc n) m = sub_ℕ 0 (suc n / m)

abbrev pub remainder : ℤ → ℕ → ℤ
remainder (pos n) m = pos (n % m)
remainder (negsuc n) m = sub_ℕ 0 (suc n % m)

unfoldable pub subscribes_to : Subscription → Name → Bool
subscribes_to sub topic = any_is topic sub.topics
  where
    any_is : Name → List Name → Bool
    any_is topic [] = false
    any_is topic (t ∷ ts) = is_name t topic || any_is topic ts

-- The loop of `subscribedMembers`.
unfoldable pub subscribers : List Subscription → Name → List Name
subscribers [] topic = []
subscribers (s ∷ subs) topic =
    let rest = subscribers subs topic in if subscribes_to s topic then s.member_id ∷ rest else rest

-- A missing key of the map of assignments is an empty slice, and of the map of counts it is 0.
abbrev pub or_empty : Option (List TopicPartitions) → List TopicPartitions
or_empty none = []
or_empty (some given) = given

abbrev pub or_zero : Option ℤ → ℤ
or_zero none = pos 0
or_zero (some count) = count

unfoldable pub count_up : ℕ → ℤ → List ℤ
count_up zero from = []
count_up (suc n) from = from ∷ count_up n (wrap32 (from +ℤ pos 1))

unfoldable pub contiguous_partitions : ℤ → ℤ → Option (List ℤ)
contiguous_partitions start end =
    let size = wrap32 (end -ℤ start) in
    if ltb_ℤ size (pos 0) then none else some (count_up (pos_part size) start)

-- The loop of `Range` over the members of a topic, from the `i`-th on.
unfoldable pub range_members : Name → ℤ → ℤ → ℕ → ℤ → List Name → Assignments → Option Assignments
range_members topic per_member extra i cursor [] given = some given
range_members topic per_member extra i cursor (m ∷ members) given =
    let count = if ltb_ℤ (pos i) extra then wrap32 (per_member +ℤ pos 1) else per_member in
    let skipped = range_members topic per_member extra (suc i) cursor members given in
    let dealt = Option.bind (contiguous_partitions cursor (wrap32 (cursor +ℤ count))) (λ partitions.
      range_members topic per_member extra (suc i) (wrap32 (cursor +ℤ count)) members (
        insert Name-discrete m
          (or_empty (lookup Name-discrete m given)
            ++ (record { topic = topic; partitions = partitions } ∷ []))
          given)) in
    if eq_ℤ count (pos 0) then skipped else dealt

-- One round of `Range`; a topic without members is passed over.
abbrev pub range_topic : Name → ℤ → List Name → Assignments → Option Assignments
range_topic topic count [] given = some given
range_topic topic count (m ∷ members) given =
    range_members topic (quotient count (length (m ∷ members)))
      (remainder count (length (m ∷ members))) 0 (pos 0) (m ∷ members) given

unfoldable pub range_topics :
    (List Name → List Name)
    → List Subscription
    → List (Name × ℤ)
    → List Name
    → Assignments
    → Option Assignments
range_topics sort subs counts [] given = some given
range_topics sort subs counts (t ∷ topics) given =
    Option.bind
      (range_topic t (or_zero (lookup Name-discrete t counts)) (sort (subscribers subs t)) given)
      λ given'. range_topics sort subs counts topics given'

unfoldable pub sorted_topics : (List Name → List Name) → List (Name × ℤ) → List Name
sorted_topics sort counts = sort (map (λ e. e.0) counts)

-- `Range`
unfoldable pub range :
    (List Name → List Name) → List Subscription → List (Name × ℤ) → Option Assignments
range sort subs counts = range_topics sort subs counts (sorted_topics sort counts) []

unfoldable pub append_partition : List TopicPartitions → Name → ℤ → List TopicPartitions
append_partition [] topic partition = record { topic = topic; partitions = partition ∷ [] } ∷ []
append_partition (a ∷ []) topic partition =
    if is_name a.topic topic
    then record a { partitions = a.partitions ++ (partition ∷ []) } ∷ []
    else a ∷ record { topic = topic; partitions = partition ∷ [] } ∷ []
append_partition (a ∷ b ∷ rest) topic partition = a ∷ append_partition (b ∷ rest) topic partition

unfoldable pub sorted_members : (List Name → List Name) → List Subscription → List Name
sorted_members sort subs = sort (map (λ s. Subscription.member_id s) subs)

-- The member whose turn it is; `none` is a division by 0 or an index out of range.
unfoldable pub deal_one : List Name → ℕ → Name → ℤ → Assignments → Option Assignments
deal_one members i topic partition given =
    Option.map
      (λ m.
        insert Name-discrete m
          (append_partition (or_empty (lookup Name-discrete m given)) topic partition) given)
      (get_elem? members (i % length members))

-- The loop of `RoundRobin` over the partitions of a topic: the assignments and `i`.
unfoldable pub deal_topic : List Name → ℕ → Name → ℤ → ℕ → Assignments → Option (Assignments × ℕ)
deal_topic members zero topic partition i given = some (given, i)
deal_topic members (suc n) topic partition i given =
    Option.bind (deal_one members i topic partition given)
      λ given'. deal_topic members n topic (wrap32 (partition +ℤ pos 1)) (suc i) given'

unfoldable pub deal_topics :
    List Name → List (Name × ℤ) → List Name → ℕ → Assignments → Option Assignments
deal_topics members counts [] i given = some given
deal_topics members counts (t ∷ topics) i given =
    Option.bind
      (deal_topic members (pos_part (or_zero (lookup Name-discrete t counts))) t (pos 0) i given)
      λ dealt. deal_topics members counts topics dealt.1 dealt.0

abbrev pub deal_all : (List Name → List Name) → List Name → List (Name × ℤ) → Option Assignments
deal_all sort [] counts = some []
deal_all sort (m ∷ members) counts =
    deal_topics (m ∷ members) counts (sorted_topics sort counts) 0 []

-- `RoundRobin`
unfoldable pub round_robin :
    (List Name → List Name) → List Subscription → List (Name × ℤ) → Option Assignments
round_robin sort subs counts = deal_all sort (sorted_members sort subs) counts
