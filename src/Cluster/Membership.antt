-- ===== src/Cluster/Membership.antt =====
-- internal/cluster/membership.go: the brokers of the cluster.
use gokaf.Base.{
  ℕ, List, [], ◌∷◌, Option, none, some, ℤ, pos, eq_ℤ, Bool, true, false, ◌||◌, if◌then◌else◌,
  length, ◌==◌,
}
use gokaf.Base.Sorting.{sort_by}
use mathlib.Core.Option

pub record Broker : Type 0 where
  pub id : ℤ
  pub host : List ℕ
  pub port : ℤ

pub record Membership : Type 0 where
  pub self : ℤ
  pub brokers : List Broker

unfoldable pub all : Membership → List Broker
all m = m.brokers

unfoldable pub find_broker : ℤ → List Broker → Option Broker
find_broker id [] = none
find_broker id (b ∷ bs) = let rest = find_broker id bs in if eq_ℤ b.id id then some b else rest

unfoldable pub get : Membership → ℤ → Option Broker
get m id = find_broker id m.brokers

abbrev pub no_broker : Broker
no_broker = record { id = pos 0; host = []; port = pos 0 }

abbrev pub or_no_broker : Option Broker → Broker
or_no_broker none = no_broker
or_no_broker (some b) = b

unfoldable pub self_broker : Membership → Broker
self_broker m = or_no_broker (get m m.self)

-- The functions of the standard library that the parser calls: strings.TrimSpace, strings.Split at a
-- comma, strings.Cut at `@`, strconv.ParseInt for 32 bits, and net.SplitHostPort.
pub record Parsing : Type 0 where
  pub trim : List ℕ → List ℕ
  pub split : List ℕ → List (List ℕ)
  pub cut : List ℕ → Option (List ℕ × List ℕ)
  pub parse_int : List ℕ → Option ℤ
  pub split_host_port : List ℕ → Option (List ℕ × List ℕ)

module _ (lib : Parsing) where
  abbrev pub parse_address : ℤ → List ℕ × List ℕ → Option Broker
  parse_address id (host, port) =
      Option.map (λ p. record { id = id; host = host; port = p }) (lib.parse_int port)

  abbrev pub parse_parts : List ℕ × List ℕ → Option Broker
  parse_parts ([], host_port) = none
  parse_parts (c ∷ id, []) = none
  parse_parts (c ∷ id, d ∷ host_port) =
      Option.bind (lib.parse_int (c ∷ id))
        λ n. Option.bind (lib.split_host_port (d ∷ host_port)) λ address. parse_address n address

  unfoldable pub parse_broker : List ℕ → Option Broker
  parse_broker token = Option.bind (lib.cut token) parse_parts

  -- The loop over the tokens: the brokers, and whether one has the own id.
  unfoldable pub parse_tokens : ℤ → List (List ℕ) → Option (List Broker × Bool)
  parse_tokens self [] = some ([], false)
  parse_tokens self (t ∷ ts) =
      Option.bind (parse_broker (lib.trim t))
        λ b. Option.map (λ rest. (b ∷ rest.0, eq_ℤ b.id self || rest.1)) (parse_tokens self ts)

  abbrev pub with_self : ℤ → List Broker × Bool → Option Membership
  with_self self (brokers, true) =
      some (record { self = self; brokers = sort_by (λ b. Broker.id b) brokers })
  with_self self (brokers, false) = none

  unfoldable pub parse_membership : List ℕ → ℤ → List ℕ → ℤ → Option Membership
  parse_membership peers self host port =
      if length (lib.trim peers) == 0
      then some
          (record { self = self; brokers = record { id = self; host = host; port = port } ∷ [] })
      else Option.bind (parse_tokens self (lib.split peers)) (with_self self)
