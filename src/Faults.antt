-- ===== src/Faults.antt =====
-- internal/faults/faults.go: the faults that a broker is told to show. A nil pointer is `none`.
use gokaf.Base.{ℕ, zero, suc, ◌/◌, Option, none, some, ℤ, pos, negsuc, Bool, false}

-- The delay is a time.Duration, in nanoseconds.
pub record Config : Type 0 where
  pub slow_follower_delay : ℤ
  pub drop_pings : Bool
  pub paused : Bool

-- `New`
unfoldable pub new_config : Config
new_config = record { slow_follower_delay = pos 0; drop_pings = false; paused = false }

unfoldable pub slow_follower_delay : Option Config → ℤ
slow_follower_delay none = pos 0
slow_follower_delay (some c) = c.slow_follower_delay

unfoldable pub set_slow_follower_delay : Config → ℤ → Config
set_slow_follower_delay c d = record c { slow_follower_delay = d }

unfoldable pub drop_pings : Option Config → Bool
drop_pings none = false
drop_pings (some c) = c.drop_pings

unfoldable pub set_drop_pings : Config → Bool → Config
set_drop_pings c v = record c { drop_pings = v }

unfoldable pub paused : Option Config → Bool
paused none = false
paused (some c) = c.paused

unfoldable pub set_paused : Config → Bool → Config
set_paused c v = record c { paused = v }

pub record Snapshot : Type 0 where
  pub slow_follower_delay_ms : ℤ
  pub drop_pings : Bool
  pub paused : Bool

abbrev pub negative : ℕ → ℤ
negative zero = pos 0
negative (suc n) = negsuc n

-- `Milliseconds`, which cuts towards zero.
abbrev pub milliseconds : ℤ → ℤ
milliseconds (pos n) = pos (n / 1000000)
milliseconds (negsuc n) = negative (suc n / 1000000)

unfoldable pub snapshot : Option Config → Snapshot
snapshot none = record { slow_follower_delay_ms = pos 0; drop_pings = false; paused = false }
snapshot (some c) = record {
  slow_follower_delay_ms = milliseconds c.slow_follower_delay;
  drop_pings = c.drop_pings;
  paused = c.paused;
}
