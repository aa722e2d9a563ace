-- ===== src/Storage/LogManager.antt =====
-- internal/storage/manager.go: the logs that are open, by the names of their directories. The name that
-- fmt.Sprintf makes of a topic and a partition, and what the directories hold, are arguments.
use gokaf.Base.{ℕ, List, [], Option, none, some, ℕ_discrete}
use gokaf.Base.Map.{lookup, insert}
use gokaf.Storage.Log.{Log}
use gokaf.Storage.Log.Opening.{Files, open_log}

-- The directories are those of the time before the logs were opened: an open log has its own files.
pub record Manager : Type 0 where
  pub on_disk : List ℕ → List Files
  pub logs : List (List ℕ × Log)

pub Name-discrete : Discrete (List ℕ)
Name-discrete = hlevel ℕ_discrete

unfoldable pub new_manager : (List ℕ → List Files) → Manager
new_manager on_disk = record { on_disk = on_disk; logs = [] }

-- A change of a log that is open.
unfoldable pub put_log : Manager → List ℕ → Log → Manager
put_log m key l = record m { logs = insert Name-discrete key l m.logs }

abbrev pub keep_opened : Manager → List ℕ → Option Log → Manager × Option Log
keep_opened m key none = (m, none)
keep_opened m key (some l) = (put_log m key l, some l)

abbrev pub opened : Manager → List ℕ → Option Log → Manager × Option Log
opened m key none = keep_opened m key (open_log (m.on_disk key))
opened m key (some l) = (m, some l)

-- `Log`, with the name of the directory; `none` is an error of `Open`.
unfoldable pub log_at : Manager → List ℕ → Manager × Option Log
log_at m key = opened m key (lookup Name-discrete key m.logs)
