-- ===== src/Producer.antt =====
-- internal/producer/manager.go: producer ids, and which batches of a producer are new.
pub mod Sequence
pub mod ExactlyOnce
use gokaf.Base.{
  ℕ, List, [], ◌∷◌, Option, none, some, ℤ, pos, ◌+ℤ◌, ◌-ℤ◌, wrap32, wrap64, eq_ℤ, leb_ℤ, Bool,
  if◌then◌else◌, ℕ_discrete,
}
use gokaf.Base.Map.{lookup, insert}

pub data Decision : Type 0 where
  append duplicate out_of_order : Decision

pub record Check : Type 0 where
  pub decision : Decision
  pub cached_offset : ℤ

pub record SeqKey : Type 0 where
  pub pid : ℤ
  pub topic : List ℕ
  pub partition : ℤ

pub record SeqState : Type 0 where
  pub last_sequence : ℤ
  pub last_base_offset : ℤ
  pub last_record_count : ℤ

pub record Manager : Type 0 where
  pub next_pid : ℤ
  pub seqs : List (SeqKey × SeqState)

pub SeqKey-discrete : Discrete SeqKey
SeqKey-discrete = hlevel ℕ_discrete

unfoldable pub new_manager : Manager
new_manager = record { next_pid = pos 0; seqs = [] }

-- The new manager, the producer id and the epoch.
unfoldable pub init_producer_id : Manager → Manager × ℤ × ℤ
init_producer_id m =
    let pid = wrap64 (m.next_pid +ℤ pos 1) in (record m { next_pid = pid }, pid, pos 0)

-- A `Check` whose offset is left at Go's zero value.
abbrev pub check_of : Decision → Check
check_of d = record { decision = d; cached_offset = pos 0 }

unfoldable pub check_state : Option SeqState → ℤ → Check
check_state none base_seq = if eq_ℤ base_seq (pos 0) then check_of append else check_of out_of_order
check_state (some state) base_seq =
    let last_base_seq = wrap32 (state.last_sequence -ℤ state.last_record_count +ℤ pos 1) in
    let repeated : Check = record {
      decision = duplicate;
      cached_offset = state.last_base_offset;
    } in
    if eq_ℤ base_seq last_base_seq
    then repeated
    else (if eq_ℤ base_seq (wrap32 (state.last_sequence +ℤ pos 1))
        then check_of append
        else (if leb_ℤ base_seq state.last_sequence then repeated else check_of out_of_order))

unfoldable pub check_sequence : Manager → SeqKey → ℤ → Check
check_sequence m key base_seq = check_state (lookup SeqKey-discrete key m.seqs) base_seq

unfoldable pub committed_state : ℤ → ℤ → ℤ → SeqState
committed_state base_seq record_count base_offset = record {
  last_sequence = wrap32 (base_seq +ℤ record_count -ℤ pos 1);
  last_base_offset = base_offset;
  last_record_count = record_count;
}

unfoldable pub committed : Manager → SeqKey → ℤ → ℤ → ℤ → Manager
committed m key base_seq record_count base_offset = record m {
  seqs = insert SeqKey-discrete key (committed_state base_seq record_count base_offset) m.seqs;
}

-- What a batch does: the manager, the state that the callback works on, and the check, or `none`
-- for the callback's error. This is the end of `AppendBatch`, by what the callback answered.
abbrev pub after_append {ℓ} :
    {S : Type ℓ} → Manager → SeqKey → ℤ → ℤ → S × Option ℤ → Manager × S × Option Check
after_append m key base_seq record_count (s, none) = (m, s, none)
after_append m key base_seq record_count (s, some base_offset) = (
  committed m key base_seq record_count base_offset,
  s,
  some (record { decision = append; cached_offset = base_offset }),
)

abbrev pub by_decision {ℓ} : {A : Type ℓ} → Decision → A → A → A
by_decision append new other = new
by_decision duplicate new other = other
by_decision out_of_order new other = other

-- `AppendBatch`: the callback runs on a new batch only.
unfoldable pub append_batch {ℓ} :
    {S : Type ℓ} → Manager → SeqKey → ℤ → ℤ → (S → S × Option ℤ) → S → Manager × S × Option Check
append_batch m key base_seq record_count run s =
    let check = check_sequence m key base_seq in
    by_decision check.decision (after_append m key base_seq record_count (run s)) (m, s, some check)
