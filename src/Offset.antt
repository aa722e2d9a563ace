-- ===== src/Offset.antt =====
-- internal/offset/store.go: the offsets that consumer groups commit, kept in a log and in a map. The
-- clock of `encodeEntry` is an argument.
pub mod Replay
use gokaf.Base.{
  ℕ, zero, suc, List, [], ◌∷◌, ◌++◌, Option, none, some, ℤ, pos, negsuc, ◌+ℤ◌, wrap64, ℕ_discrete,
}
use gokaf.Base.Map.{lookup, insert}
use mathlib.Core.Option
use gokaf.Protocol.Result.{Result, ok, err, panics, Decoder, ◌>>=◌, return}
use gokaf.Protocol.Types.{
  write_string, write_int32, write_int64, read_string, read_int32, read_int64,
}
use gokaf.Storage.Segment.{Record, ReadResult, records, io_failure, out_of_fuel}
use gokaf.Storage.Log.{Log, append, read}

pub record Key : Type 0 where
  pub group : List ℕ
  pub topic : List ℕ
  pub partition : ℤ

pub record Store : Type 0 where
  pub log : Log
  pub offsets : List (Key × ℤ)

pub Key-discrete : Discrete Key
Key-discrete = hlevel ℕ_discrete

unfoldable pub encode_entry : Key → ℤ → ℤ → List ℕ
encode_entry k offset now =
    write_string k.group
    ++ (write_string k.topic
        ++ (write_int32 k.partition ++ (write_int64 offset ++ write_int64 now)))

unfoldable pub decode_entry : Decoder (Key × ℤ)
decode_entry = do
  group ← read_string
  topic ← read_string
  partition ← read_int32
  offset ← read_int64
  now ← read_int64
  return (record { group = group; topic = topic; partition = partition }, offset)

unfoldable pub commit : Store → Key → ℤ → ℤ → Store
commit s k offset now = record {
  log = (append s.log (encode_entry k offset now)).0;
  offsets = insert Key-discrete k offset s.offsets;
}

abbrev pub or_minus_one : Option ℤ → ℤ
or_minus_one none = negsuc 0
or_minus_one (some offset) = offset

unfoldable pub fetch : Store → Key → ℤ
fetch s k = or_minus_one (lookup Key-discrete k s.offsets)

-- The end of `replay`: the map, an error, or more rounds than the fuel allows.
pub data Replayed : Type 0 where
  replayed : List (Key × ℤ) → Replayed
  failed : Replayed
  unfinished : Replayed

-- What a decoder answers, without the bytes it left.
abbrev pub decoded {ℓ} : {A : Type ℓ} → Result (A × List ℕ) → Option A
decoded (ok (a, rest)) = some a
decoded (err e) = none
decoded panics = none

-- The inner loop of `replay`: the map and `next`, or `none` on an entry that does not decode.
unfoldable pub apply_records : List Record → List (Key × ℤ) → ℤ → Option (List (Key × ℤ) × ℤ)
apply_records [] offsets next = some (offsets, next)
apply_records (r ∷ rs) offsets next = Option.bind (decoded (decode_entry r.payload)) λ entry.
    apply_records rs (insert Key-discrete entry.0 entry.1 offsets) (wrap64 (r.offset +ℤ pos 1))

abbrev pub after_records : Option (List (Key × ℤ) × ℤ) → (List (Key × ℤ) → ℤ → Replayed) → Replayed
after_records none k = failed
after_records (some (offsets, next)) k = k offsets next

abbrev pub after_read : ReadResult → List (Key × ℤ) → ℤ → (List (Key × ℤ) → ℤ → Replayed) → Replayed
after_read (records []) offsets next k = replayed offsets
after_read (records (r ∷ rs)) offsets next k = after_records (apply_records (r ∷ rs) offsets next) k
after_read io_failure offsets next k = failed
after_read out_of_fuel offsets next k = unfinished

-- `replay` from `next` on, a round for every read.
unfoldable pub replay : ℕ → Log → List (Key × ℤ) → ℤ → Replayed
replay zero log offsets next = unfinished
replay (suc fuel) log offsets next =
    after_read (read log next (negsuc 0)) offsets next
      (λ offsets' next'. replay fuel log offsets' next')
