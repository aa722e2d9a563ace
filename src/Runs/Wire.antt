-- ===== src/Runs/Wire.antt =====
-- Examples of the wire formats.
use gokaf.Base.{ℕ, ◌≡◌, refl, List, [], ◌∷◌, false, pos, negsuc, All, arith}
use gokaf.Protocol.Result.{Reads, ok}
use gokaf.Protocol.Varint.{read_varint, write_varint}
use gokaf.Protocol.Varint.RoundTrip.{Reads-varint}
use gokaf.Protocol.Frame.{Writer, done, write_slice, write_frame, read_frame}
use gokaf.Protocol.Frame.RoundTrip.{Appends, write_slice-Appends, Reads-frame}
use gokaf.Assignor.{TopicPartitions, encode_assignment, decode_assignment}
use gokaf.Assignor.RoundTrip.{FitsTopic, decode_assignment-encode_assignment}

abbrev hello : List ℕ
hello = 104 ∷ 105 ∷ []

Reads-varint_example : Reads read_varint (write_varint (negsuc 299)) (negsuc 299)
Reads-varint_example = Reads-varint (negsuc 299) (omega arith)

abbrev given : List TopicPartitions
given = record { topic = hello; partitions = pos 0 ∷ pos 2 ∷ [] } ∷ []

given-FitsTopic : All FitsTopic given
given-FitsTopic = (
  record {
    topic = omega arith;
    count = omega arith;
    partitions = (omega arith, (omega arith, tt));
  },
  tt,
)

decode_assignment-encode_assignment_example : decode_assignment (encode_assignment given) ≡ ok given
decode_assignment-encode_assignment_example =
    decode_assignment-encode_assignment given (omega arith) given-FitsTopic

-- A writer that takes one byte a call.
abbrev slow : Writer
slow = record { sent = []; accept = λ sent p. (1, false) }

write_slice-Appends_example : Appends slow.accept [] hello (write_slice slow hello)
write_slice-Appends_example = write_slice-Appends slow hello

abbrev slow_done : Writer
slow_done = record { sent = 0 ∷ 0 ∷ 0 ∷ 2 ∷ hello; accept = λ sent p. (1, false) }

Reads-frame_example : Reads read_frame (0 ∷ 0 ∷ 0 ∷ 2 ∷ hello) hello
unfolding write_frame write_slice gokaf.Protocol.Frame.write_all
Reads-frame_example = Reads-frame slow slow_done hello (omega arith) refl refl
