-- ===== src/Protocol/Frame.antt =====
-- internal/protocol/framing.go: a payload behind its length, over a stream of bytes.
pub mod RoundTrip
use gokaf.Base.{
  ℕ, zero, suc, ◌+◌, ◌-◌, ◌^◌, ◌%◌, List, [], ◌∷◌, ◌++◌, Bool, ltb, length, take, drop,
  if◌then◌else◌, ◌==◌,
}
use gokaf.Protocol.Result.{Decoder, ◌>>=◌}
use gokaf.Protocol.Bytes.{put_be, get_be, read_full}

-- An io.Writer: `accept` says what one call of `Write` returns, given the bytes sent so far and the slice:
-- the number of bytes that it took, and whether there is an error, which may come with bytes taken.
pub record Writer : Type 0 where
  pub sent : List ℕ
  pub accept : List ℕ → List ℕ → ℕ × Bool

pub data WriteError : Type 0 where
  write_failed short_write : WriteError

pub data Written : Type 0 where
  done : Writer → Written
  failed : WriteError → Writer → Written
  panicked : Written
  out_of_fuel : Written

-- An error ends the loop, whatever was taken; without one, a call that takes no byte is
-- io.ErrShortWrite, and `p = p[n:]` panics if the call claims more bytes than it was given. The first
-- argument bounds the rounds.
unfoldable pub write_all : ℕ → Writer → List ℕ → Written
write_all fuel w [] = done w
write_all zero w (b ∷ p) = out_of_fuel
write_all (suc fuel) w (b ∷ p) =
    let call = w.accept w.sent (b ∷ p) in
    let after : Writer = record w { sent = w.sent ++ take call.0 (b ∷ p) } in
    let rest = write_all fuel after (drop call.0 (b ∷ p)) in
    if call.1
    then failed write_failed after
    else (if call.0 == 0
        then failed short_write after
        else (if ltb (length (b ∷ p)) call.0 then panicked else rest))

-- A round takes a byte at least, so as many rounds as bytes are enough.
unfoldable pub write_slice : Writer → List ℕ → Written
write_slice w p = write_all (length p) w p

abbrev pub and_then : Written → (Writer → Written) → Written
and_then (done w) k = k w
and_then (failed e w) k = failed e w
and_then panicked k = panicked
and_then out_of_fuel k = out_of_fuel

unfoldable pub write_frame : Writer → List ℕ → Written
write_frame w payload =
    and_then (write_slice w (put_be 4 (length payload % 2 ^ 32))) (λ w'. write_slice w' payload)

unfoldable pub read_frame : Decoder (List ℕ)
read_frame = do length_buf ← read_full 4; read_full (get_be length_buf)
