-- ===== src/Protocol/Frame/RoundTrip.antt =====
-- A frame is read back as it was written, however the writer splits the bytes.
use gokaf.Base.{
  ℕ, zero, suc, ◌^◌, ◌%◌, ◌≤◌, ◌<◌, ◌≡◌, ◌≢◌, refl, sym, ap, ◌∙◌, Bool, ltb, ltb→lt, Bool-cases,
  inl, inr, List, [], ◌∷◌, ◌++◌, append-nil, append_assoc, length, take, drop, ◌==◌, arith,
}
use gokaf.Protocol.Result.{Reads, Reads-bind}
use native.Mathlib.Nat.{mod-eq_of_lt}
use gokaf.Protocol.Bytes.{put_be, get_be, get_be-put_be}
use gokaf.Protocol.Types.RoundTrip.{Reads-full}
use gokaf.Protocol.Frame.{
  Writer, and_then, Written, done, failed, panicked, out_of_fuel, write_all, write_slice,
  write_frame, read_frame,
}

length-drop_lt : (n : ℕ) (b : ℕ) (p : List ℕ) → n ≢ 0 → length (drop n (b ∷ p)) ≤ length p
length-drop_lt zero b p h = absurd (h refl)
length-drop_lt (suc zero) b p h = omega arith
length-drop_lt (suc (suc n)) b [] h = omega arith
length-drop_lt (suc (suc n)) b (c ∷ p) h = omega (arith, length-drop_lt (suc n) c p (λ e. cc))

take_append_drop : (n : ℕ) (p : List ℕ) → take n p ++ drop n p ≡ p
take_append_drop zero p = refl
take_append_drop (suc n) [] = refl
take_append_drop (suc n) (b ∷ p) = rw (take_append_drop n p)

-- A call of the writer that claims more bytes than it was given, against the contract of io.Writer.
abbrev pub Claims : (List ℕ → List ℕ → ℕ × Bool) → Type 0
Claims accept = (sent : List ℕ) × (p : List ℕ) × (length p < (accept sent p).0)

-- The outcome of a write to a writer that has sent `sent`: all bytes behind those, or an error after a
-- part of them, or a panic since the writer claims too much.
abbrev pub Appends : (List ℕ → List ℕ → ℕ × Bool) → List ℕ → List ℕ → Written → Type 0
Appends accept sent p (done w) = w.sent ≡ sent ++ p
Appends accept sent p (failed e w) =
    (q : List ℕ) × (r : List ℕ) × (w.sent ≡ sent ++ q) × (p ≡ q ++ r)
Appends accept sent p panicked = Claims accept
Appends accept sent p out_of_fuel = ⊥

-- What a round that took `n` bytes adds to the outcome of the others.
Appends-round :
    (accept : List ℕ → List ℕ → ℕ × Bool) (sent p : List ℕ) (n : ℕ) (r : Written)
    → Appends accept (sent ++ take n p) (drop n p) r
    → Appends accept sent p r
Appends-round accept sent p n (done w) h =
    h ∙ append_assoc sent (take n p) (drop n p) ∙ ap (◌++◌ sent) (take_append_drop n p)
Appends-round accept sent p n (failed e w) (q, r, hs, hp) = (
  take n p ++ q,
  r,
  hs ∙ append_assoc sent (take n p) q,
  sym (take_append_drop n p) ∙ ap (◌++◌ (take n p)) hp ∙ sym (append_assoc (take n p) q r),
)
Appends-round accept sent p n panicked h = h
Appends-round accept sent p n out_of_fuel h = h

write_all-Appends :
    (fuel : ℕ) (w : Writer) (p : List ℕ)
    → length p ≤ fuel
    → Appends w.accept w.sent p (write_all fuel w p)
unfolding write_all
write_all-Appends fuel w [] h = sym (append-nil w.sent)
write_all-Appends zero w (b ∷ p) h = absurd (omega arith)
write_all-Appends (suc fuel) w (b ∷ p) h =
    let n = (w.accept w.sent (b ∷ p)).0 in
    let part : (q : List ℕ) × (r : List ℕ) × (w.sent ++ take n (b ∷ p) ≡ w.sent ++ q)
        × (b ∷ p ≡ q ++ r) =
      (take n (b ∷ p), drop n (b ∷ p), refl, sym (take_append_drop n (b ∷ p))) in
    elim (Bool-cases (w.accept w.sent (b ∷ p)).1) [
      | inl e ↦ rw e part
      | inr e ↦ elim (Bool-cases (n == 0)) [
        | inl z ↦ rw (e, z) part
        | inr nz ↦ elim (Bool-cases (ltb (length (b ∷ p)) n)) [
          | inl c ↦ rw (e, nz, c) (w.sent, b ∷ p, ltb→lt (length (b ∷ p)) n c)
          | inr c ↦
              rw (e, nz, c)
                (Appends-round w.accept w.sent (b ∷ p) n _ (
                  write_all-Appends fuel (record w { sent = w.sent ++ take n (b ∷ p) })
                    (drop n (b ∷ p)) (omega (arith, h, length-drop_lt n b p (λ z. ground arith)))))
        ]
      ]
    ]

-- `writeAll` ends whatever the writer does, in at most as many calls as there are bytes: either
-- every byte of the slice stands behind what was sent before, or there is an error and a front
-- part of the slice stands there, the bytes of the failed call included; it panics only with a writer
-- that can claim more bytes than it was given.
pub write_slice-Appends : (w : Writer) (p : List ℕ) → Appends w.accept w.sent p (write_slice w p)
unfolding write_slice
write_slice-Appends w p = write_all-Appends (length p) w p (omega arith)

abbrev length_buf : List ℕ → List ℕ
length_buf payload = put_be 4 (length payload % 2 ^ 32)

framed :
    (payload : List ℕ)
    → length payload < 2 ^ 32
    → Reads read_frame (length_buf payload ++ payload) payload
unfolding read_frame
framed payload h =
    Reads-bind _ (Reads-full 4 (length_buf payload) refl) (Reads-full _ payload (sym prefix))
  where
    prefix : get_be (length_buf payload) ≡ length payload
    prefix = get_be-put_be 4 (length payload % 2 ^ 32) (omega arith) ∙ mod-eq_of_lt h

abbrev sent_of : Written → List ℕ
sent_of (done w) = w.sent
sent_of (failed e w) = w.sent
sent_of panicked = []
sent_of out_of_fuel = []

payload_sent :
    (v w' : Writer) (p : List ℕ) (r : Written)
    → Appends v.accept v.sent p r
    → r ≡ done w'
    → w'.sent ≡ v.sent ++ p
payload_sent v w' p (done u) a e = ap sent_of (sym e) ∙ a
payload_sent v w' p (failed x u) a e = cc
payload_sent v w' p panicked a e = cc
payload_sent v w' p out_of_fuel a e = cc

frame_sent :
    (w w' : Writer) (payload buf : List ℕ) (r : Written)
    → Appends w.accept w.sent buf r
    → and_then r (λ v. write_slice v payload) ≡ done w'
    → w'.sent ≡ (w.sent ++ buf) ++ payload
frame_sent w w' payload buf (done v) a e =
    payload_sent v w' payload _ (write_slice-Appends v payload) e ∙ ap (λ s. s ++ payload) a
frame_sent w w' payload buf (failed x v) a e = cc
frame_sent w w' payload buf panicked a e = cc
frame_sent w w' payload buf out_of_fuel a e = cc

-- A frame that `WriteFrame` wrote to a fresh writer, in however many calls, is read back by
-- `ReadFrame` as its payload, and the bytes behind it are left, if the payload is shorter than
-- 2^32 bytes and the write reported no error.
pub Reads-frame :
    (w w' : Writer) (payload : List ℕ)
    → length payload < 2 ^ 32
    → w.sent ≡ []
    → write_frame w payload ≡ done w'
    → Reads read_frame w'.sent payload
unfolding write_frame
Reads-frame w w' payload h fresh e =
    rw (frame_sent w w' payload (length_buf payload) _ (write_slice-Appends w _) e, fresh)
      (framed payload h)
