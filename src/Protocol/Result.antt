-- ===== src/Protocol/Result.antt =====
-- The outcomes of decoding: Go's (value, error) pair, and the run-time panic that ends the process.
use gokaf.Base.{ℕ, ℤ, ◌≡◌, refl, List, [], ◌++◌, append_assoc}

-- The errors that the decoders of internal/protocol and of the packages above it return.
-- `negative_length` is that of `ReadString`, `tagged_fields` that of `ReadTagBuffer`.
pub data Error : Type 0 where
  eof unexpected_eof varint_too_long zero_length short_batch dropped_ping log_failure : Error
  negative_length : ℤ → Error
  tagged_fields bad_magic : ℕ → Error
  unknown_record_type : ℤ → Error

-- `panics` is `make` called with a negative size.
pub data Result {ℓ} (A : Type ℓ) : Type ℓ where
  ok : A → Result A
  err : Error → Result A
  panics : Result A

-- A decoder over an in-memory reader: from the unread bytes to a value and the bytes left.
abbrev pub Decoder {ℓ} : Type ℓ → Type ℓ
Decoder A = List ℕ → Result (A × List ℕ)

infixl 5 ◌>>=◌ ◌>>◌
unfoldable pub ◌>>=◌ {ℓ κ} : {A : Type ℓ} {B : Type κ} → Decoder A → (A → Decoder B) → Decoder B
◌>>=◌ m f s = elim (m s) [ ok (a, s') ↦ f a s' | err e ↦ err e | panics ↦ panics ]

abbrev pub ◌>>◌ {ℓ κ} : {A : Type ℓ} {B : Type κ} → Decoder A → Decoder B → Decoder B
m >> k = m >>= λ _. k

unfoldable pub return {ℓ} : {A : Type ℓ} → A → Decoder A
return a s = ok (a, s)

unfoldable pub fail {ℓ} : {A : Type ℓ} → Error → Decoder A
fail e s = err e

unfoldable pub panic {ℓ} : {A : Type ℓ} → Decoder A
panic s = panics

-- The decoder takes exactly these bytes off the front of any input, and answers the value.
pub record Reads {ℓ} {A : Type ℓ} (d : Decoder A) (bytes : List ℕ) (a : A) : Type ℓ where
  pub run : (rest : List ℕ) → d (bytes ++ rest) ≡ ok (a, rest)

pub Reads-return {ℓ} : {A : Type ℓ} {a : A} → Reads (return a) [] a
unfolding return
Reads-return = record { run = λ rest. refl }

pub Reads-bind {ℓ κ} :
    {A : Type ℓ} {B : Type κ} {m : Decoder A} {xs ys : List ℕ} {a : A} {b : B} (f : A → Decoder B)
    → Reads m xs a
    → Reads (f a) ys b
    → Reads (m >>= f) (xs ++ ys) b
unfolding ◌>>=◌
Reads-bind {xs} {ys} f h k = record {
  run = λ rest. rw (append_assoc xs ys rest, h.run (ys ++ rest), ◌>>=◌) (k.run rest);
}

-- A last step that reads nothing.
pub Reads-last {ℓ κ} :
    {A : Type ℓ} {B : Type κ} {m : Decoder A} {xs : List ℕ} {a : A} {b : B} (f : A → Decoder B)
    → Reads m xs a
    → Reads (f a) [] b
    → Reads (m >>= f) xs b
unfolding ◌>>=◌
Reads-last f h k = record { run = λ rest. rw (h.run rest, ◌>>=◌) (k.run rest) }
