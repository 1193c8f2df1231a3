-- ===== src/Io.antt =====
-- Results and errors of input and output, and reading from a stream of bytes that ends.
use adbproxy_rs.Base.{
  ℕ, zero, suc, ◌+◌, ◌≡◌, ◌<◌, refl, Bool, true, false, [], ◌∷◌, ◌++◌, length, arith, ◌⊎◌, inl, inr,
}
use adbproxy_rs.Text.{Text, Bytes, codes}

pub data Result {ℓ κ} (E : Type ℓ) (A : Type κ) : Type (ℓ ⊔ κ) where
  ok : A → Result E A
  err : E → Result E A

infixl 5 ◌>>=◌ ◌>>◌
abbrev pub ◌>>=◌ {ℓ κ ι} :
    {E : Type ℓ} {A : Type κ} {B : Type ι} → Result E A → (A → Result E B) → Result E B
ok a >>= f = f a
err e >>= f = err e

abbrev pub ◌>>◌ {ℓ κ ι} :
    {E : Type ℓ} {A : Type κ} {B : Type ι} → Result E A → Result E B → Result E B
m >> k = m >>= λ _. k

abbrev pub map_err {ℓ κ ι} :
    {E : Type ℓ} {F : Type κ} {A : Type ι} → (E → F) → Result E A → Result F A
map_err f (ok a) = ok a
map_err f (err e) = err (f e)

-- The kinds of `io::ErrorKind` that the program tells apart, and one for all the others.
pub data ErrorKind : Type 0 where
  unexpected_eof invalid_data invalid_input permission_denied broken_pipe connection_reset :
      ErrorKind
  connection_aborted connection_refused addr_in_use timed_out not_found other : ErrorKind

pub record IoError : Type 0 where
  pub kind : ErrorKind
  pub message : Text

abbrev pub io_error : ErrorKind → Text → IoError
io_error k m = record { kind = k; message = m }

-- `is_benign` of the hub, the session and the daemon, and `is_benign_io` of the proxy: one function,
-- written four times.
unfoldable pub is_benign : IoError → Bool
is_benign e = elim e.kind [
  | broken_pipe ↦ true
  | connection_reset ↦ true
  | connection_aborted ↦ true
  | unexpected_eof ↦ true
  | _ ↦ false
]

-- The error of `read_exact` at the end of a stream.
abbrev pub eof_error : IoError
eof_error = io_error unexpected_eof (codes "failed to fill whole buffer")

-- `reader.read_exact(&mut buf)` for a buffer of the given size, on a stream that holds the bytes and
-- is closed behind them: the buffer and what is left to read.
unfoldable pub read_exact : ℕ → Bytes → Result IoError (Bytes × Bytes)
read_exact zero s = ok ([], s)
read_exact (suc n) [] = err eof_error
read_exact (suc n) (b ∷ s) = do (buf, rest) ← read_exact n s; ok (b ∷ buf, rest)

-- A stream that starts with the bytes hands them over.
pub read_exact-append : (xs rest : Bytes) → read_exact (length xs) (xs ++ rest) ≡ ok (xs, rest)
unfolding read_exact
read_exact-append [] rest = refl
read_exact-append (x ∷ xs) rest = rw (read_exact-append xs rest)

pub Result-cases {ℓ κ} :
    {E : Type ℓ} {A : Type κ} (r : Result E A) → ((a : A) × (r ≡ ok a)) ⊎ ((e : E) × (r ≡ err e))
Result-cases (ok a) = inl (a, refl)
Result-cases (err e) = inr (e, refl)

-- What is read has the length that was asked for.
pub length-read_exact :
    (n : ℕ) (s : Bytes) {buf rest : Bytes} → read_exact n s ≡ ok (buf, rest) → length buf ≡ n
unfolding read_exact
length-read_exact zero s h = ground arith
length-read_exact (suc n) [] h = ground arith
length-read_exact (suc n) (b ∷ s) {buf} {rest} h = elim (Result-cases (read_exact n s)) [
  | inl ((x, y), e) ↦ ground (arith, length-read_exact n s {buf = x} {rest = y})
  | inr (x, e) ↦ ground arith
]

-- A stream that is too short is an error, whatever it holds.
pub read_exact_short : (n : ℕ) (s : Bytes) → length s < n → read_exact n s ≡ err eof_error
unfolding read_exact
read_exact_short zero s h = absurd (omega arith)
read_exact_short (suc n) [] h = refl
read_exact_short (suc n) (b ∷ s) h = rw (read_exact_short n s (omega arith))

-- What is read and what is left make up the stream.
pub length-read_exact_rest :
    (n : ℕ) (s : Bytes) {buf rest : Bytes}
    → read_exact n s ≡ ok (buf, rest)
    → length s ≡ n + length rest
unfolding read_exact
length-read_exact_rest zero s h = ground arith
length-read_exact_rest (suc n) [] h = ground arith
length-read_exact_rest (suc n) (b ∷ s) {buf} {rest} h = elim (Result-cases (read_exact n s)) [
  | inl ((x, y), e) ↦ ground (arith, length-read_exact_rest n s {buf = x} {rest = y})
  | inr (x, e) ↦ ground arith
]
