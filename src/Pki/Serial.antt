-- ===== src/Pki/Serial.antt =====
-- `serialNumber`: the bound on it, and which bytes it is made of.
use cel_admission_polyfill.Prelude.{
  ℕ, suc, ◌+◌, ◌*◌, ◌%◌, ◌^◌, ◌<◌, ◌≡◌, refl, ◌∙◌, ap, sym, subst, [], ◌∷◌, All, length, arith,
}
use native.Mathlib.Nat.{mul_assoc, mul_comm, mul-one, pow-suc}
use cel_admission_polyfill.Pki.{
  Bytes, Attempt, made, failed, Crypto, set_bytes, clear_sign, serial_number, ◌>>=◌,
}

abbrev pub IsByte : ℕ → Type 0
IsByte b = b < 256

-- `rand.Read` fills the slice with bytes, or fails.
pub record Fills {Time Pub Priv E W : Type 0} (lib : Crypto Time Pub Priv E W) : Type 0 where
  pub filled :
      (n : ℕ) (w w' : W) (b : Bytes) → lib.random n w ≡ (made b, w') → (length b ≡ n) × All IsByte b

scaled : (a p q : ℕ) → p ≡ 256 * q → a * 256 * q ≡ a * p
scaled a p q h = mul_assoc a 256 q ∙ ap (λ n. a * n) (sym h)

set_bytes-lt :
    (bs : Bytes) (acc bound : ℕ)
    → All IsByte bs
    → acc < bound
    → set_bytes acc bs < bound * 256 ^ length bs
unfolding set_bytes
set_bytes-lt [] acc bound _ h = simp mul-one h
set_bytes-lt (b ∷ bs) acc bound (byte, bytes) h =
    subst (λ n. set_bytes (acc * 256 + b) bs < n)
      (scaled bound (256 ^ suc (length bs)) (256 ^ length bs)
        (pow-suc 256 (length bs) ∙ mul_comm (256 ^ length bs) 256))
      (set_bytes-lt bs (acc * 256 + b) (bound * 256) bytes (omega arith))

cleared-lt :
    (b : ℕ) (bs : Bytes) → All IsByte bs → set_bytes 0 (clear_sign (b ∷ bs)) < 128 * 256 ^ length bs
unfolding clear_sign set_bytes
cleared-lt b bs bytes = set_bytes-lt bs (0 * 256 + b % 128) 128 bytes (omega arith)

module _ {Time Pub Priv E W : Type 0} (lib : Crypto Time Pub Priv E W) (fills : Fills lib) where
  made_serial-lt :
      (w w' : W) (n : ℕ) (r : Attempt E Bytes × W)
      → lib.random 20 w ≡ r
      → (r >>= λ b w. (made (set_bytes 0 (clear_sign b)), w)) ≡ (made n, w')
      → n < 2 ^ 159
  made_serial-lt w w' n (made [], v) e h = absurd (omega (arith, (fills.filled 20 w v [] e).0))
  made_serial-lt w w' n (made (b ∷ bs), v) e h =
      let (len, bytes) = fills.filled 20 w v (b ∷ bs) e in
      let len' : length bs ≡ 19 = omega (arith, len) in
      let small : set_bytes 0 (clear_sign (b ∷ bs)) < 128 * 256 ^ 19 =
        subst (λ k. set_bytes 0 (clear_sign (b ∷ bs)) < 128 * 256 ^ k) len'
          (cleared-lt b bs bytes.1) in
      subst (λ k. k < 2 ^ 159) (ground arith) small
  made_serial-lt w w' n (failed err, v) e h = cc

  -- A serial number that is made is below 2 ^ 159, so it has at most 20 bytes with the sign bit
  -- clear.
  pub serial_number-lt : (w w' : W) (n : ℕ) → serial_number lib w ≡ (made n, w') → n < 2 ^ 159
  unfolding serial_number
  serial_number-lt w w' n h = made_serial-lt w w' n (lib.random 20 w) refl h
