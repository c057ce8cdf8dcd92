-- ===== src/I2c/Bytes.antt =====
-- lwis_i2c.c: a value as the bytes of a message, and back.
use google_modules_lwis.Prelude.{
  ℕ, ◌+◌, ◌*◌, ◌/◌, ◌%◌, ◌^◌, ◌<◌, ◌≡◌, ◌≢◌, refl, ap, ◌⊎◌, inl, inr, true, List, arith, length,
  ◌==◌, if◌then◌else◌,
}
use google_modules_lwis.I2c.{
  value_to_buf, buf_to_value, byte_at, byte_of, int_to_word, is_offset_width, is_data_width,
}

-- The sizes that the two functions support.
abbrev pub IsSupported : ℕ → Type 0
IsSupported n = (n ≡ 1) ⊎ ((n ≡ 2) ⊎ (n ≡ 4))

offset_width : (bits : ℕ) → is_offset_width bits ≡ true → (bits / 8 ≡ 1) ⊎ (bits / 8 ≡ 2)
offset_width bits h = ground arith

pub data_width : (bits : ℕ) → is_data_width bits ≡ true → bits ≢ 24 → IsSupported (bits / 8)
data_width bits h other = ground arith

pub offset-IsSupported : (bits : ℕ) → is_offset_width bits ≡ true → IsSupported (bits / 8)
offset-IsSupported bits h = elim (offset_width bits h) [ inl e ↦ inl e | inr e ↦ inr (inl e) ]

pub length-value_to_buf :
    (value : ℕ) (buf : List ℕ) (n : ℕ) → IsSupported n → length (value_to_buf value buf n) ≡ n
unfolding value_to_buf
length-value_to_buf value buf n (inl e) = rw e refl
length-value_to_buf value buf n (inr (inl e)) = rw e refl
length-value_to_buf value buf n (inr (inr e)) = rw e refl

two_bytes : (v : ℕ) → v < 256 ^ 2 → v / 2 ^ 8 % 256 * 2 ^ 8 + v % 256 ≡ v
two_bytes v h = omega arith

four_bytes :
    (v : ℕ)
    → v < 256 ^ 4
    → v / 2 ^ 24 % 256 * 2 ^ 24 + v / 2 ^ 16 % 256 * 2 ^ 16 + v / 2 ^ 8 % 256 * 2 ^ 8 + v % 256 ≡ v
four_bytes v h = omega arith

one_byte : (v : ℕ) → v < 256 ^ 1 → v % 256 ≡ v
one_byte v h = omega arith

-- A value comes back, but of 32 bits it does so as an int.
pub buf_to_value-value_to_buf :
    (value : ℕ) (buf : List ℕ) (n : ℕ)
    → IsSupported n
    → value < 256 ^ n
    → buf_to_value (value_to_buf value buf n) n ≡ (if n == 4 then int_to_word value else value)
unfolding value_to_buf buf_to_value byte_at byte_of
buf_to_value-value_to_buf value buf n (inl e) h = rw e (one_byte value (rw e at h))
buf_to_value-value_to_buf value buf n (inr (inl e)) h = rw e (two_bytes value (rw e at h))
buf_to_value-value_to_buf value buf n (inr (inr e)) h =
    rw e (ap (λ (x : ℕ). int_to_word x) (four_bytes value (rw e at h)))
