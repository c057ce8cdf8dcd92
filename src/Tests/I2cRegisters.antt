-- ===== src/Tests/I2cRegisters.antt =====
-- A bus with one device of one register, which keeps the last message that it received.
use google_modules_lwis.Prelude.{ℕ, zero, suc, ◌≡◌, refl, ap, List, [], ◌∷◌, ◌++◌, arith, length}
use google_modules_lwis.I2c.{I2cMsg, Transfer, done, I2cBus, lwis_i2c_register_io}
use google_modules_lwis.I2c.RoundTrip.{
  HasRegisters, ready, read_at, write_at, lwis_i2c_register_io-read_write,
}

unfoldable drop : ℕ → List ℕ → List ℕ
drop zero xs = xs
drop (suc n) [] = []
drop (suc n) (x ∷ xs) = drop n xs

unfoldable transfer : List ℕ → List I2cMsg → Transfer × List ℕ × List ℕ
transfer kept [] = (done 0, [], kept)
transfer kept (m ∷ []) = (done 1, [], m.buf)
transfer kept (m ∷ n ∷ ms) = (done 2, drop m.len kept, kept)

unfoldable bus : I2cBus (List ℕ)
unfolding transfer
bus = record { i2c_transfer = transfer; stale = λ n. [] }

drop-append : (xs ys : List ℕ) (n : ℕ) → length xs ≡ n → drop n (xs ++ ys) ≡ ys
unfolding drop
drop-append [] ys zero h = refl
drop-append [] ys (suc n) h = absurd (omega (arith, h))
drop-append (x ∷ xs) ys zero h = absurd (omega (arith, h))
drop-append (x ∷ xs) ys (suc n) h = drop-append xs ys n (omega (arith, h))

bus-HasRegisters : HasRegisters bus
unfolding bus transfer
bus-HasRegisters = record {
  sent = λ h addr off val off_size size e f. refl;
  received = λ h addr off val off_size size e f. (
    off ++ val,
    ap (λ (bytes : List ℕ). (done 2, bytes, off ++ val)) (drop-append off val off_size e),
  );
}

-- The value 200 of 8 bits at offset 0x1234.
lwis_i2c_register_io-read_write_example :
    ((lwis_i2c_register_io bus (ready 54 16 8 []) (write_at 0 4660 200) 8).ret ≡ 0)
    × ((lwis_i2c_register_io bus
          (lwis_i2c_register_io bus (ready 54 16 8 []) (write_at 0 4660 200) 8).regs
          (read_at 0 4660)
          8).ret
        ≡ 0)
    × ((lwis_i2c_register_io bus
          (lwis_i2c_register_io bus (ready 54 16 8 []) (write_at 0 4660 200) 8).regs
          (read_at 0 4660)
          8).val
        ≡ 200)
lwis_i2c_register_io-read_write_example =
    lwis_i2c_register_io-read_write bus 54 16 8 bus-HasRegisters refl refl (λ h. omega (arith, h)) 0
      4660 200 8 [] (omega arith)
