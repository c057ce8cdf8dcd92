-- ===== src/Ioreg/Access/Bounds.antt =====
-- lwis_ioreg.c: an I/O entry accesses the bus inside its block only, and a device that is read only
-- is not written to.
use google_modules_lwis.Prelude.{
  ℕ, zero, suc, ◌+◌, ◌-◌, ◌*◌, ◌/◌, ◌%◌, ◌^◌, ◌≤◌, ◌<◌, ◌≡◌, refl, inl, inr, Bool, true, false,
  Option, none, some, List, ◌==◌, ==_iff, arith, ltb, if◌then◌else◌, Bool-cases,
}
use native.Mathlib.Nat.{div-add-mod'}
use google_modules_lwis.Commands.{RwBatch}
use google_modules_lwis.Ioreg.{
  Block, Bus, IoregDevice, get_block_by_idx, validate_offset, validate_access_size, is_bitwidth,
  ioreg_read_internal, ioreg_write_internal, read_batch_loop, write_batch_loop,
}
use google_modules_lwis.Ioreg.Access.{
  internal_offset, read_block, lwis_ioreg_read, write_block, write_value, lwis_ioreg_write,
  write_validated,
}
use google_modules_lwis.Ioreg.Reach.{Touches, by_read, by_write, IsAllowed, Kept}

validate_offset-fits :
    (b : Block) (offset size alignment : ℕ)
    → size < 2 ^ 64
    → validate_offset b offset size alignment ≡ 0
    → offset + size ≤ b.size
unfolding validate_offset
validate_offset-fits b offset size alignment h e =
    elim (Bool-cases (ltb (2 ^ 64 - 1 - size) offset)) [
      | inl far ↦ absurd (ground arith)
      | inr near ↦
          let sum : (offset + size) % 2 ^ 64 ≡ offset + size = ground arith in
          elim (Bool-cases (ltb b.size ((offset + size) % 2 ^ 64))) [
            | inl past ↦ absurd (ground arith)
            | inr within ↦ ground (arith, sum)
          ]
    ]

bitwidth-bound : (bits : ℕ) → is_bitwidth bits ≡ true → bits ≤ 64
bitwidth-bound bits h = ground arith

validated-fits :
    (b : Block) (offset bits alignment : ℕ)
    → (validate_offset b offset (bits / 8) alignment == 0) ≡ true
    → is_bitwidth bits ≡ true
    → offset + bits / 8 ≤ b.size
validated-fits b offset bits alignment placed ok =
    validate_offset-fits b offset (bits / 8) alignment (omega (arith, bitwidth-bound bits ok))
      ((==_iff (validate_offset b offset (bits / 8) alignment) 0).0 placed)

module _ {H : Type 0} (bus : Bus H) (d : IoregDevice H) where
  abbrev pub Reached : H → Type 0
  Reached h = Touches bus (IsAllowed d) d.hardware h

  abbrev pub at_state : H → IoregDevice H
  at_state h = record d { hardware = h }

  pub read_internal-Reached :
      (h : H) (index offset bits : ℕ) (b : Block)
      → Reached h
      → get_block_by_idx d index ≡ some b
      → (is_bitwidth bits ≡ true → offset + bits / 8 ≤ b.size)
      → Reached (ioreg_read_internal bus h index offset bits).2
  unfolding ioreg_read_internal
  read_internal-Reached h index offset bits b t found fits = elim (Bool-cases (is_bitwidth bits)) [
    | inl ok ↦ rw ok (by_read index offset bits t ((b, found, fits ok), λ _. refl))
    | inr bad ↦ rw bad t
  ]

  write_internal-Reached :
      (h : H) (index offset bits value : ℕ) (b : Block)
      → d.is_read_only ≡ false
      → Reached h
      → get_block_by_idx d index ≡ some b
      → (is_bitwidth bits ≡ true → offset + bits / 8 ≤ b.size)
      → Reached (ioreg_write_internal bus h index offset bits value).1
  unfolding ioreg_write_internal
  write_internal-Reached h index offset bits value b rw_ok t found fits =
      elim (Bool-cases (is_bitwidth bits)) [
        | inl ok ↦ rw ok (by_write index offset bits _ t ((b, found, fits ok), λ e. absurd (cc)))
        | inr bad ↦ rw bad t
      ]

  pub read_loop-Reached :
      (bits count : ℕ) (h : H) (index at : ℕ) (b : Block)
      → Reached h
      → get_block_by_idx d index ≡ some b
      → at + count * (bits / 8) ≤ b.size
      → Reached (read_batch_loop bus bits count h index at).1
  unfolding read_batch_loop
  read_loop-Reached bits zero h index at b t found fits = t
  read_loop-Reached bits (suc count) h index at b t found fits =
      read_loop-Reached bits count (bus.read h index at bits).1 index (at + bits / 8) b
        (by_read index at bits t ((b, found, omega arith), λ _. refl)) found (omega arith)

  pub write_loop-Reached :
      (bits : ℕ) (fixed : Bool) (count : ℕ) (h : H) (index at : ℕ) (buf : List ℕ) (b : Block)
      → d.is_read_only ≡ false
      → Reached h
      → get_block_by_idx d index ≡ some b
      → at + count * (bits / 8) ≤ b.size
      → Reached (write_batch_loop bus bits fixed count h index at buf)
  unfolding write_batch_loop
  write_loop-Reached bits fixed zero h index at buf b rw_ok t found fits = t
  write_loop-Reached bits true (suc count) h index at buf b rw_ok t found fits =
      write_loop-Reached bits true count _ index at _ b rw_ok
        (by_write index at bits _ t ((b, found, omega arith), λ e. absurd (cc))) found (omega arith)
  write_loop-Reached bits false (suc count) h index at buf b rw_ok t found fits =
      write_loop-Reached bits false count _ index (at + bits / 8) _ b rw_ok
        (by_write index at bits _ t ((b, found, omega arith), λ e. absurd (cc))) found (omega arith)

  -- A batch that is validated, and whose size is a multiple of the register's.
  pub batch_fits :
      (b : Block) (e : RwBatch)
      → (validate_offset b e.offset e.size_in_bytes (d.native_addr_bitwidth / 8) == 0) ≡ true
      → (e.size_in_bytes % (d.native_value_bitwidth / 8) == 0) ≡ true
      → e.size_in_bytes < 2 ^ 64
      → e.offset + e.size_in_bytes / (d.native_value_bitwidth / 8) * (d.native_value_bitwidth / 8)
        ≤ b.size
  batch_fits b e within whole size =
      let n = d.native_value_bitwidth / 8 in
      let fits = validate_offset-fits b e.offset e.size_in_bytes (d.native_addr_bitwidth / 8) size (
        (==_iff (validate_offset b e.offset e.size_in_bytes (d.native_addr_bitwidth / 8)) 0).0
          within) in
      omega (arith, fits, (==_iff (e.size_in_bytes % n) 0).0 whole, div-add-mod' e.size_in_bytes n)

  native_offset :
      (h : H) (offset : ℕ)
      → internal_offset bus (at_state h) offset d.native_value_bitwidth ≡ offset
  native_offset h offset = ground arith

  native_width : (d.native_value_bitwidth == d.native_value_bitwidth) ≡ true
  native_width = ground arith

  read_block-Kept :
      (h : H) (index offset : ℕ) (r : Option Block)
      → Reached h
      → get_block_by_idx d index ≡ r
      → Kept bus d (read_block bus (at_state h) index offset d.native_value_bitwidth r).2
  unfolding read_block
  read_block-Kept h index offset none t found = (h, refl, t)
  read_block-Kept h index offset (some b) t found =
      let n = d.native_value_bitwidth in
      let placed = validate_offset b offset (n / 8) (d.native_addr_bitwidth / 8) in
      elim (Bool-cases (validate_access_size n n == 0)) [
        | inr bad ↦ rw bad (h, refl, t)
        | inl ok ↦ elim (Bool-cases (placed == 0)) [
          | inr out ↦ rw (ok, native_offset h offset, out) (h, refl, t)
          | inl within ↦
              rw (ok, native_offset h offset, within)
                (
                  _,
                  refl,
                  read_internal-Reached h index offset n b t found
                      (validated-fits b offset n (d.native_addr_bitwidth / 8) within),
                )
        ]
      ]

  pub either-Kept :
      {X : Type 0} (device : X → IoregDevice H) (c : Bool) (x y : X)
      → (c ≡ true → Kept bus d (device x))
      → (c ≡ false → Kept bus d (device y))
      → Kept bus d (device (if c then x else y))
  either-Kept device true x y hx hy = hx refl
  either-Kept device false x y hx hy = hy refl

  pub read-Kept :
      (h : H) (index offset : ℕ)
      → Reached h
      → Kept bus d (lwis_ioreg_read bus (at_state h) index offset d.native_value_bitwidth).2
  unfolding lwis_ioreg_read
  read-Kept h index offset t = read_block-Kept h index offset _ t refl

  write_block-Kept :
      (h : H) (index offset value : ℕ) (r : Option Block)
      → d.is_read_only ≡ false
      → Reached h
      → get_block_by_idx d index ≡ r
      → Kept bus d (write_block bus (at_state h) index offset value d.native_value_bitwidth r).1
  unfolding write_block write_validated write_value
  write_block-Kept h index offset value none rw_ok t found = (h, refl, t)
  write_block-Kept h index offset value (some b) rw_ok t found =
      let n = d.native_value_bitwidth in
      let placed = validate_offset b offset (n / 8) (d.native_addr_bitwidth / 8) in
      elim (Bool-cases (validate_access_size n n == 0)) [
        | inr bad ↦ rw bad (h, refl, t)
        | inl ok ↦ elim (Bool-cases (placed == 0)) [
          | inr out ↦ rw (ok, native_offset h offset, native_width, out) (h, refl, t)
          | inl within ↦
              rw (ok, native_offset h offset, native_width, within)
                (
                  _,
                  refl,
                  write_internal-Reached h index offset n value b rw_ok t found
                      (validated-fits b offset n (d.native_addr_bitwidth / 8) within),
                )
        ]
      ]

  pub write-Kept :
      (h : H) (index offset value : ℕ)
      → Reached h
      → Kept bus d (lwis_ioreg_write bus (at_state h) index offset value d.native_value_bitwidth).1
  unfolding lwis_ioreg_write
  write-Kept h index offset value t =
      either-Kept (λ (r : ℕ × IoregDevice H). r.1) d.is_read_only _ _ (λ ro. (h, refl, t))
        (λ rw_ok. write_block-Kept h index offset value _ rw_ok t refl)
