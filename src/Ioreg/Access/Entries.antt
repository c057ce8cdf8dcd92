-- ===== src/Ioreg/Access/Entries.antt =====
-- lwis_ioreg.c: I/O entries access the bus inside their blocks only, and a device that is read only is
-- not written to.
use google_modules_lwis.Prelude.{
  ℕ, ◌/◌, ◌%◌, ◌^◌, ◌<◌, ◌≡◌, refl, sym, subst, inl, inr, false, Option, none, some, ◌==◌, not,
  Bool-cases,
}
use google_modules_lwis.Commands.{IoEntry, RwBatch, Modify}
use google_modules_lwis.Io.{Reply}
use google_modules_lwis.Ioreg.{
  Block, Bus, IoregDevice, get_block_by_idx, validate_offset, is_bitwidth,
  ioreg_read_batch_internal, ioreg_write_batch_internal,
}
use google_modules_lwis.Ioreg.Access.{
  lwis_ioreg_write, batch_read, batch_write, write_modified, modified, lwis_ioreg_io_entry_rw,
}
use google_modules_lwis.Ioreg.Reach.{Kept}
use google_modules_lwis.Ioreg.Access.Bounds.{
  Reached, at_state, read_loop-Reached, write_loop-Reached, batch_fits, either-Kept, read-Kept,
  write-Kept,
}

-- The size of a batch is a size_t.
abbrev pub IsSized : IoEntry → Type 0
IsSized (IoEntry.read_batch e) = e.size_in_bytes < 2 ^ 64
IsSized (IoEntry.write_batch e) = e.size_in_bytes < 2 ^ 64
IsSized _ = Unit

module _ {H : Type 0} (bus : Bus H) (d : IoregDevice H) where
  batch_read-Kept :
      (h : H) (e : RwBatch) (r : Option Block)
      → e.size_in_bytes < 2 ^ 64
      → Reached bus d h
      → get_block_by_idx d e.bid ≡ r
      → Kept bus d (batch_read bus (at_state bus d h) e r).regs
  unfolding batch_read ioreg_read_batch_internal
  batch_read-Kept h e none size t found = (h, refl, t)
  batch_read-Kept h e (some b) size t found =
      let n = d.native_value_bitwidth in
      let placed = validate_offset b e.offset e.size_in_bytes (d.native_addr_bitwidth / 8) in
      elim (Bool-cases (placed == 0)) [
        | inr out ↦ rw out (h, refl, t)
        | inl within ↦ elim (Bool-cases (e.size_in_bytes % (n / 8) == 0)) [
          | inr odd ↦ rw (within, odd) (h, refl, t)
          | inl whole ↦ elim (Bool-cases (is_bitwidth n)) [
            | inr bad ↦ rw (within, whole, bad) (h, refl, t)
            | inl ok ↦
                rw (within, whole, ok)
                  (
                    _,
                    refl,
                    read_loop-Reached bus d n (e.size_in_bytes / (n / 8)) h e.bid e.offset b t found
                        (batch_fits bus d b e within whole size),
                  )
          ]
        ]
      ]

  batch_write-Kept :
      (h : H) (e : RwBatch) (r : Option Block)
      → e.size_in_bytes < 2 ^ 64
      → d.is_read_only ≡ false
      → Reached bus d h
      → get_block_by_idx d e.bid ≡ r
      → Kept bus d (batch_write bus (at_state bus d h) e r).regs
  unfolding batch_write ioreg_write_batch_internal
  batch_write-Kept h e none size rw_ok t found = (h, refl, t)
  batch_write-Kept h e (some b) size rw_ok t found =
      let n = d.native_value_bitwidth in
      let placed = validate_offset b e.offset e.size_in_bytes (d.native_addr_bitwidth / 8) in
      elim (Bool-cases (placed == 0)) [
        | inr out ↦ rw out (h, refl, t)
        | inl within ↦ elim (Bool-cases (e.size_in_bytes % (n / 8) == 0)) [
          | inr odd ↦ rw (within, odd) (h, refl, t)
          | inl whole ↦ elim (Bool-cases (is_bitwidth n)) [
            | inr bad ↦ rw (within, whole, bad) (h, refl, t)
            | inl ok ↦
                rw (within, whole, ok)
                  (
                    _,
                    refl,
                    write_loop-Reached bus d n e.is_offset_fixed (e.size_in_bytes / (n / 8)) h e.bid
                        e.offset e.buf b rw_ok t found (batch_fits bus d b e within whole size),
                  )
          ]
        ]
      ]

  write_modified-Kept :
      (m : Modify) (ret value : ℕ) (d' : IoregDevice H)
      → Kept bus d d'
      → Kept bus d (write_modified bus m d.native_value_bitwidth (ret, value, d')).regs
  unfolding write_modified
  write_modified-Kept m ret value d' (h, same, t) =
      either-Kept bus d (λ (r : Reply (IoregDevice H)). r.regs) (not (ret == 0)) _ _
        (λ bad. (h, same, t))
        (λ ok.
          subst
            (λ (x : IoregDevice H).
              Kept bus d
                (lwis_ioreg_write bus x m.bid m.offset (modified bus m value)
                  d.native_value_bitwidth).1)
            (sym same) (write-Kept bus d h m.bid m.offset _ t))

  entry-Kept :
      (h : H) (e : IoEntry)
      → IsSized e
      → Reached bus d h
      → Kept bus d (lwis_ioreg_io_entry_rw bus (at_state bus d h) e d.native_value_bitwidth).regs
  unfolding lwis_ioreg_io_entry_rw
  entry-Kept h (IoEntry.read e) size t = read-Kept bus d h e.bid e.offset t
  entry-Kept h (IoEntry.read_batch e) size t = batch_read-Kept h e _ size t refl
  entry-Kept h (IoEntry.write e) size t = write-Kept bus d h e.bid e.offset e.val t
  entry-Kept h (IoEntry.write_batch e) size t =
      either-Kept bus d (λ (r : Reply (IoregDevice H)). r.regs) d.is_read_only _ _
        (λ ro. (h, refl, t)) (λ rw_ok. batch_write-Kept h e _ size rw_ok t refl)
  entry-Kept h (IoEntry.modify m) size t =
      write_modified-Kept m _ _ _ (read-Kept bus d h m.bid m.offset t)
  entry-Kept h (IoEntry.poll a) size t = (h, refl, t)
  entry-Kept h (IoEntry.read_assert a) size t = (h, refl, t)
  entry-Kept h (IoEntry.unrecognized n) size t = (h, refl, t)

  -- One entry at the width of the device, from a state that is reached inside the blocks.
  pub lwis_ioreg_io_entry_rw-Kept :
      (d' : IoregDevice H) (e : IoEntry)
      → IsSized e
      → Kept bus d d'
      → Kept bus d (lwis_ioreg_io_entry_rw bus d' e d.native_value_bitwidth).regs
  lwis_ioreg_io_entry_rw-Kept d' e size (h, same, t) =
      subst
        (λ (x : IoregDevice H).
          Kept bus d (lwis_ioreg_io_entry_rw bus x e d.native_value_bitwidth).regs)
        (sym same) (entry-Kept h e size t)
