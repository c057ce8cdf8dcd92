-- ===== src/Ioreg.antt =====
-- lwis_ioreg.c, lwis_device_ioreg.c: register accesses of a memory-mapped device. The kernel's
-- `readl_relaxed` and its kin are a parameter, over a state `H` of the hardware.
pub mod Reach
pub mod Access
use Prim.Native.Nat.{bit_and, bit_or}
use google_modules_lwis.Prelude.{
  ℕ, zero, suc, ◌+◌, ◌-◌, ◌*◌, ◌/◌, ◌%◌, ◌^◌, Bool, true, false, Option, none, some, List, [], ◌∷◌,
  ◌++◌, ◌==◌, ltb, leb, not, ◌&&◌, ◌||◌, if◌then◌else◌, get_elem?,
}
use google_modules_lwis.Errno.{eperm, efault, einval, enosys}
use google_modules_lwis.Commands.{IoEntry, Rw, RwBatch, Modify, value_bytes}
use google_modules_lwis.Io.{Vops, Reply}

-- struct lwis_ioreg; `mapped` says that `base` is not NULL.
pub record Block : Type 0 where
  pub size : ℕ
  pub mapped : Bool

-- The bus: a read and a write at a block, an offset in it, and a width in bits. `wide_mask` is what
-- the compiler makes of the undefined `(1 << 32) - 1` on an int.
pub record Bus (H : Type 0) : Type 0 where
  pub read : H → ℕ → ℕ → ℕ → ℕ × H
  pub write : H → ℕ → ℕ → ℕ → ℕ → H
  pub wide_mask : ℕ

-- struct lwis_ioreg_device, with the hardware behind it.
pub record IoregDevice (H : Type 0) : Type 0 where
  pub blocks : List Block
  pub native_value_bitwidth : ℕ
  pub native_addr_bitwidth : ℕ
  pub is_read_only : Bool
  pub hardware : H

usable : Block → Option Block
usable b = if b.mapped then some b else none

pick : Option Block → Option Block
unfolding usable
pick none = none
pick (some b) = usable b

-- `none` is -EINVAL. A negative index is a number past every list.
unfoldable pub get_block_by_idx : {H : Type 0} → IoregDevice H → ℕ → Option Block
unfolding pick
get_block_by_idx d index = pick (get_elem? d.blocks index)

unfoldable pub validate_offset : Block → ℕ → ℕ → ℕ → ℕ
validate_offset b offset size_in_bytes alignment =
    if not (offset % alignment == 0)
    then efault
    else if ltb (2 ^ 64 - 1 - size_in_bytes) offset
        || ltb b.size ((offset + size_in_bytes) % 2 ^ 64)
    then efault
    else 0

abbrev pub is_bitwidth : ℕ → Bool
is_bitwidth bits = bits == 8 || bits == 16 || bits == 32 || bits == 64

unfoldable pub validate_access_size : ℕ → ℕ → ℕ
validate_access_size access_size native =
    if access_size == native
    then 0
    else if not (is_bitwidth access_size)
    then einval
    else if ltb native access_size
    then enosys
    else 0

-- `offset & ~(n - 1)`: the register that an offset lies in, for a register of `n` bytes.
abbrev pub align_down : ℕ → ℕ → ℕ
align_down offset n = offset - offset % n

-- The value of bytes as they lie in memory, the lowest first.
pub bytes_value : List ℕ → ℕ
bytes_value [] = 0
bytes_value (b ∷ bs) = b % 256 + 256 * bytes_value bs

pub take_bytes : ℕ → List ℕ → List ℕ
take_bytes zero bs = []
take_bytes (suc n) [] = []
take_bytes (suc n) (b ∷ bs) = b ∷ take_bytes n bs

pub drop_bytes : ℕ → List ℕ → List ℕ
drop_bytes zero bs = bs
drop_bytes (suc n) [] = []
drop_bytes (suc n) (b ∷ bs) = drop_bytes n bs

abbrev succeed : {A H : Type 0} → A × H → ℕ × A × H
succeed (a, h) = (0, a, h)

module _ {H : Type 0} (bus : Bus H) where
  pub ioreg_read_internal : H → ℕ → ℕ → ℕ → ℕ × ℕ × H
  ioreg_read_internal h index offset value_bits =
      if is_bitwidth value_bits
      then succeed (bus.read h index offset value_bits)
      else (einval, 0, h)

  pub ioreg_write_internal : H → ℕ → ℕ → ℕ → ℕ → ℕ × H
  ioreg_write_internal h index offset value_bits value =
      if is_bitwidth value_bits
      then (0, bus.write h index offset value_bits (value % 2 ^ value_bits))
      else (einval, h)

  -- The loops over the registers of a batch: `count` registers of `bits` bits, from offset `at`.
  pub read_batch_loop : ℕ → ℕ → H → ℕ → ℕ → List ℕ × H
  read_batch_loop bits zero h index at = ([], h)
  read_batch_loop bits (suc count) h index at =
      let (value, h') = bus.read h index at bits in
      let (bytes, h'') = read_batch_loop bits count h' index (at + bits / 8) in
      (value_bytes (bits / 8) value ++ bytes, h'')

  pub write_batch_loop : ℕ → Bool → ℕ → H → ℕ → ℕ → List ℕ → H
  write_batch_loop bits is_offset_fixed zero h index at buf = h
  write_batch_loop bits is_offset_fixed (suc count) h index at buf =
      write_batch_loop bits is_offset_fixed count
        (bus.write h index at bits (bytes_value (take_bytes (bits / 8) buf))) index
        (if is_offset_fixed then at else at + bits / 8) (drop_bytes (bits / 8) buf)

  pub ioreg_read_batch_internal : H → ℕ → ℕ → ℕ → ℕ → ℕ × List ℕ × H
  unfolding read_batch_loop
  ioreg_read_batch_internal h index offset value_bits size_in_bytes =
      if not (size_in_bytes % (value_bits / 8) == 0)
      then (einval, [], h)
      else if is_bitwidth value_bits
      then succeed (read_batch_loop value_bits (size_in_bytes / (value_bits / 8)) h index offset)
      else (einval, [], h)

  pub ioreg_write_batch_internal : H → ℕ → ℕ → ℕ → ℕ → List ℕ → Bool → ℕ × H
  unfolding write_batch_loop
  ioreg_write_batch_internal h index offset value_bits size_in_bytes buf is_offset_fixed =
      if not (size_in_bytes % (value_bits / 8) == 0)
      then (einval, h)
      else if is_bitwidth value_bits
      then (
        0,
        write_batch_loop value_bits is_offset_fixed (size_in_bytes / (value_bits / 8)) h index
            offset buf,
      )
      else (einval, h)
