-- ===== src/Top/Scratch.antt =====
-- lwis_device_top.c, `lwis_top_register_io`: the scratch memory of the top device as its registers.
use Prim.Native.Nat.{bit_and, bit_or}
use google_modules_lwis.Prelude.{
  ℕ, zero, suc, ◌+◌, ◌-◌, ◌%◌, ◌^◌, ◌≤◌, ◌<◌, ◌≡◌, refl, ap, ap₂, ◌∙◌, inl, inr, Bool, Option, none,
  some, List, [], ◌∷◌, arith, length, get_elem?, set, leb, ltb, ◌||◌, Bool-cases, if◌then◌else◌,
}
use google_modules_lwis.Errno.{einval}
use google_modules_lwis.Commands.{IoEntry, RwBatch, Modify}
use google_modules_lwis.Io.{Reply}

-- SCRATCH_MEMORY_SIZE, in bytes.
abbrev pub scratch_memory_size : ℕ
scratch_memory_size = 16

abbrev byte_of : Option ℕ → ℕ
byte_of none = 0
byte_of (some b) = b

abbrev byte_at : List ℕ → ℕ → ℕ
byte_at mem i = byte_of (get_elem? mem i)

-- The loops over the bytes of a batch, from position `i` of the memory.
unfoldable pub read_bytes : List ℕ → ℕ → ℕ → List ℕ
read_bytes mem i zero = []
read_bytes mem i (suc n) = byte_at mem i ∷ read_bytes mem (i + 1) n

-- The caller's buffer holds the bytes to write, `size_in_bytes` of them.
unfoldable pub write_bytes : List ℕ → ℕ → ℕ → List ℕ → List ℕ
write_bytes mem i zero buf = mem
write_bytes mem i (suc n) [] = mem
write_bytes mem i (suc n) (b ∷ buf) = write_bytes (set mem i b) (i + 1) n buf

-- A batch that does not lie in the memory.
abbrev outside : RwBatch → Bool
outside b = ltb scratch_memory_size b.offset || ltb (scratch_memory_size - b.offset) b.size_in_bytes

abbrev done : List ℕ → ℕ → List ℕ → Reply (List ℕ)
done mem val bytes = record { ret = 0; val = val; bytes = bytes; regs = mem }

abbrev refused : List ℕ → Reply (List ℕ)
refused mem = record { ret = einval; val = 0; bytes = []; regs = mem }

-- The masked bits of a register, as a 64-bit word, of which the byte is kept. The result goes to
-- `entry->rw.offset`, which is `entry->mod.offset` in the union.
abbrev modified : Modify → ℕ → ℕ
modified m old = bit_or (bit_and old (2 ^ 64 - 1 - m.val_mask)) (bit_and m.val_mask m.val) % 256

unfoldable pub lwis_top_register_io : List ℕ → IoEntry → ℕ → Reply (List ℕ)
unfolding read_bytes write_bytes
lwis_top_register_io mem (IoEntry.read e) access_size =
    if leb scratch_memory_size e.offset then refused mem else done mem (byte_at mem e.offset) []
lwis_top_register_io mem (IoEntry.read_batch b) access_size =
    if outside b then refused mem else done mem 0 (read_bytes mem b.offset b.size_in_bytes)
lwis_top_register_io mem (IoEntry.write e) access_size =
    if leb scratch_memory_size e.offset
    then refused mem
    else done (set mem e.offset (e.val % 256)) 0 []
lwis_top_register_io mem (IoEntry.write_batch b) access_size =
    if outside b then refused mem else done (write_bytes mem b.offset b.size_in_bytes b.buf) 0 []
lwis_top_register_io mem (IoEntry.modify m) access_size =
    if leb scratch_memory_size m.offset
    then refused mem
    else done (set mem m.offset (modified m (byte_at mem m.offset))) 0 []
lwis_top_register_io mem _ access_size = refused mem

get-set_self : (mem : List ℕ) (i b : ℕ) → i < length mem → get_elem? (set mem i b) i ≡ some b
get-set_self [] i b h = absurd (omega arith)
get-set_self (x ∷ mem) zero b h = refl
get-set_self (x ∷ mem) (suc i) b h = get-set_self mem i b (omega arith)

get-set_other : (mem : List ℕ) (i j b : ℕ) → j < i → get_elem? (set mem i b) j ≡ get_elem? mem j
get-set_other [] i j b h = refl
get-set_other (x ∷ mem) zero j b h = absurd (omega arith)
get-set_other (x ∷ mem) (suc i) zero b h = refl
get-set_other (x ∷ mem) (suc i) (suc j) b h = get-set_other mem i j b (omega arith)

length-set : (mem : List ℕ) (i b : ℕ) → length (set mem i b) ≡ length mem
length-set [] i b = refl
length-set (x ∷ mem) zero b = refl
length-set (x ∷ mem) (suc i) b = ap suc (length-set mem i b)

length-write_bytes :
    (mem : List ℕ) (i n : ℕ) (buf : List ℕ) → length (write_bytes mem i n buf) ≡ length mem
unfolding write_bytes
length-write_bytes mem i zero buf = refl
length-write_bytes mem i (suc n) [] = refl
length-write_bytes mem i (suc n) (b ∷ buf) =
    length-write_bytes (set mem i b) (i + 1) n buf ∙ length-set mem i b

get-write_below :
    (mem : List ℕ) (i n : ℕ) (buf : List ℕ) (j : ℕ)
    → j < i
    → get_elem? (write_bytes mem i n buf) j ≡ get_elem? mem j
unfolding write_bytes
get-write_below mem i zero buf j h = refl
get-write_below mem i (suc n) [] j h = refl
get-write_below mem i (suc n) (b ∷ buf) j h =
    get-write_below (set mem i b) (i + 1) n buf j (omega arith) ∙ get-set_other mem i j b h

read-write_bytes :
    (mem : List ℕ) (i n : ℕ) (buf : List ℕ)
    → i + n ≤ length mem
    → length buf ≡ n
    → read_bytes (write_bytes mem i n buf) i n ≡ buf
unfolding read_bytes write_bytes
read-write_bytes mem i zero [] h e = refl
read-write_bytes mem i zero (b ∷ buf) h e = absurd (omega (arith, e))
read-write_bytes mem i (suc n) [] h e = absurd (omega (arith, e))
read-write_bytes mem i (suc n) (b ∷ buf) h e =
    let first : get_elem? (write_bytes (set mem i b) (i + 1) n buf) i ≡ some b =
      get-write_below (set mem i b) (i + 1) n buf i (omega arith)
      ∙ get-set_self mem i b (omega arith) in
    ap₂ (λ (x : ℕ) (xs : List ℕ). x ∷ xs) (ap byte_of first)
      (read-write_bytes (set mem i b) (i + 1) n buf (omega (arith, length-set mem i b))
        (omega (arith, e)))

-- A batch that is written to the scratch memory is read back by a batch of the same place; where it
-- does not lie in the 16 bytes, both are refused and the memory stays as it is.
pub lwis_top_register_io-round_trip :
    (mem : List ℕ) (b : RwBatch) (access_size : ℕ)
    → length mem ≡ scratch_memory_size
    → length b.buf ≡ b.size_in_bytes
    → (b.offset + b.size_in_bytes ≤ scratch_memory_size
        → (lwis_top_register_io
            (lwis_top_register_io mem (IoEntry.write_batch b) access_size).regs
            (IoEntry.read_batch b)
            access_size).bytes
          ≡ b.buf)
      × (scratch_memory_size < b.offset + b.size_in_bytes
          → ((lwis_top_register_io mem (IoEntry.write_batch b) access_size).ret ≡ einval)
            × ((lwis_top_register_io mem (IoEntry.write_batch b) access_size).regs ≡ mem)
            × ((lwis_top_register_io mem (IoEntry.read_batch b) access_size).ret ≡ einval))
unfolding lwis_top_register_io
lwis_top_register_io-round_trip mem b access_size size given = elim (Bool-cases (outside b)) [
  | inl out ↦ rw (out, lwis_top_register_io) ((λ h. absurd (ground arith)), λ h. (refl, refl, refl))
  | inr inside ↦
      rw (inside, lwis_top_register_io)
        (
          (λ h. read-write_bytes mem b.offset b.size_in_bytes b.buf (omega (arith, size, h)) given),
          λ h. absurd (ground arith),
        )
]
