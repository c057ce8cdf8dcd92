-- ===== src/Allocator/Fits.antt =====
-- lwis_allocator.c: the memory that an allocation returns is as large as was asked for.
use google_modules_lwis.Prelude.{
  ℕ, ◌-◌, ◌%◌, ◌^◌, ◌≤◌, ◌<◌, ◌≡◌, refl, ◌⊎◌, inl, inr, Bool, true, false, Option, none, some,
  arith, leb, ltb, Bool-cases,
}
use native.Mathlib.Nat.{pow-le-pow_right}
use google_modules_lwis.Allocator.{
  BlockMgr, KernelMemory, Chunk, allocator_get_block_pool, small_chunk, large_block, from_pool,
  size_class, lwis_allocator_allocate,
}
use google_modules_lwis.Allocator.Sizes.{ArePools, Gives, from_pool-Gives}

-- What the kernel documents of `fls`: the place of the highest bit of an unsigned int.
abbrev pub IsFls : (ℕ → ℕ) → Type 0
IsFls fls = (x : ℕ) → x < 2 ^ 32 → x < 2 ^ fls x

-- The pools stay in order, and memory that is returned has at least this size.
abbrev pub GivesAtLeast : ℕ → Option Chunk × BlockMgr → Type 0
GivesAtLeast size (c, m) =
    ArePools 13 m.pools × ((c ≡ none) ⊎ ((k : Chunk) × (c ≡ some k) × (size ≤ k.size)))

at_least :
    (size size' : ℕ) (r : Option Chunk × BlockMgr)
    → size ≤ size'
    → Gives size' r
    → GivesAtLeast size r
at_least size size' r le (v, inl e) = (v, inl e)
at_least size size' r le (v, inr (k, e, q)) = (v, inr (k, e, omega (arith, q, le)))

small_chunk-Gives :
    (m : BlockMgr) (o : Option ℕ) (size : ℕ)
    → ArePools 13 m.pools
    → Gives size (small_chunk o size, m)
unfolding small_chunk
small_chunk-Gives m none size v = (v, inl refl)
small_chunk-Gives m (some ptr) size v = (v, inr (_, refl, refl))

large_block-Gives :
    (m : BlockMgr) (size idx : ℕ) (has_block : Bool) (kvmalloc : Option ℕ)
    → ArePools 13 m.pools
    → Gives size (large_block m size idx has_block kvmalloc)
unfolding large_block
large_block-Gives m size idx true (some ptr) v = (v, inr (_, refl, refl))
large_block-Gives m size idx true none v = (v, inl refl)
large_block-Gives m size idx false kvmalloc v = (v, inl refl)

class_fits :
    (fls : ℕ → ℕ) (size : ℕ) → IsFls fls → 0 < size → size ≤ 2 ^ 32 → size ≤ 2 ^ size_class fls size
class_fits fls size is_fls pos h = omega (arith, is_fls ((size - 1) % 2 ^ 32) (omega arith))

-- An allocation of at most 2 ^ 32 bytes returns memory of at least the size that was asked for, new
-- or recycled, or none. The counts of each pool stay right, and its blocks have the size of its
-- class.
pub lwis_allocator_allocate-GivesAtLeast :
    (fls : ℕ → ℕ) (m : BlockMgr) (size : ℕ) (k : KernelMemory)
    → IsFls fls
    → ArePools 13 m.pools
    → size ≤ 2 ^ 32
    → GivesAtLeast size (lwis_allocator_allocate fls m size k)
unfolding lwis_allocator_allocate
lwis_allocator_allocate-GivesAtLeast fls m size k is_fls v h =
    let idx = size_class fls size in
    elim (Bool-cases (leb size 4096)) [
      | inl small ↦ rw small (
          at_least size size (small_chunk k.kmalloc size, m) (omega arith)
            (small_chunk-Gives m k.kmalloc size v))
      | inr more ↦ elim (Bool-cases (ltb 19 idx)) [
        | inl large ↦
            rw (more, large)
              (at_least size size (large_block m size idx k.has_block k.kvmalloc) (omega arith)
                (large_block-Gives m size idx k.has_block k.kvmalloc v))
        | inr pooled ↦
            rw (more, pooled)
              (at_least size (2 ^ idx) (from_pool m idx k (allocator_get_block_pool m idx))
                (class_fits fls size is_fls (ground arith) h) (from_pool-Gives m idx k v))
      ]
    ]

too_small :
    (idx size : ℕ) (r : Option Chunk × BlockMgr)
    → idx ≤ 19
    → 2 ^ 32 < size
    → Gives (2 ^ idx) r
    → (r.0 ≡ none) ⊎ ((k : Chunk) × (r.0 ≡ some k) × (k.size < size))
too_small idx size (c, m) lo h (v, inl e) = inl e
too_small idx size (c, m) lo h (v, inr (k, e, q)) =
    let bound : 2 ^ idx ≤ 2 ^ 19 = pow-le-pow_right (omega arith) lo in
    inr (k, e, omega (arith, q, bound))

-- An allocation of more than 2 ^ 32 bytes whose size class, taken from the low 32 bits of the size,
-- is that of a pool returns memory that is smaller than was asked for, or none.
pub lwis_allocator_allocate-too_small :
    (fls : ℕ → ℕ) (m : BlockMgr) (size : ℕ) (k : KernelMemory)
    → ArePools 13 m.pools
    → 2 ^ 32 < size
    → size_class fls size ≤ 19
    → ((lwis_allocator_allocate fls m size k).0 ≡ none)
      ⊎ ((c : Chunk) × ((lwis_allocator_allocate fls m size k).0 ≡ some c) × (c.size < size))
unfolding lwis_allocator_allocate
lwis_allocator_allocate-too_small fls m size k v h lo =
    let idx = size_class fls size in
    let more : leb size 4096 ≡ false = ground arith in
    let pooled : ltb 19 idx ≡ false = ground arith in
    rw (more, pooled)
      (too_small idx size (from_pool m idx k (allocator_get_block_pool m idx)) lo h
        (from_pool-Gives m idx k v))
