-- ===== src/Allocator.antt =====
-- lwis_allocator.c: blocks of memory in pools by size class, recycled from free lists. The doubly
-- linked lists are lists; unlinking a block that is not in the list is not modelled.
pub mod Sizes
pub mod Fits
use google_modules_lwis.Prelude.{
  ℕ, ◌+◌, ◌-◌, ◌*◌, ◌%◌, ◌^◌, Bool, true, false, Option, none, some, List, [], ◌∷◌, ◌==◌, leb, ltb,
  ◌&&◌, if◌then◌else◌, get_elem?, set,
}
use google_modules_lwis.Errno.{enomem}

-- struct lwis_allocator_block; `size` is what `kvmalloc` was asked for.
pub record AllocatorBlock : Type 0 where
  pub type : ℕ
  pub ptr : ℕ
  pub size : ℕ

-- struct lwis_allocator_block_pool.
pub record BlockPool : Type 0 where
  pub free : List AllocatorBlock
  pub free_count : ℕ
  pub in_use : List AllocatorBlock
  pub in_use_count : ℕ

-- struct lwis_allocator_block_mgr. `pools` are pool_8k to pool_512k in their order, and
-- `large_in_use_count` is the one field of pool_large in use.
pub record BlockMgr : Type 0 where
  pub pools : List BlockPool
  pub large_in_use_count : ℕ
  pub allocated_blocks : List AllocatorBlock
  pub ref_count : ℕ

-- What the kernel answers in a call: `kmalloc` of the memory itself, whether the block's own memory
-- is found, and `kvmalloc`.
pub record KernelMemory : Type 0 where
  pub kmalloc : Option ℕ
  pub has_block : Bool
  pub kvmalloc : Option ℕ

-- Memory that a call returns, with the size that stands behind the pointer.
pub record Chunk : Type 0 where
  pub ptr : ℕ
  pub size : ℕ

-- `none` where no block is free.
pub allocator_free_block_get_locked : BlockPool → Option (AllocatorBlock × BlockPool)
allocator_free_block_get_locked p = elim p.free [
  | [] ↦ none
  | head ∷ rest ↦ some (
    head,
    record p {
      free = rest;
      free_count = p.free_count - 1;
      in_use = head ∷ p.in_use;
      in_use_count = p.in_use_count + 1;
    },
  )
]

pub unlink : List AllocatorBlock → ℕ → List AllocatorBlock
unlink [] ptr = []
unlink (b ∷ bs) ptr = if b.ptr == ptr then bs else b ∷ unlink bs ptr

pub allocator_free_block_put_locked : BlockPool → AllocatorBlock → BlockPool
unfolding unlink
allocator_free_block_put_locked p block = record p {
  in_use = unlink p.in_use block.ptr;
  in_use_count = p.in_use_count - 1;
  free = block ∷ p.free;
  free_count = p.free_count + 1;
}

pub allocator_get_block_pool : BlockMgr → ℕ → Option BlockPool
allocator_get_block_pool m idx =
    if leb 13 idx && leb idx 19 then get_elem? m.pools (idx - 13) else none

put_pool : BlockMgr → ℕ → BlockPool → BlockMgr
put_pool m idx p = record m { pools = set m.pools (idx - 13) p }

small_chunk : Option ℕ → ℕ → Option Chunk
small_chunk none size = none
small_chunk (some ptr) size = some (record { ptr = ptr; size = size })

-- A block that the kernel has memory for, in its place.
large_block : BlockMgr → ℕ → ℕ → Bool → Option ℕ → Option Chunk × BlockMgr
large_block m size idx true (some ptr) = (
  some (record { ptr = ptr; size = size }),
  record m {
    large_in_use_count = m.large_in_use_count + 1;
    allocated_blocks = record { type = idx; ptr = ptr; size = size } ∷ m.allocated_blocks;
  },
)
large_block m size idx true none = (none, m)
large_block m size idx false kvmalloc = (none, m)

new_block : BlockMgr → ℕ → BlockPool → Bool → Option ℕ → Option Chunk × BlockMgr
unfolding put_pool
new_block m idx p true (some ptr) =
    let block : AllocatorBlock = record { type = idx; ptr = ptr; size = 2 ^ idx } in
    (
      some (record { ptr = ptr; size = 2 ^ idx }),
      put_pool (record m { allocated_blocks = block ∷ m.allocated_blocks }) idx
          (record p { in_use = block ∷ p.in_use; in_use_count = p.in_use_count + 1 }),
    )
new_block m idx p true none = (none, m)
new_block m idx p false kvmalloc = (none, m)

recycled :
    BlockMgr
    → ℕ
    → KernelMemory
    → BlockPool
    → Option (AllocatorBlock × BlockPool)
    → Option Chunk × BlockMgr
unfolding new_block put_pool
recycled m idx k p none = new_block m idx p k.has_block k.kvmalloc
recycled m idx k p (some (block, p')) =
    (some (record { ptr = block.ptr; size = block.size }), put_pool m idx p')

pub from_pool : BlockMgr → ℕ → KernelMemory → Option BlockPool → Option Chunk × BlockMgr
unfolding recycled allocator_free_block_get_locked
from_pool m idx k none = (none, m)
from_pool m idx k (some p) = recycled m idx k p (allocator_free_block_get_locked p)

-- The kernel's `fls` takes an unsigned int.
abbrev pub size_class : (ℕ → ℕ) → ℕ → ℕ
size_class fls size = fls ((size - 1) % 2 ^ 32)

pub lwis_allocator_allocate : (ℕ → ℕ) → BlockMgr → ℕ → KernelMemory → Option Chunk × BlockMgr
unfolding small_chunk large_block from_pool allocator_get_block_pool
lwis_allocator_allocate fls m size k =
    let idx : ℕ = size_class fls size in
    if leb size 4096
    then (small_chunk k.kmalloc size, m)
    else if ltb 19 idx
    then large_block m size idx k.has_block k.kvmalloc
    else from_pool m idx k (allocator_get_block_pool m idx)

find_block : List AllocatorBlock → ℕ → Option AllocatorBlock
find_block [] ptr = none
find_block (b ∷ bs) ptr = if b.ptr == ptr then some b else find_block bs ptr

put_back : BlockMgr → AllocatorBlock → Option BlockPool → BlockMgr
unfolding put_pool allocator_free_block_put_locked
put_back m block none = m
put_back m block (some p) = put_pool m block.type (allocator_free_block_put_locked p block)

free_found : BlockMgr → ℕ → Option AllocatorBlock → BlockMgr
unfolding put_back unlink allocator_get_block_pool
free_found m ptr none = m
free_found m ptr (some block) =
    if ltb 19 block.type
    then record m {
      allocated_blocks = unlink m.allocated_blocks block.ptr;
      large_in_use_count = m.large_in_use_count - 1;
    }
    else put_back m block (allocator_get_block_pool m block.type)

-- Memory that no block owns goes back to `kfree`.
pub lwis_allocator_free : BlockMgr → ℕ → BlockMgr
unfolding free_found find_block
lwis_allocator_free m ptr = free_found m ptr (find_block m.allocated_blocks ptr)

abbrev empty_pool : BlockPool
empty_pool = record { free = []; free_count = 0; in_use = []; in_use_count = 0 }

abbrev pub empty_mgr : BlockMgr
empty_mgr = record {
  pools =
      empty_pool ∷ empty_pool ∷ empty_pool ∷ empty_pool ∷ empty_pool ∷ empty_pool ∷ empty_pool ∷ [];
  large_in_use_count = 0;
  allocated_blocks = [];
  ref_count = 1;
}

-- The manager of a device, and whether its memory is found where it is new.
pub lwis_allocator_init : Option BlockMgr → Bool → ℕ × Option BlockMgr
lwis_allocator_init (some m) fits = (0, some (record m { ref_count = m.ref_count + 1 }))
lwis_allocator_init none true = (0, some empty_mgr)
lwis_allocator_init none false = (enomem, none)

-- The last release frees the free blocks of the pools and the manager.
pub lwis_allocator_release : Option BlockMgr → Option BlockMgr
lwis_allocator_release none = none
lwis_allocator_release (some m) =
    if ltb 0 (m.ref_count - 1) then some (record m { ref_count = m.ref_count - 1 }) else none
