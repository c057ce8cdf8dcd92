-- ===== src/Tests/Memory.antt =====
-- Allocations from the pools.
use google_modules_lwis.Prelude.{
  ℕ, zero, suc, ◌+◌, ◌/◌, ◌^◌, ◌<◌, ◌≡◌, refl, ◌⊎◌, inl, inr, true, false, none, some, [], ◌==◌,
  arith, Bool-cases, if◌then◌else◌,
}
use google_modules_lwis.Allocator.{
  KernelMemory, Chunk, empty_mgr, size_class, lwis_allocator_allocate,
}
use google_modules_lwis.Allocator.Sizes.{ArePools, IsPool}
use google_modules_lwis.Allocator.Fits.{
  IsFls, GivesAtLeast, lwis_allocator_allocate-GivesAtLeast, lwis_allocator_allocate-too_small,
}

-- The number of binary digits, of which a number has at most `fuel`.
digits : ℕ → ℕ → ℕ
digits zero x = 0
digits (suc fuel) x = if x == 0 then 0 else suc (digits fuel (x / 2))

digits-suc : (fuel x : ℕ) → (x == 0) ≡ false → digits (suc fuel) x ≡ suc (digits fuel (x / 2))
unfolding digits
digits-suc fuel x e = rw e

digits-bound : (fuel x : ℕ) → x < 2 ^ fuel → x < 2 ^ digits fuel x
unfolding digits
digits-bound zero x h = h
digits-bound (suc fuel) x h = elim (Bool-cases (x == 0)) [
  | inl e ↦ rw e (ground arith)
  | inr e ↦
      let ih = digits-bound fuel (x / 2) (omega arith) in
      rw (digits-suc fuel x e) (omega (arith, ih))
]

fls : ℕ → ℕ
unfolding digits
fls x = digits 32 x

fls-IsFls : IsFls fls
unfolding fls
fls-IsFls x h = digits-bound 32 x h

empty-IsPool :
    (idx : ℕ) → IsPool idx (record { free = []; free_count = 0; in_use = []; in_use_count = 0 })
empty-IsPool idx = record {
  free_counted = refl;
  in_use_counted = refl;
  free_sized = tt;
  in_use_sized = tt;
}

empty_mgr-ArePools : ArePools 13 empty_mgr.pools
empty_mgr-ArePools = (
  empty-IsPool 13,
  (
    empty-IsPool 14,
    (
      empty-IsPool 15,
      (empty-IsPool 16, (empty-IsPool 17, (empty-IsPool 18, (empty-IsPool 19, tt)))),
    ),
  ),
)

abbrev memory : KernelMemory
memory = record { kmalloc = some 1; has_block = true; kvmalloc = some 4096 }

lwis_allocator_allocate-GivesAtLeast_example :
    GivesAtLeast 5000 (lwis_allocator_allocate fls empty_mgr 5000 memory)
lwis_allocator_allocate-GivesAtLeast_example =
    lwis_allocator_allocate-GivesAtLeast fls empty_mgr 5000 memory fls-IsFls empty_mgr-ArePools
      (omega arith)

class_13 : size_class fls (2 ^ 32 + 5000) ≡ 13
unfolding fls
class_13 = refl

lwis_allocator_allocate-too_small_example :
    ((lwis_allocator_allocate fls empty_mgr (2 ^ 32 + 5000) memory).0 ≡ none)
    ⊎ ((c : Chunk) × ((lwis_allocator_allocate fls empty_mgr (2 ^ 32 + 5000) memory).0 ≡ some c)
        × (c.size < 2 ^ 32 + 5000))
lwis_allocator_allocate-too_small_example =
    lwis_allocator_allocate-too_small fls empty_mgr (2 ^ 32 + 5000) memory empty_mgr-ArePools
      (omega arith) (omega (arith, class_13))
