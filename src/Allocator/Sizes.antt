-- ===== src/Allocator/Sizes.antt =====
-- lwis_allocator.c: the pools keep blocks of one size each, and give them.
use google_modules_lwis.Prelude.{
  ℕ, zero, suc, ◌+◌, ◌-◌, ◌^◌, ◌≤◌, ◌≡◌, ◌≢◌, refl, subst, ◌⊎◌, inl, inr, Bool, true, false, Option,
  none, some, List, [], ◌∷◌, arith, length, All, leb, ◌&&◌, get_elem?, set, Bool-cases,
  Option-cases, List-cases,
}
use mathlib.Core.Option.{some-injective}
use google_modules_lwis.Allocator.{
  AllocatorBlock, BlockPool, BlockMgr, KernelMemory, Chunk, allocator_free_block_get_locked,
  allocator_get_block_pool, put_pool, new_block, recycled, from_pool,
}

-- The counts are right, and each block of the class `idx` has the size of the class.
abbrev IsOfClass : ℕ → AllocatorBlock → Type 0
IsOfClass idx b = (b.type ≡ idx) × (b.size ≡ 2 ^ idx)

pub record IsPool (idx : ℕ) (p : BlockPool) : Type 0 where
  pub free_counted : p.free_count ≡ length p.free
  pub in_use_counted : p.in_use_count ≡ length p.in_use
  pub free_sized : All (IsOfClass idx) p.free
  pub in_use_sized : All (IsOfClass idx) p.in_use

-- The pools from the class `idx` on.
abbrev pub ArePools : ℕ → List BlockPool → Type 0
ArePools idx [] = Unit
ArePools idx (p ∷ ps) = IsPool idx p × ArePools (suc idx) ps

none-some : {A : Type 0} (a : A) → none ≢ some a
none-some a = cc

same_class : (m n : ℕ) (p : BlockPool) → m ≡ n → IsPool m p → IsPool n p
same_class m n p e = subst (λ (k : ℕ). IsPool k p) e

ArePools-get :
    (idx i : ℕ) (ps : List BlockPool) (p : BlockPool)
    → ArePools idx ps
    → get_elem? ps i ≡ some p
    → IsPool (idx + i) p
ArePools-get idx i [] p v e = absurd (none-some p e)
ArePools-get idx zero (q ∷ ps) p v e =
    same_class idx (idx + 0) p (omega arith) (subst (IsPool idx) (some-injective q p e) v.0)
ArePools-get idx (suc i) (q ∷ ps) p v e =
    same_class (suc idx + i) (idx + suc i) p (omega arith) (ArePools-get (suc idx) i ps p v.1 e)

ArePools-set :
    (idx i : ℕ) (ps : List BlockPool) (p : BlockPool)
    → ArePools idx ps
    → IsPool (idx + i) p
    → ArePools idx (set ps i p)
ArePools-set idx i [] p v h = tt
ArePools-set idx zero (q ∷ ps) p v h = (same_class (idx + 0) idx p (omega arith) h, v.1)
ArePools-set idx (suc i) (q ∷ ps) p v h = (
  v.0,
  ArePools-set (suc idx) i ps p v.1 (same_class (idx + suc i) (suc idx + i) p (omega arith) h),
)

-- A result that keeps the pools and whose memory, if any, has this size.
abbrev pub Gives : ℕ → Option Chunk × BlockMgr → Type 0
Gives size (c, m) =
    ArePools 13 m.pools × ((c ≡ none) ⊎ ((k : Chunk) × (c ≡ some k) × (k.size ≡ size)))

put_pool-ArePools :
    (m : BlockMgr) (idx : ℕ) (p : BlockPool)
    → 13 ≤ idx
    → ArePools 13 m.pools
    → IsPool idx p
    → ArePools 13 (put_pool m idx p).pools
unfolding put_pool
put_pool-ArePools m idx p lo v h =
    ArePools-set 13 (idx - 13) m.pools p v (same_class idx (13 + (idx - 13)) p (omega arith) h)

new_block-Gives :
    (m : BlockMgr) (idx : ℕ) (p : BlockPool) (has_block : Bool) (kvmalloc : Option ℕ)
    → 13 ≤ idx
    → ArePools 13 m.pools
    → IsPool idx p
    → Gives (2 ^ idx) (new_block m idx p has_block kvmalloc)
unfolding new_block
new_block-Gives m idx p true (some ptr) lo v h = (
  put_pool-ArePools m idx _ lo v (record {
    free_counted = h.free_counted;
    in_use_counted = omega (arith, h.in_use_counted);
    free_sized = h.free_sized;
    in_use_sized = ((refl, refl), h.in_use_sized);
  }),
  inr (_, refl, refl),
)
new_block-Gives m idx p true none lo v h = (v, inl refl)
new_block-Gives m idx p false kvmalloc lo v h = (v, inl refl)

-- Taking a free block keeps the pool and gives a block of the class.
abbrev Taken : ℕ → Option (AllocatorBlock × BlockPool) → Type 0
Taken idx none = Unit
Taken idx (some (b, p)) = IsOfClass idx b × IsPool idx p

get_locked-Taken :
    (idx : ℕ) (p : BlockPool) → IsPool idx p → Taken idx (allocator_free_block_get_locked p)
unfolding allocator_free_block_get_locked
get_locked-Taken idx p h = elim (List-cases p.free) [
  | inl e ↦ rw e tt
  | inr (b, bs, e) ↦
      let sized = subst (All (IsOfClass idx)) e h.free_sized in
      let counted = subst (λ (l : List AllocatorBlock). p.free_count ≡ length l) e h.free_counted in
      rw e (
        sized.0,
        record {
          free_counted = omega (arith, counted);
          in_use_counted = omega (arith, h.in_use_counted);
          free_sized = sized.1;
          in_use_sized = (sized.0, h.in_use_sized);
        },
      )
]

recycled-Gives :
    (m : BlockMgr) (idx : ℕ) (k : KernelMemory) (p : BlockPool)
    (r : Option (AllocatorBlock × BlockPool))
    → 13 ≤ idx
    → ArePools 13 m.pools
    → IsPool idx p
    → Taken idx r
    → Gives (2 ^ idx) (recycled m idx k p r)
unfolding recycled
recycled-Gives m idx k p none lo v h t = new_block-Gives m idx p k.has_block k.kvmalloc lo v h
recycled-Gives m idx k p (some (b, p')) lo v h t =
    (put_pool-ArePools m idx p' lo v t.1, inr (_, refl, (t.0).1))

get_block_pool-IsPool :
    (m : BlockMgr) (idx : ℕ) (p : BlockPool)
    → ArePools 13 m.pools
    → allocator_get_block_pool m idx ≡ some p
    → (13 ≤ idx) × IsPool idx p
unfolding allocator_get_block_pool
get_block_pool-IsPool m idx p v e = elim (Bool-cases (leb 13 idx && leb idx 19)) [
  | inr out ↦ absurd (none-some p (rw out at e))
  | inl within ↦
      let lo : 13 ≤ idx = ground arith in
      (
        lo,
        same_class (13 + (idx - 13)) idx p (omega arith)
            (ArePools-get 13 (idx - 13) m.pools p v (rw within at e)),
      )
]

pub from_pool-Gives :
    (m : BlockMgr) (idx : ℕ) (k : KernelMemory)
    → ArePools 13 m.pools
    → Gives (2 ^ idx) (from_pool m idx k (allocator_get_block_pool m idx))
unfolding from_pool
from_pool-Gives m idx k v = elim (Option-cases (allocator_get_block_pool m idx)) [
  | inl e ↦ rw (e, from_pool) (v, inl refl)
  | inr (p, e) ↦
      let (lo, h) = get_block_pool-IsPool m idx p v e in
      rw (e, from_pool) (recycled-Gives m idx k p _ lo v h (get_locked-Taken idx p h))
]
