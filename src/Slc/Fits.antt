-- ===== src/Slc/Fits.antt =====
-- lwis_device_slc.c: which partition a buffer gets, and what freeing it leaves.
use mathlib.Core.Option.{some-injective}
use google_modules_lwis.Prelude.{
  ℕ, suc, ◌+◌, ◌/◌, ◌<◌, ◌≤◌, ◌≡◌, ◌≢◌, refl, sym, ap, subst, ◌∙◌, ◌⊎◌, inl, inr, true, false,
  Option, none, some, List, [], ◌∷◌, ◌++◌, arith, All, ◌==◌, Bool-cases, Option-cases, get_elem?,
  set, length,
}
use google_modules_lwis.Errno.{einval, eproto}
use google_modules_lwis.Slc.{
  SlcPartition, SlcDevice, AllocBufferInfo, Answer, given, failed, PtClient, PtCall, is_candidate,
  first_candidate, size_to_kb, alloc_in, alloc_with, lwis_slc_buffer_alloc, SlcAllocation,
}

-- The order that lwis_slc_enable asks of the sizes.
abbrev pub Ascends : List SlcPartition → Type 0
Ascends [] = Unit
Ascends (p ∷ ps) = All (λ (q : SlcPartition). p.size_kb ≤ q.size_kb) ps × Ascends ps

-- The partition `p` at `i` is free and large enough, and no such partition is smaller.
pub record BestFit (kb : ℕ) (ps : List SlcPartition) (i : ℕ) (p : SlcPartition) : Type 0 where
  pub place : get_elem? ps i ≡ some p
  pub free : p.partition_id ≡ none
  pub fits : kb ≤ p.size_kb
  pub smallest :
      All (λ (q : SlcPartition). q.partition_id ≡ none → kb ≤ q.size_kb → p.size_kb ≤ q.size_kb) ps

-- The partition is in use or too small.
abbrev pub IsUnfit : ℕ → SlcPartition → Type 0
IsUnfit kb p = (p.partition_id ≢ none) ⊎ (p.size_kb < kb)

candidate-fits :
    (kb : ℕ) (p : SlcPartition)
    → is_candidate kb p ≡ true
    → (p.partition_id ≡ none) × (kb ≤ p.size_kb)
candidate-fits kb p h = elim (Option-cases p.partition_id) [
  | inl n ↦ (n, ground (arith, rw n at h))
  | inr (x, e) ↦ absurd (cc (rw e at h))
]

candidate-IsUnfit : (kb : ℕ) (p : SlcPartition) → is_candidate kb p ≡ false → IsUnfit kb p
candidate-IsUnfit kb p h = elim (Option-cases p.partition_id) [
  | inl n ↦ inr (ground (arith, rw n at h))
  | inr (x, e) ↦ inl (λ n. cc (n, e))
]

unfit-absurd :
    (kb : ℕ) (p : SlcPartition) (goal : Type 0)
    → is_candidate kb p ≡ false
    → p.partition_id ≡ none
    → kb ≤ p.size_kb
    → goal
unfit-absurd kb p goal h free fits = absurd (ground (arith, rw free at h))

first_candidate-none :
    (kb i : ℕ) (ps : List SlcPartition) → first_candidate kb i ps ≡ none → All (IsUnfit kb) ps
unfolding first_candidate
first_candidate-none kb i [] h = tt
first_candidate-none kb i (p ∷ ps) h = elim (Bool-cases (is_candidate kb p)) [
  | inl fit ↦ absurd (cc (rw (fit, first_candidate) at h))
  | inr unfit ↦ (
    candidate-IsUnfit kb p unfit,
    first_candidate-none kb (i + 1) ps (rw (unfit, first_candidate) at h),
  )
]

add_zero : (n : ℕ) → n + 0 ≡ n
add_zero n = omega arith

larger :
    (kb size : ℕ) (ps : List SlcPartition)
    → All (λ (q : SlcPartition). size ≤ q.size_kb) ps
    → All (λ (q : SlcPartition). q.partition_id ≡ none → kb ≤ q.size_kb → size ≤ q.size_kb) ps
larger kb size [] h = tt
larger kb size (q ∷ ps) h = ((λ free fits. h.0), larger kb size ps h.1)

first_candidate-BestFit :
    (kb n : ℕ) (ps : List SlcPartition) (i : ℕ) (p : SlcPartition)
    → Ascends ps
    → first_candidate kb n ps ≡ some (i, p)
    → (k : ℕ) × (i ≡ n + k) × BestFit kb ps k p
unfolding first_candidate
first_candidate-BestFit kb n [] i p h e = absurd (cc e)
first_candidate-BestFit kb n (q ∷ ps) i p h e = elim (Bool-cases (is_candidate kb q)) [
  | inl fit ↦
      let found : Path (ℕ × SlcPartition) (n, q) (i, p) =
        some-injective _ _ (rw (fit, first_candidate) at e) in
      let same : q ≡ p = ap (λ (x : ℕ × SlcPartition). x.1) found in
      (
        0,
        (ap (λ (x : ℕ × SlcPartition). x.0) (sym found) ∙ sym (add_zero n)),
        subst (λ (r : SlcPartition). BestFit kb (q ∷ ps) 0 r) same
            (record {
              place = refl;
              free = (candidate-fits kb q fit).0;
              fits = (candidate-fits kb q fit).1;
              smallest = ((λ _ _. omega arith), larger kb q.size_kb ps h.0);
            }),
      )
  | inr unfit ↦
      let (k, e_k, best) =
        first_candidate-BestFit kb (n + 1) ps i p h.1 (rw (unfit, first_candidate) at e) in
      (
        suc k,
        omega (arith, e_k),
        record {
          place = best.place;
          free = best.free;
          fits = best.fits;
          smallest = ((λ free fits. unfit-absurd kb q _ unfit free fits), best.smallest);
        },
      )
]

-- What comes of an allocation: a reserved partition, none that fits, or an error of the partition
-- table client or of the kernel, which leaves the partitions.
pub data Allocated (client : PtClient) (handle : ℕ) (slc : SlcDevice) (info : AllocBufferInfo)
    (r : SlcAllocation) : Type 0 where
  reserved :
      (i : ℕ) (p : SlcPartition) (partition_id fd : ℕ)
      → BestFit (info.size / 1024) slc.pt i p
      → client.enable handle p.id ≡ some partition_id
      → client.getfd i ≡ given fd
      → r ≡ record {
        ret = 0;
        info = record info { dma_fd = fd; partition_id = some partition_id };
        slc = record slc {
          pt = set slc.pt i (record p { fd = some fd; partition_id = some partition_id });
          calls = slc.calls ++ PtCall.pt_client_enable handle p.id ∷ [];
        };
      }
      → Allocated client handle slc info r
  no_fit :
      All (IsUnfit (info.size / 1024)) slc.pt
      → r ≡ record { ret = einval; info = info; slc = slc }
      → Allocated client handle slc info r
  not_enabled :
      (i : ℕ) (p : SlcPartition)
      → BestFit (info.size / 1024) slc.pt i p
      → client.enable handle p.id ≡ none
      → r.ret ≡ eproto
      → r.slc.pt ≡ slc.pt
      → Allocated client handle slc info r
  no_file :
      (i : ℕ) (p : SlcPartition) (error : ℕ)
      → BestFit (info.size / 1024) slc.pt i p
      → client.getfd i ≡ failed error
      → r.ret ≡ error
      → r.slc.pt ≡ slc.pt
      → Allocated client handle slc info r

Answer-cases : (a : Answer) → ((n : ℕ) × (a ≡ given n)) ⊎ ((e : ℕ) × (a ≡ failed e))
Answer-cases (given n) = inl (n, refl)
Answer-cases (failed e) = inr (e, refl)

alloc_in-Allocated :
    (client : PtClient) (handle : ℕ) (slc : SlcDevice) (info : AllocBufferInfo)
    → Ascends slc.pt
    → Allocated client handle slc info
        (alloc_in client slc info handle (first_candidate (size_to_kb info.size) 0 slc.pt))
unfolding alloc_in
alloc_in-Allocated client handle slc info sorted =
    elim (Option-cases (first_candidate (size_to_kb info.size) 0 slc.pt)) [
      | inl n ↦ rw n (no_fit (first_candidate-none (size_to_kb info.size) 0 slc.pt n) refl)
      | inr ((i, p), found) ↦
          let (k, e_k, best) =
            first_candidate-BestFit (size_to_kb info.size) 0 slc.pt i p sorted found in
          let at_i : k ≡ i = omega (arith, e_k) in
          let best_i = subst (λ (j : ℕ). BestFit (size_to_kb info.size) slc.pt j p) at_i best in
          elim (Option-cases (client.enable handle p.id)) [
            | inl n ↦ rw (found, n, alloc_in) (not_enabled i p best_i n refl refl)
            | inr (partition_id, e) ↦ elim (Answer-cases (client.getfd i)) [
              | inl (fd, e_fd) ↦
                  rw (found, e, e_fd, alloc_in) (reserved i p partition_id fd best_i e e_fd refl)
              | inr (error, e_fd) ↦
                  rw (found, e, e_fd, alloc_in) (no_file i p error best_i e_fd refl refl)
            ]
          ]
    ]

-- With partitions in the order of their sizes, an allocation reserves the smallest free partition
-- that is large enough by the size in KB, rounded down; or it fails, for the want of one or on
-- an error of the calls that reserve it, and leaves the partitions as they are.
pub lwis_slc_buffer_alloc-Allocated :
    (client : PtClient) (handle : ℕ) (slc : SlcDevice) (info : AllocBufferInfo)
    → slc.partition_handle ≡ some handle
    → Ascends slc.pt
    → Allocated client handle slc info (lwis_slc_buffer_alloc client slc info)
unfolding lwis_slc_buffer_alloc alloc_with
lwis_slc_buffer_alloc-Allocated client handle slc info h sorted =
    subst (λ (o : Option ℕ). Allocated client handle slc info (alloc_with client slc info o))
      (sym h)
      (elim (Bool-cases (length slc.pt == 0)) [
        | inl empty ↦ rw empty (no_fit (none_in slc.pt empty) refl)
        | inr some_pt ↦ rw some_pt (alloc_in-Allocated client handle slc info sorted)
      ])
  where
    none_in :
        (ps : List SlcPartition) → (length ps == 0) ≡ true → All (IsUnfit (info.size / 1024)) ps
    none_in [] e = tt
    none_in (q ∷ ps) e = absurd (ground arith)
