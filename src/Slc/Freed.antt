-- ===== src/Slc/Freed.antt =====
-- lwis_device_slc.c: freeing the buffer of an allocation brings its partition back.
use mathlib.Core.Option.{some-injective}
use google_modules_lwis.Prelude.{
  ℕ, zero, suc, ◌≡◌, ◌≢◌, refl, sym, ap, ap₂, subst, ◌∙◌, Option, none, some, List, [], ◌∷◌, arith,
  All, ◌==◌, get_elem?, set, true,
}
use google_modules_lwis.Slc.{
  SlcPartition, SlcDevice, AllocBufferInfo, given, failed, PtClient, SlcAllocation,
  lwis_slc_buffer_alloc, lwis_slc_buffer_free, free_file, free_in, is_fd, disabled,
}
use google_modules_lwis.Slc.Fits.{
  Ascends, Allocated, reserved, no_fit, not_enabled, no_file, lwis_slc_buffer_alloc-Allocated,
}

set-put_back :
    (ps : List SlcPartition) (i : ℕ) (p q : SlcPartition)
    → get_elem? ps i ≡ some p
    → set (set ps i q) i p ≡ ps
set-put_back [] i p q h = refl
set-put_back (r ∷ ps) zero p q h = ap (λ (x : SlcPartition). x ∷ ps) (sym (some-injective _ _ h))
set-put_back (r ∷ ps) (suc i) p q h =
    ap (λ (xs : List SlcPartition). r ∷ xs) (set-put_back ps i p q h)

get-set :
    (ps : List SlcPartition) (i : ℕ) (p q : SlcPartition)
    → get_elem? ps i ≡ some p
    → get_elem? (set ps i q) i ≡ some q
get-set [] i p q h = absurd (cc h)
get-set (r ∷ ps) zero p q h = refl
get-set (r ∷ ps) (suc i) p q h = get-set ps i p q h

-- A free partition has no buffer, and each knows the handle of the device.
abbrev pub AreHeld : ℕ → List SlcPartition → Type 0
AreHeld handle ps =
    All
      (λ (p : SlcPartition).
        (p.partition_handle ≡ some handle) × (p.partition_id ≡ none → p.fd ≡ none))
      ps

get-held :
    (handle : ℕ) (ps : List SlcPartition) (i : ℕ) (p : SlcPartition)
    → AreHeld handle ps
    → get_elem? ps i ≡ some p
    → (p.partition_handle ≡ some handle) × (p.partition_id ≡ none → p.fd ≡ none)
get-held handle [] i p held h = absurd (cc h)
get-held handle (q ∷ ps) zero p held h =
    subst
      (λ (x : SlcPartition).
        (x.partition_handle ≡ some handle) × (x.partition_id ≡ none → x.fd ≡ none))
      (some-injective _ _ h) held.0
get-held handle (q ∷ ps) (suc i) p held h = get-held handle ps i p held.1 h

-- What the file system and its errors promise: an fd stands for the partition that it was made
-- for, and an error is not 0.
pub record HasFiles (client : PtClient) : Type 0 where
  pub file : (i fd : ℕ) → client.getfd i ≡ given fd → client.fget fd ≡ some i
  pub error : (i e : ℕ) → client.getfd i ≡ failed e → e ≢ 0

abbrev taken : SlcPartition → ℕ → ℕ → SlcPartition
taken p fd partition_id = record p { fd = some fd; partition_id = some partition_id }

tests_self : (n : ℕ) → (n == n) ≡ true
tests_self n = ground arith

-- Freeing in a table whose partition `i` was reserved.
free_in-reserved :
    (client : PtClient) (slc : SlcDevice) (ps : List SlcPartition) (handle i fd partition_id : ℕ)
    (p : SlcPartition)
    → get_elem? ps i ≡ some p
    → slc.pt ≡ set ps i (taken p fd partition_id)
    → p.partition_handle ≡ some handle
    → p.partition_id ≡ none
    → p.fd ≡ none
    → ((free_in client slc fd i (some (taken p fd partition_id))).0 ≡ 0)
      × (((free_in client slc fd i (some (taken p fd partition_id))).1).pt ≡ ps)
unfolding free_in is_fd disabled
free_in-reserved client slc ps handle i fd partition_id p at_i pt held free idle =
    rw (tests_self fd) (
      refl,
      subst
          (λ (o : Option ℕ).
            (disabled client slc i (taken p fd partition_id) (some partition_id) o).pt ≡ ps)
          (sym held)
          (ap₂ (λ (xs : List SlcPartition) (q : SlcPartition). set xs i q) pt back
            ∙ set-put_back ps i p (taken p fd partition_id) at_i),
    )
  where
    back : record (taken p fd partition_id) { fd = none; partition_id = none } ≡ p
    back = ap₂ (λ (x y : Option ℕ). record p { fd = x; partition_id = y }) (sym idle) (sym free)

-- Freeing the fd of an allocation leaves the partitions `ps`.
abbrev Undoes : PtClient → List SlcPartition → SlcAllocation → Type 0
Undoes client ps r =
    ((lwis_slc_buffer_free client r.slc (r.info).dma_fd).0 ≡ 0)
    × (((lwis_slc_buffer_free client r.slc (r.info).dma_fd).1).pt ≡ ps)

undone_after :
    (client : PtClient) (handle : ℕ) (slc : SlcDevice) (info : AllocBufferInfo)
    → AreHeld handle slc.pt
    → HasFiles client
    → {r : SlcAllocation} → Allocated client handle slc info r
    → r.ret ≡ 0
    → Undoes client slc.pt r
unfolding lwis_slc_buffer_free free_file
undone_after client handle slc info held files (reserved i p partition_id fd best e e_fd same) ok =
    let new : List SlcPartition = set slc.pt i (taken p fd partition_id) in
    let (has_handle, idle) = get-held handle slc.pt i p held best.place in
    subst (Undoes client slc.pt) (sym same) (
      rw (files.file i fd e_fd, get-set slc.pt i p (taken p fd partition_id) best.place)
        (free_in-reserved client _ slc.pt handle i fd partition_id p best.place refl has_handle
          best.free (idle best.free)))
undone_after client handle slc info held files (no_fit all same) ok =
    absurd (cc (ap (λ (x : SlcAllocation). x.ret) same, ok))
undone_after client handle slc info held files (not_enabled i p best e ret pt) ok =
    absurd (cc (ret, ok))
undone_after client handle slc info held files (no_file i p error best e_fd ret pt) ok =
    absurd (files.error i error e_fd (sym ret ∙ ok))

-- An allocation that returns 0 is undone by freeing its fd: the partitions are as they were.
pub lwis_slc_buffer_free-alloc :
    (client : PtClient) (handle : ℕ) (slc : SlcDevice) (info : AllocBufferInfo)
    → slc.partition_handle ≡ some handle
    → Ascends slc.pt
    → AreHeld handle slc.pt
    → HasFiles client
    → (lwis_slc_buffer_alloc client slc info).ret ≡ 0
    → ((lwis_slc_buffer_free client
          (lwis_slc_buffer_alloc client slc info).slc
          ((lwis_slc_buffer_alloc client slc info).info).dma_fd).0
        ≡ 0)
      × (((lwis_slc_buffer_free client
              (lwis_slc_buffer_alloc client slc info).slc
              ((lwis_slc_buffer_alloc client slc info).info).dma_fd).1
            ).pt
          ≡ slc.pt)
lwis_slc_buffer_free-alloc client handle slc info h sorted held files ok =
    undone_after client handle slc info held files
      (lwis_slc_buffer_alloc-Allocated client handle slc info h sorted) ok
