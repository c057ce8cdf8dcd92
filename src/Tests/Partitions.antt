-- ===== src/Tests/Partitions.antt =====
-- A system cache device with two partitions, the smaller of them in use.
use google_modules_lwis.Prelude.{ℕ, ◌+◌, ◌-◌, ◌≡◌, refl, ap, none, some, [], ◌∷◌, arith}
use google_modules_lwis.Slc.{
  SlcPartition, SlcDevice, AllocBufferInfo, Answer, given, failed, PtClient, lwis_slc_buffer_alloc,
  lwis_slc_buffer_free,
}
use google_modules_lwis.Slc.Fits.{Ascends, Allocated, lwis_slc_buffer_alloc-Allocated}
use google_modules_lwis.Slc.Freed.{AreHeld, HasFiles, lwis_slc_buffer_free-alloc}

abbrev small_partition : SlcPartition
small_partition = record {
  id = 0;
  size_kb = 64;
  fd = some 10;
  partition_id = some 3;
  partition_handle = some 1;
}

abbrev large_partition : SlcPartition
large_partition = record {
  id = 1;
  size_kb = 512;
  fd = none;
  partition_id = none;
  partition_handle = some 1;
}

abbrev slc : SlcDevice
slc = record { pt = small_partition ∷ large_partition ∷ []; partition_handle = some 1; calls = [] }

abbrev request : AllocBufferInfo
request = record { size = 32768; flags = 8; dma_fd = 0; partition_id = none }

-- The fd of a partition is 10 more than its place.
abbrev client : PtClient
client = record {
  enable = λ handle id. some (id + 4);
  getfd = λ i. given (i + 10);
  fget = λ fd. some (fd - 10);
}

abbrev number : Answer → ℕ
number (given n) = n
number (failed e) = e

file_of : (i fd : ℕ) → given (i + 10) ≡ given fd → fd - 10 ≡ i
file_of i fd h = omega (arith, ap number h)

files : HasFiles client
files = record { file = λ i fd h. ap some (file_of i fd h); error = λ i e h. absurd (cc h) }

partitions_ascend : Ascends slc.pt
partitions_ascend = ((omega arith, tt), (tt, tt))

partitions-AreHeld : AreHeld 1 slc.pt
partitions-AreHeld = ((refl, λ h. absurd (cc h)), ((refl, λ _. refl), tt))

lwis_slc_buffer_alloc-Allocated_example :
    Allocated client 1 slc request (lwis_slc_buffer_alloc client slc request)
lwis_slc_buffer_alloc-Allocated_example =
    lwis_slc_buffer_alloc-Allocated client 1 slc request refl partitions_ascend

returns_zero : (lwis_slc_buffer_alloc client slc request).ret ≡ 0
unfolding lwis_slc_buffer_alloc
returns_zero = refl

lwis_slc_buffer_free-alloc_example :
    ((lwis_slc_buffer_free client
        (lwis_slc_buffer_alloc client slc request).slc
        ((lwis_slc_buffer_alloc client slc request).info).dma_fd).0
      ≡ 0)
    × (((lwis_slc_buffer_free client
            (lwis_slc_buffer_alloc client slc request).slc
            ((lwis_slc_buffer_alloc client slc request).info).dma_fd).1
          ).pt
        ≡ slc.pt)
lwis_slc_buffer_free-alloc_example =
    lwis_slc_buffer_free-alloc client 1 slc request refl partitions_ascend partitions-AreHeld files
      returns_zero
