-- ===== src/Slc.antt =====
-- lwis_device_slc.c, lwis_device_slc.h: the partitions of the system cache, and the buffers that
-- reserve one. The partition table client and the files of the kernel are parameters.
pub mod Fits
pub mod Freed
use google_modules_lwis.Prelude.{
  ℕ, zero, suc, ◌+◌, ◌/◌, Bool, true, false, not, Option, none, some, List, [], ◌∷◌, ◌++◌, ◌==◌,
  ◌&&◌, leb, ltb, length, get_elem?, set, if◌then◌else◌,
}
use google_modules_lwis.Errno.{einval, enodev, eproto, ebadf}

-- struct slc_partition. An fd of -1 and the id PT_PTID_INVALID are `none`.
pub record SlcPartition : Type 0 where
  pub id : ℕ
  pub size_kb : ℕ
  pub fd : Option ℕ
  pub partition_id : Option ℕ
  pub partition_handle : Option ℕ

-- A call of the partition table client: a handle and the id of a partition.
pub data PtCall : Type 0 where
  pt_client_enable pt_client_disable : ℕ → ℕ → PtCall
  pt_client_unregister : ℕ → PtCall

-- struct lwis_slc_device, with the calls that it made of the partition table client.
pub record SlcDevice : Type 0 where
  pub pt : List SlcPartition
  pub partition_handle : Option ℕ
  pub calls : List PtCall

-- struct lwis_alloc_buffer_info.
pub record AllocBufferInfo : Type 0 where
  pub size : ℕ
  pub flags : ℕ
  pub dma_fd : ℕ
  pub partition_id : Option ℕ

-- An answer of the kernel that is a number or an error.
pub data Answer : Type 0 where
  given : ℕ → Answer
  failed : ℕ → Answer

-- MAX_NUM_PT.
abbrev pub max_num_pt : ℕ
max_num_pt = 16

-- SIZE_TO_KB.
abbrev pub size_to_kb : ℕ → ℕ
size_to_kb size = size / 1024

-- Whether each size is at least the one before.
unfoldable pub ascending : ℕ → List ℕ → Bool
ascending low [] = true
ascending low (size ∷ sizes) = leb low size && ascending size sizes

unfoldable pub partitions : ℕ → ℕ → List ℕ → List SlcPartition
partitions handle id [] = []
partitions handle id (size ∷ sizes) =
    record {
      id = id;
      size_kb = size;
      fd = none;
      partition_id = none;
      partition_handle = some handle;
    }
    ∷ partitions handle (id + 1) sizes

registered : SlcDevice → List ℕ → Answer → ℕ × SlcDevice
unfolding partitions
registered slc sizes (failed e) = (e, record slc { partition_handle = none })
registered slc sizes (given handle) =
    (0, record slc { pt = partitions handle 0 sizes; partition_handle = some handle })

-- The device tree has `num_pt_id` names and the sizes; `register` is what pt_client_register
-- answers. Properties that are missing count as empty.
pub lwis_slc_enable : SlcDevice → ℕ → List ℕ → Answer → ℕ × SlcDevice
unfolding ascending registered
lwis_slc_enable slc num_pt_id sizes register =
    if not (num_pt_id == length sizes)
    then (einval, slc)
    else if ltb max_num_pt num_pt_id
    then (einval, slc)
    else if not (ascending 0 sizes)
    then (einval, slc)
    else registered slc sizes register

-- A partition without its buffer.
abbrev pub released : SlcPartition → SlcPartition
released p = record p { fd = none; partition_id = none }

closed : SlcPartition → Option ℕ → SlcPartition
closed p none = p
closed p (some partition_id) = released p

close_all : List SlcPartition → List SlcPartition
unfolding closed
close_all [] = []
close_all (p ∷ ps) = closed p p.partition_id ∷ close_all ps

close_calls : ℕ → List SlcPartition → List PtCall
close_calls handle [] = []
close_calls handle (p ∷ ps) = elim p.partition_id [
  | none ↦ close_calls handle ps
  | some partition_id ↦ pt_client_disable handle p.id ∷ close_calls handle ps
]

pub lwis_slc_disable : SlcDevice → ℕ × SlcDevice
unfolding close_all close_calls
lwis_slc_disable slc = elim slc.partition_handle [
  | none ↦ (enodev, slc)
  | some handle ↦ (
    0,
    record slc {
      pt = close_all slc.pt;
      calls = slc.calls ++ close_calls handle slc.pt ++ pt_client_unregister handle ∷ [];
    },
  )
]

abbrev is_invalid : Option ℕ → Bool
is_invalid none = true
is_invalid (some partition_id) = false

-- A free partition that is large enough, by the sizes in KB.
abbrev pub is_candidate : ℕ → SlcPartition → Bool
is_candidate kb p = is_invalid p.partition_id && leb kb p.size_kb

-- The place of the first candidate, counted from `i`.
unfoldable pub first_candidate : ℕ → ℕ → List SlcPartition → Option (ℕ × SlcPartition)
first_candidate kb i [] = none
first_candidate kb i (p ∷ ps) =
    if is_candidate kb p then some (i, p) else first_candidate kb (i + 1) ps

-- The partition table client, the kernel's anon_inode_getfd for a partition, and fget with the
-- partition that a file stands for.
pub record PtClient : Type 0 where
  pub enable : ℕ → ℕ → Option ℕ
  pub getfd : ℕ → Answer
  pub fget : ℕ → Option ℕ

-- The return code, the arguments with their outputs, and the device.
pub record SlcAllocation : Type 0 where
  pub ret : ℕ
  pub info : AllocBufferInfo
  pub slc : SlcDevice

abbrev refused : ℕ → AllocBufferInfo → SlcDevice → SlcAllocation
refused ret info slc = record { ret = ret; info = info; slc = slc }

module _ (client : PtClient) where
  opened : SlcDevice → AllocBufferInfo → ℕ → SlcPartition → ℕ → Answer → SlcAllocation
  opened slc info i p partition_id (failed e) = refused e info slc
  opened slc info i p partition_id (given fd) = record {
    ret = 0;
    info = record info { dma_fd = fd; partition_id = some partition_id };
    slc = record slc {
      pt = set slc.pt i (record p { fd = some fd; partition_id = some partition_id });
    };
  }

  enabled : SlcDevice → AllocBufferInfo → ℕ → SlcPartition → Option ℕ → SlcAllocation
  unfolding opened
  enabled slc info i p none = refused eproto info slc
  enabled slc info i p (some partition_id) = opened slc info i p partition_id (client.getfd i)

  unfoldable pub alloc_in :
      SlcDevice → AllocBufferInfo → ℕ → Option (ℕ × SlcPartition) → SlcAllocation
  unfolding enabled opened
  alloc_in slc info handle none = refused einval info slc
  alloc_in slc info handle (some (i, p)) =
      enabled (record slc { calls = slc.calls ++ pt_client_enable handle p.id ∷ [] }) info i p
        (client.enable handle p.id)

  unfoldable pub alloc_with : SlcDevice → AllocBufferInfo → Option ℕ → SlcAllocation
  unfolding alloc_in first_candidate
  alloc_with slc info none = refused enodev info slc
  alloc_with slc info (some handle) =
      if length slc.pt == 0
      then refused einval info slc
      else alloc_in slc info handle (first_candidate (size_to_kb info.size) 0 slc.pt)

  unfoldable pub lwis_slc_buffer_alloc : SlcDevice → AllocBufferInfo → SlcAllocation
  unfolding alloc_with
  lwis_slc_buffer_alloc slc info = alloc_with slc info slc.partition_handle

  -- Whether the partition is the one that the fd was made for.
  is_fd : ℕ → Option ℕ → Bool
  is_fd fd none = false
  is_fd fd (some current) = current == fd

  disabled : SlcDevice → ℕ → SlcPartition → Option ℕ → Option ℕ → SlcDevice
  disabled slc i p (some partition_id) (some handle) = record slc {
    pt = set slc.pt i (released p);
    calls = slc.calls ++ pt_client_disable handle p.id ∷ [];
  }
  disabled slc i p partition_id handle = slc

  free_in : SlcDevice → ℕ → ℕ → Option SlcPartition → ℕ × SlcDevice
  unfolding is_fd disabled
  free_in slc fd i none = (ebadf, slc)
  free_in slc fd i (some p) =
      if not (is_fd fd p.fd)
      then (einval, slc)
      else (0, disabled slc i p p.partition_id p.partition_handle)

  free_file : SlcDevice → ℕ → Option ℕ → ℕ × SlcDevice
  unfolding free_in
  free_file slc fd none = (ebadf, slc)
  free_file slc fd (some i) = free_in slc fd i (get_elem? slc.pt i)

  unfoldable pub lwis_slc_buffer_free : SlcDevice → ℕ → ℕ × SlcDevice
  unfolding free_file free_in is_fd disabled
  lwis_slc_buffer_free slc fd = free_file slc fd (client.fget fd)
