-- ===== src/Buffer.antt =====
-- lwis_buffer.c, lwis_buffer.h: the DMA buffers that a client allocates and enrolls. The calls of the
-- kernel's dma-buf interface are logged, and their answers are parameters.
pub mod Enrolled
pub mod Balanced
pub mod Disenrolled
pub mod Reach
use google_modules_lwis.Prelude.{
  ℕ, ◌+◌, ◌-◌, ◌^◌, Bool, true, false, not, Option, none, some, List, [], ◌∷◌, ◌++◌, ◌==◌, ◌&&◌,
  ◌||◌, leb, if◌then◌else◌,
}
use google_modules_lwis.Prelude.Bits.{test_bit}
use google_modules_lwis.Errno.{einval, enomem}
use google_modules_lwis.Device.{DeviceType, slc, kmalloc}
use google_modules_lwis.Slc.{
  SlcDevice, AllocBufferInfo, Answer, given, failed, PtClient, SlcAllocation, lwis_slc_buffer_alloc,
  lwis_slc_buffer_free,
}

-- enum dma_data_direction.
pub data DmaDirection : Type 0 where
  dma_bidirectional dma_to_device dma_from_device dma_none : DmaDirection

-- struct lwis_buffer_info.
pub record BufferInfo : Type 0 where
  pub fd : ℕ
  pub dma_read : Bool
  pub dma_write : Bool
  pub dma_vaddr : ℕ

-- struct lwis_enrolled_buffer. The list that it is on is that of its `dma_vaddr`.
pub record EnrolledBuffer : Type 0 where
  pub info : BufferInfo
  pub dma_direction : DmaDirection
  pub dma_buf : ℕ
  pub dma_buf_attachment : ℕ
  pub sg_table : ℕ

-- struct lwis_buffer_enrollment_list.
pub record EnrollmentList : Type 0 where
  pub vaddr : ℕ
  pub list : List EnrolledBuffer

-- struct lwis_allocated_buffer; a `dma_buf` of NULL is `none`.
pub record AllocatedBuffer : Type 0 where
  pub fd : ℕ
  pub size : ℕ
  pub dma_buf : Option ℕ

-- The calls of the dma-buf interface that take or give back a reference or a mapping.
pub data DmaCall : Type 0 where
  dma_buf_get dma_buf_put dma_buf_alloc dma_buf_install : ℕ → DmaCall
  dma_buf_attach dma_buf_detach : ℕ → ℕ → DmaCall
  dma_buf_map dma_buf_unmap : ℕ → ℕ → DmaCall
  dma_buffer_unmap : ℕ → ℕ → DmaCall

-- What struct lwis_client and its device have of buffers, the calls made, and the answers to
-- the next allocations.
pub record BufferClient : Type 0 where
  pub enrolled_buffers : List EnrollmentList
  pub allocated_buffers : List AllocatedBuffer
  pub type : DeviceType
  pub slc_dev : SlcDevice
  pub calls : List DmaCall
  pub mem : List Bool

-- The answers of the kernel: pointers as 64-bit words, of which the last 4095 are errors.
pub record Kernel : Type 0 where
  pub get : ℕ → ℕ
  pub attach : ℕ → ℕ
  pub map_attachment : ℕ → DmaDirection → ℕ
  pub sg_dma_address : ℕ → ℕ
  pub buffer_alloc : ℕ → ℕ → ℕ
  pub install_fd : ℕ → Answer
  pub page_align : ℕ → ℕ
  pub cpu_access : Bool → ℕ → DmaDirection → ℕ → ℕ → ℕ

unfoldable pub is_err_or_null : ℕ → Bool
is_err_or_null p = p == 0 || leb (2 ^ 64 - 4095) p

-- PTR_ERR, its absolute value.
abbrev pub ptr_err : ℕ → ℕ
ptr_err p = if p == 0 then 0 else 2 ^ 64 - p

unfoldable pub enrollment_list_find : List EnrollmentList → ℕ → Option EnrollmentList
enrollment_list_find [] dma_vaddr = none
enrollment_list_find (l ∷ ls) dma_vaddr =
    if l.vaddr == dma_vaddr then some l else enrollment_list_find ls dma_vaddr

-- The buffers of the list that has the address become `list`.
unfoldable pub put_buffers : List EnrollmentList → ℕ → List EnrolledBuffer → List EnrollmentList
put_buffers [] dma_vaddr list = []
put_buffers (l ∷ ls) dma_vaddr list =
    if l.vaddr == dma_vaddr
    then record l { list = list } ∷ ls
    else l ∷ put_buffers ls dma_vaddr list

unfoldable pub enrollment_list_create :
    BufferClient → ℕ → Bool × List Bool → Option EnrollmentList × BufferClient
enrollment_list_create c dma_vaddr (false, mem) = (none, record c { mem = mem })
enrollment_list_create c dma_vaddr (true, mem) =
    let l : EnrollmentList = record { vaddr = dma_vaddr; list = [] } in
    (some l, record c { enrolled_buffers = l ∷ c.enrolled_buffers; mem = mem })

unfoldable pub found_or_created :
    BufferClient → ℕ → Option EnrollmentList → Option EnrollmentList × BufferClient
unfolding enrollment_list_create
found_or_created c dma_vaddr (some l) = (some l, c)
found_or_created c dma_vaddr none = enrollment_list_create c dma_vaddr (kmalloc c.mem)

unfoldable pub enrollment_list_find_or_create :
    BufferClient → ℕ → Option EnrollmentList × BufferClient
unfolding found_or_created enrollment_list_find
enrollment_list_find_or_create c dma_vaddr =
    found_or_created c dma_vaddr (enrollment_list_find c.enrolled_buffers dma_vaddr)

-- The test of a buffer by its fd and its address.
abbrev pub is_buffer : ℕ → ℕ → EnrolledBuffer → Bool
is_buffer fd dma_vaddr b = (b.info).fd == fd && (b.info).dma_vaddr == dma_vaddr

unfoldable pub find_buffer : ℕ → ℕ → List EnrolledBuffer → Option EnrolledBuffer
find_buffer fd dma_vaddr [] = none
find_buffer fd dma_vaddr (b ∷ bs) =
    if is_buffer fd dma_vaddr b then some b else find_buffer fd dma_vaddr bs

unfoldable pub find_in : ℕ → ℕ → Option EnrollmentList → Option EnrolledBuffer
unfolding find_buffer
find_in fd dma_vaddr none = none
find_in fd dma_vaddr (some l) = find_buffer fd dma_vaddr l.list

unfoldable pub lwis_client_enrolled_buffer_find : BufferClient → ℕ → ℕ → Option EnrolledBuffer
unfolding find_in enrollment_list_find
lwis_client_enrolled_buffer_find c fd dma_vaddr =
    find_in fd dma_vaddr (enrollment_list_find c.enrolled_buffers dma_vaddr)

-- The direction of an enrollment, by what the device does.
abbrev pub enroll_direction : Bool → Bool → DmaDirection
enroll_direction true true = dma_bidirectional
enroll_direction true false = dma_to_device
enroll_direction false true = dma_from_device
enroll_direction false false = dma_none

-- The direction of an access of the processor.
abbrev pub access_direction : Bool → Bool → DmaDirection
access_direction true true = dma_bidirectional
access_direction true false = dma_from_device
access_direction false true = dma_to_device
access_direction false false = dma_none

abbrev pub is_valid : DmaDirection → Bool
is_valid dma_none = false
is_valid _ = true

-- The return code, the buffer if it was enrolled, and the client.
pub record Enrollment : Type 0 where
  pub ret : ℕ
  pub buffer : Option EnrolledBuffer
  pub client : BufferClient

unfoldable pub called : BufferClient → List DmaCall → BufferClient
called c calls = record c { calls = c.calls ++ calls }

-- What the label `err` gives back.
abbrev pub give_back : EnrolledBuffer → List DmaCall
give_back b =
    dma_buf_unmap b.dma_buf_attachment b.sg_table
    ∷ dma_buf_detach b.dma_buf b.dma_buf_attachment
    ∷ dma_buf_put b.dma_buf
    ∷ []

abbrev enroll_failed : ℕ → BufferClient → List DmaCall → Enrollment
enroll_failed ret c calls = record { ret = ret; buffer = none; client = called c calls }

is_some : Option EnrolledBuffer → Bool
is_some none = false
is_some (some b) = true

-- The buffer goes to the end of its list, unless one like it is there.
unfoldable pub add_enrollment : EnrolledBuffer → Option EnrollmentList × BufferClient → Enrollment
unfolding find_buffer is_some put_buffers called
add_enrollment b (none, c) = enroll_failed einval c (give_back b)
add_enrollment b (some l, c) =
    if is_some (find_buffer (b.info).fd (b.info).dma_vaddr l.list)
    then enroll_failed einval c (give_back b)
    else record {
      ret = 0;
      buffer = some b;
      client = record c {
        enrolled_buffers = put_buffers c.enrolled_buffers (b.info).dma_vaddr (l.list ++ b ∷ []);
      };
    }

-- The buffer of an fd, neither attached nor mapped.
abbrev pub bare : BufferInfo → DmaDirection → ℕ → EnrolledBuffer
bare info direction dma_buf = record {
  info = info;
  dma_direction = direction;
  dma_buf = dma_buf;
  dma_buf_attachment = 0;
  sg_table = 0;
}

module _ (kernel : Kernel) where
  unfoldable pub mapped : BufferClient → EnrolledBuffer → Enrollment
  unfolding add_enrollment enrollment_list_find_or_create called
  mapped c b =
      if is_err_or_null (kernel.sg_dma_address b.sg_table)
      then enroll_failed einval c (give_back b)
      else add_enrollment
          (record b { info = record (b.info) { dma_vaddr = kernel.sg_dma_address b.sg_table } })
          (enrollment_list_find_or_create c (kernel.sg_dma_address b.sg_table))

  unfoldable pub attached : BufferClient → EnrolledBuffer → Enrollment
  unfolding mapped is_err_or_null called
  attached c b =
      let table : ℕ = kernel.map_attachment b.dma_buf_attachment b.dma_direction in
      if is_err_or_null table
      then enroll_failed (ptr_err table) c
          (dma_buf_detach b.dma_buf b.dma_buf_attachment ∷ dma_buf_put b.dma_buf ∷ [])
      else mapped (called c (dma_buf_map b.dma_buf_attachment table ∷ []))
          (record b { sg_table = table })

  unfoldable pub got : BufferClient → EnrolledBuffer → Enrollment
  unfolding attached is_err_or_null called
  got c b =
      let attachment : ℕ = kernel.attach b.dma_buf in
      if is_err_or_null attachment
      then enroll_failed (ptr_err attachment) c (dma_buf_put b.dma_buf ∷ [])
      else attached (called c (dma_buf_attach b.dma_buf attachment ∷ []))
          (record b { dma_buf_attachment = attachment })

  unfoldable pub lwis_buffer_enroll : BufferClient → BufferInfo → Enrollment
  unfolding got is_err_or_null called
  lwis_buffer_enroll c info =
      let direction : DmaDirection = enroll_direction info.dma_read info.dma_write in
      if not (is_valid direction)
      then enroll_failed einval c []
      else if is_err_or_null (kernel.get info.fd)
      then enroll_failed (ptr_err (kernel.get info.fd)) c []
      else got (called c (dma_buf_get (kernel.get info.fd) ∷ []))
          (bare info direction (kernel.get info.fd))

-- The list without the buffer.
unfoldable pub list_del : ℕ → ℕ → List EnrolledBuffer → List EnrolledBuffer
list_del fd dma_vaddr [] = []
list_del fd dma_vaddr (b ∷ bs) =
    if is_buffer fd dma_vaddr b then bs else b ∷ list_del fd dma_vaddr bs

unfoldable pub hash_del : List EnrollmentList → ℕ → List EnrollmentList
hash_del [] dma_vaddr = []
hash_del (l ∷ ls) dma_vaddr = if l.vaddr == dma_vaddr then ls else l ∷ hash_del ls dma_vaddr

unfoldable pub without : List EnrollmentList → ℕ → List EnrolledBuffer → List EnrollmentList
unfolding hash_del put_buffers
without ls dma_vaddr [] = hash_del ls dma_vaddr
without ls dma_vaddr (b ∷ bs) = put_buffers ls dma_vaddr (b ∷ bs)

unfoldable pub disenroll_in :
    List EnrollmentList → EnrolledBuffer → Option EnrollmentList → List EnrollmentList
unfolding without list_del
disenroll_in ls b none = ls
disenroll_in ls b (some l) =
    without ls (b.info).dma_vaddr (list_del (b.info).fd (b.info).dma_vaddr l.list)

-- The buffer is one of the client's.
unfoldable pub lwis_buffer_disenroll : BufferClient → EnrolledBuffer → BufferClient
unfolding disenroll_in enrollment_list_find called
lwis_buffer_disenroll c b =
    called
      (record c {
        enrolled_buffers =
            disenroll_in c.enrolled_buffers b
              (enrollment_list_find c.enrolled_buffers (b.info).dma_vaddr);
      })
      (dma_buffer_unmap b.dma_buf_attachment (b.info).dma_vaddr ∷ give_back b)

unfoldable pub disenroll_all : BufferClient → List EnrolledBuffer → BufferClient
unfolding lwis_buffer_disenroll
disenroll_all c [] = c
disenroll_all c (b ∷ bs) = disenroll_all (lwis_buffer_disenroll c b) bs

unfoldable pub disenroll_lists : BufferClient → List EnrollmentList → BufferClient
unfolding disenroll_all
disenroll_lists c [] = c
disenroll_lists c (l ∷ ls) = disenroll_lists (disenroll_all c l.list) ls

unfoldable pub lwis_client_enrolled_buffers_clear : BufferClient → BufferClient
unfolding disenroll_lists
lwis_client_enrolled_buffers_clear c = disenroll_lists c c.enrolled_buffers

-- struct lwis_buffer_cpu_access_op.
pub record CpuAccess : Type 0 where
  pub fd : ℕ
  pub start : Bool
  pub read : Bool
  pub write : Bool
  pub offset : ℕ
  pub len : ℕ

pub lwis_buffer_cpu_access : Kernel → BufferClient → CpuAccess → ℕ × BufferClient
unfolding called is_err_or_null
lwis_buffer_cpu_access kernel c op =
    let direction : DmaDirection = access_direction op.read op.write in
    let dma_buf : ℕ = kernel.get op.fd in
    if not (is_valid direction)
    then (einval, c)
    else if is_err_or_null dma_buf
    then (einval, c)
    else (
      kernel.cpu_access op.start dma_buf direction op.offset op.len,
      called c (dma_buf_get dma_buf ∷ dma_buf_put dma_buf ∷ []),
    )

unfoldable pub lwis_client_allocated_buffer_find : List AllocatedBuffer → ℕ → Option AllocatedBuffer
lwis_client_allocated_buffer_find [] fd = none
lwis_client_allocated_buffer_find (p ∷ ps) fd =
    if p.fd == fd then some p else lwis_client_allocated_buffer_find ps fd

-- The table without its newest buffer of an fd.
unfoldable pub forget_allocated : List AllocatedBuffer → ℕ → List AllocatedBuffer
forget_allocated [] fd = []
forget_allocated (p ∷ ps) fd = if p.fd == fd then ps else p ∷ forget_allocated ps fd

-- The return code, the arguments with their outputs, and the client.
pub record Allocation : Type 0 where
  pub ret : ℕ
  pub info : AllocBufferInfo
  pub client : BufferClient

-- LWIS_DMA_SYSTEM_CACHE_RESERVATION.
abbrev pub is_system_cache_reservation : ℕ → Bool
is_system_cache_reservation flags = test_bit flags 3

is_slc : DeviceType → Bool
is_slc DeviceType.slc = true
is_slc _ = false

-- The new buffer goes to the table.
unfoldable pub hash_added : BufferClient → AllocBufferInfo → Option ℕ → Allocation
hash_added c info dma_buf = record {
  ret = 0;
  info = info;
  client = record c {
    allocated_buffers =
        record { fd = info.dma_fd; size = info.size; dma_buf = dma_buf } ∷ c.allocated_buffers;
  };
}

abbrev alloc_failed : ℕ → AllocBufferInfo → BufferClient → Allocation
alloc_failed ret info c = record { ret = ret; info = info; client = c }

slc_allocated : BufferClient → SlcAllocation → Allocation
unfolding hash_added
slc_allocated c a =
    let c' : BufferClient = record c { slc_dev = a.slc } in
    if a.ret == 0 then hash_added c' a.info none else alloc_failed a.ret a.info c'

installed : BufferClient → AllocBufferInfo → ℕ → Answer → Allocation
unfolding hash_added called
installed c info dma_buf (failed e) =
    alloc_failed e info
      (called c (dma_buf_alloc dma_buf ∷ dma_buf_get dma_buf ∷ dma_buf_put dma_buf ∷ []))
installed c info dma_buf (given fd) =
    hash_added
      (called c (dma_buf_alloc dma_buf ∷ dma_buf_get dma_buf ∷ dma_buf_install dma_buf ∷ []))
      (record info { dma_fd = fd; partition_id = none }) (some dma_buf)

unfoldable pub alloc_dma : Kernel → BufferClient → AllocBufferInfo → Allocation
unfolding installed is_err_or_null
alloc_dma kernel c info =
    let aligned : AllocBufferInfo = record info { size = kernel.page_align info.size } in
    let dma_buf : ℕ = kernel.buffer_alloc aligned.size info.flags in
    if is_err_or_null dma_buf
    then alloc_failed enomem aligned c
    else installed c aligned dma_buf (kernel.install_fd dma_buf)

unfoldable pub lwis_buffer_alloc : Kernel → PtClient → BufferClient → AllocBufferInfo → Allocation
unfolding slc_allocated alloc_dma is_slc
lwis_buffer_alloc kernel client c info =
    if is_system_cache_reservation info.flags
    then (if is_slc c.type
        then slc_allocated c (lwis_slc_buffer_alloc client c.slc_dev info)
        else alloc_failed einval info c)
    else alloc_dma kernel c info

forgotten : BufferClient → AllocatedBuffer → BufferClient
unfolding forget_allocated
forgotten c b = record c { allocated_buffers = forget_allocated c.allocated_buffers b.fd }

free_by : PtClient → BufferClient → AllocatedBuffer → Option ℕ → ℕ × BufferClient
unfolding forgotten is_slc called
free_by client c b none =
    if is_slc c.type
    then (0, forgotten (record c { slc_dev = (lwis_slc_buffer_free client c.slc_dev b.fd).1 }) b)
    else (einval, c)
free_by client c b (some dma_buf) = (0, forgotten (called c (dma_buf_put dma_buf ∷ [])) b)

unfoldable pub lwis_buffer_free : PtClient → BufferClient → AllocatedBuffer → ℕ × BufferClient
unfolding free_by
lwis_buffer_free client c b = free_by client c b b.dma_buf

clear_allocated : PtClient → BufferClient → List AllocatedBuffer → BufferClient
unfolding lwis_buffer_free forgotten is_slc
clear_allocated client c [] = c
clear_allocated client c (b ∷ bs) =
    clear_allocated client
      (if is_slc c.type then forgotten c b else (lwis_buffer_free client c b).1) bs

pub lwis_client_allocated_buffers_clear : PtClient → BufferClient → BufferClient
unfolding clear_allocated
lwis_client_allocated_buffers_clear client c = clear_allocated client c c.allocated_buffers
