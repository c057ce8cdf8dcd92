-- ===== src/Tests/Enrollments.antt =====
-- A client that enrolls a buffer, and then a second one at another address.
use google_modules_lwis.Prelude.{◌+◌, ◌≡◌, refl, true, false, none, some, []}
use google_modules_lwis.Device.{DeviceType}
use google_modules_lwis.Slc.{given}
use google_modules_lwis.Buffer.{
  Kernel, BufferInfo, EnrolledBuffer, BufferClient, dma_to_device, lwis_buffer_enroll,
  lwis_buffer_disenroll,
}
use google_modules_lwis.Buffer.Balanced.{Enrolls}
use google_modules_lwis.Buffer.Disenrolled.{Restores}
use google_modules_lwis.Buffer.Reach.{Reach, start, enroll, Reach-Enrolls, Reach-Restores}

abbrev kernel : Kernel
kernel = record {
  get = λ fd. fd + 1000;
  attach = λ b. b + 1000;
  map_attachment = λ a direction. a + 1000;
  sg_dma_address = λ t. t + 1000;
  buffer_alloc = λ size flags. 5000;
  install_fd = λ b. given 9;
  page_align = λ size. size;
  cpu_access = λ start b direction offset len. 0;
}

abbrev client : BufferClient
client = record {
  enrolled_buffers = [];
  allocated_buffers = [];
  type = DeviceType.ioreg;
  slc_dev = record { pt = []; partition_handle = none; calls = [] };
  calls = [];
  mem = [];
}

abbrev info : BufferInfo
info = record { fd = 6; dma_read = true; dma_write = false; dma_vaddr = 0 }

abbrev new_buffer : EnrolledBuffer
new_buffer = record {
  info = record info { dma_vaddr = 4006 };
  dma_direction = dma_to_device;
  dma_buf = 1006;
  dma_buf_attachment = 2006;
  sg_table = 3006;
}

abbrev old_info : BufferInfo
old_info = record { fd = 5; dma_read = false; dma_write = true; dma_vaddr = 0 }

-- The client with a first buffer.
abbrev with_buffer : BufferClient
with_buffer = (lwis_buffer_enroll kernel client old_info).client

with_buffer-Reach : Reach with_buffer
with_buffer-Reach = enroll kernel client old_info (start client refl)

enrolls_new : (lwis_buffer_enroll kernel with_buffer info).buffer ≡ some new_buffer
unfolding lwis_buffer_enroll
enrolls_new = refl

Reach-Enrolls_example : Enrolls with_buffer [] 6 (lwis_buffer_enroll kernel with_buffer info)
Reach-Enrolls_example = Reach-Enrolls kernel with_buffer info with_buffer-Reach

Reach-Restores_example :
    Restores with_buffer
      (lwis_buffer_disenroll (lwis_buffer_enroll kernel with_buffer info).client new_buffer)
Reach-Restores_example =
    Reach-Restores kernel with_buffer info new_buffer with_buffer-Reach enrolls_new
