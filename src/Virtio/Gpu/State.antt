-- ===== src/Virtio/Gpu/State.antt =====
-- virtio/gpu/src/gpu.rs: the state of the GPU driver, the commands that it sends, and its device.
use glenda_drivers.Prelude.{ℕ, ◌+◌, Option, none, some, List}
use glenda_drivers.Virtio.Queue.{VirtQueue, QueueMemory, UsedElem}
use glenda_drivers.Virtio.Gpu.Protocol.{
  GpuHeader, GpuResourceCreate2d, GpuResourceAttachBacking, GpuMemEntry, GpuSetScanout,
  GpuTransferToHost2d, GpuResourceFlush, GpuDisplayInfo, header_size, rect_size, header_of,
  default_display_info, display_info_size,
}

-- What `send_cmd` is called with. `attach_cmd` is the struct `AttachWithEntry`.
pub data GpuCommand : Type 0 where
  display_cmd : GpuHeader → GpuCommand
  create_cmd : GpuResourceCreate2d → GpuCommand
  attach_cmd : GpuResourceAttachBacking → GpuMemEntry → GpuCommand
  scanout_cmd : GpuSetScanout → GpuCommand
  transfer_cmd : GpuTransferToHost2d → GpuCommand
  flush_cmd : GpuResourceFlush → GpuCommand

-- `size_of::<T>()`
abbrev pub size_of : GpuCommand → ℕ
size_of (display_cmd _) = header_size
size_of (create_cmd _) = header_size + 16
size_of (attach_cmd _ _) = header_size + 8 + 16
size_of (scanout_cmd _) = header_size + rect_size + 8
size_of (transfer_cmd _) = header_size + rect_size + 16
size_of (flush_cmd _) = header_size + rect_size + 8

-- The type `R` of the response: a header, or the modes with their header.
pub data Expected : Type 0 where
  header_only all_modes : Expected

abbrev pub response_size : Expected → ℕ
response_size header_only = header_size
response_size all_modes = display_info_size

-- `R::default()`, written over the response buffer.
abbrev pub cleared : Expected → GpuDisplayInfo → GpuDisplayInfo
cleared header_only old = record old { hdr = header_of 0 }
cleared all_modes old = default_display_info

-- `VirtIOGpu`, with the command (at 8192) and the response (at 12288) in its buffer and the device behind
-- the transport.
pub record VirtIoGpu (S D : Type 0) : Type 0 where
  pub width : ℕ
  pub height : ℕ
  pub ring_server : Option S
  pub control_vq : Option VirtQueue
  pub cursor_vq : Option VirtQueue
  pub cmd_buf_pa : ℕ
  pub command : GpuCommand
  pub response : GpuDisplayInfo
  pub device : D

-- What the device has done with the memory that it shares, when the driver looks at the used ring.
pub record Progress (D : Type 0) : Type 0 where
  pub used_idx : ℕ
  pub used : List UsedElem
  pub response : GpuDisplayInfo
  pub device : D

-- The device at work between two looks: from the control queue, the command and the response buffer.
abbrev pub Work : Type 0 → Type 0
Work D = QueueMemory → GpuCommand → GpuDisplayInfo → D → Progress D

module _ {S D : Type 0} where
  abbrev pub new : ℕ → GpuCommand → GpuDisplayInfo → D → VirtIoGpu S D
  new cmd_buf_pa command response device = record {
    width = 0;
    height = 0;
    ring_server = none;
    control_vq = none;
    cursor_vq = none;
    cmd_buf_pa = cmd_buf_pa;
    command = command;
    response = response;
    device = device;
  }

  abbrev pub set_ring_server : S → VirtIoGpu S D → VirtIoGpu S D
  set_ring_server server s = record s { ring_server = some server }
