-- ===== src/Virtio/Gpu/Protocol.antt =====
-- virtio/gpu/src/protocol.rs: the commands and responses of the device.
use glenda_drivers.Prelude.{ℕ, ◌+◌, ◌*◌, List, replicate}

pub data GpuCmdType : Type 0 where
  get_display_info resource_create2d resource_unref set_scanout resource_flush : GpuCmdType
  transfer_to_host2d resource_attach_backing resource_detach_backing : GpuCmdType
  ctx_create ctx_destroy ctx_attach_resource ctx_detach_resource : GpuCmdType
  get_capset_info get_capset get_edid : GpuCmdType
  resource_create3d attach_backing3d set_scanout_blob : GpuCmdType
  update_cursor move_cursor : GpuCmdType
  resp_ok_no_data resp_ok_display_info resp_ok_capset_info resp_ok_capset resp_ok_edid : GpuCmdType
  resp_err_unspec resp_err_out_of_memory resp_err_invalid_scanout : GpuCmdType
  resp_err_invalid_resource_id resp_err_invalid_context_id resp_err_invalid_parameter : GpuCmdType

-- `ty as u32`
abbrev pub cmd_code : GpuCmdType → ℕ
cmd_code get_display_info = 0x0100
cmd_code resource_create2d = 0x0101
cmd_code resource_unref = 0x0102
cmd_code set_scanout = 0x0103
cmd_code resource_flush = 0x0104
cmd_code transfer_to_host2d = 0x0105
cmd_code resource_attach_backing = 0x0106
cmd_code resource_detach_backing = 0x0107
cmd_code ctx_create = 0x0108
cmd_code ctx_destroy = 0x0109
cmd_code ctx_attach_resource = 0x010a
cmd_code ctx_detach_resource = 0x010b
cmd_code get_capset_info = 0x010c
cmd_code get_capset = 0x010d
cmd_code get_edid = 0x010e
cmd_code resource_create3d = 0x0200
cmd_code attach_backing3d = 0x0201
cmd_code set_scanout_blob = 0x0202
cmd_code update_cursor = 0x0300
cmd_code move_cursor = 0x0301
cmd_code resp_ok_no_data = 0x1100
cmd_code resp_ok_display_info = 0x1101
cmd_code resp_ok_capset_info = 0x1102
cmd_code resp_ok_capset = 0x1103
cmd_code resp_ok_edid = 0x1104
cmd_code resp_err_unspec = 0x1200
cmd_code resp_err_out_of_memory = 0x1201
cmd_code resp_err_invalid_scanout = 0x1202
cmd_code resp_err_invalid_resource_id = 0x1203
cmd_code resp_err_invalid_context_id = 0x1204
cmd_code resp_err_invalid_parameter = 0x1205

pub record GpuHeader : Type 0 where
  pub ty : ℕ
  pub flags : ℕ
  pub fence_id : ℕ
  pub ctx_id : ℕ
  pub padding : ℕ

-- `GpuHeader { ty, ..Default::default() }`
abbrev pub header_of : ℕ → GpuHeader
header_of ty = record { ty = ty; flags = 0; fence_id = 0; ctx_id = 0; padding = 0 }

pub record GpuRect : Type 0 where
  pub x : ℕ
  pub y : ℕ
  pub width : ℕ
  pub height : ℕ

pub data GpuFormats : Type 0 where
  b8g8r8a8_unorm b8g8r8x8_unorm a8r8g8b8_unorm x8r8g8b8_unorm : GpuFormats
  r8g8b8a8_unorm x8b8g8r8_unorm a8b8g8r8_unorm r8g8b8x8_unorm : GpuFormats

abbrev pub format_code : GpuFormats → ℕ
format_code b8g8r8a8_unorm = 1
format_code b8g8r8x8_unorm = 2
format_code a8r8g8b8_unorm = 3
format_code x8r8g8b8_unorm = 4
format_code r8g8b8a8_unorm = 67
format_code x8b8g8r8_unorm = 68
format_code a8b8g8r8_unorm = 121
format_code r8g8b8x8_unorm = 134

pub record GpuResourceCreate2d : Type 0 where
  pub hdr : GpuHeader
  pub resource_id : ℕ
  pub format : ℕ
  pub width : ℕ
  pub height : ℕ

pub record GpuResourceAttachBacking : Type 0 where
  pub hdr : GpuHeader
  pub resource_id : ℕ
  pub nr_entries : ℕ

pub record GpuMemEntry : Type 0 where
  pub addr : ℕ
  pub length : ℕ
  pub padding : ℕ

pub record GpuSetScanout : Type 0 where
  pub hdr : GpuHeader
  pub r : GpuRect
  pub scanout_id : ℕ
  pub resource_id : ℕ

pub record GpuTransferToHost2d : Type 0 where
  pub hdr : GpuHeader
  pub r : GpuRect
  pub offset : ℕ
  pub resource_id : ℕ
  pub padding : ℕ

pub record GpuResourceFlush : Type 0 where
  pub hdr : GpuHeader
  pub r : GpuRect
  pub resource_id : ℕ
  pub padding : ℕ

pub record GpuDisplayMode : Type 0 where
  pub r : GpuRect
  pub enabled : ℕ
  pub flags : ℕ

pub record GpuDisplayInfo : Type 0 where
  pub hdr : GpuHeader
  pub pmodes : List GpuDisplayMode

abbrev pub no_rect : GpuRect
no_rect = record { x = 0; y = 0; width = 0; height = 0 }

abbrev pub default_display_mode : GpuDisplayMode
default_display_mode = record { r = no_rect; enabled = 0; flags = 0 }

abbrev pub default_display_info : GpuDisplayInfo
default_display_info = record { hdr = header_of 0; pmodes = replicate 16 default_display_mode }

-- `size_of` of the structs, which have no padding between their fields.
abbrev pub header_size : ℕ
header_size = 24

abbrev pub rect_size : ℕ
rect_size = 16

abbrev pub display_info_size : ℕ
display_info_size = header_size + 16 * (rect_size + 8)
