-- ===== src/Virtio/Consts.antt =====
-- virtio/common/src/consts.rs: the constants that the drivers use.
use glenda_drivers.Prelude.{ℕ}

abbrev pub magic_value : ℕ
magic_value = 0x74726976

abbrev pub version_1 : ℕ
version_1 = 1

abbrev pub version_2 : ℕ
version_2 = 2

abbrev pub dev_id_net : ℕ
dev_id_net = 1

abbrev pub dev_id_block : ℕ
dev_id_block = 2

abbrev pub dev_id_console : ℕ
dev_id_console = 3

abbrev pub dev_id_entropy : ℕ
dev_id_entropy = 4

abbrev pub dev_id_gpu : ℕ
dev_id_gpu = 16

abbrev pub dev_id_input : ℕ
dev_id_input = 18

abbrev pub off_magic : ℕ
off_magic = 0x000

abbrev pub off_version : ℕ
off_version = 0x004

abbrev pub off_device_id : ℕ
off_device_id = 0x008

abbrev pub off_vendor_id : ℕ
off_vendor_id = 0x00c

abbrev pub off_device_features : ℕ
off_device_features = 0x010

abbrev pub off_device_features_sel : ℕ
off_device_features_sel = 0x014

abbrev pub off_driver_features : ℕ
off_driver_features = 0x020

abbrev pub off_driver_features_sel : ℕ
off_driver_features_sel = 0x024

abbrev pub off_queue_sel : ℕ
off_queue_sel = 0x030

abbrev pub off_queue_num_max : ℕ
off_queue_num_max = 0x034

abbrev pub off_queue_num : ℕ
off_queue_num = 0x038

abbrev pub off_queue_ready : ℕ
off_queue_ready = 0x044

abbrev pub off_queue_notify : ℕ
off_queue_notify = 0x050

abbrev pub off_interrupt_status : ℕ
off_interrupt_status = 0x060

abbrev pub off_interrupt_ack : ℕ
off_interrupt_ack = 0x064

abbrev pub off_status : ℕ
off_status = 0x070

abbrev pub off_queue_desc_low : ℕ
off_queue_desc_low = 0x080

abbrev pub off_queue_desc_high : ℕ
off_queue_desc_high = 0x084

abbrev pub off_queue_driver_low : ℕ
off_queue_driver_low = 0x090

abbrev pub off_queue_driver_high : ℕ
off_queue_driver_high = 0x094

abbrev pub off_queue_device_low : ℕ
off_queue_device_low = 0x0a0

abbrev pub off_queue_device_high : ℕ
off_queue_device_high = 0x0a4

abbrev pub off_config_generation : ℕ
off_config_generation = 0x0fc

abbrev pub off_config : ℕ
off_config = 0x100

abbrev pub status_acknowledge : ℕ
status_acknowledge = 1

abbrev pub status_driver : ℕ
status_driver = 2

abbrev pub status_driver_ok : ℕ
status_driver_ok = 4

abbrev pub status_features_ok : ℕ
status_features_ok = 8

abbrev pub status_device_needs_reset : ℕ
status_device_needs_reset = 64

abbrev pub status_failed : ℕ
status_failed = 128
