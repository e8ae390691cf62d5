-- ===== src/Virtio/Net/State.antt =====
-- virtio/net/src/net.rs: the state of the network driver.
use glenda_drivers.Prelude.{ℕ, ◌^◌, Option, none, some, List, ◌==◌, not, if◌then◌else◌, replicate}
use glenda_drivers.Prelude.Handlers.{Result, ok, err}
use glenda_drivers.Glenda.{SharedMemory}
use glenda_drivers.Mmio.{Bus}
use glenda_drivers.Virtio.Consts.{dev_id_net}
use glenda_drivers.Virtio.Transport
use glenda_drivers.Virtio.Transport.{VirtIoError, device_not_found}
use glenda_drivers.Virtio.Queue.{VirtQueue}

-- The bit `1 << VIRTIO_NET_F_MRG_RXBUF`.
abbrev pub virtio_net_f_mrg_rxbuf : ℕ
virtio_net_f_mrg_rxbuf = 2 ^ 15

pub record VirtIoNetHdr : Type 0 where
  pub flags : ℕ
  pub gso_type : ℕ
  pub hdr_len : ℕ
  pub gso_size : ℕ
  pub csum_start : ℕ
  pub csum_offset : ℕ

-- `VirtioNetHdr::default()`
abbrev pub default_hdr : VirtIoNetHdr
default_hdr = record {
  flags = 0;
  gso_type = 0;
  hdr_len = 0;
  gso_size = 0;
  csum_start = 0;
  csum_offset = 0;
}

-- `size_of::<VirtioNetHdr>()`: 1 + 1 + 2 + 2 + 2 + 2 bytes.
abbrev pub net_hdr_size : ℕ
net_hdr_size = 10

-- `rx_queue` with `pending_rx`, or `tx_queue` with `pending_tx`.
pub record Lane : Type 0 where
  pub queue : Option VirtQueue
  pub pending : List (Option (ℕ × ℕ))

-- `VirtIONet`, with the headers that it writes into the DMA area, by offset, and the device behind the
-- transport. `endpoint` is only stored.
pub record VirtIoNet (S D : Type 0) : Type 0 where
  pub mac : List ℕ
  pub rx : Lane
  pub tx : Lane
  pub dma_vaddr : ℕ
  pub dma_paddr : ℕ
  pub ring_server : Option S
  pub buffer : Option SharedMemory
  pub headers : ℕ → VirtIoNetHdr
  pub device : D

abbrev pub empty_lane : Lane
empty_lane = record { queue = none; pending = replicate 128 none }

-- What `new` builds once the device is known to be a network device.
module _ {S D : Type 0} where
  abbrev pub fresh : (ℕ → VirtIoNetHdr) → D → VirtIoNet S D
  fresh headers d = record {
    mac = replicate 6 0;
    rx = empty_lane;
    tx = empty_lane;
    dma_vaddr = 0;
    dma_paddr = 0;
    ring_server = none;
    buffer = none;
    headers = headers;
    device = d;
  }

module _ {S D : Type 0} (bus : Bus D) where
  unfoldable pub new : ℕ → (ℕ → VirtIoNetHdr) → D → Result VirtIoError (VirtIoNet S D) × D
  new base_addr headers d =
      if base_addr == 0
      then (err device_not_found, d)
      else (let (transport, d1) = Transport.new bus base_addr d in
          elim transport [
            | err e ↦ (err e, d1)
            | ok base ↦
                let (id, d2) = Transport.get_device_id bus base d1 in
                if not (id == dev_id_net)
                then (let (shown, d3) = Transport.get_device_id bus base d2 in
                    (err device_not_found, d3))
                else (ok (fresh headers d2), d2)
          ])

module _ {S D : Type 0} where
  -- The driver's address of the memory is taken for the client's.
  unfoldable pub setup_shm : ℕ → ℕ → ℕ → VirtIoNet S D → VirtIoNet S D
  setup_shm vaddr paddr size s = record s {
    buffer = some (record { vaddr = vaddr; client_vaddr = vaddr; paddr = paddr; size = size });
  }

  unfoldable pub set_ring_server : S → VirtIoNet S D → VirtIoNet S D
  set_ring_server server s = record s { ring_server = some server }
