-- ===== src/Services/Probe.antt =====
-- virtio/mmio/src/driver.rs: which driver a virtio,mmio node wants.
use glenda_drivers.Prelude.{
  ℕ, ◌+◌, ◌-◌, ◌/◌, ◌%◌, ◌^◌, ◌==◌, if◌then◌else◌, Option, none, some, List, [], ◌∷◌, done,
}
use glenda_drivers.Prelude.Handlers.{Result, Handler, pure, ensure, ◌>>=◌, ◌>>◌}
use glenda_drivers.Glenda.{Error, invalid_args}
use glenda_drivers.Mmio.{Bus}
use glenda_drivers.Virtio.Consts.{
  magic_value, off_magic, off_version, off_device_id, dev_id_net, dev_id_block, dev_id_console,
  dev_id_entropy, dev_id_gpu, dev_id_input,
}
use glenda_drivers.Services.Kernel.{Kernel}

-- The names `virtio-net` to `virtio-input` that a node may get.
pub data Compat : Type 0 where
  virtio_net virtio_block virtio_console virtio_rng virtio_gpu virtio_input : Compat

-- The device behind the mapping, and the kernel.
pub record Node (D K : Type 0) : Type 0 where
  pub device : D
  pub kernel : K

unfoldable pub identify_device : ℕ → Option Compat
identify_device id =
    if id == dev_id_net
    then some virtio_net
    else if id == dev_id_block
    then some virtio_block
    else if id == dev_id_console
    then some virtio_console
    else if id == dev_id_entropy
    then some virtio_rng
    else if id == dev_id_gpu
    then some virtio_gpu
    else if id == dev_id_input
    then some virtio_input
    else none

abbrev compats_of : Option Compat → List Compat
compats_of none = []
compats_of (some c) = c ∷ []

-- A node whose id is 0 is a placeholder.
abbrev pub compats : ℕ → List Compat
compats id = if id == 0 then [] else compats_of (identify_device id)

module _ {D K A : Type 0} where
  abbrev pub call : (K → Result Error A × K) → Handler (Node D K) Error A
  call f s = let (r, k) = f s.kernel in done (r, record s { kernel = k })

module _ {D K : Type 0} (bus : Bus D) (kernel : Kernel K) (mmio_slot map_va pgsize : ℕ) where
  abbrev pub read : ℕ → Handler (Node D K) Error ℕ
  read offset s =
      let (n, d) = bus.read32 (map_va + offset) s.device in pure n (record s { device = d })

  -- A wrong magic value leaves the mapping where it is.
  unfoldable pub probe : Handler (Node D K) Error (List Compat)
  probe = do
    found ← call (kernel.get_mmio 0 mmio_slot)
    let pages = (found.2 + pgsize - 1) % 2 ^ 64 / pgsize
    call (kernel.map_page found.0 map_va pages)
    magic ← read off_magic
    version ← read off_version
    device_id ← read off_device_id
    ensure (magic == magic_value) invalid_args
    call (kernel.unmap map_va pages)
    pure (compats device_id)
