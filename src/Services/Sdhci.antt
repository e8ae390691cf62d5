-- ===== src/Services/Sdhci.antt =====
-- sdio/sdhci/src/{server,sdhci/mod}.rs: the service of the SD host controller. Its operations are stubs
-- that succeed; it serves one message, and every client.
use glenda_drivers.Prelude.{
  ℕ, ◌+◌, ◌%◌, ◌^◌, ◌&&◌, ◌==◌, if◌then◌else◌, Option, none, some, List, replicate, get_or, Outcome,
  done, fault,
}
use glenda_drivers.Prelude.Handlers.{Result, ok, err, Handler, fail, ◌>>=◌, ◌>>◌}
use glenda_drivers.Glenda.{Error, not_initialized}
use glenda_drivers.Mmio.{Bus}
use glenda_drivers.Services.Kernel.{Utcb, Ipc, success}
use glenda_drivers.Services.Calls.{Call, get_mr, set_mr, read_utcb, read_service}
use glenda_drivers.Services.Run.{failed}

-- `SdioCommand`
pub record SdioCommand : Type 0 where
  pub cmd : ℕ
  pub arg : ℕ
  pub response_type : ℕ

-- `Sdhci` is its base address.
module _ {D : Type 0} (bus : Bus D) (base : ℕ) where
  unfoldable pub read_reg : ℕ → D → ℕ × D
  read_reg offset d = bus.read32 (base + offset) d

  unfoldable pub write_reg : ℕ → ℕ → D → D
  write_reg offset value d = bus.write32 (base + offset) value d

abbrev pub sdhci_send_command : SdioCommand → Result Error (List ℕ)
sdhci_send_command cmd = ok (replicate 4 0)

-- `SdhciService`. The endpoint and the capabilities are only stored.
pub record SdhciService : Type 0 where
  pub sdhci : Option ℕ

-- A method of the controller, which gives `r`, if there is a controller.
abbrev pub if_there : {A : Type 0} → Result Error A → SdhciService → Result Error A
if_there r v = elim v.sdhci [ none ↦ err not_initialized | some base ↦ r ]

abbrev pub send_command : SdioCommand → SdhciService → Result Error (List ℕ)
send_command cmd v = if_there (sdhci_send_command cmd) v

-- `read_blocks`, `write_blocks`, `set_bus_width` and `set_clock`
abbrev pub succeed : SdhciService → Result Error (Unit {0})
succeed v = if_there (ok tt) v

module _ {K : Type 0} where
  abbrev pub of_result : {A : Type 0} → Result Error A → Handler (Call SdhciService K) Error A
  of_result r s = done (r, s)

  abbrev pub set_tag_ok : Handler (Call SdhciService K) Error (Unit {0})
  set_tag_ok s = done (ok tt, record s { utcb = record (s.utcb) { tag = success } })

  unfoldable pub on_send_command : Handler (Call SdhciService K) Error (Unit {0})
  on_send_command = do
    cmd ← get_mr 0
    arg ← get_mr 1
    response_type ← get_mr 2
    v ← read_service
    resp ← of_result (
        send_command
          (record { cmd = cmd % 2 ^ 8; arg = arg % 2 ^ 32; response_type = response_type % 2 ^ 8 })
          v)
    set_mr 0 (get_or resp 0 0)
    set_mr 1 (get_or resp 1 0)
    set_mr 2 (get_or resp 2 0)
    set_mr 3 (get_or resp 3 0)
    set_tag_ok

  unfoldable pub dispatch : ℕ → ℕ → Ipc → Handler (Call SdhciService K) Error (Unit {0})
  dispatch sdio_proto send_label ipc = do
    u ← read_utcb
    if (u.proto == sdio_proto) && (u.label == send_label)
        then on_send_command
        else fail ipc.unmatched

  -- The body of `run`: every message is answered.
  abbrev pub answered :
      (Error → ℕ)
      → Outcome (Result Error (Unit {0}) × Call SdhciService K)
      → Outcome (Utcb × SdhciService × K)
  answered code fault = fault
  answered code (done (ok _, s)) = done (s.utcb, s.service, s.kernel)
  answered code (done (err e, s)) = done (failed code e s.utcb, s.service, s.kernel)
