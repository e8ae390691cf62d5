-- ===== src/Lib.antt =====
-- Verification of the Glenda drivers: user-space drivers that serve requests over IPC.
--
-- The parts and how they interact. A driver core owns a device's registers (and, for virtio, the
-- memory that it shares with the device). A service thread calls it: `handle_irq` on an interrupt,
-- `handle_ring` when a client has put requests into its ring, and setup calls in between. Each call
-- runs to its end before the next one starts, so a run of a driver is a sequence of such calls, with
-- changes by the device in between.
--
-- Which file models which part:
--   Glenda      what the drivers use of the glenda crate, as parameters: errors by name, ring
--               requests, and the ring server as an interface.
--   Mmio        register accesses; the device is a value that every access may change.
--   Virtio      virtio/common/src and virtio/block/src/blk.rs. Queue is queue.rs, Transport is
--               transport.rs, Consts is consts.rs; RegisterFile is the register file of the virtio
--               standard, which the theorems on Transport are stated against. Chains is what the
--               drivers do with the descriptors of one request, and Block is blk.rs: State (the
--               struct and its setters), Request (`submit_virtio_request`), Completion
--               (`pop_completions`), Driver (`init`, `handle_irq`, `handle_ring`), Invariant and the
--               proofs that every operation keeps it (Submission to Startup). Net is virtio/net/src/net.rs:
--               Lane (one queue with its requests: a request on it, and the loop that takes answers
--               off it), Request (`submit`), Driver (`init`, `handle_irq`, `handle_ring`), and the
--               proofs (Lane/Invariant, Soundness, Service, Startup, and Refusing on a request that
--               is refused). Gpu is virtio/gpu/src: Protocol is protocol.rs, and State, Command
--               (`send_cmd`) and Driver are gpu.rs; Exchange and Answering follow one command through
--               the queue, Scripts says what an operation tells the device, Serving and Startup are
--               about the ring and `init`.
--   Services    the services around the drivers: Block is virtio/block/src/server.rs, Net is
--               virtio/net/src/server.rs, Uart is uart/ns16550a/src/driver/{mod,server,device}.rs,
--               Ramdisk is sys/ramdisk/src/server.rs, Gpu is virtio/gpu/src/server.rs and Sdhci is
--               sdio/sdhci/src. Setup is driver.rs of virtio/block, virtio/net and uart/ns16550a,
--               and Probe is virtio/mmio/src/driver.rs. Kernel is what they use of the kernel and
--               of the IPC wrappers of the glenda crate, as parameters; Calls has the steps that
--               handlers are made of, Run the loop of `run` over the messages that arrive. Clients
--               has a rule for each step, Strangers and Exclusive what follows for messages of
--               other clients.
--   Uart        uart/ns16550a/src/ns16550a. State is the driver's state with the software buffer
--               (`VecDeque`) and the shared rings (`RingBuffer`, an interface), Port the registers
--               and single characters, Receive the way from the port to the RX ring, Transmit the
--               way from the TX ring to the port, Driver the handlers. Device is the serial port as
--               its data sheet describes it; Streams says what is kept, and Receiving to Interrupts
--               prove it.
--   Pci         bus/pci/src. Platform is platform.rs; Config (accesses to the configuration space) and
--               Scan (base address registers, the description of a function, the scan) are driver.rs.
--               Space is a configuration space that keeps what is written, which the theorems of
--               Access and Bars are about.
--   Ramdisk     sys/ramdisk/src/driver.rs. Driver is the code, Bytes and Transfers prove what is read
--               and written.
--   Rtc         timer/goldfish-rtc/src. Registers is rtc.rs and Service the handlers of server.rs; Clock is
--               the clock as its data sheet describes it, with the proofs.
--   Gpio        gpio/sifive-gpio/src. Registers is gpio.rs and Service the handlers of server.rs; Pins has
--               the proofs, about registers that keep what is written.
--
-- How the code is read. An operation is a function from the state to a result and the new state; a
-- panic, an access outside a buffer and an endless loop are `fault`. Numbers are natural numbers;
-- sums that the source computes on 16, 32 or 64 bits wrap (`% 2 ^ w`), as in a build without overflow
-- checks, and `usize` has 64 bits. Logging and fences are not modelled, and the device leaves the
-- shared memory alone while a call runs, but for the GPU: its driver waits for the device inside a
-- call, so that the device works before each look of the driver at the used ring.
--
-- Fuel. `free_chain` has the number of descriptors as fuel, since a chain has no entry twice, and
-- `pop_completions` and the loop of the network driver's `handle_irq` one round more than the used ring
-- has entries, which are as many as they can need.
-- The loops of the serial driver that wait for the port have a fuel that exceeds the bytes in its FIFO
-- and the looks that its transmitter takes; the wait of the GPU driver has the number of looks, which
-- suffices for a device that answers within them. `handle_sq`, `handle_io` and the GPU driver's
-- `handle_ring` have one for the requests in the ring.
--
-- The messages of a service are a list, in the order in which `recv` gives them; a `recv` that fails
-- gives no message, and an error of `reply` is only logged. The result of a wrapper (`handle_call` and
-- the like) is a function of what the handler returns and of the message.
--
-- Not modelled: the entry points (main.rs), the setup of gpio/sifive-gpio,
-- timer/goldfish-rtc and sdio/sdhci (driver.rs), platform/acpi, platform/dtb and sys/loop.
pub mod Glenda
pub mod Gpio
pub mod Mmio
pub mod Pci
pub mod Prelude
pub mod Ramdisk
pub mod Rtc
pub mod Services
pub mod Uart
pub mod Virtio
