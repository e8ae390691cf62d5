-- ===== src/Ramdisk/Transfers.antt =====
-- Reads and writes of whole blocks.
use mathlib.Core.List.{append_assoc}
use glenda_drivers.Prelude.{
  ℕ, ◌+◌, ◌*◌, ◌%◌, ◌^◌, ◌≤◌, ◌<◌, ◌≡◌, ◌≢◌, ◌⊎◌, refl, sym, ap, ap₂, ◌∙◌, arith, List, ◌++◌,
  length, take, drop, ◌==◌, ltb, true, false, some, done, fault, length-take, length-append,
  length-drop, Bool-cases, inl, inr, subst,
}
use glenda_drivers.Prelude.Int.{as_i32}
use glenda_drivers.Glenda.{Error, Sqe, Opcodes}
use glenda_drivers.Ramdisk.Driver.{
  read_bytes, write_bytes, Ramdisk, local_addr, copy_in, copy_out, transfer, process_sqe,
}
use glenda_drivers.Ramdisk.Bytes.{length-read_bytes, read_bytes-write_bytes, take_at, drop_at}

module _ {S : Type 0} where
  -- The bytes of a request on the disk.
  abbrev pub on_disk : ℕ → ℕ → Ramdisk S → List ℕ
  on_disk offset len s = take len (drop offset s.data_)

  -- What is written to the disk is on the disk; the bytes before and after it are as before.
  copy_in_lem :
      (offset addr len : ℕ) (s : Ramdisk S)
      → offset + len ≤ length s.data_
      → (s' : Ramdisk S) × (copy_in offset addr len s ≡ done s')
        × (on_disk offset len s' ≡ read_bytes s.memory addr len)
        × (length s'.data_ ≡ length s.data_)
        × (take offset s'.data_ ≡ take offset s.data_)
        × (drop (offset + len) s'.data_ ≡ drop (offset + len) s.data_)
        × (s'.memory ≡ s.memory)
        × (s'.block_size ≡ s.block_size)
        × (s'.buffer ≡ s.buffer)
  unfolding copy_in
  copy_in_lem offset addr len s h =
      let before : List ℕ = take offset s.data_ in
      let bytes : List ℕ = read_bytes s.memory addr len in
      let after : List ℕ = drop (offset + len) s.data_ in
      let in_range : ltb (length s.data_) (offset + len) ≡ false = ground arith in
      let n : length before ≡ offset = omega (arith, length-take offset s.data_) in
      let m : length bytes ≡ len = length-read_bytes s.memory addr len in
      (
        record s { data_ = before ++ (bytes ++ after) },
        simp in_range,
        ap (take len) (drop_at offset before (bytes ++ after) n) ∙ take_at len bytes after m,
        omega (
          arith,
          length-append before (bytes ++ after),
          length-append bytes after,
          length-drop (offset + len) s.data_,
          n,
          m,
        ),
        take_at offset before (bytes ++ after) n,
        ap (drop (offset + len)) (sym (append_assoc before bytes after))
            ∙ drop_at (offset + len) (before ++ bytes) after
                (omega (arith, length-append before bytes, n, m)),
        refl,
        refl,
        refl,
      )

  -- What is read from the disk is in memory; the disk is as before.
  copy_out_lem :
      (offset addr len : ℕ) (s : Ramdisk S)
      → offset + len ≤ length s.data_
      → (s' : Ramdisk S) × (copy_out offset addr len s ≡ done s')
        × (read_bytes s'.memory addr len ≡ on_disk offset len s)
        × (s'.data_ ≡ s.data_)
        × (s'.block_size ≡ s.block_size)
        × (s'.buffer ≡ s.buffer)
  unfolding copy_out
  copy_out_lem offset addr len s h =
      let bytes : List ℕ = on_disk offset len s in
      let in_range : ltb (length s.data_) (offset + len) ≡ false = ground arith in
      let n : length bytes ≡ len =
        omega (arith, length-take len (drop offset s.data_), length-drop offset s.data_) in
      (
        record s { memory = write_bytes s.memory addr bytes },
        simp in_range,
        subst (λ (t : ℕ). read_bytes (write_bytes s.memory addr bytes) addr t ≡ bytes) n
            (read_bytes-write_bytes s.memory addr bytes),
        refl,
        refl,
        refl,
      )

-- A request for whole blocks that lies on the disk and in the shared memory, where the driver finds it
-- at `addr`.
pub record IsGood {S : Type 0} (s : Ramdisk S) (sqe : Sqe) (addr : ℕ) : Type 0 where
  pub sized : s.block_size ≢ 0
  pub aligned : sqe.len % s.block_size ≡ 0
  pub reached : local_addr s.buffer sqe ≡ some addr
  pub on : sqe.off * s.block_size + sqe.len ≤ length s.data_
  pub fits : length s.data_ < 2 ^ 64

module _ {S : Type 0} (ops : Opcodes) (code : Error → ℕ) where
  process_sqe-good :
      (sqe : Sqe) (addr : ℕ) (s : Ramdisk S)
      → IsGood s sqe addr
      → process_sqe ops code sqe s ≡ transfer ops code sqe addr (sqe.off * s.block_size) s
  unfolding process_sqe
  process_sqe-good sqe addr s v =
      let sized : (s.block_size == 0) ≡ false = ground (arith, v.sized) in
      let aligned : (sqe.len % s.block_size == 0) ≡ true = ground (arith, v.aligned) in
      let whole : sqe.off * s.block_size % 2 ^ 64 ≡ sqe.off * s.block_size =
        omega (arith, v.on, v.fits) in
      let in_range : ltb (length s.data_) ((sqe.off * s.block_size + sqe.len) % 2 ^ 64) ≡ false =
        ground (arith, v.on, v.fits) in
      simp (sized, aligned, v.reached, whole, in_range)

  -- A good write returns its length; the bytes of the client are on the disk at its blocks, and the
  -- rest of the disk is as before.
  pub process_sqe_write :
      (sqe : Sqe) (addr : ℕ) (s : Ramdisk S)
      → IsGood s sqe addr
      → sqe.opcode ≡ ops.op_write
      → ops.op_write ≢ ops.op_read
      → (s' : Ramdisk S) × (process_sqe ops code sqe s ≡ done (as_i32 sqe.len, s'))
        × (on_disk (sqe.off * s.block_size) sqe.len s' ≡ read_bytes s.memory addr sqe.len)
        × (length s'.data_ ≡ length s.data_)
        × (take (sqe.off * s.block_size) s'.data_ ≡ take (sqe.off * s.block_size) s.data_)
        × (drop (sqe.off * s.block_size + sqe.len) s'.data_
            ≡ drop (sqe.off * s.block_size + sqe.len) s.data_)
        × (s'.memory ≡ s.memory)
        × (s'.block_size ≡ s.block_size)
        × (s'.buffer ≡ s.buffer)
  unfolding transfer
  process_sqe_write sqe addr s v is_write differ =
      let (s', run, written, size, before, after, memory, sized, buffer) =
        copy_in_lem (sqe.off * s.block_size) addr sqe.len s v.on in
      let not_read : (sqe.opcode == ops.op_read) ≡ false = ground (arith, differ, is_write) in
      let a_write : (sqe.opcode == ops.op_write) ≡ true = ground arith in
      (
        s',
        process_sqe-good sqe addr s v ∙ simp (not_read, a_write, run),
        written,
        size,
        before,
        after,
        memory,
        sized,
        buffer,
      )

  -- A good read returns its length; the client finds the bytes of its blocks, and the disk is as before.
  pub process_sqe_read :
      (sqe : Sqe) (addr : ℕ) (s : Ramdisk S)
      → IsGood s sqe addr
      → sqe.opcode ≡ ops.op_read
      → (s' : Ramdisk S) × (process_sqe ops code sqe s ≡ done (as_i32 sqe.len, s'))
        × (read_bytes s'.memory addr sqe.len ≡ on_disk (sqe.off * s.block_size) sqe.len s)
        × (s'.data_ ≡ s.data_)
        × (s'.block_size ≡ s.block_size)
        × (s'.buffer ≡ s.buffer)
  unfolding transfer
  process_sqe_read sqe addr s v is_read =
      let (s', run, bytes, disk, sized, buffer) =
        copy_out_lem (sqe.off * s.block_size) addr sqe.len s v.on in
      let a_read : (sqe.opcode == ops.op_read) ≡ true = ground arith in
      (s', process_sqe-good sqe addr s v ∙ simp (a_read, run), bytes, disk, sized, buffer)

  -- A request that is good stays good when the contents of the disk and of the memory change.
  IsGood-stays :
      (sqe : Sqe) (addr : ℕ) (s s' : Ramdisk S)
      → IsGood s sqe addr
      → length s'.data_ ≡ length s.data_
      → s'.block_size ≡ s.block_size
      → s'.buffer ≡ s.buffer
      → IsGood s' sqe addr
  IsGood-stays sqe addr s s' v size sized buffer = record {
    sized = λ e. v.sized (sym sized ∙ e);
    aligned = ap (λ (b : ℕ). sqe.len % b) sized ∙ v.aligned;
    reached = ap (λ b. local_addr b sqe) buffer ∙ v.reached;
    on =
        subst (λ (b : ℕ). sqe.off * b + sqe.len ≤ length s'.data_) (sym sized)
          (subst (λ (n : ℕ). sqe.off * s.block_size + sqe.len ≤ n) (sym size) v.on);
    fits = omega (arith, size, v.fits);
  }

  -- A good write, and then a good read of the same blocks, return their lengths, and the reader finds
  -- at its address the bytes of the writer.
  pub write_read :
      (w r : Sqe) (source target : ℕ) (s : Ramdisk S)
      → IsGood s w source
      → IsGood s r target
      → w.opcode ≡ ops.op_write
      → r.opcode ≡ ops.op_read
      → ops.op_write ≢ ops.op_read
      → r.off ≡ w.off
      → r.len ≡ w.len
      → (s1 : Ramdisk S) × (s2 : Ramdisk S) × (process_sqe ops code w s ≡ done (as_i32 w.len, s1))
        × (process_sqe ops code r s1 ≡ done (as_i32 r.len, s2))
        × (read_bytes s2.memory target r.len ≡ read_bytes s.memory source w.len)
  write_read w r source target s gw gr is_write is_read differ at len =
      let (s1, run1, written, size, before, after, memory, sized, buffer) =
        process_sqe_write w source s gw is_write differ in
      let (s2, run2, bytes, disk, sized2, buffer2) =
        process_sqe_read r target s1 (IsGood-stays r target s s1 gr size sized buffer) is_read in
      let same : on_disk (r.off * s1.block_size) r.len s1
          ≡ on_disk (w.off * s.block_size) w.len s1 =
        ap₂ (λ (o n : ℕ). on_disk o n s1) (ap₂ (λ (o b : ℕ). o * b) at sized) len in
      (s1, s2, run1, run2, bytes ∙ same ∙ written)

  -- A read or write of whole blocks whose end wraps past 2 ^ 64 to a place on the disk passes the
  -- checks, and its copy leaves the disk.
  pub process_sqe_wraps :
      (sqe : Sqe) (addr : ℕ) (s : Ramdisk S)
      → s.block_size ≢ 0
      → sqe.len % s.block_size ≡ 0
      → local_addr s.buffer sqe ≡ some addr
      → sqe.len < 2 ^ 64
      → 2 ^ 64 ≤ sqe.off * s.block_size % 2 ^ 64 + sqe.len
      → length s.data_ < 2 ^ 64
      → sqe.off * s.block_size % 2 ^ 64 + sqe.len ≤ 2 ^ 64 + length s.data_
      → (sqe.opcode ≡ ops.op_read) ⊎ (sqe.opcode ≡ ops.op_write)
      → process_sqe ops code sqe s ≡ fault
  unfolding process_sqe transfer copy_out copy_in
  process_sqe_wraps sqe addr s sized aligned found short wraps small on op =
      let size : (s.block_size == 0) ≡ false = ground (arith, sized) in
      let whole : (sqe.len % s.block_size == 0) ≡ true = ground (arith, aligned) in
      let passes : ltb (length s.data_) ((sqe.off * s.block_size % 2 ^ 64 + sqe.len) % 2 ^ 64)
          ≡ false =
        ground arith in
      let leaves : ltb (length s.data_) (sqe.off * s.block_size % 2 ^ 64 + sqe.len) ≡ true =
        ground arith in
      elim (Bool-cases (sqe.opcode == ops.op_read)) [
        | inl read ↦ simp (size, whole, found, passes, read, leaves)
        | inr other ↦
            let write : (sqe.opcode == ops.op_write) ≡ true = elim op [
              | inl e ↦ ground arith
              | inr e ↦ ground arith
            ] in
            simp (size, whole, found, passes, other, write, leaves)
      ]
