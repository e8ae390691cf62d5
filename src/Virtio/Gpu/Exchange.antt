-- ===== src/Virtio/Gpu/Exchange.antt =====
-- How one command goes through the control queue, with a device that answers.
use glenda_drivers.Prelude.{
  ℕ, suc, ◌+◌, ◌%◌, ◌^◌, ◌<◌, ◌≡◌, ap, ◌∙◌, true, false, List, [], ◌∷◌, arith, length, set,
  length-set, NotIn, done,
}
use glenda_drivers.Virtio.Queue.{VirtQueue, QueueMemory, UsedElem, submit, can_pop}
use glenda_drivers.Virtio.Queue.FreeList.{
  FreeList, popped, changed, pushed, freed_desc, write_desc-changed, changed-FreeList,
  free_desc-pushed, pushed-FreeList,
}
use glenda_drivers.Virtio.Queue.Rings.{
  UsedRing, device_puts, advanced, pop-advanced, advanced-UsedRing,
}
use glenda_drivers.Virtio.Chains.Taking.{offered}
use glenda_drivers.Virtio.Gpu.Protocol.{GpuDisplayInfo}
use glenda_drivers.Virtio.Gpu.State.{GpuCommand, Expected, Work}
use glenda_drivers.Virtio.Gpu.Command.{cmd_desc, resp_desc, offer, take_back, choose, look, wait}

-- The device answers within `n` looks: it writes the response and puts one entry into the used ring, and
-- before that it leaves the queue alone.
pub data Serves {D : Type 0} (work : Work D) (num : ℕ) (mem : QueueMemory) (cmd : GpuCommand)
    (answer : GpuDisplayInfo × D) : ℕ → GpuDisplayInfo → D → Type 0 where
  puts :
      (n : ℕ) (resp : GpuDisplayInfo) (d : D) (e : UsedElem)
      → work mem cmd resp d ≡ record {
        used_idx = (mem.used_idx + 1) % 2 ^ 16;
        used = set mem.used (mem.used_idx % num) e;
        response = answer.0;
        device = answer.1;
      }
      → Serves work num mem cmd answer (suc n) resp d
  idles :
      (n : ℕ) (resp resp' : GpuDisplayInfo) (d d' : D)
      → work mem cmd resp d
        ≡ record { used_idx = mem.used_idx; used = mem.used; response = resp'; device = d' }
      → Serves work num mem cmd answer n resp' d'
      → Serves work num mem cmd answer (suc n) resp d

-- No command is on its way: two descriptors at least are free, and the used ring holds nothing new.
pub record IsReady (q : VirtQueue) : Type 0 where
  pub head : ℕ
  pub resp : ℕ
  pub rest : List ℕ
  pub taken : ℕ
  pub free : FreeList q (head ∷ resp ∷ rest)
  pub ring : UsedRing q taken []

can_pop_idle : (q : VirtQueue) (c : ℕ) → UsedRing q c [] → can_pop q ≡ false
unfolding can_pop
can_pop_idle q c v = ground (arith, v.taken, v.put)

can_pop_put :
    (q : VirtQueue) (c : ℕ) (e : UsedElem) → UsedRing q c [] → can_pop (device_puts q e) ≡ true
unfolding can_pop device_puts
can_pop_put q c e v = ground (arith, v.taken, v.put)

module _ {D : Type 0} (work : Work D) where
  pub wait_lem :
      (cmd : GpuCommand) (q : VirtQueue) (c : ℕ) (answer : GpuDisplayInfo × D)
      → UsedRing q c []
      → (n : ℕ) (resp : GpuDisplayInfo) (d : D) → Serves work q.num q.mem cmd answer n resp d
      → (e : UsedElem) × (wait work n cmd q resp d ≡ done (device_puts q e, answer.0, answer.1))
  unfolding wait device_puts
  wait_lem cmd q c answer v _ _ _ (puts n resp d e p) = (
    e,
    ap (look (wait work n cmd) q) p
        ∙ ap (λ b. choose b (wait work n cmd) (device_puts q e) answer.0 answer.1)
            (can_pop_put q c e v),
  )
  wait_lem cmd q c answer v _ _ _ (idles n resp resp' d d' p s) =
      let (e, w) = wait_lem cmd q c answer v n resp' d' s in
      (
        e,
        ap (look (wait work n cmd) q) p
            ∙ ap (λ b. choose b (wait work n cmd) q resp' d') (can_pop_idle q c v)
            ∙ w,
      )

-- The queue without two descriptors, when the chain is with the device, and when they are free again.
abbrev pub given : ℕ → GpuCommand → Expected → ℕ → ℕ → VirtQueue → VirtQueue
given pa cmd ex head resp q =
    offered (changed (changed q head (cmd_desc pa cmd resp)) resp (resp_desc pa ex)) head

abbrev pub released : ℕ → ℕ → VirtQueue → VirtQueue
released head resp q = pushed (pushed (advanced q) head) resp

submit-offered : (q : VirtQueue) (head : ℕ) → 0 < q.num → submit q head ≡ done (offered q head)
unfolding submit
submit-offered q head h = ground arith

module _ (pa : ℕ) (cmd : GpuCommand) (ex : Expected) (head resp : ℕ) (q : VirtQueue) where
  pub offer-given :
      0 < q.num
      → head < length q.mem.descs
      → resp < length q.mem.descs
      → offer pa cmd ex head resp q ≡ done (given pa cmd ex head resp q)
  unfolding offer
  offer-given p h r =
      rw
        (
          write_desc-changed q head (cmd_desc pa cmd resp) h,
          write_desc-changed (changed q head (cmd_desc pa cmd resp)) resp (resp_desc pa ex)
              (omega (arith, length-set q.mem.descs head (cmd_desc pa cmd resp))),
        )
        (submit-offered (changed (changed q head (cmd_desc pa cmd resp)) resp (resp_desc pa ex))
          head p)

  pub given-FreeList :
      (fs : List ℕ)
      → FreeList q fs
      → NotIn head fs
      → NotIn resp fs
      → FreeList (given pa cmd ex head resp q) fs
  given-FreeList fs v nh nr =
      let w =
        changed-FreeList (changed q head (cmd_desc pa cmd resp)) resp (resp_desc pa ex) fs
          (changed-FreeList q head (cmd_desc pa cmd resp) fs v nh) nr in
      record {
        sized = w.sized;
        fits = w.fits;
        linked = w.linked;
        counted = w.counted;
        distinct = w.distinct;
      }

  pub given_size : length (given pa cmd ex head resp q).mem.descs ≡ length q.mem.descs
  given_size = omega (
    arith,
    length-set q.mem.descs head (cmd_desc pa cmd resp),
    length-set (set q.mem.descs head (cmd_desc pa cmd resp)) resp (resp_desc pa ex),
  )

  pub given-UsedRing : (c : ℕ) → UsedRing q c [] → UsedRing (given pa cmd ex head resp q) c []
  given-UsedRing c v = record {
    positive = v.positive;
    divides = v.divides;
    taken = v.taken;
    put = v.put;
    room = v.room;
    fits = v.fits;
    slots = v.slots;
    stored = v.stored;
  }

pub popped-UsedRing : (q : VirtQueue) (c : ℕ) → UsedRing q c [] → UsedRing (popped q) c []
popped-UsedRing q c v = record {
  positive = v.positive;
  divides = v.divides;
  taken = v.taken;
  put = v.put;
  room = v.room;
  fits = v.fits;
  slots = v.slots;
  stored = v.stored;
}

-- From the chain's entry in the used ring on.
module _ (head resp : ℕ) (q : VirtQueue) (c : ℕ) (e : UsedElem) (v : UsedRing q c (e ∷ [])) where
  pub take_back-released :
      head < length q.mem.descs
      → resp < length q.mem.descs
      → take_back head resp q ≡ done (released head resp q)
  unfolding take_back
  take_back-released h r =
      rw (pop-advanced q c e [] v, free_desc-pushed (advanced q) head h)
        (free_desc-pushed (pushed (advanced q) head) resp
          (omega (arith, length-set q.mem.descs head (freed_desc (advanced q) head))))

  pub released-IsReady :
      (fs : List ℕ)
      → FreeList q fs
      → head < length q.mem.descs
      → resp < length q.mem.descs
      → NotIn head fs
      → NotIn resp (head ∷ fs)
      → IsReady (released head resp q)
  released-IsReady fs f h r nh nr =
      let w = advanced-UsedRing q c e [] v in
      record {
        head = resp;
        resp = head;
        rest = fs;
        taken = c + 1;
        free =
            pushed-FreeList (pushed (advanced q) head) resp (head ∷ fs)
              (pushed-FreeList (advanced q) head fs
                (record {
                  sized = f.sized;
                  fits = f.fits;
                  linked = f.linked;
                  counted = f.counted;
                  distinct = f.distinct;
                })
                h nh)
              (omega (arith, length-set q.mem.descs head (freed_desc (advanced q) head))) nr;
        ring = record {
          positive = w.positive;
          divides = w.divides;
          taken = w.taken;
          put = w.put;
          room = w.room;
          fits = w.fits;
          slots = w.slots;
          stored = w.stored;
        };
      }
