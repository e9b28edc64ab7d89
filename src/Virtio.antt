-- ===== src/Virtio.antt =====
-- The virtqueues of kernel/virtio.h and kernel/virtio_net.h: a table of descriptors, of which the free
-- ones form a list, and the rings in which driver and device hand them over.
pub mod Layout
pub mod FreeList
pub mod Handing
pub mod Samples
mod Examples
use simpleos.Common.{
  ℕ, zero, suc, ◌+◌, ◌-◌, ◌*◌, ◌/◌, ◌%◌, ◌^◌, ◌==◌, if◌then◌else◌, Option, none, some,
}
use Prim.Native.Nat.{bit_and}
use simpleos.Common.Bytes.{update}

-- `virtq_desc_t`.
pub record VirtqDesc : Type 0 where
  pub addr : ℕ
  pub len : ℕ
  pub flags : ℕ
  pub next : ℕ

-- `virtq_used_elem_t`.
pub record UsedElem : Type 0 where
  pub id : ℕ
  pub len : ℕ

-- `virtqueue_t`, with the memory behind its three pointers.
pub record Virtqueue : Type 0 where
  pub size : ℕ
  pub desc_at : ℕ
  pub avail_at : ℕ
  pub used_at : ℕ
  pub desc : ℕ → VirtqDesc
  pub avail_flags : ℕ
  pub avail_idx : ℕ
  pub avail_ring : ℕ → ℕ
  pub used_flags : ℕ
  pub used_idx : ℕ
  pub used_ring : ℕ → UsedElem
  pub free_head : ℕ
  pub num_free : ℕ
  pub last_used_idx : ℕ

-- `(bytes + PAGE_SIZE - 1) & ~(PAGE_SIZE - 1)`, on 32-bit numbers that do not come near 2 ^ 32.
abbrev pub whole_pages : ℕ → ℕ
whole_pages bytes = (bytes + 4096 - 1) / 4096 * 4096

unfoldable pub virtq_size : ℕ → ℕ
virtq_size qsz = whole_pages (16 * qsz + 2 * (3 + qsz)) + whole_pages (2 * 3 + 8 * qsz)

unfoldable pub used_offset : ℕ → ℕ
used_offset size = whole_pages (16 * size + 2 * (3 + size))

-- The loop that links descriptor `i` to the next one, from `i` on.
unfoldable pub link_free : ℕ → ℕ → (ℕ → VirtqDesc) → ℕ → VirtqDesc
link_free zero i desc = desc
link_free (suc rounds) i desc =
    link_free rounds (i + 1) (update desc i (record (desc i) { next = (i + 1) % 2 ^ 16 }))

unfoldable pub virtq_init : ℕ → ℕ → Virtqueue → Virtqueue
virtq_init size' mem vq = record vq {
  size = size';
  desc_at = mem;
  avail_at = mem + 16 * size';
  used_at = mem + used_offset size';
  desc = link_free (size' - 1) 0 vq.desc;
  free_head = 0;
  num_free = size';
  last_used_idx = 0;
  avail_flags = 0;
  avail_idx = 0;
  used_flags = 0;
  used_idx = 0;
}

-- `i & (size - 1)`, where `size - 1` is the number -1 for a queue that was never set up.
abbrev pub slot : ℕ → ℕ → ℕ
slot size i = if size == 0 then i else bit_and i (size - 1)

-- `none` is the return of -1.
unfoldable pub virtq_add_buffer : ℕ → ℕ → ℕ → Virtqueue → Option ℕ × Virtqueue
virtq_add_buffer buf len' flags' vq = if vq.num_free == 0 then (none, vq) else (
  some vq.free_head,
  record vq {
    free_head = (vq.desc vq.free_head).next;
    num_free = vq.num_free - 1;
    desc =
        update vq.desc vq.free_head (record { addr = buf; len = len'; flags = flags'; next = 0 });
    avail_ring = update vq.avail_ring (slot vq.size vq.avail_idx) vq.free_head;
    avail_idx = (vq.avail_idx + 1) % 2 ^ 16;
  },
)

-- The descriptor and the length that the device reported; `none` is the return of -1.
unfoldable pub virtq_get_used : Virtqueue → Option (ℕ × ℕ) × Virtqueue
virtq_get_used vq =
    if vq.last_used_idx == vq.used_idx
    then (none, vq)
    else (let e = vq.used_ring (slot vq.size vq.last_used_idx) in
        (
          some (e.id, e.len),
          record vq {
            last_used_idx = (vq.last_used_idx + 1) % 2 ^ 16;
            desc = update vq.desc e.id (record (vq.desc e.id) { next = vq.free_head });
            free_head = e.id % 2 ^ 16;
            num_free = (vq.num_free + 1) % 2 ^ 16;
          },
        ))
