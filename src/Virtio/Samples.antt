-- ===== src/Virtio/Samples.antt =====
-- A queue of four descriptors for the tests, as `virtq_init` leaves it, with one buffer that the
-- device has used.
use simpleos.Common.{◌+◌}
use simpleos.Virtio.{Virtqueue, virtq_init}

abbrev pub blank_queue : Virtqueue
blank_queue = record {
  size = 0;
  desc_at = 0;
  avail_at = 0;
  used_at = 0;
  desc = λ i. record { addr = 0; len = 0; flags = 0; next = 0 };
  avail_flags = 0;
  avail_idx = 0;
  avail_ring = λ i. 0;
  used_flags = 0;
  used_idx = 0;
  used_ring = λ i. record { id = 0; len = 0 };
  free_head = 0;
  num_free = 0;
  last_used_idx = 0;
}

abbrev pub small_queue : Virtqueue
small_queue = virtq_init 4 0x4000 blank_queue

-- Descriptors 2 and 3 are free, and the device reports that it has used descriptor 1.
abbrev pub used_queue : Virtqueue
used_queue = record blank_queue {
  size = 4;
  desc = λ i. record { addr = 0x9000; len = 2048; flags = 2; next = i + 1 };
  free_head = 2;
  num_free = 2;
  avail_idx = 2;
  used_idx = 1;
  used_ring = λ i. record { id = 1; len = 72 };
}
