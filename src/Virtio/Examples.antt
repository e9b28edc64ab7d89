-- ===== src/Virtio/Examples.antt =====
-- The theorems on virtqueues at concrete inputs.
use simpleos.Common.{◌+◌, ◌%◌, ◌^◌, ◌≡◌, arith, refl, [], ◌∷◌}
use simpleos.Virtio.{slot, virtq_init, virtq_add_buffer, virtq_get_used}
use simpleos.Virtio.Layout.{slot-ring}
use simpleos.Virtio.FreeList.{IsQueue, nil, link, counting, virtq_init-IsQueue}
use simpleos.Virtio.Handing.{Added, Got, virtq_add_buffer-Added, virtq_get_used-Got}
use simpleos.Virtio.Samples.{blank_queue, used_queue}

used_queue-IsQueue : IsQueue used_queue (2 ∷ 3 ∷ []) (1 ∷ 0 ∷ [])
used_queue-IsQueue = record {
  linked = link 2 (3 ∷ []) (link 3 [] (nil 4));
  free_count = refl;
  all_count = refl;
  once = λ x. ground arith;
  small = omega arith;
}

slot-ring_example :
    (slot (2 ^ 8) 65535 ≡ 65535 % 2 ^ 8)
    × (slot (2 ^ 8) ((65535 + 1) % 2 ^ 16) ≡ (slot (2 ^ 8) 65535 + 1) % 2 ^ 8)
slot-ring_example = slot-ring 8 65535 (omega arith)

virtq_init-IsQueue_example : IsQueue (virtq_init 4 0x4000 blank_queue) (counting 0 4) []
virtq_init-IsQueue_example = virtq_init-IsQueue 4 0x4000 blank_queue (omega arith) (omega arith)

virtq_add_buffer-Added_example :
    Added 0x9000 1526 0 used_queue
      (1 ∷ 0 ∷ [])
      (2 ∷ 3 ∷ [])
      (virtq_add_buffer 0x9000 1526 0 used_queue)
virtq_add_buffer-Added_example =
    virtq_add_buffer-Added 0x9000 1526 0 used_queue (2 ∷ 3 ∷ []) (1 ∷ 0 ∷ []) used_queue-IsQueue

virtq_get_used-Got_example : Got used_queue (2 ∷ 3 ∷ []) (1 ∷ 0 ∷ []) (virtq_get_used used_queue)
virtq_get_used-Got_example =
    virtq_get_used-Got used_queue (2 ∷ 3 ∷ []) (1 ∷ 0 ∷ []) used_queue-IsQueue
      (λ apart. omega arith)
