-- ===== src/VirtioNet/Examples.antt =====
-- The theorems on the network driver at concrete inputs.
use simpleos.Common.{
  ℕ, zero, suc, ◌+◌, ◌-◌, ◌≤◌, ◌<◌, ◌≡◌, ◌≢◌, Bool, ltb, ◌&&◌, inl, arith, refl, true, [], ◌∷◌,
  List, some, none, get_or,
}
use simpleos.Net.{htons, ntohs, htonl, ntohl}
use simpleos.Pci.{pci_enumerate}
use simpleos.Pci.Samples.{sample_pci, plain_register, network_device}
use simpleos.Virtio.FreeList.{IsQueue, nil, link}
use simpleos.Virtio.Samples.{used_queue}
use simpleos.VirtioNet.{virtio_net_init, virtio_net_send, virtio_net_recv}
use simpleos.VirtioNet.Frames.{load16, load32, net_process_packet, no_fuel, net_poll}
use simpleos.VirtioNet.Setup.{Initialised, virtio_net_init-Initialised}
use simpleos.VirtioNet.Sending.{Sent, sends, virtio_net_send-Sent, sends-bounded}
use simpleos.VirtioNet.Receiving.{Received, virtio_net_recv-Received}
use simpleos.VirtioNet.Replies.{ArpReply, arp_answer, net_process_packet-arp, ihl, payload_len}
use simpleos.VirtioNet.Pings.{
  PingReply, ping_answer, net_process_packet-ping, net_process_packet-overrun,
}
use simpleos.VirtioNet.Polling.{net_poll-ends}
use simpleos.VirtioNet.Samples.{
  idle_driver, ready_driver, device_answers, arp_request, ping, ping_bytes, long_ping,
}

ready_queue : IsQueue used_queue (2 ∷ 3 ∷ []) (1 ∷ 0 ∷ [])
ready_queue = record {
  linked = link 2 (3 ∷ []) (link 3 [] (nil 4));
  free_count = refl;
  all_count = refl;
  once = λ x. ground arith;
  small = omega arith;
}

virtio_net_init-Initialised_example :
    Initialised device_answers plain_register network_device
      (pci_enumerate sample_pci).1
      idle_driver
      (virtio_net_init device_answers plain_register network_device
        (pci_enumerate sample_pci).1
        idle_driver)
virtio_net_init-Initialised_example =
    virtio_net_init-Initialised device_answers plain_register network_device
      (pci_enumerate sample_pci).1 idle_driver

virtio_net_send-Sent_example :
    Sent arp_request 42 ready_driver
      (2 ∷ 3 ∷ [])
      (1 ∷ 0 ∷ [])
      (virtio_net_send arp_request 42 ready_driver)
virtio_net_send-Sent_example =
    virtio_net_send-Sent arp_request 42 ready_driver (2 ∷ 3 ∷ []) (1 ∷ 0 ∷ []) ready_queue

sends-bounded_example :
    sends ((arp_request, 42) ∷ (ping, 44) ∷ (ping, 44) ∷ []) ready_driver ≤ 2 - 1
sends-bounded_example =
    sends-bounded ((arp_request, 42) ∷ (ping, 44) ∷ (ping, 44) ∷ []) ready_driver

virtio_net_recv-Received_example :
    Received
      (λ i. 0)
      1514
      ready_driver
      (2 ∷ 3 ∷ [])
      (1 ∷ 0 ∷ [])
      (virtio_net_recv (λ i. 0) 1514 ready_driver)
virtio_net_recv-Received_example =
    virtio_net_recv-Received (λ i. 0) 1514 ready_driver (2 ∷ 3 ∷ []) (1 ∷ 0 ∷ []) ready_queue
      (λ apart. omega arith)

net_process_packet-arp_example :
    (net_process_packet arp_request 42 ready_driver
      ≡ some (virtio_net_send (arp_answer arp_request ready_driver) 42 ready_driver).1)
    × ArpReply
        (arp_answer arp_request ready_driver)
        ready_driver.mac
        ready_driver.our_ip
        (λ i. arp_request (22 + i))
        (ntohl (load32 arp_request 28))
    × (net_process_packet (arp_answer arp_request ready_driver) 42 idle_driver ≡ some idle_driver)
unfolding ntohl htonl ntohs htons
net_process_packet-arp_example =
    net_process_packet-arp arp_request 42 ready_driver idle_driver refl (omega arith)

all_bytes : List ℕ → Bool
all_bytes [] = true
all_bytes (b ∷ bs) = ltb b 256 && all_bytes bs

get_or-bytes : (bs : List ℕ) (i : ℕ) → all_bytes bs ≡ true → get_or bs i 0 < 256
unfolding all_bytes
get_or-bytes [] i small = omega arith
get_or-bytes (b ∷ bs) zero small = ground (arith, small)
get_or-bytes (b ∷ bs) (suc i) small = get_or-bytes bs i (ground (arith, small))

ping_byte : (i : ℕ) → ping i < 256
unfolding all_bytes
ping_byte i = get_or-bytes (ping_bytes 0 30) i refl

net_process_packet-ping_example :
    (net_process_packet ping 44 ready_driver
      ≡ some
          (virtio_net_send (ping_answer ping ready_driver) (42 + payload_len ping) ready_driver).1)
    × PingReply
        (ping_answer ping ready_driver)
        ready_driver.mac
        ready_driver.our_ip
        (λ i. ping (6 + i))
        (ntohl (load32 ping 26))
        (load16 ping (18 + ihl ping))
        (load16 ping (20 + ihl ping))
        (λ i. ping (22 + ihl ping + i))
        (payload_len ping)
unfolding ntohl htonl ntohs htons
net_process_packet-ping_example =
    net_process_packet-ping ping 44 ready_driver refl ping_byte (omega arith) (omega arith)

net_process_packet-overrun_example : net_process_packet long_ping 44 ready_driver ≡ none
unfolding ntohl htonl ntohs htons
net_process_packet-overrun_example =
    net_process_packet-overrun long_ping 44 ready_driver refl (inl (omega arith))

net_poll-ends_example : net_poll 2 (λ i. 0) ready_driver ≢ no_fuel
net_poll-ends_example =
    net_poll-ends 2 (λ i. 0) ready_driver (omega arith) (omega arith) (omega arith)
