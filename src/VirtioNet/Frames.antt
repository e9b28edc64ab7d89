-- ===== src/VirtioNet/Frames.antt =====
-- The frames that kernel/virtio_net.h answers, and the handling of a received one. A field of two or
-- four bytes is stored with its low byte first, as the processor does.
use simpleos.Common.{
  ℕ, zero, suc, ◌+◌, ◌-◌, ◌*◌, ◌/◌, ◌%◌, ◌^◌, not, ltb, ◌==◌, if◌then◌else◌, ◌&&◌, List, [], ◌∷◌,
  ◌++◌, get_or, Option, none, some, pos, negsuc,
}
use simpleos.Net.{htons, ntohs, htonl, ntohl, ip_checksum}
use simpleos.VirtioNet.{VirtioNet, eth_hlen, eth_frame_len, virtio_net_send, virtio_net_recv}

abbrev pub store16 : ℕ → List ℕ
store16 v = v % 256 ∷ v / 256 % 256 ∷ []

abbrev pub store32 : ℕ → List ℕ
store32 v = v % 256 ∷ v / 2 ^ 8 % 256 ∷ v / 2 ^ 16 % 256 ∷ v / 2 ^ 24 % 256 ∷ []

abbrev pub load16 : (ℕ → ℕ) → ℕ → ℕ
load16 p at = p at + 256 * p (at + 1)

abbrev pub load32 : (ℕ → ℕ) → ℕ → ℕ
load32 p at = p at + 2 ^ 8 * p (at + 1) + 2 ^ 16 * p (at + 2) + 2 ^ 24 * p (at + 3)

-- `left` bytes from `at` on.
abbrev pub bytes_of : (ℕ → ℕ) → ℕ → ℕ → List ℕ
bytes_of p at zero = []
bytes_of p at (suc left) = p at ∷ bytes_of p (at + 1) left

-- The Ethernet header, the addresses as functions of the byte.
abbrev pub eth_header : (ℕ → ℕ) → (ℕ → ℕ) → ℕ → List ℕ
eth_header dest src type = bytes_of dest 0 6 ++ (bytes_of src 0 6 ++ store16 (htons type))

-- The packet of `net_send_arp_reply`.
unfoldable pub arp_reply : ℕ → (ℕ → ℕ) → VirtioNet → List ℕ
arp_reply target_ip target_mac dev =
    eth_header target_mac dev.mac 0x0806
    ++ (store16 (htons 1)
        ++ (store16 (htons 0x0800)
            ++ (6
                ∷ 4
                ∷ (store16 (htons 2)
                    ++ (bytes_of dev.mac 0 6
                        ++ (store32 (htonl dev.our_ip)
                            ++ (bytes_of target_mac 0 6 ++ store32 (htonl target_ip))))))))

unfoldable pub net_send_arp_reply : ℕ → (ℕ → ℕ) → VirtioNet → VirtioNet
net_send_arp_reply target_ip target_mac dev =
    let packet = arp_reply target_ip target_mac dev in
    (virtio_net_send (λ i. get_or packet i 0) 42 dev).1

-- The IP header with a checksum: first with 0, over which the checksum is computed.
unfoldable pub ip_header : ℕ → ℕ → ℕ → ℕ → List ℕ
ip_header total_len src_ip dest_ip checksum =
    0x45
    ∷ 0
    ∷ (store16 (htons total_len)
        ++ (0
            ∷ 0
            ∷ 0
            ∷ 0
            ∷ 64
            ∷ 1
            ∷ (store16 checksum ++ (store32 (htonl src_ip) ++ store32 (htonl dest_ip)))))

unfoldable pub sealed_ip_header : ℕ → ℕ → ℕ → List ℕ
sealed_ip_header total_len src_ip dest_ip =
    ip_header total_len src_ip dest_ip (ip_checksum (ip_header total_len src_ip dest_ip 0))

-- The ICMP echo reply with its payload, in the same way.
unfoldable pub icmp_reply : ℕ → ℕ → List ℕ → ℕ → List ℕ
icmp_reply id seq payload checksum =
    0 ∷ 0 ∷ (store16 checksum ++ (store16 id ++ (store16 seq ++ payload)))

unfoldable pub sealed_icmp_reply : ℕ → ℕ → List ℕ → List ℕ
sealed_icmp_reply id seq payload =
    icmp_reply id seq payload (ip_checksum (icmp_reply id seq payload 0))

-- The packet of `net_send_ping_reply`; the length is one of 16 bits.
abbrev pub ping_total_len : ℕ → ℕ
ping_total_len data_len = (20 + 8 + data_len) % 2 ^ 16

unfoldable pub ping_reply : ℕ → (ℕ → ℕ) → ℕ → ℕ → List ℕ → ℕ → VirtioNet → List ℕ
ping_reply dest_ip dest_mac id seq payload data_len dev =
    eth_header dest_mac dev.mac 0x0800
    ++ (sealed_ip_header (ping_total_len data_len) dev.our_ip dest_ip
        ++ sealed_icmp_reply id seq payload)

-- `none`: the payload is written past the end of the local array `packet`.
unfoldable pub net_send_ping_reply :
    ℕ → (ℕ → ℕ) → ℕ → ℕ → (ℕ → ℕ) → ℕ → VirtioNet → Option VirtioNet
net_send_ping_reply dest_ip dest_mac id seq src data_len dev =
    if ltb eth_frame_len (eth_hlen + 20 + 8 + data_len)
    then none
    else (let packet = ping_reply dest_ip dest_mac id seq (bytes_of src 0 data_len) data_len dev in
        some (virtio_net_send (λ i. get_or packet i 0) (eth_hlen + ping_total_len data_len) dev).1)

-- The two branches of `net_process_packet`.
unfoldable pub process_arp : (ℕ → ℕ) → ℕ → VirtioNet → VirtioNet
process_arp packet len dev =
    if ltb len (eth_hlen + 28)
    then dev
    else if ntohs (load16 packet (eth_hlen + 6)) == 1
    then (if ntohl (load32 packet (eth_hlen + 24)) == dev.our_ip
        then net_send_arp_reply (ntohl (load32 packet (eth_hlen + 14)))
            (λ i. packet (eth_hlen + 8 + i)) dev
        else dev)
    else dev

-- An ICMP message at `at`; the two subtractions are on 32-bit words.
unfoldable pub process_icmp : (ℕ → ℕ) → ℕ → VirtioNet → Option VirtioNet
process_icmp packet ip_hdr_len dev =
    let icmp = eth_hlen + ip_hdr_len in
    let icmp_len = (ntohs (load16 packet (eth_hlen + 2)) + 2 ^ 32 - ip_hdr_len) % 2 ^ 32 in
    let data_len = if ltb 8 icmp_len then icmp_len - 8 else 0 in
    if packet icmp == 8
    then net_send_ping_reply (ntohl (load32 packet (eth_hlen + 12))) (λ i. packet (6 + i))
        (load16 packet (icmp + 4)) (load16 packet (icmp + 6)) (λ i. packet (icmp + 8 + i)) data_len
        dev
    else some dev

unfoldable pub process_ip : (ℕ → ℕ) → ℕ → VirtioNet → Option VirtioNet
process_ip packet len dev =
    let dest_ip = ntohl (load32 packet (eth_hlen + 16)) in
    if ltb len (eth_hlen + 20)
    then some dev
    else if not (packet eth_hlen / 2 ^ 4 == 4)
    then some dev
    else if not (dest_ip == dev.our_ip) && not (dest_ip == 0xFFFFFFFF)
    then some dev
    else if packet (eth_hlen + 9) == 1
    then process_icmp packet (packet eth_hlen % 16 * 4) dev
    else some dev

unfoldable pub net_process_packet : (ℕ → ℕ) → ℕ → VirtioNet → Option VirtioNet
net_process_packet packet len dev =
    let eth_type = ntohs (load16 packet 12) in
    if ltb len eth_hlen
    then some dev
    else if eth_type == 0x0806
    then some (process_arp packet len dev)
    else if eth_type == 0x0800
    then process_ip packet len dev
    else some dev

-- How `net_poll` ends: the loop is left, an array was overrun, by an answer or by the number of a used
-- buffer, or the fuel was used up.
pub data Polled : Type 0 where
  done : VirtioNet → Polled
  overrun : Polled
  no_fuel : Polled

-- The loop of `net_poll`, with the local buffer.
unfoldable pub net_poll : ℕ → (ℕ → ℕ) → VirtioNet → Polled
net_poll zero buffer dev = no_fuel
net_poll (suc fuel) buffer dev = elim (virtio_net_recv buffer eth_frame_len dev) [
  | none ↦ overrun
  | some (code, (buffer1, dev1)) ↦ elim code [
    | negsuc _ ↦ done dev1
    | pos n ↦ elim n [
      | zero ↦ done dev1
      | suc m ↦ elim (net_process_packet buffer1 (suc m) dev1) [
        | none ↦ overrun
        | some dev2 ↦ net_poll fuel buffer1 dev2
      ]
    ]
  ]
]
