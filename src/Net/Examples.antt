-- ===== src/Net/Examples.antt =====
-- Examples for kernel/net.h.
use simpleos.Common.{ℕ, ◌+◌, ◌*◌, ◌/◌, ◌%◌, ◌^◌, ◌<◌, ◌≡◌, arith, List, [], ◌∷◌, ◌++◌, length}
use simpleos.Net.{htons, ntohs, htonl, ntohl, mac_to_string, octet_text, ip_to_string, ip_checksum}
use simpleos.Net.Order.{byte, ntohs-htons, ntohl-htonl}
use simpleos.Net.Text.{byte_at, mac_to_string_lem, octet_text-decimal, ip_to_string-ambiguous}
use simpleos.Net.Checksum.{AreWords, nil, cons, total, ip_checksum_lem, ip_checksum-carried}

ntohs-htons_example :
    (byte 0 (htons 0x0806) ≡ 8) × (byte 1 (htons 0x0806) ≡ 6) × (ntohs (htons 0x0806) ≡ 0x0806)
ntohs-htons_example = ntohs-htons 0x0806 (omega arith)

ntohl-htonl_example :
    (byte 0 (htonl 0x0A00020F) ≡ 10)
    × (byte 1 (htonl 0x0A00020F) ≡ 0)
    × (byte 2 (htonl 0x0A00020F) ≡ 2)
    × (byte 3 (htonl 0x0A00020F) ≡ 15)
    × (ntohl (htonl 0x0A00020F) ≡ 0x0A00020F)
ntohl-htonl_example = ntohl-htonl 0x0A00020F (omega arith)

abbrev mac : ℕ → ℕ
mac i = 0x50 + i

mac_to_string_lem_example :
    (length (mac_to_string mac) ≡ 17)
    × (byte_at (mac_to_string mac) 0 ≡ 0x50)
    × (byte_at (mac_to_string mac) 3 ≡ 0x51)
    × (byte_at (mac_to_string mac) 6 ≡ 0x52)
    × (byte_at (mac_to_string mac) 9 ≡ 0x53)
    × (byte_at (mac_to_string mac) 12 ≡ 0x54)
    × (byte_at (mac_to_string mac) 15 ≡ 0x55)
mac_to_string_lem_example = mac_to_string_lem mac (λ i h. omega (arith, h))

octet_text-decimal_example : octet_text 105 ≡ b'1' ∷ b'5' ∷ []
octet_text-decimal_example = octet_text-decimal 105 (omega arith)

-- 10.0.2.105 and 10.0.2.15.
ip_to_string-ambiguous_example :
    ip_to_string (0x0A0002 * 256 + 105) ≡ ip_to_string (0x0A0002 * 256 + 15)
ip_to_string-ambiguous_example =
    ip_to_string-ambiguous 0x0A0002 1 5 (omega arith) (omega arith) (omega arith)

abbrev packet : List ℕ
packet = 0x45 ∷ 0x00 ∷ 0xFF ∷ 0xFF ∷ []

packet-AreWords : AreWords packet
packet-AreWords =
    cons 0x45 0x00 (0xFF ∷ 0xFF ∷ []) (omega arith) (omega arith)
      (cons 0xFF 0xFF [] (omega arith) (omega arith) nil)

ip_checksum_lem_example :
    (ip_checksum packet < 2 ^ 16) × ((total packet + ip_checksum packet) % 65535 ≡ 0)
ip_checksum_lem_example = ip_checksum_lem packet packet-AreWords (omega arith)

ip_checksum-carried_example :
    ip_checksum (packet ++ (ip_checksum packet % 256 ∷ ip_checksum packet / 256 ∷ [])) ≡ 0
ip_checksum-carried_example = ip_checksum-carried packet packet-AreWords (omega arith)
