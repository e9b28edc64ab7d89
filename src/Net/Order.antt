-- ===== src/Net/Order.antt =====
-- Byte order in kernel/net.h.
use simpleos.Common.{ℕ, ◌*◌, ◌/◌, ◌%◌, ◌^◌, ◌<◌, ◌≡◌, arith}
use simpleos.Net.{htons, ntohs, htonl, ntohl}

-- Byte `i` of a number, the lowest one being byte 0.
abbrev pub byte : ℕ → ℕ → ℕ
byte i val = (val / 2 ^ (8 * i)) % 2 ^ 8

-- For a 16-bit number `htons` exchanges the two bytes, and `ntohs` undoes it.
pub ntohs-htons :
    (val : ℕ)
    → val < 2 ^ 16
    → (byte 0 (htons val) ≡ byte 1 val)
      × (byte 1 (htons val) ≡ byte 0 val)
      × (ntohs (htons val) ≡ val)
unfolding htons ntohs
ntohs-htons val h = (omega arith, omega arith, omega arith)

-- For a 32-bit number `htonl` reverses the four bytes, and `ntohl` undoes it.
pub ntohl-htonl :
    (val : ℕ)
    → val < 2 ^ 32
    → (byte 0 (htonl val) ≡ byte 3 val)
      × (byte 1 (htonl val) ≡ byte 2 val)
      × (byte 2 (htonl val) ≡ byte 1 val)
      × (byte 3 (htonl val) ≡ byte 0 val)
      × (ntohl (htonl val) ≡ val)
unfolding htonl ntohl
ntohl-htonl val h = (omega arith, omega arith, omega arith, omega arith, omega arith)
