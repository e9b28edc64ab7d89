-- ===== src/Net.antt =====
-- The helpers of kernel/net.h: byte order, the texts of addresses, and the checksum of IP. A text is
-- the list of its bytes before the NUL.
pub mod Order
pub mod Text
pub mod Checksum
mod Examples
use simpleos.Common.{
  ℕ, zero, suc, ◌+◌, ◌-◌, ◌*◌, ◌/◌, ◌%◌, ◌^◌, leb, ltb, ◌==◌, if◌then◌else◌, List, [], ◌∷◌, ◌++◌,
  get_or,
}

-- The fields that `|` joins have no bit in common, so that it is their sum.
unfoldable pub htons : ℕ → ℕ
htons val = (val % 256) * 2 ^ 8 + (val / 2 ^ 8) % 256

unfoldable pub ntohs : ℕ → ℕ
ntohs val = htons val

-- `val & 0xFF00` is the second byte at its place.
unfoldable pub htonl : ℕ → ℕ
htonl val =
    (val % 256) * 2 ^ 24
    + ((val / 2 ^ 8) % 256 * 2 ^ 8) * 2 ^ 8
    + ((val / 2 ^ 8) / 2 ^ 8 % 256) * 2 ^ 8
    + (val / 2 ^ 24) % 256

unfoldable pub ntohl : ℕ → ℕ
ntohl val = htonl val

-- The macro `MAKE_IP`, of four octets.
unfoldable pub make_ip : ℕ → ℕ → ℕ → ℕ → ℕ
make_ip a b c d = a * 2 ^ 24 + b * 2 ^ 16 + c * 2 ^ 8 + d

abbrev pub hex : List ℕ
hex =
    b'0' ∷ b'1' ∷ b'2' ∷ b'3' ∷ b'4' ∷ b'5' ∷ b'6' ∷ b'7' ∷ b'8' ∷ b'9' ∷ b'A' ∷ b'B' ∷ b'C' ∷ b'D'
    ∷ b'E' ∷ b'F' ∷ []

-- The loop of `mac_to_string` from byte `i` on, with `rounds` bytes left.
unfoldable pub mac_loop : ℕ → ℕ → (ℕ → ℕ) → List ℕ
mac_loop zero i mac = []
mac_loop (suc rounds) i mac =
    get_or hex ((mac i / 2 ^ 4) % 16) 0
    ∷ get_or hex (mac i % 16) 0
    ∷ ((if ltb i 5 then b':' ∷ [] else []) ++ mac_loop rounds (i + 1) mac)

unfoldable pub mac_to_string : (ℕ → ℕ) → List ℕ
mac_to_string mac = mac_loop 6 0 mac

-- One octet: the digits that are written, each of the first two with what it leaves of the octet.
unfoldable pub octet_text : ℕ → List ℕ
octet_text octet =
    let hundreds = if leb 100 octet then (b'0' + octet / 100) ∷ [] else [] in
    let octet1 = if leb 100 octet then octet % 100 else octet in
    let tens = if leb 10 octet1 then (b'0' + octet1 / 10) ∷ [] else [] in
    let octet2 = if leb 10 octet1 then octet1 % 10 else octet1 in
    hundreds ++ (tens ++ ((b'0' + octet2) ∷ []))

unfoldable pub ip_loop : ℕ → ℕ → ℕ → List ℕ
ip_loop zero i ip = []
ip_loop (suc rounds) i ip =
    octet_text ((ip / 2 ^ (24 - i * 8)) % 256)
    ++ ((if ltb i 3 then b'.' ∷ [] else []) ++ ip_loop rounds (i + 1) ip)

unfoldable pub ip_to_string : ℕ → List ℕ
ip_to_string ip = ip_loop 4 0 ip

-- The sum of the 16-bit words of a list of bytes, the low byte first, in a 32-bit counter; a last
-- single byte counts as a word.
unfoldable pub sum_words : List ℕ → ℕ → ℕ
sum_words [] sum = sum
sum_words (b ∷ []) sum = (sum + b) % 2 ^ 32
sum_words (low ∷ high ∷ rest) sum = sum_words rest ((sum + (low + 256 * high)) % 2 ^ 32)

-- `while (sum >> 16) sum = (sum & 0xFFFF) + (sum >> 16);`, with fuel.
unfoldable pub fold_carries : ℕ → ℕ → ℕ
fold_carries zero sum = sum
fold_carries (suc fuel) sum =
    let rest = fold_carries fuel (sum % 2 ^ 16 + sum / 2 ^ 16) in
    if sum / 2 ^ 16 == 0 then sum else rest

-- The sum of a 32-bit counter has no carry left after three rounds; `~` on 16 bits.
unfoldable pub ip_checksum : List ℕ → ℕ
ip_checksum packet = 2 ^ 16 - 1 - fold_carries 3 (sum_words packet 0)
