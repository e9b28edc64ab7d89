-- ===== src/Net/Text.antt =====
-- The texts of addresses in kernel/net.h.
use simpleos.Common.{
  ℕ, ◌+◌, ◌-◌, ◌*◌, ◌/◌, ◌%◌, ◌^◌, ◌≤◌, ◌<◌, ◌≡◌, refl, arith, true, ◌&&◌, leb, ltb, ◌==◌, ==_iff,
  if◌then◌else◌, List, [], ◌∷◌, ◌++◌, get_or, length, ap, sym, ◌∙◌,
}
use simpleos.Common.Bytes.{passes, passes_at}
use simpleos.Net.{hex, mac_loop, mac_to_string, octet_text, ip_loop, ip_to_string}

-- The value of a hexadecimal digit.
abbrev pub unhex : ℕ → ℕ
unhex c = if leb b'A' c then c - b'A' + 10 else c - b'0'

hex_table : passes (λ d. unhex (get_or hex d 0) == d) 16 ≡ true
unfolding passes
hex_table = refl

unhex-hex : (d : ℕ) → d < 16 → unhex (get_or hex d 0) ≡ d
unhex-hex d h = (==_iff _ _).0 (passes_at _ 16 h hex_table)

-- The byte that the two digits at a place of a text stand for.
abbrev pub byte_at : List ℕ → ℕ → ℕ
byte_at text place = unhex (get_or text place 0) * 16 + unhex (get_or text (place + 1) 0)

-- The two digits of a byte stand for it.
two_digits :
    (b : ℕ)
    → b < 256
    → unhex (get_or hex ((b / 2 ^ 4) % 16) 0) * 16 + unhex (get_or hex (b % 16) 0) ≡ b
two_digits b h =
    omega (arith, unhex-hex ((b / 2 ^ 4) % 16) (omega arith), unhex-hex (b % 16) (omega arith))

-- `mac_to_string` writes 17 characters, from which the six bytes can be read back.
pub mac_to_string_lem :
    (mac : ℕ → ℕ)
    → ((i : ℕ) → i < 6 → mac i < 256)
    → (length (mac_to_string mac) ≡ 17)
      × (byte_at (mac_to_string mac) 0 ≡ mac 0)
      × (byte_at (mac_to_string mac) 3 ≡ mac 1)
      × (byte_at (mac_to_string mac) 6 ≡ mac 2)
      × (byte_at (mac_to_string mac) 9 ≡ mac 3)
      × (byte_at (mac_to_string mac) 12 ≡ mac 4)
      × (byte_at (mac_to_string mac) 15 ≡ mac 5)
unfolding mac_to_string mac_loop
mac_to_string_lem mac bytes =
    (let digits : (i : ℕ)
          → i < 6
          → unhex (get_or hex ((mac i / 2 ^ 4) % 16) 0) * 16 + unhex (get_or hex (mac i % 16) 0)
            ≡ mac i =
        λ i h. two_digits (mac i) (bytes i h) in
      (
        refl,
        digits 0 (omega arith),
        digits 1 (omega arith),
        digits 2 (omega arith),
        digits 3 (omega arith),
        digits 4 (omega arith),
        digits 5 (omega arith),
      ))

-- The decimal digits of a number below 1000.
abbrev pub decimal : ℕ → List ℕ
decimal n =
    if ltb n 10
    then (b'0' + n) ∷ []
    else if ltb n 100
    then (b'0' + n / 10) ∷ (b'0' + n % 10) ∷ []
    else (b'0' + n / 100) ∷ (b'0' + (n / 10) % 10) ∷ (b'0' + n % 10) ∷ []

-- The text of an octet is its decimal text, but for octets with the tens digit 0 behind a digit for
-- the hundreds: there the 0 is missing.
pub octet_text-decimal :
    (octet : ℕ)
    → octet < 256
    → octet_text octet ≡ (
        if leb 100 octet && ltb (octet % 100) 10
        then (b'0' + octet / 100) ∷ (b'0' + octet % 10) ∷ []
        else decimal octet)
unfolding octet_text
octet_text-decimal octet h = ground arith

octet_collision :
    (hundreds units : ℕ)
    → 0 < hundreds
    → hundreds ≤ 2
    → units < 10
    → octet_text (100 * hundreds + units) ≡ octet_text (10 * hundreds + units)
unfolding octet_text
octet_collision hundreds units hp h2 hu = ground arith

-- The text of an address with the text of its last octet.
abbrev dotted : ℕ → List ℕ → List ℕ
dotted rest text =
    octet_text ((rest / 2 ^ 16) % 256)
    ++ (b'.'
        ∷ (octet_text ((rest / 2 ^ 8) % 256)
            ++ (b'.' ∷ (octet_text (rest % 256) ++ (b'.' ∷ (text ++ []))))))

ip_to_string-dotted :
    (rest octet : ℕ)
    → octet < 256
    → ip_to_string (rest * 256 + octet) ≡ dotted rest (octet_text octet)
unfolding ip_to_string ip_loop
ip_to_string-dotted rest octet h = ground arith

-- So two addresses have the same text: an octet from 100 to 109 or from 200 to 209 reads like one
-- from 10 to 29, whatever the other octets are.
pub ip_to_string-ambiguous :
    (rest hundreds units : ℕ)
    → 0 < hundreds
    → hundreds ≤ 2
    → units < 10
    → ip_to_string (rest * 256 + (100 * hundreds + units))
      ≡ ip_to_string (rest * 256 + (10 * hundreds + units))
ip_to_string-ambiguous rest hundreds units hp h2 hu =
    ip_to_string-dotted rest (100 * hundreds + units) (omega arith)
    ∙ ap (dotted rest) (octet_collision hundreds units hp h2 hu)
    ∙ sym (ip_to_string-dotted rest (10 * hundreds + units) (omega arith))
