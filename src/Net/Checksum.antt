-- ===== src/Net/Checksum.antt =====
-- The checksum of kernel/net.h.
use simpleos.Common.{ℕ, ◌+◌, ◌-◌, ◌*◌, ◌/◌, ◌%◌, ◌^◌, ◌≤◌, ◌<◌, ◌≡◌, arith, List, [], ◌∷◌, ◌++◌, ap}
use simpleos.Net.{sum_words, fold_carries, ip_checksum}

-- The bytes of a packet, an even number of them.
pub data AreWords : List ℕ → Type 0 where
  nil : AreWords []
  cons :
      (low high : ℕ) (rest : List ℕ)
      → low < 256
      → high < 256
      → AreWords rest
      → AreWords (low ∷ high ∷ rest)

-- The sum of the 16-bit words, without a bound on the counter.
abbrev pub total : List ℕ → ℕ
total [] = 0
total (b ∷ []) = b
total (low ∷ high ∷ rest) = low + 256 * high + total rest

-- The counter does not overflow for packets below 128 KiB.
sum_words-total :
    (packet : List ℕ) (sum : ℕ)
    → AreWords packet
    → sum + total packet < 2 ^ 32
    → sum_words packet sum ≡ sum + total packet
unfolding sum_words
sum_words-total _ sum nil fits = omega arith
sum_words-total _ sum (cons low high rest hl hh words) fits =
    omega (
      arith,
      sum_words-total rest ((sum + (low + 256 * high)) % 2 ^ 32) words (omega (arith, fits)),
    )

-- One round keeps the sum modulo `2 ^ 16 - 1`, and does not turn another number into 0.
abbrev carry : ℕ → ℕ
carry sum = sum % 2 ^ 16 + sum / 2 ^ 16

carry-mod : (sum : ℕ) → (carry sum % 65535 ≡ sum % 65535) × (0 < sum → 0 < carry sum)
carry-mod sum = (omega arith, λ h. omega (arith, h))

carry-bounds :
    (sum : ℕ)
    → sum < 2 ^ 32
    → (carry sum < 2 ^ 17 - 1) × (carry (carry sum) ≤ 2 ^ 16) × (carry (carry (carry sum)) < 2 ^ 16)
carry-bounds sum h = (omega (arith, h), omega (arith, h), omega (arith, h))

-- Three rounds leave no carry, keep the sum modulo `2 ^ 16 - 1`, and do not turn another number into 0.
pub fold_carries_lem :
    (sum : ℕ)
    → sum < 2 ^ 32
    → (fold_carries 3 sum < 2 ^ 16)
      × (fold_carries 3 sum % 65535 ≡ sum % 65535)
      × (0 < sum → 0 < fold_carries 3 sum)
unfolding fold_carries
fold_carries_lem sum h =
    (let (first, first_pos) = carry-mod sum in
      let (second, second_pos) = carry-mod (carry sum) in
      let (third, third_pos) = carry-mod (carry (carry sum)) in
      let (_, _, small) = carry-bounds sum h in
      (
        ground (arith, small),
        ground (arith, first, second, third),
        λ p.
            ground (
              arith,
              p,
              first_pos p,
              second_pos (first_pos p),
              third_pos (second_pos (first_pos p)),
            ),
      ))

ip_checksum-fold :
    (packet : List ℕ)
    → AreWords packet
    → total packet < 2 ^ 32
    → ip_checksum packet ≡ 65535 - fold_carries 3 (total packet)
unfolding ip_checksum
ip_checksum-fold packet words fits =
    ap (λ n. 65535 - fold_carries 3 n)
      (omega (arith, sum_words-total packet 0 words (omega (arith, fits))))

-- The checksum of a packet of whole words below 128 KiB makes its one's complement sum vanish: the
-- checksum is a 16-bit number, and with the packet's words it sums up to a multiple of `2 ^ 16 - 1`.
pub ip_checksum_lem :
    (packet : List ℕ)
    → AreWords packet
    → total packet < 2 ^ 32
    → (ip_checksum packet < 2 ^ 16) × ((total packet + ip_checksum packet) % 65535 ≡ 0)
ip_checksum_lem packet words fits =
    (let folded = fold_carries_lem (total packet) fits in
      let complement = ip_checksum-fold packet words fits in
      (omega (arith, complement), omega (arith, complement, folded.0, folded.1)))

fold_carries-le : (sum : ℕ) → fold_carries 3 sum ≤ sum
unfolding fold_carries
fold_carries-le sum = ground arith

-- The words and the checksum do not sum up to 0.
checksum_positive :
    (packet : List ℕ)
    → AreWords packet
    → total packet < 2 ^ 32
    → 0 < total packet + ip_checksum packet
checksum_positive packet words fits =
    omega (arith, ip_checksum-fold packet words fits, fold_carries-le (total packet))

total-append :
    (packet : List ℕ) (low high : ℕ)
    → AreWords packet
    → total (packet ++ (low ∷ high ∷ [])) ≡ total packet + (low + 256 * high)
total-append _ low high nil = omega arith
total-append _ low high (cons a b rest ha hb words) =
    omega (arith, total-append rest low high words)

append-AreWords :
    (packet : List ℕ) (low high : ℕ)
    → low < 256
    → high < 256
    → AreWords packet
    → AreWords (packet ++ (low ∷ high ∷ []))
append-AreWords _ low high hl hh nil = cons low high [] hl hh nil
append-AreWords _ low high hl hh (cons a b rest ha hb words) =
    cons a b (rest ++ (low ∷ high ∷ [])) ha hb (append-AreWords rest low high hl hh words)

-- A packet into which its checksum is put, so that the sum of its words grows by it, has the checksum 0.
pub ip_checksum-sealed :
    (packet whole : List ℕ)
    → AreWords packet
    → AreWords whole
    → total whole ≡ total packet + ip_checksum packet
    → total packet + 65535 < 2 ^ 32
    → ip_checksum whole ≡ 0
ip_checksum-sealed packet whole words words' summed fits =
    (let (small, vanishes) = ip_checksum_lem packet words (omega (arith, fits)) in
      let complement = ip_checksum-fold whole words' (omega (arith, summed, small, fits)) in
      let (bound, kept, positive) =
        fold_carries_lem (total whole) (omega (arith, summed, small, fits)) in
      let some_sum = checksum_positive packet words (omega (arith, fits)) in
      omega (
        arith,
        complement,
        bound,
        kept,
        positive (omega (arith, summed, some_sum)),
        vanishes,
        summed,
      ))

-- A packet that carries its own checksum behind its words has the checksum 0, as a receiver tests.
pub ip_checksum-carried :
    (packet : List ℕ)
    → AreWords packet
    → total packet + 65535 < 2 ^ 32
    → ip_checksum (packet ++ (ip_checksum packet % 256 ∷ ip_checksum packet / 256 ∷ [])) ≡ 0
ip_checksum-carried packet words fits =
    (let (small, _) = ip_checksum_lem packet words (omega (arith, fits)) in
      let low = ip_checksum packet % 256 in
      let high = ip_checksum packet / 256 in
      ip_checksum-sealed packet (packet ++ (low ∷ high ∷ [])) words
        (append-AreWords packet low high (omega arith) (omega (arith, small)) words)
        (omega (arith, total-append packet low high words)) fits)
