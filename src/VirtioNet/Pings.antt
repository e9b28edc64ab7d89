-- ===== src/VirtioNet/Pings.antt =====
-- The answer to a ping in kernel/virtio_net.h.
use simpleos.Common.{
  ℕ, zero, suc, ◌+◌, ◌*◌, ◌/◌, ◌%◌, ◌^◌, ◌≤◌, ◌<◌, ◌≡◌, ◌⊎◌, refl, sym, ap, ◌∙◌, arith, true, false,
  ltb, List, [], ◌∷◌, ◌++◌, none, some, length, get_or, length-append, append-snoc,
}
use simpleos.Net.{htons, ntohs, ntohl, ip_checksum}
use simpleos.Net.Checksum.{AreWords, nil, cons, total, ip_checksum_lem, ip_checksum-sealed}
use simpleos.VirtioNet.{VirtioNet, virtio_net_send}
use simpleos.VirtioNet.Frames.{
  load16, load32, store16, bytes_of, eth_header, ip_header, sealed_ip_header, icmp_reply,
  sealed_icmp_reply, ping_total_len, ping_reply, net_send_ping_reply, net_process_packet,
}
use simpleos.VirtioNet.Replies.{
  asks_arp, pings, payload_len, ihl, frame, six, loaded_ip, ntohl-lt, net_process_packet_lem,
}

-- Four bytes, two at a time, in front of words.
store16-AreWords : (v : ℕ) (rest : List ℕ) → AreWords rest → AreWords (store16 v ++ rest)
store16-AreWords v rest words =
    cons (v % 256) (v / 256 % 256) rest (omega arith) (omega arith) words

ip_header-AreWords :
    (total_len src_ip dest_ip checksum : ℕ) → AreWords (ip_header total_len src_ip dest_ip checksum)
unfolding ip_header
ip_header-AreWords total_len src_ip dest_ip checksum = cons _ _ _ (omega arith) (omega arith) (
    store16-AreWords (htons total_len) _ (
      cons _ _ _ (omega arith) (omega arith) (
        cons _ _ _ (omega arith) (omega arith) (
          cons _ _ _ (omega arith) (omega arith) (
            store16-AreWords checksum _ (
              cons _ _ _ (omega arith) (omega arith) (
                cons _ _ _ (omega arith) (omega arith) (
                  cons _ _ _ (omega arith) (omega arith)
                    (cons _ _ _ (omega arith) (omega arith) nil)))))))))

ip_header-total :
    (total_len src_ip dest_ip checksum : ℕ)
    → checksum < 2 ^ 16
    → (total (ip_header total_len src_ip dest_ip checksum)
        ≡ total (ip_header total_len src_ip dest_ip 0) + checksum)
      × (total (ip_header total_len src_ip dest_ip 0) < 2 ^ 20)
unfolding ip_header
ip_header-total total_len src_ip dest_ip checksum small = (omega (arith, small), omega arith)

sealed_ip_header-valid :
    (total_len src_ip dest_ip : ℕ) → ip_checksum (sealed_ip_header total_len src_ip dest_ip) ≡ 0
unfolding sealed_ip_header
sealed_ip_header-valid total_len src_ip dest_ip =
    let plain = ip_header total_len src_ip dest_ip 0 in
    let words = ip_header-AreWords total_len src_ip dest_ip 0 in
    let low = (ip_header-total total_len src_ip dest_ip 0 (omega arith)).1 in
    let small = (ip_checksum_lem plain words (omega (arith, low))).0 in
    ip_checksum-sealed plain (sealed_ip_header total_len src_ip dest_ip) words
      (ip_header-AreWords total_len src_ip dest_ip (ip_checksum plain))
      (ip_header-total total_len src_ip dest_ip (ip_checksum plain) small).0 (omega (arith, low))

icmp_reply-AreWords :
    (id seq checksum : ℕ) (payload : List ℕ)
    → AreWords payload
    → AreWords (icmp_reply id seq payload checksum)
unfolding icmp_reply
icmp_reply-AreWords id seq checksum payload words =
    cons _ _ _ (omega arith) (omega arith)
      (store16-AreWords checksum _ (store16-AreWords id _ (store16-AreWords seq _ words)))

icmp_reply-total :
    (id seq checksum : ℕ) (payload : List ℕ)
    → checksum < 2 ^ 16
    → (total (icmp_reply id seq payload checksum) ≡ total (icmp_reply id seq payload 0) + checksum)
      × (total (icmp_reply id seq payload 0) < 2 ^ 18 + total payload)
unfolding icmp_reply
icmp_reply-total id seq checksum payload small = (omega (arith, small), omega arith)

total-le : (xs : List ℕ) → AreWords xs → total xs ≤ 2 ^ 15 * length xs
total-le _ nil = omega arith
total-le _ (cons low high rest hl hh words) = omega (arith, hl, hh, total-le rest words)

sealed_icmp_reply-valid :
    (id seq : ℕ) (payload : List ℕ)
    → AreWords payload
    → length payload ≤ 1472
    → ip_checksum (sealed_icmp_reply id seq payload) ≡ 0
unfolding sealed_icmp_reply
sealed_icmp_reply-valid id seq payload data_words short =
    let plain = icmp_reply id seq payload 0 in
    let words = icmp_reply-AreWords id seq 0 payload data_words in
    let low : total plain < 2 ^ 30 = omega (
      arith,
      (icmp_reply-total id seq 0 payload (omega arith)).1,
      total-le payload data_words,
      short,
    ) in
    let small = (ip_checksum_lem plain words (omega (arith, low))).0 in
    ip_checksum-sealed plain (sealed_icmp_reply id seq payload) words
      (icmp_reply-AreWords id seq (ip_checksum plain) payload data_words)
      (icmp_reply-total id seq (ip_checksum plain) payload small).0 (omega (arith, low))

-- Reading a frame that was put together.
get_or-append : (xs ys : List ℕ) (i : ℕ) → get_or (xs ++ ys) (length xs + i) 0 ≡ get_or ys i 0
get_or-append [] ys i = ap (λ j. get_or ys j 0) (omega arith)
get_or-append (x ∷ xs) ys i =
    let step : suc (length xs) + i ≡ suc (length xs + i) = omega arith in
    rw step (get_or-append xs ys i)

bytes_of-append : (xs ys : List ℕ) → bytes_of (frame (xs ++ ys)) (length xs) (length ys) ≡ ys
bytes_of-append xs [] = refl
bytes_of-append xs (y ∷ ys) =
    let start : length xs + 0 ≡ length xs = omega arith in
    let first : get_or (xs ++ (y ∷ ys)) (length xs) 0 ≡ y =
      ap (λ j. get_or (xs ++ (y ∷ ys)) j 0) (sym start) ∙ get_or-append xs (y ∷ ys) 0 in
    let rest : bytes_of (frame ((xs ++ (y ∷ [])) ++ ys)) (length xs + 1) (length ys) ≡ ys =
      ap (λ n. bytes_of (frame ((xs ++ (y ∷ [])) ++ ys)) n (length ys))
        (sym (length-append xs (y ∷ [])))
      ∙ bytes_of-append (xs ++ (y ∷ [])) ys in
    ap (λ b. b ∷ bytes_of (frame (xs ++ (y ∷ ys))) (length xs + 1) (length ys)) first
    ∙ ap (λ l. y ∷ l)
        (ap (λ zs. bytes_of (frame zs) (length xs + 1) (length ys)) (sym (append-snoc xs y ys))
          ∙ rest)

get_or-bytes_of : (src : ℕ → ℕ) (at n i : ℕ) → i < n → get_or (bytes_of src at n) i 0 ≡ src (at + i)
get_or-bytes_of src at zero i inside = absurd (omega (arith, inside))
get_or-bytes_of src at (suc n) zero inside = ap src (omega arith)
get_or-bytes_of src at (suc n) (suc i) inside =
    get_or-bytes_of src (at + 1) n i (omega (arith, inside)) ∙ ap src (omega arith)

length-bytes_of : (src : ℕ → ℕ) (at n : ℕ) → length (bytes_of src at n) ≡ n
length-bytes_of src at zero = refl
length-bytes_of src at (suc n) = ap suc (length-bytes_of src (at + 1) n)

-- The fields of the answer to a ping, with `n` bytes of payload from `data`.
pub record PingReply (p : ℕ → ℕ) (mac : ℕ → ℕ) (ip : ℕ) (asker_mac : ℕ → ℕ) (asker_ip id seq : ℕ)
    (data' : ℕ → ℕ) (n : ℕ) : Type 0 where
  pub dest : (i : ℕ) → i < 6 → p i ≡ asker_mac i
  pub src : (i : ℕ) → i < 6 → p (6 + i) ≡ mac i
  pub type : ntohs (load16 p 12) ≡ 0x0800
  pub version : p 14 ≡ 0x45
  pub total_len : ntohs (load16 p 16) ≡ 28 + n
  pub protocol : p 23 ≡ 1
  pub src_ip : ntohl (load32 p 26) ≡ ip
  pub dest_ip : ntohl (load32 p 30) ≡ asker_ip
  pub header_checksum : ip_checksum (bytes_of p 14 20) ≡ 0
  pub reply : (p 34 ≡ 0) × (p 35 ≡ 0)
  pub echo : (load16 p 38 ≡ id) × (load16 p 40 ≡ seq)
  pub payload : (i : ℕ) → i < n → p (42 + i) ≡ data' i
  pub icmp_checksum : AreWords (bytes_of data' 0 n) → ip_checksum (bytes_of p 34 (8 + n)) ≡ 0

-- The reply in front of its payload.
abbrev before_payload : ℕ → (ℕ → ℕ) → ℕ → ℕ → List ℕ → ℕ → VirtioNet → List ℕ
before_payload ip mac id seq data' n dev =
    eth_header mac dev.mac 0x0800
    ++ (sealed_ip_header (ping_total_len n) dev.our_ip ip
        ++ (0
            ∷ 0
            ∷ (store16 (ip_checksum (icmp_reply id seq data' 0)) ++ (store16 id ++ store16 seq))))

reply_payload :
    (ip : ℕ) (mac : ℕ → ℕ) (id seq n : ℕ) (data' : List ℕ) (dev : VirtioNet) (i : ℕ)
    → get_or (ping_reply ip mac id seq data' n dev) (42 + i) 0 ≡ get_or data' i 0
unfolding ping_reply sealed_ip_header ip_header sealed_icmp_reply icmp_reply
reply_payload ip mac id seq n data' dev i =
    get_or-append (before_payload ip mac id seq data' n dev) data' i

reply_icmp :
    (ip : ℕ) (mac : ℕ → ℕ) (id seq n : ℕ) (data' : List ℕ) (dev : VirtioNet)
    → bytes_of
        (frame (ping_reply ip mac id seq data' n dev))
        34
        (length (sealed_icmp_reply id seq data'))
      ≡ sealed_icmp_reply id seq data'
unfolding ping_reply sealed_ip_header ip_header
reply_icmp ip mac id seq n data' dev =
    bytes_of-append
      (eth_header mac dev.mac 0x0800 ++ sealed_ip_header (ping_total_len n) dev.our_ip ip)
      (sealed_icmp_reply id seq data')

loaded_len : (v : ℕ) → v < 2 ^ 16 → ntohs (load16 (frame (store16 (htons v))) 0) ≡ v
unfolding ntohs htons
loaded_len v small = omega (arith, small)

ping_reply-header :
    (ip : ℕ) (mac : ℕ → ℕ) (id seq n : ℕ) (data' : List ℕ) (dev : VirtioNet)
    → bytes_of (frame (ping_reply ip mac id seq data' n dev)) 14 20
      ≡ sealed_ip_header (ping_total_len n) dev.our_ip ip
unfolding ping_reply sealed_ip_header ip_header
ping_reply-header ip mac id seq n data' dev = refl

ping_reply-PingReply :
    (ip : ℕ) (mac : ℕ → ℕ) (id seq n : ℕ) (src' : ℕ → ℕ) (dev : VirtioNet)
    → ip < 2 ^ 32
    → dev.our_ip < 2 ^ 32
    → id < 2 ^ 16
    → seq < 2 ^ 16
    → n ≤ 1472
    → PingReply
        (frame (ping_reply ip mac id seq (bytes_of src' 0 n) n dev))
        dev.mac
        dev.our_ip
        mac
        ip
        id
        seq
        src'
        n
unfolding ping_reply sealed_ip_header ip_header sealed_icmp_reply icmp_reply htons ntohs
ping_reply-PingReply ip mac id' seq' n src' dev ip_small ours id_small seq_small short =
    let bytes = bytes_of src' 0 n in
    let p = frame (ping_reply ip mac id' seq' bytes n dev) in
    let long : length (sealed_icmp_reply id' seq' bytes) ≡ 8 + n =
      omega (arith, length-bytes_of src' 0 n) in
    record {
      dest = six p mac refl refl refl refl refl refl;
      src = six (λ i. p (6 + i)) dev.mac refl refl refl refl refl refl;
      type = refl;
      version = refl;
      total_len = loaded_len (ping_total_len n) (omega arith) ∙ omega (arith, short);
      protocol = refl;
      src_ip = loaded_ip dev.our_ip ours;
      dest_ip = loaded_ip ip ip_small;
      header_checksum =
          ap ip_checksum (ping_reply-header ip mac id' seq' n bytes dev)
          ∙ sealed_ip_header-valid (ping_total_len n) dev.our_ip ip;
      reply = (refl, refl);
      echo = (omega (arith, id_small), omega (arith, seq_small));
      payload = λ i inside.
          reply_payload ip mac id' seq' n bytes dev i
          ∙ get_or-bytes_of src' 0 n i inside
          ∙ ap src' (omega arith);
      icmp_checksum = λ words.
          ap ip_checksum (ap (bytes_of p 34) (sym long) ∙ reply_icmp ip mac id' seq' n bytes dev)
          ∙ sealed_icmp_reply-valid id' seq' bytes words
              (omega (arith, length-bytes_of src' 0 n, short));
    }

-- The answer to the ping `p`.
abbrev pub ping_answer : (ℕ → ℕ) → VirtioNet → ℕ → ℕ
ping_answer p dev = frame (
    ping_reply (ntohl (load32 p 26)) (λ i. p (6 + i)) (load16 p (18 + ihl p))
      (load16 p (20 + ihl p)) (bytes_of (λ i. p (22 + ihl p + i)) 0 (payload_len p)) (payload_len p)
      dev)

ping-processed :
    (p : ℕ → ℕ) (len : ℕ) (dev : VirtioNet)
    → pings p len dev ≡ true
    → net_process_packet p len dev
      ≡ net_send_ping_reply
          (ntohl (load32 p 26))
          (λ i. p (6 + i))
          (load16 p (18 + ihl p))
          (load16 p (20 + ihl p))
          (λ i. p (22 + ihl p + i))
          (payload_len p)
          dev
ping-processed p len dev ping =
    let other : asks_arp p len dev ≡ false = ground (arith, ping) in
    net_process_packet_lem p len dev ∙ rw (other, ping) refl

-- A ping with at most 1472 bytes of payload is answered: the frame that is sent goes to the one that
-- asked, with the same identifier, sequence number and payload, and both of its checksums are right
-- (that of the message for a payload of an even number of bytes).
pub net_process_packet-ping :
    (p : ℕ → ℕ) (len : ℕ) (dev : VirtioNet)
    → pings p len dev ≡ true
    → ((i : ℕ) → p i < 256)
    → dev.our_ip < 2 ^ 32
    → payload_len p ≤ 1472
    → (net_process_packet p len dev
        ≡ some (virtio_net_send (ping_answer p dev) (42 + payload_len p) dev).1)
      × PingReply
          (ping_answer p dev)
          dev.mac
          dev.our_ip
          (λ i. p (6 + i))
          (ntohl (load32 p 26))
          (load16 p (18 + ihl p))
          (load16 p (20 + ihl p))
          (λ i. p (22 + ihl p + i))
          (payload_len p)
unfolding net_send_ping_reply
net_process_packet-ping p len dev ping bytes ours short =
    let fits : ltb 1514 (14 + 20 + 8 + payload_len p) ≡ false = ground (arith, short) in
    let sum : 14 + ping_total_len (payload_len p) ≡ 42 + payload_len p = omega (arith, short) in
    (
      ping-processed p len dev ping ∙ rw (fits, sum) refl,
      ping_reply-PingReply (ntohl (load32 p 26)) (λ i. p (6 + i)) (load16 p (18 + ihl p))
          (load16 p (20 + ihl p)) (payload_len p) (λ i. p (22 + ihl p + i)) dev
          (ntohl-lt (load32 p 26)) ours (omega (arith, bytes (18 + ihl p), bytes (18 + ihl p + 1)))
          (omega (arith, bytes (20 + ihl p), bytes (20 + ihl p + 1))) short,
    )

ntohs-lt : (v : ℕ) → ntohs v < 2 ^ 16
unfolding ntohs htons
ntohs-lt v = omega arith

-- A ping whose header claims more than 1472 bytes of payload, or less than its own length, makes the
-- answer overrun the local array of 1514 bytes.
pub net_process_packet-overrun :
    (p : ℕ → ℕ) (len : ℕ) (dev : VirtioNet)
    → pings p len dev ≡ true
    → ihl p + 1480 < ntohs (load16 p 16) ⊎ ntohs (load16 p 16) < ihl p
    → net_process_packet p len dev ≡ none
unfolding net_send_ping_reply
net_process_packet-overrun p len dev ping claim =
    let long : ltb 1514 (14 + 20 + 8 + payload_len p) ≡ true =
      ground (arith, claim, ntohs-lt (load16 p 16)) in
    ping-processed p len dev ping ∙ rw long refl
