-- ===== src/VirtioNet/Replies.antt =====
-- The answers to ARP requests and pings in kernel/virtio_net.h.
use simpleos.Common.{
  ℕ, zero, suc, ◌+◌, ◌-◌, ◌*◌, ◌/◌, ◌%◌, ◌^◌, ◌<◌, ◌≡◌, refl, ap, ◌∙◌, arith, Bool, true, leb, ◌==◌,
  if◌then◌else◌, ◌&&◌, ◌||◌, List, some, get_or,
}
use simpleos.Net.{htons, ntohs, htonl, ntohl}
use simpleos.Net.Order.{ntohl-htonl}
use simpleos.VirtioNet.{VirtioNet, virtio_net_send}
use simpleos.VirtioNet.Frames.{
  load16, load32, store32, arp_reply, net_send_arp_reply, net_send_ping_reply, process_arp,
  process_icmp, process_ip, net_process_packet,
}

-- The frame is a request for the hardware address of this station.
abbrev pub asks_arp : (ℕ → ℕ) → ℕ → VirtioNet → Bool
asks_arp p len dev =
    leb 42 len
    && ((ntohs (load16 p 12) == 0x0806)
        && ((ntohs (load16 p 20) == 1) && (ntohl (load32 p 38) == dev.our_ip)))

-- The length of the IP header in bytes, and the length of the payload behind an ICMP header.
abbrev pub ihl : (ℕ → ℕ) → ℕ
ihl p = p 14 % 16 * 4

abbrev pub payload_len : (ℕ → ℕ) → ℕ
payload_len p = (ntohs (load16 p 16) + 2 ^ 32 - ihl p) % 2 ^ 32 - 8

-- The frame is a ping to this station, or to all.
abbrev pub pings : (ℕ → ℕ) → ℕ → VirtioNet → Bool
pings p len dev =
    leb 34 len
    && ((ntohs (load16 p 12) == 0x0800)
        && ((p 14 / 16 == 4)
            && (((ntohl (load32 p 30) == dev.our_ip) || (ntohl (load32 p 30) == 0xFFFFFFFF))
                && ((p 23 == 1) && (p (14 + ihl p) == 8)))))

-- A received frame is answered if it asks for this station's hardware address, and if it is a ping
-- to it; any other frame changes nothing.
pub net_process_packet_lem :
    (p : ℕ → ℕ) (len : ℕ) (dev : VirtioNet)
    → net_process_packet p len dev ≡ (
        if asks_arp p len dev
        then some (net_send_arp_reply (ntohl (load32 p 28)) (λ i. p (22 + i)) dev)
        else if pings p len dev
        then net_send_ping_reply
            (ntohl (load32 p 26))
            (λ i. p (6 + i))
            (load16 p (18 + ihl p))
            (load16 p (20 + ihl p))
            (λ i. p (22 + ihl p + i))
            (payload_len p)
            dev
        else some dev)
unfolding net_process_packet process_arp process_ip process_icmp
net_process_packet_lem p len dev = ground arith

-- A frame of bytes as the memory that `net_process_packet` reads.
abbrev pub frame : List ℕ → ℕ → ℕ
frame bytes i = get_or bytes i 0

-- The fields of an ARP reply for the station `mac` with the address `ip`, to the one that asked.
pub record ArpReply (p : ℕ → ℕ) (mac : ℕ → ℕ) (ip : ℕ) (asker_mac : ℕ → ℕ) (asker_ip : ℕ)
    : Type 0 where
  pub dest : (i : ℕ) → i < 6 → p i ≡ asker_mac i
  pub src : (i : ℕ) → i < 6 → p (6 + i) ≡ mac i
  pub type : ntohs (load16 p 12) ≡ 0x0806
  pub formats : (ntohs (load16 p 14) ≡ 1) × (ntohs (load16 p 16) ≡ 0x0800) × (p 18 ≡ 6) × (p 19 ≡ 4)
  pub operation : ntohs (load16 p 20) ≡ 2
  pub sender_mac : (i : ℕ) → i < 6 → p (22 + i) ≡ mac i
  pub sender_ip : ntohl (load32 p 28) ≡ ip
  pub target_mac : (i : ℕ) → i < 6 → p (32 + i) ≡ asker_mac i
  pub target_ip : ntohl (load32 p 38) ≡ asker_ip

load32-store32 :
    (v : ℕ)
    → v < 2 ^ 32
    → v % 256
        + 2 ^ 8 * (v / 2 ^ 8 % 256)
        + 2 ^ 16 * (v / 2 ^ 16 % 256)
        + 2 ^ 24 * (v / 2 ^ 24 % 256)
      ≡ v
load32-store32 v small = omega (arith, small)

htonl-lt : (v : ℕ) → v < 2 ^ 32 → htonl v < 2 ^ 32
unfolding htonl
htonl-lt v small = omega (arith, small)

pub loaded_ip : (v : ℕ) → v < 2 ^ 32 → ntohl (load32 (frame (store32 (htonl v))) 0) ≡ v
loaded_ip v small = ap ntohl (load32-store32 (htonl v) (htonl-lt v small)) ∙ (ntohl-htonl v small).4

-- Six bytes are the same if each of them is.
pub six :
    (p q : ℕ → ℕ)
    → p 0 ≡ q 0
    → p 1 ≡ q 1
    → p 2 ≡ q 2
    → p 3 ≡ q 3
    → p 4 ≡ q 4
    → p 5 ≡ q 5
    → (i : ℕ) → i < 6
    → p i ≡ q i
six p q a b c d e f zero low = a
six p q a b c d e f (suc zero) low = b
six p q a b c d e f (suc (suc zero)) low = c
six p q a b c d e f (suc (suc (suc zero))) low = d
six p q a b c d e f (suc (suc (suc (suc zero)))) low = e
six p q a b c d e f (suc (suc (suc (suc (suc zero))))) low = f
six p q a b c d e f (suc (suc (suc (suc (suc (suc i)))))) low = absurd (omega (arith, low))

pub arp_reply-ArpReply :
    (ip : ℕ) (mac : ℕ → ℕ) (dev : VirtioNet)
    → ip < 2 ^ 32
    → dev.our_ip < 2 ^ 32
    → ArpReply (frame (arp_reply ip mac dev)) dev.mac dev.our_ip mac ip
unfolding arp_reply htons ntohs
arp_reply-ArpReply ip mac dev small ours =
    let p = frame (arp_reply ip mac dev) in
    record {
      dest = six p mac refl refl refl refl refl refl;
      src = six (λ i. p (6 + i)) dev.mac refl refl refl refl refl refl;
      type = refl;
      formats = (refl, refl, refl, refl);
      operation = refl;
      sender_mac = six (λ i. p (22 + i)) dev.mac refl refl refl refl refl refl;
      sender_ip = loaded_ip dev.our_ip ours;
      target_mac = six (λ i. p (32 + i)) mac refl refl refl refl refl refl;
      target_ip = loaded_ip ip small;
    }

-- No station answers an ARP reply.
arp_reply-unanswered :
    (ip : ℕ) (mac : ℕ → ℕ) (dev other : VirtioNet)
    → ip < 2 ^ 32
    → dev.our_ip < 2 ^ 32
    → net_process_packet (frame (arp_reply ip mac dev)) 42 other ≡ some other
arp_reply-unanswered ip mac dev other small ours =
    let p = frame (arp_reply ip mac dev) in
    let r = arp_reply-ArpReply ip mac dev small ours in
    net_process_packet_lem p 42 other ∙ rw (r.type, r.operation) refl

pub ntohl-lt : (v : ℕ) → ntohl v < 2 ^ 32
unfolding ntohl htonl
ntohl-lt v = omega arith

-- The reply to the frame `p`.
abbrev pub arp_answer : (ℕ → ℕ) → VirtioNet → ℕ → ℕ
arp_answer p dev = frame (arp_reply (ntohl (load32 p 28)) (λ i. p (22 + i)) dev)

-- A request for the hardware address of a station with a 32-bit address is answered with an ARP reply
-- to the one that asked, and no station answers that reply.
pub net_process_packet-arp :
    (p : ℕ → ℕ) (len : ℕ) (dev other : VirtioNet)
    → asks_arp p len dev ≡ true
    → dev.our_ip < 2 ^ 32
    → (net_process_packet p len dev ≡ some (virtio_net_send (arp_answer p dev) 42 dev).1)
      × ArpReply (arp_answer p dev) dev.mac dev.our_ip (λ i. p (22 + i)) (ntohl (load32 p 28))
      × (net_process_packet (arp_answer p dev) 42 other ≡ some other)
unfolding net_send_arp_reply
net_process_packet-arp p len dev other asks ours = (
  net_process_packet_lem p len dev ∙ rw asks refl,
  arp_reply-ArpReply (ntohl (load32 p 28)) (λ i. p (22 + i)) dev (ntohl-lt (load32 p 28)) ours,
  arp_reply-unanswered (ntohl (load32 p 28)) (λ i. p (22 + i)) dev other (ntohl-lt (load32 p 28))
      ours,
)
