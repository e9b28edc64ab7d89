-- ===== src/Pic/Masks.antt =====
-- What the interrupt masks of kernel/cpu/pic.c come to.
use simpleos.Common.{
  true, ==_iff, ℕ, ◌<◌, ◌≡◌, refl, arith, ltb, ◌==◌, if◌then◌else◌, ◌∷◌, ◌++◌, [],
}
use simpleos.Common.Bytes.{passes, passes_at, bit_of-full, bit_of, bit_of-set_bit, bit_of-clear_bit}
use simpleos.Io.{Ports}
use simpleos.Pic.{
  port_of, line_of, pic_init, pic_enable_irq, pic_disable_irq, pic_disable, pic_send_command,
  pic_send_data, pic_eoi,
}

-- Is the line masked? Its bit in the mask register of its controller.
abbrev pub masked : Ports → ℕ → ℕ
masked io irq = bit_of (io.cell (port_of irq)) (line_of irq)

-- `pic_enable_irq` clears the mask of that one line.
pub masked-pic_enable_irq :
    (io : Ports) (irq other : ℕ)
    → irq < 16
    → other < 16
    → io.cell (port_of irq) < 256
    → masked (pic_enable_irq irq io) other ≡ (if irq == other then 0 else masked io other)
unfolding pic_enable_irq
masked-pic_enable_irq io irq other h h' b =
    ground (
      arith,
      bit_of-clear_bit (io.cell (port_of irq)) (line_of irq) (line_of other) b (ground arith),
    )

-- `pic_enable_irq` and `pic_disable_irq` clear and set the mask of that one of the 16 lines, and leave
-- the other fifteen as they were, if the mask register of the line holds a byte.
pub masked-enable_disable :
    (io : Ports) (irq other : ℕ)
    → irq < 16
    → other < 16
    → io.cell (port_of irq) < 256
    → (masked (pic_enable_irq irq io) other ≡ (if irq == other then 0 else masked io other))
      × (masked (pic_disable_irq irq io) other ≡ (if irq == other then 1 else masked io other))
unfolding pic_disable_irq
masked-enable_disable io irq other h h' b = (
  masked-pic_enable_irq io irq other h h' b,
  ground (
    arith,
    bit_of-set_bit (io.cell (port_of irq)) (line_of irq) (line_of other) b (ground arith),
  ),
)

-- `pic_eoi` tells the first controller, after the second one if the line is its own, and leaves the
-- masks of all lines alone.
pub pic_eoi_lem :
    (io : Ports) (irq other : ℕ)
    → ((pic_eoi irq io).log
        ≡ (0x80, 0)
          ∷ (0x20, 0x20)
          ∷ ((if ltb irq 8 then [] else (0x80, 0) ∷ (0xA0, 0x20) ∷ []) ++ io.log))
      × (masked (pic_eoi irq io) other ≡ masked io other)
unfolding pic_eoi pic_send_command
pic_eoi_lem io irq other = ground arith

-- The masks that `pic_init` leaves, as the two bytes of its last writes.
init_table :
    passes
      (λ i. bit_of (if ltb i 8 then 0xFB else 0xFF) (line_of i) == (if i == 2 then 0 else 1))
      16
    ≡ true
unfolding passes bit_of
init_table = refl

masks_after_init :
    (irq : ℕ)
    → irq < 16
    → bit_of (if ltb irq 8 then 0xFB else 0xFF) (line_of irq) ≡ (if irq == 2 then 0 else 1)
masks_after_init irq h = (==_iff _ _).0 (passes_at _ 16 h init_table)

-- After `pic_init` only the cascade, line 2, is enabled, and `pic_disable` masks that one too.
pub masked-pic_init :
    (io : Ports) (irq : ℕ)
    → irq < 16
    → (masked (pic_init io) irq ≡ (if irq == 2 then 0 else 1))
      × (masked (pic_disable (pic_init io)) irq ≡ 1)
unfolding pic_init pic_disable pic_send_command pic_send_data
masked-pic_init io irq h =
    ground (arith, masks_after_init irq h, bit_of-full (line_of irq) (ground arith))
