-- ===== src/Pic.antt =====
-- The 8259 interrupt controllers, kernel/cpu/pic.c.
pub mod Masks
mod Examples
use simpleos.Common.{ℕ, ◌-◌, ltb, leb, if◌then◌else◌}
use simpleos.Common.Bytes.{set_bit, clear_bit}
use simpleos.Io.{Ports, inb, outb, io_wait}

abbrev pub pic1_command : ℕ
pic1_command = 0x20

abbrev pub pic1_data : ℕ
pic1_data = 0x21

abbrev pub pic2_command : ℕ
pic2_command = 0xA0

abbrev pub pic2_data : ℕ
pic2_data = 0xA1

-- `PIC_ICW1_INIT | PIC_ICW1_ICW4`, `PIC_ICW4_8086` and `PIC_EOI`.
abbrev pub icw1 : ℕ
icw1 = 0x11

abbrev pub icw4_8086 : ℕ
icw4_8086 = 0x01

abbrev pub eoi : ℕ
eoi = 0x20

unfoldable pub pic_send_command : ℕ → ℕ → Ports → Ports
pic_send_command pic cmd io = io_wait (outb pic cmd io)

unfoldable pub pic_send_data : ℕ → ℕ → Ports → Ports
pic_send_data pic value io = io_wait (outb pic value io)

unfoldable pub pic_init : Ports → Ports
pic_init io =
    let io1 = pic_send_command pic1_command icw1 io in
    let io2 = pic_send_data pic1_data 32 io1 in
    let io3 = pic_send_data pic1_data 4 io2 in
    let io4 = pic_send_data pic1_data icw4_8086 io3 in
    let io5 = pic_send_command pic2_command icw1 io4 in
    let io6 = pic_send_data pic2_data 40 io5 in
    let io7 = pic_send_data pic2_data 2 io6 in
    let io8 = pic_send_data pic2_data icw4_8086 io7 in
    let io9 = pic_send_data pic1_data 0xFB io8 in pic_send_data pic2_data 0xFF io9

unfoldable pub pic_eoi : ℕ → Ports → Ports
pic_eoi irq io =
    pic_send_command pic1_command eoi
      (if leb 8 irq then pic_send_command pic2_command eoi io else io)

unfoldable pub pic_disable : Ports → Ports
pic_disable io = pic_send_data pic2_data 0xFF (pic_send_data pic1_data 0xFF io)

-- The data port and the bit of an IRQ line.
abbrev pub port_of : ℕ → ℕ
port_of irq = if ltb irq 8 then pic1_data else pic2_data

abbrev pub line_of : ℕ → ℕ
line_of irq = if ltb irq 8 then irq else irq - 8

unfoldable pub pic_enable_irq : ℕ → Ports → Ports
pic_enable_irq irq io = outb (port_of irq) (clear_bit (inb io (port_of irq)) (line_of irq)) io

unfoldable pub pic_disable_irq : ℕ → Ports → Ports
pic_disable_irq irq io = outb (port_of irq) (set_bit (inb io (port_of irq)) (line_of irq)) io
