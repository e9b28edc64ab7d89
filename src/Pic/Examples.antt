-- ===== src/Pic/Examples.antt =====
-- Examples for kernel/cpu/pic.c.
use simpleos.Common.{◌≡◌, arith, ◌∷◌, []}
use simpleos.Io.{Ports}
use simpleos.Pic.{pic_init, pic_disable, pic_enable_irq, pic_disable_irq, pic_eoi}
use simpleos.Pic.Masks.{masked, masked-enable_disable, masked-pic_init, pic_eoi_lem}

-- Both mask registers hold 0xB8.
abbrev quiet_ports : Ports
quiet_ports = record { cell = λ port. 0xB8; log = [] }

masked-enable_disable_example :
    (masked (pic_enable_irq 12 quiet_ports) 12 ≡ 0)
    × (masked (pic_disable_irq 12 quiet_ports) 12 ≡ 1)
masked-enable_disable_example =
    masked-enable_disable quiet_ports 12 12 (omega arith) (omega arith) (omega arith)

pic_eoi_lem_example :
    ((pic_eoi 12 quiet_ports).log ≡ (0x80, 0) ∷ (0x20, 0x20) ∷ (0x80, 0) ∷ (0xA0, 0x20) ∷ [])
    × (masked (pic_eoi 12 quiet_ports) 3 ≡ masked quiet_ports 3)
pic_eoi_lem_example = pic_eoi_lem quiet_ports 12 3

masked-pic_init_example :
    (masked (pic_init quiet_ports) 1 ≡ 1) × (masked (pic_disable (pic_init quiet_ports)) 1 ≡ 1)
masked-pic_init_example = masked-pic_init quiet_ports 1 (omega arith)
