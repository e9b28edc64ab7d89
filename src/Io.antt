-- ===== src/Io.antt =====
-- The I/O ports of kernel/io.h: a port reads back the byte last written to it, as the data ports of
-- the interrupt controllers do, and the writes are kept in order, the last one first. What a device
-- answers otherwise is an argument of the code that reads it.
use simpleos.Common.{ℕ, List, ◌∷◌}
use simpleos.Common.Bytes.{update}

pub record Ports : Type 0 where
  pub cell : ℕ → ℕ
  pub log : List (ℕ × ℕ)

abbrev pub inb : Ports → ℕ → ℕ
inb io port = io.cell port

abbrev pub outb : ℕ → ℕ → Ports → Ports
outb port value io = record { cell = update io.cell port value; log = (port, value) ∷ io.log }

-- `io_wait`: a write to the unused port 0x80.
abbrev pub io_wait : Ports → Ports
io_wait io = outb 0x80 0 io
