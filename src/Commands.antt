-- ===== src/Commands.antt =====
-- The commands of kernel/shell/shell.c. A command is the list of what it does to the screen and the
-- machine, in order; `show` does the part on the screen with the console of kernel/kernel.c.
pub mod Screen
pub mod Dump
pub mod Sizes
mod Examples
use simpleos.Common.{
  ℕ, zero, suc, ◌+◌, ◌-◌, ◌*◌, ◌/◌, ◌%◌, ◌^◌, Bool, true, false, not, ◌&&◌, ◌||◌, leb, ltb, ◌==◌,
  if◌then◌else◌, List, [], ◌∷◌, ◌++◌, Option, none, some, length, min, ℤ, pos, negsuc, get_or,
}
use simpleos.Console.{
  Console, color_cyan, console_print, console_putchar, console_set_color, console_clear, dec_text,
  hex_text,
}
use simpleos.Pmm.{Pmm, get_total_pages, get_free_pages, get_used_pages}
use simpleos.Heap.{Heap, heap_get_total_size, heap_get_free_size, heap_get_used_size}
use simpleos.Process.{
  Process, ProcState, Table, unused, ready, running, blocked, zombie, is_unused, process_get_table,
}
use simpleos.History.{History, history_init, history_add, str_equal}
use simpleos.Shell.{Line, parse_uint, arguments, is_empty, shell_readline}

-- The calls of `console_set_color`, of `console_print` and the functions that print a number, of
-- `console_putchar` and `console_clear`; a write to a port; and the loop that halts for ever.
pub data Output : Type 0 where
  color : ℕ → Output
  text : List ℕ → Output
  char : ℕ → Output
  clear : Output
  port : ℕ → ℕ → Output
  halt : Output

abbrev pub color_white : ℕ
color_white = 0x00FFFFFF

abbrev pub color_green : ℕ
color_green = 0x0000FF00

abbrev pub color_yellow : ℕ
color_yellow = 0x0000FFFF

abbrev pub color_red : ℕ
color_red = 0x000000FF

-- One call, and calls in order, on the screen.
unfoldable pub show_one : Output → Console → Console
show_one (color c) s = console_set_color c s
show_one (text t) s = console_print t s
show_one (char c) s = console_putchar c s
show_one clear s = console_clear s
show_one (port at value) s = s
show_one halt s = s

unfoldable pub show : List Output → Console → Console
show [] s = s
show (o ∷ os) s = show os (show_one o s)

-- What the commands read.
pub record Machine : Type 0 where
  pub ticks : ℕ
  pub pmm : Pmm
  pub heap : Heap
  pub table : Table
  pub memory : ℕ → ℕ

-- The unit of `print_bytes_human` for a number of bytes, with its name.
pub record ByteUnit : Type 0 where
  pub bytes : ℕ
  pub suffix : List ℕ

unfoldable pub unit_of : ℕ → ByteUnit
unit_of n =
    if leb (1024 * 1024 * 1024) n
    then (record { bytes = 1024 * 1024 * 1024; suffix = (b'G' ∷ b'B' ∷ []) })
    else if leb (1024 * 1024) n
    then (record { bytes = 1024 * 1024; suffix = (b'M' ∷ b'B' ∷ []) })
    else if leb 1024 n
    then (record { bytes = 1024; suffix = (b'K' ∷ b'B' ∷ []) })
    else (record { bytes = 1; suffix = (b'B' ∷ []) })

-- `whole`, and `frac`, the first digit behind the point.
unfoldable pub whole_of : ℕ → ℕ
whole_of n = n / (unit_of n).bytes

unfoldable pub frac_of : ℕ → ℕ
frac_of n = (n % (unit_of n).bytes) * 10 / (unit_of n).bytes

unfoldable pub print_bytes_human : ℕ → List Output
print_bytes_human n =
    text (b' ' ∷ b'(' ∷ [])
    ∷ text (dec_text (whole_of n))
    ∷ ((if not (get_or (unit_of n).suffix 0 0 == b'B')
          then char b'.' ∷ text (dec_text (frac_of n)) ∷ char b' ' ∷ []
          else char b' ' ∷ [])
        ++ (text (unit_of n).suffix ∷ text (b')' ∷ []) ∷ []))

unfoldable pub cmd_help : List Output
cmd_help =
    color color_cyan
    ∷ text (
        b'A' ∷ b'v' ∷ b'a' ∷ b'i' ∷ b'l' ∷ b'a' ∷ b'b' ∷ b'l' ∷ b'e' ∷ b' ' ∷ b'c' ∷ b'o' ∷ b'm'
        ∷ b'm' ∷ b'a' ∷ b'n' ∷ b'd' ∷ b's' ∷ b':' ∷ b'\n' ∷ [])
    ∷ color color_white
    ∷ text (
        b' ' ∷ b' ' ∷ b'h' ∷ b'e' ∷ b'l' ∷ b'p' ∷ b' ' ∷ b' ' ∷ b' ' ∷ b' ' ∷ b' ' ∷ b' ' ∷ b' '
        ∷ b' ' ∷ b'-' ∷ b' ' ∷ b'S' ∷ b'h' ∷ b'o' ∷ b'w' ∷ b' ' ∷ b't' ∷ b'h' ∷ b'i' ∷ b's' ∷ b' '
        ∷ b'h' ∷ b'e' ∷ b'l' ∷ b'p' ∷ b'\n' ∷ [])
    ∷ text (
        b' ' ∷ b' ' ∷ b'c' ∷ b'l' ∷ b'e' ∷ b'a' ∷ b'r' ∷ b' ' ∷ b' ' ∷ b' ' ∷ b' ' ∷ b' ' ∷ b' '
        ∷ b' ' ∷ b'-' ∷ b' ' ∷ b'C' ∷ b'l' ∷ b'e' ∷ b'a' ∷ b'r' ∷ b' ' ∷ b't' ∷ b'h' ∷ b'e' ∷ b' '
        ∷ b's' ∷ b'c' ∷ b'r' ∷ b'e' ∷ b'e' ∷ b'n' ∷ b'\n' ∷ [])
    ∷ text (
        b' ' ∷ b' ' ∷ b'e' ∷ b'c' ∷ b'h' ∷ b'o' ∷ b' ' ∷ b'[' ∷ b't' ∷ b'e' ∷ b'x' ∷ b't' ∷ b']'
        ∷ b' ' ∷ b'-' ∷ b' ' ∷ b'E' ∷ b'c' ∷ b'h' ∷ b'o' ∷ b' ' ∷ b't' ∷ b'e' ∷ b'x' ∷ b't' ∷ b'\n'
        ∷ [])
    ∷ text (
        b' ' ∷ b' ' ∷ b'v' ∷ b'e' ∷ b'r' ∷ b's' ∷ b'i' ∷ b'o' ∷ b'n' ∷ b' ' ∷ b' ' ∷ b' ' ∷ b' '
        ∷ b' ' ∷ b'-' ∷ b' ' ∷ b'S' ∷ b'h' ∷ b'o' ∷ b'w' ∷ b' ' ∷ b'k' ∷ b'e' ∷ b'r' ∷ b'n' ∷ b'e'
        ∷ b'l' ∷ b' ' ∷ b'v' ∷ b'e' ∷ b'r' ∷ b's' ∷ b'i' ∷ b'o' ∷ b'n' ∷ b'\n' ∷ [])
    ∷ text (
        b' ' ∷ b' ' ∷ b'u' ∷ b'p' ∷ b't' ∷ b'i' ∷ b'm' ∷ b'e' ∷ b' ' ∷ b' ' ∷ b' ' ∷ b' ' ∷ b' '
        ∷ b' ' ∷ b'-' ∷ b' ' ∷ b'S' ∷ b'h' ∷ b'o' ∷ b'w' ∷ b' ' ∷ b's' ∷ b'y' ∷ b's' ∷ b't' ∷ b'e'
        ∷ b'm' ∷ b' ' ∷ b'u' ∷ b'p' ∷ b't' ∷ b'i' ∷ b'm' ∷ b'e' ∷ b'\n' ∷ [])
    ∷ text (
        b' ' ∷ b' ' ∷ b'm' ∷ b'e' ∷ b'm' ∷ b'i' ∷ b'n' ∷ b'f' ∷ b'o' ∷ b' ' ∷ b' ' ∷ b' ' ∷ b' '
        ∷ b' ' ∷ b'-' ∷ b' ' ∷ b'S' ∷ b'h' ∷ b'o' ∷ b'w' ∷ b' ' ∷ b'm' ∷ b'e' ∷ b'm' ∷ b'o' ∷ b'r'
        ∷ b'y' ∷ b' ' ∷ b'u' ∷ b's' ∷ b'a' ∷ b'g' ∷ b'e' ∷ b'\n' ∷ [])
    ∷ text (
        b' ' ∷ b' ' ∷ b'p' ∷ b's' ∷ b' ' ∷ b' ' ∷ b' ' ∷ b' ' ∷ b' ' ∷ b' ' ∷ b' ' ∷ b' ' ∷ b' '
        ∷ b' ' ∷ b'-' ∷ b' ' ∷ b'L' ∷ b'i' ∷ b's' ∷ b't' ∷ b' ' ∷ b'p' ∷ b'r' ∷ b'o' ∷ b'c' ∷ b'e'
        ∷ b's' ∷ b's' ∷ b'e' ∷ b's' ∷ b'\n' ∷ [])
    ∷ text (
        b' ' ∷ b' ' ∷ b'h' ∷ b'e' ∷ b'x' ∷ b'd' ∷ b'u' ∷ b'm' ∷ b'p' ∷ b' ' ∷ b'a' ∷ b' ' ∷ b'l'
        ∷ b' ' ∷ b'-' ∷ b' ' ∷ b'D' ∷ b'u' ∷ b'm' ∷ b'p' ∷ b' ' ∷ b'm' ∷ b'e' ∷ b'm' ∷ b'o' ∷ b'r'
        ∷ b'y' ∷ b' ' ∷ b'a' ∷ b't' ∷ b' ' ∷ b'a' ∷ b'd' ∷ b'd' ∷ b'r' ∷ b'e' ∷ b's' ∷ b's' ∷ b'\n'
        ∷ [])
    ∷ text (
        b' ' ∷ b' ' ∷ b'r' ∷ b'e' ∷ b'b' ∷ b'o' ∷ b'o' ∷ b't' ∷ b' ' ∷ b' ' ∷ b' ' ∷ b' ' ∷ b' '
        ∷ b' ' ∷ b'-' ∷ b' ' ∷ b'R' ∷ b'e' ∷ b'b' ∷ b'o' ∷ b'o' ∷ b't' ∷ b' ' ∷ b't' ∷ b'h' ∷ b'e'
        ∷ b' ' ∷ b'm' ∷ b'a' ∷ b'c' ∷ b'h' ∷ b'i' ∷ b'n' ∷ b'e' ∷ b'\n' ∷ [])
    ∷ text (
        b' ' ∷ b' ' ∷ b's' ∷ b'h' ∷ b'u' ∷ b't' ∷ b'd' ∷ b'o' ∷ b'w' ∷ b'n' ∷ b' ' ∷ b' ' ∷ b' '
        ∷ b' ' ∷ b'-' ∷ b' ' ∷ b'P' ∷ b'o' ∷ b'w' ∷ b'e' ∷ b'r' ∷ b' ' ∷ b'o' ∷ b'f' ∷ b'f' ∷ b' '
        ∷ b't' ∷ b'h' ∷ b'e' ∷ b' ' ∷ b'm' ∷ b'a' ∷ b'c' ∷ b'h' ∷ b'i' ∷ b'n' ∷ b'e' ∷ b'\n' ∷ [])
    ∷ []

-- The loop of `cmd_echo` over the arguments behind the command.
unfoldable pub echo_words : List (List ℕ) → List Output
echo_words [] = []
echo_words (w ∷ []) = text w ∷ []
echo_words (w ∷ v ∷ ws) = text w ∷ char b' ' ∷ echo_words (v ∷ ws)

unfoldable pub cmd_echo : List (List ℕ) → List Output
cmd_echo args = echo_words args ++ (char b'\n' ∷ [])

unfoldable pub cmd_version : List Output
cmd_version =
    color color_green
    ∷ text (
        b'S' ∷ b'i' ∷ b'm' ∷ b'p' ∷ b'l' ∷ b'e' ∷ b'O' ∷ b'S' ∷ b' ' ∷ b'K' ∷ b'e' ∷ b'r' ∷ b'n'
        ∷ b'e' ∷ b'l' ∷ b' ' ∷ b'v' ∷ b'0' ∷ b'.' ∷ b'2' ∷ b'\n' ∷ [])
    ∷ color color_white
    ∷ []

unfoldable pub cmd_uptime : Machine → List Output
cmd_uptime m =
    text (b'U' ∷ b'p' ∷ b't' ∷ b'i' ∷ b'm' ∷ b'e' ∷ b':' ∷ b' ' ∷ [])
    ∷ text (dec_text (m.ticks / 100))
    ∷ text (b's' ∷ b'\n' ∷ [])
    ∷ []

unfoldable pub state_to_str : ProcState → List ℕ
state_to_str ready = (b'R' ∷ b'E' ∷ b'A' ∷ b'D' ∷ b'Y' ∷ [])
state_to_str running = (b'R' ∷ b'U' ∷ b'N' ∷ [])
state_to_str blocked = (b'B' ∷ b'L' ∷ b'O' ∷ b'C' ∷ b'K' ∷ [])
state_to_str zombie = (b'Z' ∷ b'O' ∷ b'M' ∷ b'B' ∷ b'I' ∷ b'E' ∷ [])
state_to_str unused = (b'U' ∷ b'N' ∷ b'U' ∷ b'S' ∷ b'E' ∷ b'D' ∷ [])

-- `(uint64_t)proc->priority`.
unfoldable pub to_uint64 : ℤ → ℕ
to_uint64 (pos n) = n % 2 ^ 64
to_uint64 (negsuc n) = 2 ^ 64 - 1 - n % 2 ^ 64

unfoldable pub process_line : Process → List Output
process_line p =
    if is_unused p.state
    then []
    else text (dec_text p.pid)
      ∷ text (b' ' ∷ b' ' ∷ b' ' ∷ [])
      ∷ text (state_to_str p.state)
      ∷ text (b' ' ∷ b' ' ∷ b' ' ∷ [])
      ∷ text (dec_text (to_uint64 p.priority))
      ∷ text (b' ' ∷ b' ' ∷ b' ' ∷ b' ' ∷ [])
      ∷ text p.name
      ∷ char b'\n'
      ∷ []

-- The loop of `cmd_ps` over the slots left, from slot `i` on; slot `i` of the table is pointer `i + 1`.
unfoldable pub process_lines : ℕ → ℕ → (ℕ → Process) → List Output
process_lines zero i procs = []
process_lines (suc left) i procs = process_line (procs (i + 1)) ++ process_lines left (i + 1) procs

unfoldable pub cmd_ps : Machine → List Output
cmd_ps m =
    let (procs, count) = process_get_table m.table in
    color color_cyan
    ∷ text (
        b'P' ∷ b'I' ∷ b'D' ∷ b' ' ∷ b' ' ∷ b' ' ∷ b'S' ∷ b'T' ∷ b'A' ∷ b'T' ∷ b'E' ∷ b' ' ∷ b' '
        ∷ b' ' ∷ b'P' ∷ b'R' ∷ b'I' ∷ b'O' ∷ b' ' ∷ b' ' ∷ b'N' ∷ b'A' ∷ b'M' ∷ b'E' ∷ b'\n' ∷ [])
    ∷ color color_white
    ∷ process_lines count 0 procs

-- One line of `cmd_meminfo`.
unfoldable pub meminfo_line : List ℕ → ℕ → ℕ → List Output
meminfo_line label n bytes = text label ∷ text (dec_text n) ∷ print_bytes_human bytes

unfoldable pub cmd_meminfo : Machine → List Output
cmd_meminfo m =
    let total = get_total_pages m.pmm in
    let free = get_free_pages m.pmm in
    let used = get_used_pages m.pmm in
    let heap_total = heap_get_total_size m.heap in
    let heap_free = heap_get_free_size m.heap in
    let heap_used = heap_get_used_size m.heap in
    color color_cyan
    ∷ text (
        b'M' ∷ b'e' ∷ b'm' ∷ b'o' ∷ b'r' ∷ b'y' ∷ b' ' ∷ b'(' ∷ b'p' ∷ b'a' ∷ b'g' ∷ b'e' ∷ b's'
        ∷ b')' ∷ b':' ∷ b'\n' ∷ [])
    ∷ color color_white
    ∷ (meminfo_line (b' ' ∷ b' ' ∷ b't' ∷ b'o' ∷ b't' ∷ b'a' ∷ b'l' ∷ b':' ∷ b' ' ∷ []) total
          ((total * 4096) % 2 ^ 64)
        ++ (meminfo_line (b'\n' ∷ b' ' ∷ b' ' ∷ b'f' ∷ b'r' ∷ b'e' ∷ b'e' ∷ b':' ∷ b' ' ∷ b' ' ∷ [])
              free ((free * 4096) % 2 ^ 64)
            ++ (meminfo_line
                  (b'\n' ∷ b' ' ∷ b' ' ∷ b'u' ∷ b's' ∷ b'e' ∷ b'd' ∷ b':' ∷ b' ' ∷ b' ' ∷ []) used
                  ((used * 4096) % 2 ^ 64)
                ++ (text (b'\n' ∷ [])
                    ∷ color color_cyan
                    ∷ text (
                        b'H' ∷ b'e' ∷ b'a' ∷ b'p' ∷ b' ' ∷ b'(' ∷ b'b' ∷ b'y' ∷ b't' ∷ b'e' ∷ b's'
                        ∷ b')' ∷ b':' ∷ b'\n' ∷ [])
                    ∷ color color_white
                    ∷ (meminfo_line
                          (b' ' ∷ b' ' ∷ b't' ∷ b'o' ∷ b't' ∷ b'a' ∷ b'l' ∷ b':' ∷ b' ' ∷ [])
                          heap_total heap_total
                        ++ (meminfo_line
                              (b'\n' ∷ b' ' ∷ b' ' ∷ b'f' ∷ b'r' ∷ b'e' ∷ b'e' ∷ b':' ∷ b' ' ∷ b' '
                                ∷ [])
                              heap_free heap_free
                            ++ (meminfo_line
                                  (b'\n' ∷ b' ' ∷ b' ' ∷ b'u' ∷ b's' ∷ b'e' ∷ b'd' ∷ b':' ∷ b' '
                                    ∷ b' ' ∷ [])
                                  heap_used heap_used
                                ++ (text (b'\n' ∷ []) ∷ []))))))))

-- The table `hex` of `cmd_hexdump`, and one of its characters.
abbrev pub hex : List ℕ
hex =
    b'0' ∷ b'1' ∷ b'2' ∷ b'3' ∷ b'4' ∷ b'5' ∷ b'6' ∷ b'7' ∷ b'8' ∷ b'9' ∷ b'A' ∷ b'B' ∷ b'C' ∷ b'D'
    ∷ b'E' ∷ b'F' ∷ []

unfoldable pub hex_char : ℕ → ℕ
hex_char digit = get_or hex digit 0

-- The inner loop of `cmd_hexdump`: the `count` bytes of a line, from address `at` on, which is a word of
-- 64 bits.
unfoldable pub dump_bytes : ℕ → ℕ → (ℕ → ℕ) → List Output
dump_bytes zero at memory = []
dump_bytes (suc count) at memory =
    text (hex_char (memory (at % 2 ^ 64) / 16 % 16) ∷ hex_char (memory (at % 2 ^ 64) % 16) ∷ [])
    ∷ char b' '
    ∷ dump_bytes count (at + 1) memory

-- The outer loop, with fuel; `none` is the end of the fuel.
unfoldable pub dump_lines : ℕ → ℕ → ℕ → ℕ → (ℕ → ℕ) → Option (List Output)
dump_lines zero addr len offset memory = none
dump_lines (suc fuel) addr len offset memory =
    let rest = dump_lines fuel addr len ((offset + 16) % 2 ^ 64) memory in
    if ltb offset len
    then elim rest [
      | none ↦ none
      | some os ↦ some (
          text (hex_text ((addr + offset) % 2 ^ 64))
          ∷ text (b':' ∷ b' ' ∷ [])
          ∷ (dump_bytes (min 16 (len - offset)) (addr + offset) memory ++ (char b'\n' ∷ os)))
    ]
    else some []

-- A dump of `len` bytes has a line for every 16 of them.
unfoldable pub dump : ℕ → ℕ → (ℕ → ℕ) → Option (List Output)
dump addr len memory = dump_lines (len / 16 + 2) addr len 0 memory

-- The two arguments; `none` of the result is a dump that does not end.
unfoldable pub hexdump_of : Option ℕ → Option ℕ → Machine → Option (List Output)
hexdump_of none len m = some (
    text (
      b'I' ∷ b'n' ∷ b'v' ∷ b'a' ∷ b'l' ∷ b'i' ∷ b'd' ∷ b' ' ∷ b'a' ∷ b'r' ∷ b'g' ∷ b'u' ∷ b'm'
      ∷ b'e' ∷ b'n' ∷ b't' ∷ b's' ∷ b'.' ∷ b'\n' ∷ [])
    ∷ [])
hexdump_of (some addr) none m = some (
    text (
      b'I' ∷ b'n' ∷ b'v' ∷ b'a' ∷ b'l' ∷ b'i' ∷ b'd' ∷ b' ' ∷ b'a' ∷ b'r' ∷ b'g' ∷ b'u' ∷ b'm'
      ∷ b'e' ∷ b'n' ∷ b't' ∷ b's' ∷ b'.' ∷ b'\n' ∷ [])
    ∷ [])
hexdump_of (some addr) (some len) m =
    if len == 0
    then some (
        text (
          b'I' ∷ b'n' ∷ b'v' ∷ b'a' ∷ b'l' ∷ b'i' ∷ b'd' ∷ b' ' ∷ b'a' ∷ b'r' ∷ b'g' ∷ b'u' ∷ b'm'
          ∷ b'e' ∷ b'n' ∷ b't' ∷ b's' ∷ b'.' ∷ b'\n' ∷ [])
        ∷ [])
    else dump addr len m.memory

unfoldable pub cmd_hexdump : List (List ℕ) → Machine → Option (List Output)
cmd_hexdump [] m = some (
    text (
      b'U' ∷ b's' ∷ b'a' ∷ b'g' ∷ b'e' ∷ b':' ∷ b' ' ∷ b'h' ∷ b'e' ∷ b'x' ∷ b'd' ∷ b'u' ∷ b'm'
      ∷ b'p' ∷ b' ' ∷ b'<' ∷ b'a' ∷ b'd' ∷ b'd' ∷ b'r' ∷ b'>' ∷ b' ' ∷ b'<' ∷ b'l' ∷ b'e' ∷ b'n'
      ∷ b'>' ∷ b'\n' ∷ [])
    ∷ [])
cmd_hexdump (a ∷ []) m = some (
    text (
      b'U' ∷ b's' ∷ b'a' ∷ b'g' ∷ b'e' ∷ b':' ∷ b' ' ∷ b'h' ∷ b'e' ∷ b'x' ∷ b'd' ∷ b'u' ∷ b'm'
      ∷ b'p' ∷ b' ' ∷ b'<' ∷ b'a' ∷ b'd' ∷ b'd' ∷ b'r' ∷ b'>' ∷ b' ' ∷ b'<' ∷ b'l' ∷ b'e' ∷ b'n'
      ∷ b'>' ∷ b'\n' ∷ [])
    ∷ [])
cmd_hexdump (a ∷ l ∷ args) m = hexdump_of (parse_uint (some a)) (parse_uint (some l)) m

unfoldable pub cmd_reboot : List Output
cmd_reboot =
    color color_yellow
    ∷ text (
        b'R' ∷ b'e' ∷ b'b' ∷ b'o' ∷ b'o' ∷ b't' ∷ b'i' ∷ b'n' ∷ b'g' ∷ b'.' ∷ b'.' ∷ b'.' ∷ b'\n'
        ∷ [])
    ∷ color color_white
    ∷ port 0x64 0xFE
    ∷ halt
    ∷ []

unfoldable pub cmd_shutdown : List Output
cmd_shutdown =
    color color_yellow
    ∷ text (
        b'S' ∷ b'h' ∷ b'u' ∷ b't' ∷ b't' ∷ b'i' ∷ b'n' ∷ b'g' ∷ b' ' ∷ b'd' ∷ b'o' ∷ b'w' ∷ b'n'
        ∷ b'.' ∷ b'.' ∷ b'.' ∷ b'\n' ∷ [])
    ∷ color color_white
    ∷ port 0x604 0x2000
    ∷ port 0xB004 0x2000
    ∷ halt
    ∷ []

unfoldable pub unknown_command : List ℕ → List Output
unknown_command name =
    color color_red
    ∷ text (
        b'U' ∷ b'n' ∷ b'k' ∷ b'n' ∷ b'o' ∷ b'w' ∷ b'n' ∷ b' ' ∷ b'c' ∷ b'o' ∷ b'm' ∷ b'm' ∷ b'a'
        ∷ b'n' ∷ b'd' ∷ b':' ∷ b' ' ∷ [])
    ∷ color color_white
    ∷ text name
    ∷ char b'\n'
    ∷ []

-- The command of a line by its first word, with the arguments behind it.
unfoldable pub run_command : List ℕ → List (List ℕ) → Machine → Option (List Output)
run_command name args m =
    if str_equal name (b'h' ∷ b'e' ∷ b'l' ∷ b'p' ∷ [])
    then some cmd_help
    else if str_equal name (b'c' ∷ b'l' ∷ b'e' ∷ b'a' ∷ b'r' ∷ [])
    then some (clear ∷ [])
    else if str_equal name (b'e' ∷ b'c' ∷ b'h' ∷ b'o' ∷ [])
    then some (cmd_echo args)
    else if str_equal name (b'v' ∷ b'e' ∷ b'r' ∷ b's' ∷ b'i' ∷ b'o' ∷ b'n' ∷ [])
    then some cmd_version
    else if str_equal name (b'u' ∷ b'p' ∷ b't' ∷ b'i' ∷ b'm' ∷ b'e' ∷ [])
    then some (cmd_uptime m)
    else if str_equal name (b'm' ∷ b'e' ∷ b'm' ∷ b'i' ∷ b'n' ∷ b'f' ∷ b'o' ∷ [])
    then some (cmd_meminfo m)
    else if str_equal name (b'p' ∷ b's' ∷ [])
    then some (cmd_ps m)
    else if str_equal name (b'h' ∷ b'e' ∷ b'x' ∷ b'd' ∷ b'u' ∷ b'm' ∷ b'p' ∷ [])
    then cmd_hexdump args m
    else if str_equal name (b'r' ∷ b'e' ∷ b'b' ∷ b'o' ∷ b'o' ∷ b't' ∷ [])
    then some cmd_reboot
    else if str_equal name (b's' ∷ b'h' ∷ b'u' ∷ b't' ∷ b'd' ∷ b'o' ∷ b'w' ∷ b'n' ∷ [])
    then some cmd_shutdown
    else some (unknown_command name)

unfoldable pub run_words : List (List ℕ) → Machine → Option (List Output)
run_words [] m = some []
run_words (name ∷ args) m = run_command name args m

unfoldable pub shell_execute : List ℕ → Machine → Option (List Output)
shell_execute line m = run_words (arguments line) m

unfoldable pub shell_print_banner : List Output
shell_print_banner =
    color color_cyan
    ∷ text (
        b'=' ∷ b'=' ∷ b'=' ∷ b'=' ∷ b'=' ∷ b'=' ∷ b'=' ∷ b'=' ∷ b'=' ∷ b'=' ∷ b'=' ∷ b'=' ∷ b'='
        ∷ b'=' ∷ b'=' ∷ b'=' ∷ b'=' ∷ b'=' ∷ b'=' ∷ b'=' ∷ b'=' ∷ b'=' ∷ b'=' ∷ b'=' ∷ b'=' ∷ b'='
        ∷ b'=' ∷ b'=' ∷ b'=' ∷ b'=' ∷ b'=' ∷ b'=' ∷ b'=' ∷ b'=' ∷ b'=' ∷ b'=' ∷ b'=' ∷ b'=' ∷ b'='
        ∷ b'=' ∷ b'\n' ∷ [])
    ∷ color color_green
    ∷ text (
        b' ' ∷ b' ' ∷ b' ' ∷ b' ' ∷ b' ' ∷ b' ' ∷ b' ' ∷ b' ' ∷ b' ' ∷ b' ' ∷ b' ' ∷ b' ' ∷ b'S'
        ∷ b'i' ∷ b'm' ∷ b'p' ∷ b'l' ∷ b'e' ∷ b'O' ∷ b'S' ∷ b' ' ∷ b'S' ∷ b'h' ∷ b'e' ∷ b'l' ∷ b'l'
        ∷ b'\n' ∷ [])
    ∷ color color_cyan
    ∷ text (
        b'=' ∷ b'=' ∷ b'=' ∷ b'=' ∷ b'=' ∷ b'=' ∷ b'=' ∷ b'=' ∷ b'=' ∷ b'=' ∷ b'=' ∷ b'=' ∷ b'='
        ∷ b'=' ∷ b'=' ∷ b'=' ∷ b'=' ∷ b'=' ∷ b'=' ∷ b'=' ∷ b'=' ∷ b'=' ∷ b'=' ∷ b'=' ∷ b'=' ∷ b'='
        ∷ b'=' ∷ b'=' ∷ b'=' ∷ b'=' ∷ b'=' ∷ b'=' ∷ b'=' ∷ b'=' ∷ b'=' ∷ b'=' ∷ b'=' ∷ b'=' ∷ b'='
        ∷ b'=' ∷ b'\n' ∷ [])
    ∷ color color_white
    ∷ text (
        b'T' ∷ b'y' ∷ b'p' ∷ b'e' ∷ b' ' ∷ b'\'' ∷ b'h' ∷ b'e' ∷ b'l' ∷ b'p' ∷ b'\'' ∷ b' ' ∷ b't'
        ∷ b'o' ∷ b' ' ∷ b'l' ∷ b'i' ∷ b's' ∷ b't' ∷ b' ' ∷ b'c' ∷ b'o' ∷ b'm' ∷ b'm' ∷ b'a' ∷ b'n'
        ∷ b'd' ∷ b's' ∷ b'.' ∷ b'\n' ∷ b'\n' ∷ [])
    ∷ []

unfoldable pub shell_prompt : List Output
shell_prompt =
    color color_green
    ∷ text (b's' ∷ b'i' ∷ b'm' ∷ b'p' ∷ b'l' ∷ b'e' ∷ b'o' ∷ b's' ∷ [])
    ∷ color color_cyan
    ∷ text (b'>' ∷ b' ' ∷ [])
    ∷ color color_white
    ∷ []

unfoldable pub shell_init : History → History × List Output
shell_init h = (history_init h, shell_print_banner)

-- One round of the loop of `shell_run` behind the prompt, for the keys of one line: what the line
-- editor leaves, with the line in the history, and what its command does. `none` are too few keys.
unfoldable pub shell_round : List ℕ → Line → Machine → Option (Line × Option (List Output))
shell_round keys line m = elim (shell_readline keys line) [
  | none ↦ none
  | some l ↦
      if is_empty l.text
      then some (l, some [])
      else some (record l { history = history_add (some l.text) l.history }, shell_execute l.text m)
]
