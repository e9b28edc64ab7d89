-- ===== src/Lib.antt =====
-- SimpleOS: a verification library for the kernel's own logic.
--
-- The kernel keeps physical pages in a bitmap (kernel/mm/pmm.c), carves its heap out of one region
-- of memory (kernel/mm/heap.c), takes interrupts through two 8259 controllers (kernel/cpu/pic.c)
-- from the timer (kernel/drivers/timer.c) and the keyboard (kernel/drivers/keyboard.c), builds page
-- tables from the free pages (kernel/mm/vmm.c), keeps a table of processes (kernel/proc/process.c)
-- between which a scheduler switches (kernel/proc/scheduler.c), and runs a shell whose lines go to a
-- history (kernel/shell/history.c). It draws text on a frame buffer (kernel/kernel.c), finds devices
-- on the PCI bus (kernel/pci.h) and has a network driver with answers to ARP and ping
-- (kernel/virtio_net.h). Each has a module that holds its state as a record and every function under
-- the name it has in C, without the prefix pmm_ for the page allocator; child modules hold the
-- proofs, and a last child the examples.
--
-- * Pmm models kernel/mm/pmm.c. The bitmap is an array of bytes, as in the source, and a null page is
--   an absent value. A loop over pages is recursion on the pages left; the outer loop of
--   pmm_alloc_pages, which moves its start on in every round, has one round of fuel for each page.
--   Bitmap and Count hold the laws of one bit and of the counter, Invariant the well-formed states,
--   Single, Runs and Init the allocation of one page, of runs, and the start.
-- * Heap models kernel/mm/heap.c over memory as a map from addresses to block headers. A walk over
--   the list has as much fuel as headers fit into the heap, each of them taking 32 bytes. Blocks and
--   Segment describe the chain of headers as a list of blocks, Init, Split, Alloc, Coalesce, Free and
--   Coalesced follow the operations on that list, Realloc and Limits treat reallocation and sizes near
--   the end of the address space. The heap lies below address 2 ^ 63, and users of the heap do not
--   write over headers. kmalloc_aligned is left out: it writes into the payload of a block.
-- * Vmm models kernel/mm/vmm.c over memory as a map from addresses to 64-bit words, and the pages of
--   Pmm. Tables describes the page tables as a tree, Walk the translation of an address, Create, Search
--   and Mapping the way down to the entry of a page and its change, Spaces the address spaces.
-- * Process models kernel/proc/process.c. A pointer to a slot of the table is its number, from 1 on, and
--   0 is null. Slots is about the searches and the identifiers, Thread about making and destroying.
-- * Scheduler models kernel/proc/scheduler.c, with the ready queues as lists linked through the table.
--   The walk along a list has 64 rounds of fuel, since a queue holds different slots of a table of 64.
--   A call of context_switch, which is assembly, is recorded. Queue describes the linked lists,
--   Invariant the well-formed queues, Adding and Removing the two operations on them, Choice and
--   Schedule a switch, Sleeping and Insertion the sleep queue, and Faults the cases in which processes
--   are lost.
-- * Gdt and Idt model kernel/cpu/gdt.c and kernel/cpu/idt.c, with the addresses of tables and entry
--   points as arguments. Segments and Gates read back what is written; Handling follows sequences of
--   interrupts through the handler, which drives the timer, the keyboard and the controllers.
-- * Syscall models kernel/syscall/syscall.c on 64-bit words: Dispatch is about the results of the calls.
-- * Io models the byte ports of kernel/io.h: a port reads back what was last written to it, and the
--   writes are recorded. What a device answers of its own is an argument.
-- * Pic models kernel/cpu/pic.c, and Masks follows the interrupt masks.
-- * Keyboard models kernel/drivers/keyboard.c. A character is a byte. Buffer relates the ring to a
--   queue, Keymap the tables to the layout, Handler the interrupts, and Read the reads. A wait for an
--   interrupt takes the next of a list of scancodes; the list is its bound.
-- * Timer models kernel/drivers/timer.c; the callback acts on a state of its owner's.
-- * History models kernel/shell/history.c with lines as lists of the bytes before the NUL. Lines is the
--   view as a list of lines, Add, Walk and Long are about adding, walking and long lines.
-- * Shell models the number parser, the splitting into arguments and the line editor of
--   kernel/shell/shell.c; the keys that the editor reads are a list, which is its bound, and what it
--   prints is recorded. Numbers, Words and Editing are about the three.
-- * Commands models the commands of kernel/shell/shell.c as lists of calls of the console. The loop of
--   cmd_hexdump has one round of fuel for every 16 bytes and two more. Screen, Dump and Sizes are about
--   what is shown; the loop of shell_run is one round.
-- * Net models the helpers of kernel/net.h. The loop that folds the carries of the checksum has three
--   rounds of fuel, which leave no carry of a 32-bit sum. Order, Text and Checksum are about byte order,
--   the texts of addresses and the checksum.
-- * Console models the graphics, the console and the printed numbers of kernel/kernel.c over a frame
--   buffer as a map from indices. The loop of print_dec has 20 rounds of fuel, one for each digit of a
--   64-bit number. Pixels, Drawing and Scrolling say what is seen, Extent which words are written, Cursor
--   and Column where the cursor stands, and Numbers reads the printed numbers back.
-- * Graphics models boot/graphics.h and the font of boot/font.h, with the pixels of Console. Its
--   int_to_str has a round of fuel for each of 20 digits. Figures is about lines, Labels about numbers.
-- * Pci models kernel/pci.h over a configuration space with a word for each address. What a register
--   makes of a word written to it is a parameter. Addresses, Registers, Scan and Devices follow the file.
-- * Virtio models the queues of kernel/virtio.h and kernel/virtio_net.h, with the memory behind the three
--   pointers as part of a queue. Layout is about that memory, FreeList about the free descriptors,
--   Handing about the two operations on them.
-- * VirtioNet models the driver in kernel/virtio_net.h. The answers of the device on its ports are a
--   parameter; Frames holds the answers to frames. A write past the local array of an answer, and a used
--   buffer with a number past the sixteen of the driver, are absent values. The polling loop runs on fuel, for which one more than the used buffers is enough. Setup,
--   Sending, Receiving, Replies, Pings and Polling hold the theorems.
-- * Common holds tests on numbers, lists, bits of a byte, and Ring, the list in a circular array.
--
-- Not modelled: kernel_main, which calls the parts in order, with the threads of its demonstration; the
-- assembly entry points and the UEFI loader, which consist of instructions and firmware calls.
pub mod Commands
pub mod Common
pub mod Console
pub mod Gdt
pub mod Graphics
pub mod Heap
pub mod History
pub mod Idt
pub mod Io
pub mod Keyboard
pub mod Net
pub mod Pci
pub mod Pic
pub mod Pmm
pub mod Process
pub mod Scheduler
pub mod Shell
pub mod Syscall
pub mod Timer
pub mod Virtio
pub mod VirtioNet
pub mod Vmm
