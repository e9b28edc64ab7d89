-- ===== src/Heap.antt =====
-- The kernel heap, kernel/mm/heap.c: a first-fit allocator over a doubly linked list of block
-- headers. `cells` is the header stored at an address, `bytes` the user data; a pointer is its
-- address and NULL is 0. The two are kept apart: the callers are taken not to write over headers.
pub mod Blocks
pub mod Segment
pub mod Invariant
pub mod Init
pub mod Split
pub mod Alloc
pub mod Coalesce
pub mod Free
pub mod Coalesced
pub mod Realloc
pub mod Limits
mod Examples
use simpleos.Common.{
  ℕ, zero, suc, ◌+◌, ◌-◌, ◌*◌, ◌/◌, ◌%◌, ◌^◌, Bool, true, false, not, ◌&&◌, ◌||◌, ltb, leb, ◌==◌,
  if◌then◌else◌,
}
use simpleos.Common.Bytes.{update}

-- `heap_block_t`.
pub record Block : Type 0 where
  pub size : ℕ
  pub free : Bool
  pub next : ℕ
  pub prev : ℕ

-- `sizeof(heap_block_t)`: a size, an `int` with its padding, two pointers.
abbrev pub header_size : ℕ
header_size = 32

abbrev pub min_block_size : ℕ
min_block_size = 48

abbrev pub word : ℕ
word = 2 ^ 64

-- `size_t` arithmetic.
abbrev pub add_size : ℕ → ℕ → ℕ
add_size a b = (a + b) % word

abbrev pub sub_size : ℕ → ℕ → ℕ
sub_size a b = (a + word - b) % word

-- `x & ~(ALIGN_SIZE - 1)`.
abbrev pub align_down : ℕ → ℕ
align_down x = x / 8 * 8

abbrev pub align_size : ℕ → ℕ
align_size size = align_down ((size + 7) % word)

abbrev pub Cells : Type 0
Cells = ℕ → Block

-- The file's static variables and the memory behind them.
pub record Heap : Type 0 where
  pub cells : Cells
  pub bytes : ℕ → ℕ
  pub heap_start : ℕ
  pub heap_total_size : ℕ
  pub heap_used_size : ℕ

unfoldable pub heap_init : ℕ → ℕ → Heap → Heap
heap_init start size h =
    if (start == 0) || ltb size min_block_size
    then h
    else (let aligned_start = align_down ((start + 7) % word) in
        let size' = align_down (sub_size size (sub_size aligned_start start)) in
        record h {
          cells =
              update h.cells aligned_start
                (record { size = sub_size size' header_size; free = true; next = 0; prev = 0 });
          heap_start = aligned_start;
          heap_total_size = size';
          heap_used_size = 0;
        })

-- The walk of `find_free_block`. The heap holds at most `heap_total_size / 32` headers.
unfoldable pub find_free_block : ℕ → Cells → ℕ → ℕ → ℕ
find_free_block zero c current size = 0
find_free_block (suc fuel) c current size = elim (current == 0) [
  | true ↦ 0
  | false ↦ elim ((c current).free && leb size (c current).size) [
    | true ↦ current
    | false ↦ find_free_block fuel c (c current).next size
  ]
]

abbrev pub walk_fuel : Heap → ℕ
walk_fuel h = h.heap_total_size / header_size + 1

-- `if (p) p->prev = v;`
unfoldable pub set_prev : Cells → ℕ → ℕ → Cells
set_prev c p v = if p == 0 then c else update c p (record (c p) { prev = v })

unfoldable pub split_block : Cells → ℕ → ℕ → Cells
split_block c block size =
    if ltb (c block).size (add_size size min_block_size)
    then c
    else (let new_block = block + header_size + size in
        let c1 = update c new_block (record {
          size = sub_size (sub_size (c block).size size) header_size;
          free = true;
          next = (c block).next;
          prev = block;
        }) in
        let c2 = set_prev c1 (c1 block).next new_block in
        update c2 block (record (c2 block) { size = size; next = new_block }))

-- The first half of `coalesce_blocks`: absorb the next block if it is free.
unfoldable pub coalesce_next : Cells → ℕ → Cells
coalesce_next c block =
    let next = (c block).next in
    if not (next == 0) && (c next).free
    then (let c1 = update c block (record (c block) {
      size = add_size (c block).size (add_size header_size (c next).size);
      next = (c next).next;
    }) in
        set_prev c1 (c1 block).next block)
    else c

-- The second half: be absorbed by the previous block if that is free.
unfoldable pub coalesce_prev : Cells → ℕ → Cells
coalesce_prev c block =
    let prev = (c block).prev in
    if not (prev == 0) && (c prev).free
    then (let c1 = update c prev (record (c prev) {
      size = add_size (c prev).size (add_size header_size (c block).size);
      next = (c block).next;
    }) in
        set_prev c1 (c1 block).next prev)
    else c

unfoldable pub coalesce_blocks : Cells → ℕ → Cells
coalesce_blocks c block = coalesce_prev (coalesce_next c block) block

-- The end of `kmalloc`, once a block is found: split, take, count.
unfoldable pub take_block : Heap → ℕ → ℕ → ℕ × Heap
take_block h block size =
    let c = split_block h.cells block size in
    (
      block + header_size,
      record h {
        cells = update c block (record (c block) { free = false });
        heap_used_size = add_size h.heap_used_size (add_size (c block).size header_size);
      },
    )

-- The rest of `kmalloc` once the walk has returned.
unfoldable pub finish_alloc : Heap → ℕ → ℕ → ℕ × Heap
finish_alloc h block size = if block == 0 then (0, h) else take_block h block size

unfoldable pub kmalloc : Heap → ℕ → ℕ × Heap
kmalloc h size =
    if size == 0
    then (0, h)
    else finish_alloc h (find_free_block (walk_fuel h) h.cells h.heap_start (align_size size))
        (align_size size)

unfoldable pub release_block : Heap → ℕ → Heap
release_block h block = record h {
  cells = coalesce_blocks (update h.cells block (record (h.cells block) { free = true })) block;
  heap_used_size = sub_size h.heap_used_size (add_size (h.cells block).size header_size);
}

unfoldable pub kfree : Heap → ℕ → Heap
kfree h ptr =
    let block = ptr - header_size in
    if (ptr == 0) || (h.cells block).free then h else release_block h block

-- `for (i = 0; i < n; i++) dst[i] = src[i];`
unfoldable pub copy_bytes : ℕ → ℕ → (ℕ → ℕ) → ℕ → ℕ → ℕ → ℕ
copy_bytes zero i b dst src = b
copy_bytes (suc n) i b dst src = copy_bytes n (i + 1) (update b (dst + i) (b (src + i))) dst src

-- The tail of `krealloc`: a new block, a copy, and the old block freed.
unfoldable pub move_block : Heap → ℕ → ℕ → ℕ → ℕ × Heap
move_block h ptr old_size size =
    let (new_ptr, h1) = kmalloc h size in
    if new_ptr == 0
    then (0, h1)
    else (let copy_size = if ltb old_size size then old_size else size in
        (new_ptr, kfree (record h1 { bytes = copy_bytes copy_size 0 h1.bytes new_ptr ptr }) ptr))

unfoldable pub grow_block : Heap → ℕ → ℕ → ℕ × Heap
grow_block h ptr size =
    let block = ptr - header_size in
    let next = (h.cells block).next in
    let old_size = (h.cells block).size in
    if (not (next == 0) && (h.cells next).free)
      && leb size (add_size (add_size old_size header_size) (h.cells next).size)
    then (let c1 = update h.cells next (record (h.cells next) { free = false }) in
        let c2 = update c1 block (record (c1 block) { size = size }) in
        (ptr, record h { cells = split_block c2 block size }))
    else move_block h ptr old_size size

unfoldable pub krealloc : Heap → ℕ → ℕ → ℕ × Heap
krealloc h ptr size =
    let block = ptr - header_size in
    if ptr == 0
    then kmalloc h size
    else if size == 0
    then (0, kfree h ptr)
    else if leb (align_size size) (h.cells block).size
    then (ptr, record h { cells = split_block h.cells block (align_size size) })
    else grow_block h ptr (align_size size)

unfoldable pub kmalloc_size : Heap → ℕ → ℕ
kmalloc_size h ptr = if ptr == 0 then 0 else (h.cells (ptr - header_size)).size

unfoldable pub heap_get_total_size : Heap → ℕ
heap_get_total_size h = h.heap_total_size

unfoldable pub heap_get_used_size : Heap → ℕ
heap_get_used_size h = h.heap_used_size

unfoldable pub heap_get_free_size : Heap → ℕ
heap_get_free_size h = sub_size h.heap_total_size h.heap_used_size
