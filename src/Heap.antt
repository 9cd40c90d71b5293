-- ===== src/Heap.antt =====
-- src/memory/heap.c: a first-fit allocator over one pool. A block starts with a header of 8 bytes,
-- its size and the link of the free list; `heap_pool` is where the linker has put the pool.
pub mod Tiles
pub mod Walks
pub mod Merge
pub mod Blocks
pub mod Sizes
pub mod Returns
pub mod Calls
pub mod Single
pub mod Reached
pub mod Roundtrip
use microkernel_rtos.Common.{
  ℕ, zero, suc, ◌+◌, ◌-◌, ◌*◌, ◌/◌, ◌%◌, Bool, true, false, ◌&&◌, ◌||◌, not, Option, none, some,
  ◌==◌, leb, ltb, if◌then◌else◌, ◌>>=◌,
}
use microkernel_rtos.Links.{Ptr, null, update}
use microkernel_rtos.Kernel.{uint32_mod}

-- RTOS_HEAP_POOL_SIZE
abbrev pub heap_pool_size : ℕ
heap_pool_size = 32768

-- sizeof(heap_block_t)
abbrev pub header_size : ℕ
header_size = 8

-- The rounds that a walk along the free list is given; the pool holds at most 2048 blocks.
abbrev pub heap_fuel : ℕ
heap_fuel = 2049

-- heap_block_t, field by field, and the static variables.
pub record Heap : Type 0 where
  pub block_size : Ptr → ℕ
  pub next_free : Ptr → Ptr
  pub heap_pool : Ptr
  pub free_list : Ptr
  pub heap_ready : Bool

abbrev pub set_next_free : Heap → Ptr → Ptr → Heap
set_next_free h b p = record h { next_free = update h.next_free b p }

abbrev pub set_size : Heap → Ptr → ℕ → Heap
set_size h b n = record h { block_size = update h.block_size b n }

-- _remove_from_list
unfoldable pub remove_from_list : Heap → Ptr → Ptr → Heap
remove_from_list h blk prev =
    let skipped =
      if prev == null
      then record h { free_list = h.next_free blk }
      else set_next_free h prev (h.next_free blk) in
    set_next_free skipped blk null

-- _prepend_free
unfoldable pub prepend_free : Heap → Ptr → Heap
prepend_free h blk = record (set_next_free h blk h.free_list) { free_list = blk }

-- The two writes of _coalesce_forward.
unfoldable pub absorb : Heap → Ptr → Heap
absorb h walk =
    let next = h.next_free walk in
    record h {
      block_size = update h.block_size walk ((h.block_size walk + h.block_size next) % uint32_mod);
      next_free = update h.next_free walk (h.next_free next);
    }

-- The loop of _coalesce_forward.
unfoldable pub coalesce_walk : ℕ → Heap → Ptr → Option Heap
coalesce_walk zero h walk = none
coalesce_walk (suc fuel) h walk =
    let merged = coalesce_walk fuel (absorb h walk) walk in
    let onward = coalesce_walk fuel h (h.next_free walk) in
    if (walk == null) || (h.next_free walk == null)
    then some h
    else if walk + h.block_size walk == h.next_free walk
    then merged
    else onward

-- _coalesce_forward
unfoldable pub coalesce_forward : Heap → Option Heap
coalesce_forward h = coalesce_walk heap_fuel h h.free_list

-- heap_init; of the memory that its memset clears, the headers of blocks.
unfoldable pub heap_init : Heap → Heap
heap_init h = record h {
  block_size = λ a. if a == h.heap_pool then heap_pool_size else zeroed h.block_size a;
  next_free = λ a. if a == h.heap_pool then null else zeroed h.next_free a;
  free_list = h.heap_pool;
  heap_ready = true;
}
  where
    zeroed : (Ptr → ℕ) → Ptr → ℕ
    zeroed f a = if leb h.heap_pool a && ltb a (h.heap_pool + heap_pool_size) then 0 else f a

-- `total`: the size rounded up to 8 bytes, with the header, in size_t.
unfoldable pub total_of : ℕ → ℕ
total_of size = ((size + 7) % uint32_mod / 8 * 8 + header_size) % uint32_mod

-- The loop of heap_alloc: where it leaves `prev` and `curr`, or `none` inside at the end of the list.
unfoldable pub find_fit : ℕ → Heap → ℕ → Ptr → Ptr → Option (Option (Ptr × Ptr))
find_fit zero h total prev curr = none
find_fit (suc fuel) h total prev curr =
    let rest = find_fit fuel h total curr (h.next_free curr) in
    if curr == null
    then some none
    else if leb total (h.block_size curr)
    then some (some (prev, curr))
    else rest

-- The writes that cut the block `curr` in two.
unfoldable pub split_block : Heap → Ptr → ℕ → Heap
split_block h curr total =
    let frag = curr + total in
    let cut =
      set_size (set_next_free (set_size h frag (h.block_size curr - total)) frag null) curr total in
    prepend_free cut frag

-- The body of that loop at a block that is large enough.
unfoldable pub take_block : Heap → ℕ → Ptr → Ptr → Option Heap
take_block h total prev curr =
    let taken = remove_from_list h curr prev in
    if leb (header_size + 8) (h.block_size curr - total)
    then coalesce_forward (split_block taken curr total)
    else some taken

unfoldable pub take_found : Heap → ℕ → Option (Ptr × Ptr) → Option (Ptr × Heap)
take_found h total none = some (null, h)
take_found h total (some (prev, curr)) = do
  h' ← take_block h total prev curr
  some (curr + header_size, h')

-- heap_alloc; the pointer that it returns comes first.
unfoldable pub heap_alloc : Heap → ℕ → Option (Ptr × Heap)
heap_alloc h size = if not h.heap_ready || (size == 0) then some (null, h) else do
  found ← find_fit heap_fuel h (total_of size) null h.free_list
  take_found h (total_of size) found

-- heap_free
pub heap_free : Heap → Ptr → Option Heap
heap_free h ptr =
    if (ptr == null) || not h.heap_ready
    then some h
    else coalesce_forward (prepend_free h ((ptr + uint32_mod - header_size) % uint32_mod))
