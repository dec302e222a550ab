-- ===== src/Ring.antt =====
-- src/ring.c: the sizes of the ring that the kernel writes frames to, and where its blocks are. The
-- answers of the system calls and of `malloc` are given.
pub mod Blocks
mod Tests
use netproc.Base.{
  ℕ, zero, suc, ◌+◌, ◌*◌, ◌/◌, ◌%◌, Bool, true, false, ◌&&◌, Option, none, some, List, [], ◌∷◌,
  if◌then◌else◌, ltb, u32_mod, mul64,
}

abbrev pub n_blocks : ℕ
n_blocks = 4

abbrev pub frames_per_block : ℕ
frames_per_block = 128

abbrev pub len_frame : ℕ
len_frame = 2048

-- The fields of `struct tpacket_req3` that are not 0.
pub record TpacketReq : Type 0 where
  pub tp_block_size : ℕ
  pub tp_block_nr : ℕ
  pub tp_frame_size : ℕ
  pub tp_frame_nr : ℕ

-- `tp_block_size <<= 1` on 32 bits, for at most so many rounds.
unfoldable pub double_block : ℕ → ℕ → ℕ
double_block zero size = size
double_block (suc rounds) size =
    let rest = double_block rounds (size * 2 % u32_mod) in
    if ltb size (len_frame * frames_per_block) then rest else size

-- From a page of one byte 18 rounds are enough; `none` is a page size that is not known.
unfoldable pub create_ring_buff : Option ℕ → Option TpacketReq
unfolding double_block
create_ring_buff none = none
create_ring_buff (some page_size) =
    let size = double_block 18 (page_size % u32_mod) in
    some (record {
      tp_block_size = size;
      tp_block_nr = n_blocks;
      tp_frame_size = len_frame;
      tp_frame_nr = n_blocks * (size / len_frame);
    })

-- The start and the length of each block, from the block `i` on.
abbrev pub blocks : ℕ → ℕ → ℕ → ℕ → List (ℕ × ℕ)
blocks map size i zero = []
blocks map size i (suc n) = (map + i * size, size) ∷ blocks map size (suc i) n

-- `req.tp_block_nr * req.tp_block_size`, a product on 32 bits before it becomes a `size_t`.
abbrev pub rx_ring_size : TpacketReq → ℕ
rx_ring_size req = req.tp_block_nr * req.tp_block_size % u32_mod

pub record Ring : Type 0 where
  pub req : TpacketReq
  pub map : ℕ
  pub rd : List (ℕ × ℕ)

abbrev pub mapped_ring : TpacketReq → Option ℕ → Bool → Option Ring
mapped_ring req none memory = none
mapped_ring req (some map) false = none
mapped_ring req (some map) true =
    some (record { req = req; map = map; rd = blocks map req.tp_block_size 0 req.tp_block_nr })

-- `map_buff`, where `mmap` gives an address for a length, if it gives one.
abbrev pub map_buff : TpacketReq → (ℕ → Option ℕ) → Bool → Option Ring
map_buff req mmap memory = mapped_ring req (mmap (rx_ring_size req)) memory

-- After `create_ring_buff`; both calls of `config_ring` must succeed.
abbrev pub ring_mapped : Bool → (ℕ → Option ℕ) → Bool → Option TpacketReq → Option Ring
ring_mapped configured mmap memory none = none
ring_mapped configured mmap memory (some req) =
    if configured then map_buff req mmap memory else none

unfoldable pub ring_init : Bool → Option ℕ → Bool → (ℕ → Option ℕ) → Bool → Option Ring
unfolding create_ring_buff
ring_init ring_memory page_size configured mmap memory =
    if ring_memory then ring_mapped configured mmap memory (create_ring_buff page_size) else none
