-- ===== src/Ring/Blocks.antt =====
-- The blocks of the ring of src/ring.c.
use netproc.Base.{
  ℕ, zero, suc, ◌+◌, ◌*◌, ◌%◌, ◌^◌, ◌≤◌, ◌<◌, ◌≡◌, ◌⊎◌, inl, inr, refl, ap, sym, ◌∙◌, true, Option,
  some, ltb, u32_mod, Bool-cases, arith, get_elem?,
}
use native.Mathlib.Nat.{mul_assoc, mul_comm}
use netproc.Base.Bits.{two_pow-suc}
use netproc.Ring.{double_block, create_ring_buff, blocks, Ring, ring_init}

-- A block is the page doubled some times, until it holds 128 frames, and no more often.
pub record Sized (page size : ℕ) : Type 0 where
  pub enough : 262144 ≤ size
  pub least : (size ≡ page) ⊎ (size < 524288)
  pub doubled : (k : ℕ) × (size ≡ page * 2 ^ k)

twice_pow : (s p : ℕ) → s * 2 * p ≡ s * (p * 2)
twice_pow s p = mul_assoc s 2 p ∙ ap (λ q. s * q) (mul_comm 2 p)

double_block-Sized :
    (rounds size : ℕ)
    → 262144 ≤ size * 2 ^ rounds
    → size < u32_mod
    → Sized size (double_block rounds size)
unfolding double_block
double_block-Sized zero size h small = record {
  enough = omega (arith, h);
  least = inl refl;
  doubled = (0, omega arith);
}
double_block-Sized (suc rounds) size h small = elim (Bool-cases (ltb size 262144)) [
  | inl e ↦
      let twice : size * 2 % u32_mod ≡ size * 2 = ground (arith, e) in
      let r =
        double_block-Sized rounds (size * 2)
          (omega (arith, h, twice_pow size (2 ^ rounds), ap (λ q. size * q) (two_pow-suc rounds)))
          (ground (arith, e)) in
      rw (e, twice)
        record {
          enough = r.enough;
          least = elim (r.least) [ inl same ↦ inr (ground (arith, same, e)) | inr less ↦ inr less ];
          doubled =
              let (k, f) = r.doubled in
              (suc k, f ∙ (twice_pow size (2 ^ k) ∙ ap (λ q. size * q) (sym (two_pow-suc k))));
        }
  | inr e ↦ rw e record { enough = ground (arith, e); least = inl refl; doubled = (0, omega arith) }
]

blocks-get :
    (map size i n j : ℕ)
    → j < n
    → get_elem? (blocks map size i n) j ≡ some (map + (i + j) * size, size)
blocks-get map size i zero j h = absurd (omega (arith, h))
blocks-get map size i (suc n) zero h =
    ap (λ k. some (map + k * size, size)) {x = i} {y = i + 0} (omega arith)
blocks-get map size i (suc n) (suc j) h =
    blocks-get map size (suc i) n j (omega (arith, h))
    ∙ ap (λ k. some (map + k * size, size)) {x = suc i + j} {y = i + suc j} (omega arith)

four_inside : (size j : ℕ) → j < 4 → j * size + size ≤ 4 * size
four_inside size zero h = omega arith
four_inside size (suc zero) h = omega arith
four_inside size (suc (suc zero)) h = omega arith
four_inside size (suc (suc (suc zero))) h = omega arith
four_inside size (suc (suc (suc (suc j)))) h = absurd (omega (arith, h))

-- The ring has four blocks that follow one another in a mapping of `len` bytes, each a page doubled
-- until it holds the frames.
pub record Laid (page map len : ℕ) (ring : Ring) : Type 0 where
  pub sized : Sized page ring.req.tp_block_size
  pub count : ring.req.tp_block_nr ≡ 4
  pub frames : 512 ≤ ring.req.tp_frame_nr
  pub fitting :
      ring.req.tp_frame_nr * ring.req.tp_frame_size ≤ ring.req.tp_block_nr * ring.req.tp_block_size
  pub placed :
      (j : ℕ)
      → j < ring.req.tp_block_nr
      → get_elem? ring.rd j ≡ some (map + j * ring.req.tp_block_size, ring.req.tp_block_size)
  pub inside :
      (j : ℕ) → j < ring.req.tp_block_nr → j * ring.req.tp_block_size + ring.req.tp_block_size ≤ len
  pub used : len ≡ ring.req.tp_block_nr * ring.req.tp_block_size

-- Where every call succeeds, for any page of at least one byte and less than 2 ^ 30: the doubling
-- ends, a block holds 128 frames and is the page doubled no more often than that takes, the frames
-- that are announced fit into the blocks, `mmap` is asked for a length and, where it gives an
-- address for that one, the four blocks lie from there one behind the other and fill that length
-- exactly.
pub ring_init-Laid :
    (page : ℕ)
    → 0 < page
    → page < 2 ^ 30
    → (len : ℕ) × ((mmap : ℕ → Option ℕ) (map : ℕ)
        → mmap len ≡ some map
        → (ring : Ring) × (ring_init true (some page) true mmap true ≡ some ring)
          × Laid page map len ring)
unfolding ring_init create_ring_buff
ring_init-Laid page pos small =
    let same : page % u32_mod ≡ page = omega (arith, small) in
    let size = double_block 18 page in
    let sized = double_block-Sized 18 page (omega (arith, pos)) (omega (arith, small)) in
    let bound : size < 2 ^ 30 = ground (arith, small, sized.least) in
    let whole : 4 * size % u32_mod ≡ 4 * size = omega (arith, bound) in
    (
      4 * size,
      λ mmap map given.
          rw (same, whole, given)
            (
              _,
              refl,
              record {
                sized = sized;
                count = refl;
                frames = omega (arith, sized.enough);
                fitting = omega arith;
                placed = λ j h.
                    blocks-get map size 0 4 j h
                    ∙ ap (λ k. some (map + k * size, size)) {x = 0 + j} {y = j} (omega arith);
                inside = λ j h. four_inside size j h;
                used = refl;
              },
            ),
    )
