-- ===== src/Ring/Tests.antt =====
-- The ring of src/ring.c for pages of 4096 bytes, and the theorem at it.
use netproc.Base.{ℕ, Option, none, ◌==◌, if◌then◌else◌, ◌≡◌, refl, true, some, [], ◌∷◌, arith}
use netproc.Ring.{Ring, ring_init, create_ring_buff, double_block}
use netproc.Ring.Blocks.{Laid, ring_init-Laid}

ring_init_test :
    ring_init true (some 4096) true (λ len. some 1000000) true
    ≡ some (record {
      req = record {
        tp_block_size = 262144;
        tp_block_nr = 4;
        tp_frame_size = 2048;
        tp_frame_nr = 512;
      };
      map = 1000000;
      rd = (1000000, 262144) ∷ (1262144, 262144) ∷ (1524288, 262144) ∷ (1786432, 262144) ∷ [];
    })
unfolding ring_init create_ring_buff double_block
ring_init_test = refl

-- A page of 2 ^ 30 bytes makes the length wrap round to 0.
wrapped_test :
    ring_init true (some 0x4000_0000) true (λ len. if len == 0 then none else some 1000000) true
    ≡ none
unfolding ring_init create_ring_buff double_block
wrapped_test = refl

ring_init-Laid_example :
    (len : ℕ) × ((mmap : ℕ → Option ℕ) (map : ℕ)
      → mmap len ≡ some map
      → (ring : Ring) × (ring_init true (some 4096) true mmap true ≡ some ring)
        × Laid 4096 map len ring)
ring_init-Laid_example = ring_init-Laid 4096 (omega arith) (omega arith)
