-- ===== src/Vector.antt =====
-- src/vector.c: a growing array behind a header. The header and the elements stand in one block
-- of memory, which `vector_alloc` asks `realloc` for; `realloc` is not part of the program, so a
-- call takes its answer (whether there is memory) as an argument.
pub mod Refine
mod Tests
use netproc.Base.{
  ℕ, zero, suc, ◌+◌, ◌-◌, ◌*◌, ◌/◌, ◌%◌, ◌^◌, Bool, true, false, Option, none, some, List, [], ◌∷◌,
  ◌++◌, map, if◌then◌else◌, ◌==◌, take, replicate, set, get_or, length, add64, sub64, mul64,
  u64_mod,
}

-- `struct vector`, with the block's cells; a cell that was never written holds `none`.
pub record Vector {ℓ} (A : Type ℓ) : Type ℓ where
  pub elements_allocated : ℕ
  pub elements_used : ℕ
  pub element_size : ℕ
  pub cells : List (Option A)

-- `sizeof ( struct vector )`
abbrev pub sizeof_vector : ℕ
sizeof_vector = 24

abbrev pub len_init_vector : ℕ
len_init_vector = 16

module _ {ℓ} {A : Type ℓ} where
  -- `realloc` to `count` elements keeps the cells that still fit; what is new is not initialised.
  abbrev pub realloc_cells : List (Option A) → ℕ → List (Option A)
  realloc_cells cells zero = []
  realloc_cells [] (suc n) = none ∷ realloc_cells [] n
  realloc_cells (c ∷ cells) (suc n) = c ∷ realloc_cells cells n

  -- `vector_alloc`: a block of `size` bytes and the header, on 64 bits; what is left of it after the
  -- header are the cells.
  abbrev pub vector_alloc : Bool → Vector A → ℕ → Option (List (Option A))
  vector_alloc memory v size =
      let room = add64 size sizeof_vector - sizeof_vector in
      if memory then some (realloc_cells v.cells (room / v.element_size)) else none

  -- `memcpy` to the cell at `elements_used`
  abbrev pub vector_copy : Vector A → A → Vector A
  vector_copy v x = record v { cells = set v.cells v.elements_used (some x) }

  unfoldable pub vector_new : Bool → ℕ → Option (Vector A)
  vector_new memory size_member =
      let empty : Vector A = record {
        elements_allocated = len_init_vector;
        elements_used = 0;
        element_size = size_member;
        cells = [];
      } in
      elim (vector_alloc memory empty (mul64 len_init_vector size_member)) [
        | none ↦ none
        | some cells ↦ some (record empty { cells = cells })
      ]

  -- The branch that makes room: `elements_allocated <<= 1`, and `>>= 1` if there is no memory.
  abbrev pub grow : Bool → Vector A → Vector A × Bool
  grow memory v =
      let doubled = record v { elements_allocated = mul64 v.elements_allocated 2 } in
      elim (vector_alloc memory doubled (mul64 doubled.elements_allocated v.element_size)) [
        | none ↦ (record doubled { elements_allocated = doubled.elements_allocated / 2 }, false)
        | some cells ↦ (record doubled { cells = cells }, true)
      ]

  abbrev pub append_copy : Vector A → A → Vector A
  append_copy v x = let w = vector_copy v x in record w { elements_used = add64 w.elements_used 1 }

  -- The vector behind `*mem` afterwards, and the result, 1 or 0.
  unfoldable pub vector_push : Bool → Vector A → A → Vector A × ℕ
  vector_push memory v x =
      if v.elements_used == v.elements_allocated
      then (let (w, done) = grow memory v in if done then (append_copy w x, 1) else (w, 0))
      else (append_copy v x, 1)

  -- The pointer that `vector_pop` returns is given as what it points to.
  pub vector_pop : Vector A → Vector A × Option A
  vector_pop v =
      let used = sub64 v.elements_used 1 in
      (record v { elements_used = used }, get_or v.cells used none)

  pub vector_clear : Vector A → Vector A
  vector_clear v = record v { elements_used = 0 }

  pub vector_size : Vector A → ℕ
  vector_size v = v.elements_used
