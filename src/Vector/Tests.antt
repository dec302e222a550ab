-- ===== src/Vector/Tests.antt =====
-- The vector at concrete inputs.
use netproc.Base.{ℕ, ◌≡◌, refl, true, false, none, some, [], ◌∷◌, arith, replicate}
use netproc.Vector.{Vector, vector_new, vector_push, vector_pop}
use netproc.Vector.Refine.{IsValid, contents, Pushed, vector_push-Pushed, vector_pop-vector_push}

-- A full vector of pointers.
abbrev full : Vector ℕ
full = record {
  elements_allocated = 2;
  elements_used = 2;
  element_size = 8;
  cells = some 10 ∷ some 20 ∷ [];
}

full-IsValid : IsValid full
full-IsValid = omega arith

-- `vector_push` doubles the block of a full vector.
push-full_grows : contents (vector_push true full 30).0 ≡ 10 ∷ 20 ∷ 30 ∷ []
unfolding vector_push
push-full_grows = refl

-- With no memory the push is refused.
push-full_refused : vector_push false full 30 ≡ (full, 0)
unfolding vector_push
push-full_refused = refl

vector_push-Pushed_example : Pushed false full 30 (vector_push false full 30)
vector_push-Pushed_example = vector_push-Pushed false 30 full-IsValid (omega arith)

vector_pop-vector_push_example :
    let (w, out) = vector_pop (vector_push true full 30).0 in
    (out ≡ some 30) × (contents w ≡ 10 ∷ 20 ∷ []) × IsValid w
vector_pop-vector_push_example = vector_pop-vector_push 30 full-IsValid (omega arith)

abbrev fresh : Vector ℕ
fresh = record {
  elements_allocated = 16;
  elements_used = 0;
  element_size = 8;
  cells = replicate 16 none;
}

new_runs : vector_new true 8 ≡ some fresh
unfolding vector_new
new_runs = refl
