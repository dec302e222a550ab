-- ===== src/FullRead/Tests.antt =====
-- Reads of src/full_read.c, and the theorem at them.
use netproc.Base.{Bool, true, false, List, [], ◌∷◌, ◌≡◌, refl, arith}
use netproc.FullRead.{Read, interrupted, up_to, total_read, error_exit, full_read, read_loop}
use netproc.FullRead.Whole.{Whole, full_read-Whole}

-- Two bytes, an interruption, one byte, and twice the end.
abbrev reads : List (Bool × Read)
reads =
    (true, up_to 1) ∷ (true, interrupted) ∷ (true, up_to 9) ∷ (true, up_to 9) ∷ (true, up_to 9) ∷ []

full_read_test : full_read reads (5 ∷ 6 ∷ 7 ∷ []) ≡ total_read (5 ∷ 6 ∷ 7 ∷ []) 64
unfolding full_read read_loop
full_read_test = refl

no_memory_test : full_read ((false, up_to 1) ∷ []) (5 ∷ []) ≡ error_exit
unfolding full_read read_loop
no_memory_test = refl

full_read-Whole_example : Whole (5 ∷ 6 ∷ 7 ∷ []) (full_read reads (5 ∷ 6 ∷ 7 ∷ []))
full_read-Whole_example =
    full_read-Whole reads (5 ∷ 6 ∷ 7 ∷ []) (refl, (refl, (refl, (refl, (refl, tt))))) (omega arith)
