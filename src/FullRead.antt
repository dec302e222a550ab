-- ===== src/FullRead.antt =====
-- src/full_read.c: the loop that reads a whole file into a buffer that grows. What `read` and
-- `realloc` do in each round is given; the bytes that are left in the file are a list.
pub mod Whole
mod Tests
use Prim.Native.Nat.{min}
use netproc.Base.{
  ℕ, zero, suc, ◌+◌, ◌-◌, Bool, true, false, List, [], ◌∷◌, ◌++◌, ◌==◌, if◌then◌else◌, ◌&&◌, not,
  length, take, drop,
}

abbrev pub entry_size_buff : ℕ
entry_size_buff = 64

-- A call of `read` that is interrupted, fails, or gives at most so many bytes and one more, the
-- file's end where none is left.
pub data Read : Type 0 where
  interrupted : Read
  failing : Read
  up_to : ℕ → Read

-- The text with the size of its buffer, -1, or that the rounds given did not suffice.
pub data Outcome : Type 0 where
  total_read : List ℕ → ℕ → Outcome
  error_exit : Outcome
  unfinished : Outcome

-- `if ( !count )`: the room that is left, and the size.
abbrev pub grow : ℕ → ℕ → ℕ × ℕ
grow count buff_size =
    if count == 0 then (entry_size_buff, buff_size + entry_size_buff) else (count, buff_size)

-- The loop; `text` is what the buffer holds, and `count` the room that is left in it.
unfoldable pub read_loop : List (Bool × Read) → ℕ → ℕ → List ℕ → List ℕ → Outcome
read_loop [] count buff_size text content = unfinished
read_loop ((memory, interrupted) ∷ reads) count buff_size text content =
    let (count', size) = grow count buff_size in
    let rest = read_loop reads count' size text content in
    if (count == 0) && not memory then error_exit else rest
read_loop ((memory, failing) ∷ reads) count buff_size text content = error_exit
read_loop ((memory, up_to n) ∷ reads) count buff_size text [] =
    let (count', size) = grow count buff_size in
    if (count == 0) && not memory then error_exit else total_read text size
read_loop ((memory, up_to n) ∷ reads) count buff_size text (c ∷ content) =
    let (count', size) = grow count buff_size in
    let bytes = take (min (suc n) count') (c ∷ content) in
    let rest =
      read_loop reads (count' - length bytes) size (text ++ bytes)
        (drop (min (suc n) count') (c ∷ content)) in
    if (count == 0) && not memory then error_exit else rest

unfoldable pub full_read : List (Bool × Read) → List ℕ → Outcome
unfolding read_loop
full_read reads content = read_loop reads 0 0 [] content
