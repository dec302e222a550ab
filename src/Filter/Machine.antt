-- ===== src/Filter/Machine.antt =====
-- The machine that runs the programs of src/filter.c: what the kernel's documentation says of the
-- instructions that they use, and what follows for a whole program.
use Prim.Native.Nat.{bit_and}
use netproc.Base.{
  ℕ, zero, suc, ◌+◌, ◌*◌, ◌≡◌, ap, ◌∙◌, Option, none, some, List, [], ◌∷◌, if◌then◌else◌, leb, ◌==◌,
  length, get_or, drop, map, fun_ext, Bool-cases, inl, inr,
}
use netproc.Filter.{SockFilter, insn}

-- Loads of bytes in the network's order, from a frame that may be too short.
abbrev pub load_byte : List ℕ → ℕ → Option ℕ
load_byte frame k = if leb (k + 1) (length frame) then some (get_or frame k 0) else none

abbrev pub load_half : List ℕ → ℕ → Option ℕ
load_half frame k =
    if leb (k + 2) (length frame)
    then some (get_or frame k 0 * 256 + get_or frame (k + 1) 0)
    else none

abbrev pub load_word : List ℕ → ℕ → Option ℕ
load_word frame k =
    if leb (k + 4) (length frame)
    then some (
        get_or frame k 0 * 16777216
        + get_or frame (k + 1) 0 * 65536
        + get_or frame (k + 2) 0 * 256
        + get_or frame (k + 3) 0)
    else none

-- A machine runs a program from its first instruction on, with a value in its accumulator, and
-- answers how many bytes of the frame to keep. A load outside of the frame ends the run with 0.
abbrev pub loaded : Option ℕ → (ℕ → ℕ) → ℕ
loaded none next = 0
loaded (some v) next = next v

pub record IsMachine (run : List SockFilter → ℕ → List ℕ → ℕ) : Type 0 where
  pub ends : (a : ℕ) (frame : List ℕ) → run [] a frame ≡ 0
  pub ldb :
      (jt jf k : ℕ) (p : List SockFilter) (a : ℕ) (frame : List ℕ)
      → run (insn 0x30 jt jf k ∷ p) a frame ≡ loaded (load_byte frame k) (λ v. run p v frame)
  pub ldh :
      (jt jf k : ℕ) (p : List SockFilter) (a : ℕ) (frame : List ℕ)
      → run (insn 0x28 jt jf k ∷ p) a frame ≡ loaded (load_half frame k) (λ v. run p v frame)
  pub ld :
      (jt jf k : ℕ) (p : List SockFilter) (a : ℕ) (frame : List ℕ)
      → run (insn 0x20 jt jf k ∷ p) a frame ≡ loaded (load_word frame k) (λ v. run p v frame)
  pub and :
      (jt jf k : ℕ) (p : List SockFilter) (a : ℕ) (frame : List ℕ)
      → run (insn 0x54 jt jf k ∷ p) a frame ≡ run p (bit_and a k) frame
  pub jeq :
      (jt jf k : ℕ) (p : List SockFilter) (a : ℕ) (frame : List ℕ)
      → run (insn 0x15 jt jf k ∷ p) a frame ≡ run (drop (if a == k then jt else jf) p) a frame
  pub ret :
      (jt jf k : ℕ) (p : List SockFilter) (a : ℕ) (frame : List ℕ)
      → run (insn 0x6 jt jf k ∷ p) a frame ≡ k

-- The instructions by name, and a run from the one after the next `skip`.
pub data Op : Type 0 where
  load_b : ℕ → Op
  load_h : ℕ → Op
  load_w : ℕ → Op
  mask : ℕ → Op
  jump : ℕ → ℕ → ℕ → Op
  return : ℕ → Op

abbrev pub encode : Op → SockFilter
encode (load_b k) = insn 0x30 0 0 k
encode (load_h k) = insn 0x28 0 0 k
encode (load_w k) = insn 0x20 0 0 k
encode (mask k) = insn 0x54 0 0 k
encode (jump k jt jf) = insn 0x15 jt jf k
encode (return k) = insn 0x6 0 0 k

abbrev pub interp : List Op → ℕ → ℕ → List ℕ → ℕ
interp [] skip a frame = 0
interp (op ∷ ops) (suc skip) a frame = interp ops skip a frame
interp (load_b k ∷ ops) zero a frame = loaded (load_byte frame k) (λ v. interp ops zero v frame)
interp (load_h k ∷ ops) zero a frame = loaded (load_half frame k) (λ v. interp ops zero v frame)
interp (load_w k ∷ ops) zero a frame = loaded (load_word frame k) (λ v. interp ops zero v frame)
interp (mask k ∷ ops) zero a frame = interp ops zero (bit_and a k) frame
interp (jump k jt jf ∷ ops) zero a frame =
    let yes = interp ops jt a frame in let no = interp ops jf a frame in if a == k then yes else no
interp (return k ∷ ops) zero a frame = k

module _ {run : List SockFilter → ℕ → List ℕ → ℕ} (m : IsMachine run) where
  -- Every machine runs a program in the same way.
  pub run-interp :
      (ops : List Op) (skip a : ℕ) (frame : List ℕ)
      → run (drop skip (map encode ops)) a frame ≡ interp ops skip a frame
  run-interp [] zero a frame = m.ends a frame
  run-interp [] (suc skip) a frame = m.ends a frame
  run-interp (op ∷ ops) (suc skip) a frame = run-interp ops skip a frame
  run-interp (load_b k ∷ ops) zero a frame =
      m.ldb 0 0 k (map encode ops) a frame
      ∙ ap (loaded (load_byte frame k)) (fun_ext λ v. run-interp ops 0 v frame)
  run-interp (load_h k ∷ ops) zero a frame =
      m.ldh 0 0 k (map encode ops) a frame
      ∙ ap (loaded (load_half frame k)) (fun_ext λ v. run-interp ops 0 v frame)
  run-interp (load_w k ∷ ops) zero a frame =
      m.ld 0 0 k (map encode ops) a frame
      ∙ ap (loaded (load_word frame k)) (fun_ext λ v. run-interp ops 0 v frame)
  run-interp (mask k ∷ ops) zero a frame =
      m.and 0 0 k (map encode ops) a frame ∙ run-interp ops 0 (bit_and a k) frame
  run-interp (jump k jt jf ∷ ops) zero a frame =
      m.jeq jt jf k (map encode ops) a frame ∙ elim (Bool-cases (a == k)) [
        | inl e ↦ rw e (run-interp ops jt a frame)
        | inr e ↦ rw e (run-interp ops jf a frame)
      ]
  run-interp (return k ∷ ops) zero a frame = m.ret 0 0 k (map encode ops) a frame
