-- ===== src/CString/Fill.antt =====
-- `strncpy` of kernel/string.c: what it writes, and where.
use hv_sebek.Base.{
  ℕ, zero, suc, ◌≤◌, ◌≡◌, refl, arith, List, [], ◌∷◌, ◌++◌, ◌==◌, length, take, drop, replicate,
  false,
}
use hv_sebek.Base.Run.{ok}
use hv_sebek.CString.{strncpy}
use hv_sebek.CString.Compare.{Text, stored}

strncpy_padded :
    (size room : ℕ) (dst s after : List ℕ)
    → Text s
    → size ≤ length dst
    → size ≤ room
    → strncpy dst (stored s after) size ≡ ok (take size (s ++ replicate room 0) ++ drop size dst)
unfolding strncpy
strncpy_padded zero room dst s after t fits le = refl
strncpy_padded (suc size) room [] s after t fits le = absurd (omega arith)
strncpy_padded (suc size) zero (d ∷ dst) s after t fits le = absurd (omega arith)
strncpy_padded (suc size) (suc room) (d ∷ dst) [] after t fits le =
    rw (strncpy_padded size room dst [] after t (omega arith) (omega arith))
strncpy_padded (suc size) (suc room) (d ∷ dst) (c ∷ s) after t fits le =
    let some_c : (c == 0) ≡ false = ground arith in
    rw (some_c, strncpy_padded size (suc room) dst s after t.2 (omega arith) (omega arith))

-- Into a destination of at least `size` bytes, `strncpy` writes the first `size` bytes of the text
-- followed by zeros, and leaves the rest; a text of `size` bytes or more is not ended.
pub strncpy_lem :
    (size : ℕ) (dst s after : List ℕ)
    → Text s
    → size ≤ length dst
    → strncpy dst (stored s after) size ≡ ok (take size (s ++ replicate size 0) ++ drop size dst)
strncpy_lem size dst s after t fits = strncpy_padded size size dst s after t fits (omega arith)
