-- ===== src/Printf/Render.antt =====
-- What `vsnprintf` of kernel/printf.c writes, where it fits and where it does not.
use hv_sebek.Base.{
  ℕ, ◌+◌, ◌^◌, ◌≤◌, ◌<◌, ◌≡◌, refl, ap, ◌∙◌, arith, true, false, ltb, ◌==◌, if◌then◌else◌, List, [],
  ◌∷◌, ◌++◌, Words, update, length, length-append, get_or,
}
use hv_sebek.Base.Run.{ok}
use hv_sebek.Printf.{
  Arg, pointer, number, write_digits, convert, convert_hex, format_from, vsnprintf, count,
}
use hv_sebek.Printf.Hex.{hex_text, hex_digits_lem}
use hv_sebek.Printf.Pieces.{
  Piece, plain, char, text, hex, percent, AllPieces, format_of, args_of, shown, text_of, place,
  place_lem, place-append, format_from-piece,
}

format-cons :
    (p : Piece) (ps : List Piece) (fmt : List ℕ)
    → format_of (p ∷ ps) ++ fmt ≡ format_of (p ∷ []) ++ (format_of ps ++ fmt)
format-cons (plain c) ps fmt = refl
format-cons (char c) ps fmt = refl
format-cons (text s after) ps fmt = refl
format-cons (hex n) ps fmt = refl
format-cons percent ps fmt = refl

args-cons :
    (p : Piece) (ps : List Piece) (args : List Arg)
    → args_of (p ∷ ps) ++ args ≡ args_of (p ∷ []) ++ (args_of ps ++ args)
args-cons (plain c) ps args = refl
args-cons (char c) ps args = refl
args-cons (text s after) ps args = refl
args-cons (hex n) ps args = refl
args-cons percent ps args = refl

format_from-pieces :
    (ps : List Piece) (size : ℕ) (fmt : List ℕ) (args : List Arg) (buf : Words) (j : ℕ)
    → AllPieces ps
    → j + length (text_of ps) ≤ size
    → format_from false size (format_of ps ++ fmt) (args_of ps ++ args) buf j
      ≡ format_from false size fmt args (place (text_of ps) j buf) (j + length (text_of ps))
format_from-pieces [] size fmt args buf j is fits =
    ap (λ (i : ℕ). format_from false size fmt args buf i) (omega arith)
format_from-pieces (p ∷ ps) size fmt args buf j is fits =
    let sum = length-append (shown p) (text_of ps) in
    let total : j + length (shown p) + length (text_of ps)
        ≡ j + (length (shown p) + length (text_of ps)) =
      omega arith in
    rw (format-cons p ps fmt, args-cons p ps args)
      (format_from-piece p size (format_of ps ++ fmt) (args_of ps ++ args) buf j is.0
          (omega (arith, sum))
        ∙ format_from-pieces ps size fmt args (place (shown p) j buf) (j + length (shown p)) is.1
            (omega (arith, sum))
        ∙ rw (place-append (shown p) (text_of ps) j buf, sum, total))

-- The digits change nothing before their place.
write_digits-below :
    (tmp : List ℕ) (size j i : ℕ) (buf : Words) (a : ℕ)
    → a < j + 2 + i
    → write_digits tmp size j i buf a ≡ buf a
unfolding write_digits
write_digits-below [] size j i buf a before = refl
write_digits-below (d ∷ tmp) size j i buf a before =
    let buf' = if ltb (j + i) size then update buf (j + 2 + i) d else buf in
    ground (arith, write_digits-below tmp size j (i + 1) buf' a (omega arith))

module _ (buf : Words) (size : ℕ) (ps : List Piece) (pieces : AllPieces ps) where
  -- For a format of plain characters and the four conversions, with the arguments that they take,
  -- and with room for its text and one byte more, `vsnprintf` returns the length of the text; the
  -- buffer then holds the text and a 0, and no other byte has changed.
  pub vsnprintf-pieces :
      (after : List ℕ) (args : List Arg)
      → length (text_of ps) < size
      → (buf' : Words) × (vsnprintf buf size (format_of ps ++ 0 ∷ after) (args_of ps ++ args)
          ≡ ok (length (text_of ps), buf'))
        × ((a : ℕ)
            → buf' a ≡ (
                if ltb a (length (text_of ps))
                then get_or (text_of ps) a 0
                else (if a == length (text_of ps) then 0 else buf a)))
  unfolding vsnprintf format_from
  vsnprintf-pieces after args fits =
      let t = text_of ps in
      let some : (size == 0) ≡ false = ground arith in
      let inside : ltb (length t) size ≡ true = ground arith in
      let start : 0 + length t ≡ length t = omega arith in
      let done = format_from-pieces ps size (0 ∷ after) args buf 0 pieces (omega arith) in
      (
        update (place t 0 buf) (length t) 0,
        rw (some, done, start, inside),
        λ a. ground (arith, place_lem t 0 buf a),
      )

  -- Where the text fills the buffer but for its last byte and `%x` follows, `vsnprintf` returns
  -- more than the size and has written an `x` to the byte behind the buffer.
  pub vsnprintf_overflow :
      (after : List ℕ) (args : List Arg) (n : ℕ)
      → length (text_of ps) + 1 ≡ size
      → n < 2 ^ 64
      → (r : ℕ) × (buf' : Words) × (vsnprintf buf size
            (format_of ps ++ 37 ∷ 120 ∷ 0 ∷ after)
            (args_of ps ++ pointer n ∷ args)
          ≡ ok (r, buf'))
        × (size < r)
        × (buf' size ≡ 120)
  unfolding vsnprintf format_from convert convert_hex number
  vsnprintf_overflow after args n full small =
      let t = text_of ps in
      let d = hex_text 16 n in
      let some : (size == 0) ≡ false = ground arith in
      let at : 0 + length t ≡ length t = omega arith in
      let done =
        format_from-pieces ps size (37 ∷ 120 ∷ 0 ∷ after) (pointer n ∷ args) buf 0 pieces
          (omega arith) in
      let r = length t + (count (d ++ []) + 2) in
      let outside : ltb r size ≡ false = ground arith in
      let begun = update (update (place t 0 buf) (length t) 48) (length t + 1) 120 in
      let e : length t + 1 ≡ size = full in
      (
        r,
        write_digits (d ++ []) size (length t) 0 begun,
        rw (some, done, at, hex_digits_lem 15 n [] small, outside),
        omega arith,
        write_digits-below (d ++ []) size (length t) 0 begun size (omega arith) ∙ ground arith,
      )
