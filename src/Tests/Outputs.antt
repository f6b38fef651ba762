-- ===== src/Tests/Outputs.antt =====
-- kernel/printf.c at concrete inputs.
use hv_sebek.Base.{
  ℕ, ◌<◌, ◌≡◌, refl, arith, true, ltb, ◌==◌, if◌then◌else◌, List, [], ◌∷◌, ◌++◌, Words, length,
  get_or,
}
use hv_sebek.Base.Run.{ok}
use hv_sebek.CString.Compare.{stored}
use hv_sebek.Screen.{Screen, putstr}
use hv_sebek.Screen.Cursor.{IsScreen, off_screen, putstr-IsScreen}
use hv_sebek.Printf.{Arg, pointer, string, vsnprintf}
use hv_sebek.Printf.Pieces.{
  Piece, plain, text, hex, percent, format_of, args_of, text_of, AllPieces,
}
use hv_sebek.Printf.Render.{vsnprintf-pieces, vsnprintf_overflow}

-- The cursor stands at the last cell.
abbrev full : Screen
full = record { mem = λ a. 120; orig_x = 79; orig_y = 24 }

full-IsScreen : IsScreen full
full-IsScreen = record { in_line = omega arith; in_column = omega arith }

putstr-IsScreen_example :
    (scr' : Screen) × (putstr full (stored (97 ∷ 10 ∷ 98 ∷ []) []) ≡ ok scr')
    × IsScreen scr'
    × ((a : ℕ) → off_screen a ≡ true → scr'.mem a ≡ 120)
putstr-IsScreen_example =
    putstr-IsScreen full (97 ∷ 10 ∷ 98 ∷ []) [] full-IsScreen
      (omega arith, omega arith, (omega arith, omega arith, (omega arith, omega arith, tt)))

-- "a%x%%%s" with 0x2f and "bc"
abbrev pieces : List Piece
pieces = plain 97 ∷ hex 0x2f ∷ percent ∷ text (98 ∷ 99 ∷ []) [] ∷ []

pieces-AllPieces : AllPieces pieces
pieces-AllPieces = (
  (λ e. omega (arith, e), λ e. omega (arith, e)),
  (omega arith, (tt, ((omega arith, omega arith, (omega arith, omega arith, tt)), tt))),
)

abbrev empty : Words
empty a = 0xee

text_fits : length (text_of pieces) < 16
unfolding hv_sebek.Printf.Hex.hex_text
text_fits = omega arith

vsnprintf-pieces_example :
    (buf' : Words) × (vsnprintf empty 16 (format_of pieces ++ 0 ∷ []) (args_of pieces ++ [])
      ≡ ok (length (text_of pieces), buf'))
    × ((a : ℕ)
        → buf' a ≡ (
            if ltb a (length (text_of pieces))
            then get_or (text_of pieces) a 0
            else (if a == length (text_of pieces) then 0 else 0xee)))
vsnprintf-pieces_example = vsnprintf-pieces empty 16 pieces pieces-AllPieces [] [] text_fits

abbrev word : List Piece
word = plain 97 ∷ plain 98 ∷ plain 99 ∷ []

word-AllPieces : AllPieces word
word-AllPieces = (
  (λ e. omega (arith, e), λ e. omega (arith, e)),
  (
    (λ e. omega (arith, e), λ e. omega (arith, e)),
    ((λ e. omega (arith, e), λ e. omega (arith, e)), tt),
  ),
)

vsnprintf_overflow_example :
    (r : ℕ) × (buf' : Words) × (vsnprintf empty 4
        (format_of word ++ 37 ∷ 120 ∷ 0 ∷ [])
        (args_of word ++ pointer 5 ∷ [])
      ≡ ok (r, buf'))
    × (4 < r)
    × (buf' 4 ≡ 120)
vsnprintf_overflow_example =
    vsnprintf_overflow empty 4 word word-AllPieces [] [] 5 refl (omega arith)
