-- ===== src/Printf/Pieces.antt =====
-- Formats that are built from pieces, and what the loop of `vsnprintf` of kernel/printf.c writes for
-- one of them.
use hv_sebek.Base.{
  ℕ, suc, ◌+◌, ◌-◌, ◌%◌, ◌^◌, ◌≤◌, ◌<◌, ◌≡◌, ◌≢◌, refl, ap, ◌∙◌, arith, true, false, ltb, leb, ◌==◌,
  ◌&&◌, if◌then◌else◌, Bool-cases, inl, inr, List, [], ◌∷◌, ◌++◌, Words, update, length, get_or,
}
use hv_sebek.Base.Run.{ok}
use hv_sebek.CString.Compare.{Text, stored}
use hv_sebek.Printf.{
  Arg, int, string, pointer, count, number, write_digits, put_string, convert, convert_char,
  convert_string, convert_hex, format_from,
}
use hv_sebek.Printf.Hex.{hex_text, hex_digits_lem}

-- The pieces of a format with their arguments: a character that stands for itself, and the four
-- conversions.
pub data Piece : Type 0 where
  plain : ℕ → Piece
  char : ℕ → Piece
  text : List ℕ → List ℕ → Piece
  hex : ℕ → Piece
  percent : Piece

abbrev pub IsPiece : Piece → Type 0
IsPiece (plain c) = (c ≢ 0) × (c ≢ 37)
IsPiece (char c) = c < 256
IsPiece (text s after) = Text s
IsPiece (hex n) = n < 2 ^ 64
IsPiece percent = Unit {0}

abbrev pub AllPieces : List Piece → Type 0
AllPieces [] = Unit {0}
AllPieces (p ∷ ps) = IsPiece p × AllPieces ps

abbrev pub format_of : List Piece → List ℕ
format_of [] = []
format_of (plain c ∷ ps) = c ∷ format_of ps
format_of (char c ∷ ps) = 37 ∷ 99 ∷ format_of ps
format_of (text s after ∷ ps) = 37 ∷ 115 ∷ format_of ps
format_of (hex n ∷ ps) = 37 ∷ 120 ∷ format_of ps
format_of (percent ∷ ps) = 37 ∷ 37 ∷ format_of ps

abbrev pub args_of : List Piece → List Arg
args_of [] = []
args_of (plain c ∷ ps) = args_of ps
args_of (char c ∷ ps) = int c ∷ args_of ps
args_of (text s after ∷ ps) = string (stored s after) ∷ args_of ps
args_of (hex n ∷ ps) = pointer n ∷ args_of ps
args_of (percent ∷ ps) = args_of ps

abbrev pub shown : Piece → List ℕ
shown (plain c) = c ∷ []
shown (char c) = c ∷ []
shown (text s after) = s
shown (hex n) = 48 ∷ 120 ∷ hex_text 16 n
shown percent = 37 ∷ []

abbrev pub text_of : List Piece → List ℕ
text_of [] = []
text_of (p ∷ ps) = shown p ++ text_of ps

-- Bytes at the indices from `j` on.
abbrev pub place : List ℕ → ℕ → Words → Words
place [] j buf = buf
place (c ∷ t) j buf = place t (j + 1) (update buf j c)

pub place_lem :
    (t : List ℕ) (j : ℕ) (buf : Words) (a : ℕ)
    → place t j buf a ≡ (if leb j a && ltb a (j + length t) then get_or t (a - j) 0 else buf a)
place_lem [] j buf a = ground arith
place_lem (c ∷ t) j buf a = elim (Bool-cases (leb (j + 1) a)) [
  | inl behind ↦
      let next : a - j ≡ suc (a - (j + 1)) = ground arith in
      rw next (ground (arith, place_lem t (j + 1) (update buf j c) a))
  | inr before ↦ elim (Bool-cases (a == j)) [
    | inl here ↦
        let first : a - j ≡ 0 = ground arith in
        rw first (ground (arith, place_lem t (j + 1) (update buf j c) a))
    | inr other ↦ ground (arith, place_lem t (j + 1) (update buf j c) a)
  ]
]

pub place-append :
    (s t : List ℕ) (j : ℕ) (buf : Words)
    → place (s ++ t) j buf ≡ place t (j + length s) (place s j buf)
place-append [] t j buf = ap (λ (i : ℕ). place t i buf) (omega arith)
place-append (c ∷ s) t j buf =
    place-append s t (j + 1) (update buf j c)
    ∙ ap (λ (i : ℕ). place t i (place s (j + 1) (update buf j c))) (omega arith)

write_digits_lem :
    (tmp : List ℕ) (size j i : ℕ) (buf : Words)
    → j + i + length tmp ≤ size
    → write_digits tmp size j i buf ≡ place tmp (j + 2 + i) buf
unfolding write_digits
write_digits_lem [] size j i buf fits = refl
write_digits_lem (d ∷ tmp) size j i buf fits =
    let inside : ltb (j + i) size ≡ true = ground arith in
    let next : j + 2 + (i + 1) ≡ j + 2 + i + 1 = omega arith in
    rw inside
      (write_digits_lem tmp size j (i + 1) (update buf (j + 2 + i) d) (omega arith) ∙ rw next)

put_string_lem :
    (s after : List ℕ) (size j : ℕ) (buf : Words)
    → Text s
    → j + length s ≤ size
    → put_string (stored s after) size buf j ≡ ok (place s j buf, j + length s)
unfolding put_string
put_string_lem [] after size j buf is fits = ap (λ (i : ℕ). ok (buf, i)) (omega arith)
put_string_lem (c ∷ s) after size j buf is fits =
    let some : (c == 0) ≡ false = ground (arith, is.0) in
    let inside : ltb j size ≡ true = ground arith in
    rw (some, inside)
      (put_string_lem s after size (j + 1) (update buf j c) is.2 (omega arith)
        ∙ ap (λ (i : ℕ). ok (place s (j + 1) (update buf j c), i)) (omega arith))

count_lem : (l : List ℕ) → count l ≡ length l
count_lem [] = refl
count_lem (c ∷ l) = ap (λ (n : ℕ). suc n) (count_lem l)

append-nil : (l : List ℕ) → l ++ [] ≡ l
append-nil [] = refl
append-nil (c ∷ l) = ap (λ (t : List ℕ). c ∷ t) (append-nil l)

number_lem :
    (buf : Words) (size j n : ℕ)
    → n < 2 ^ 64
    → j + 2 + length (hex_text 16 n) ≤ size
    → number buf size j n ≡ ok (place (48 ∷ 120 ∷ hex_text 16 n) j buf, length (hex_text 16 n) + 2)
unfolding number
number_lem buf size j n small fits =
    let start : j + 2 + 0 ≡ j + 1 + 1 = omega arith in
    rw (
      hex_digits_lem 15 n [] small,
      append-nil (hex_text 16 n),
      count_lem (hex_text 16 n),
      write_digits_lem (hex_text 16 n) size j 0 (update (update buf j 48) (j + 1) 120)
          (omega arith),
      start,
    )

-- One piece of the format, from the loop's start to its start.
pub format_from-piece :
    (p : Piece) (size : ℕ) (fmt : List ℕ) (args : List Arg) (buf : Words) (j : ℕ)
    → IsPiece p
    → j + length (shown p) ≤ size
    → format_from false size (format_of (p ∷ []) ++ fmt) (args_of (p ∷ []) ++ args) buf j
      ≡ format_from false size fmt args (place (shown p) j buf) (j + length (shown p))
unfolding format_from convert
format_from-piece (plain c) size fmt args buf j is fits =
    let end : (c == 0) ≡ false = ground (arith, is.0) in
    let conversion : (c == 37) ≡ false = ground (arith, is.1) in
    let inside : ltb j size ≡ true = ground arith in rw (end, conversion, inside)
format_from-piece (char c) size fmt args buf j is fits =
    unfold convert_char in
    let inside : ltb j size ≡ true = ground arith in
    let byte : c % 256 ≡ c = omega arith in rw (inside, byte)
format_from-piece (text s after) size fmt args buf j is fits =
    unfold convert_string in rw (put_string_lem s after size j buf is fits)
format_from-piece (hex n) size fmt args buf j is fits =
    unfold convert_hex in
    let two : j + (length (hex_text 16 n) + 2) ≡ j + suc (suc (length (hex_text 16 n))) =
      omega arith in
    rw (number_lem buf size j n is (omega arith), two)
format_from-piece percent size fmt args buf j is fits =
    let inside : ltb j size ≡ true = ground arith in rw inside
