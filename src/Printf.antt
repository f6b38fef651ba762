-- ===== src/Printf.antt =====
-- `vsnprintf` of kernel/printf.c, with `number` and `PUT_CHAR`. `printf` returns at once and
-- `print_binary` only calls it; they are left out.
pub mod Hex
pub mod Pieces
pub mod Render
use hv_sebek.Base.{
  ℕ, zero, suc, ◌+◌, ◌-◌, ◌*◌, ◌/◌, ◌%◌, ◌^◌, Bool, true, false, List, [], ◌∷◌, ◌==◌, ltb, bit_and,
  shr, if◌then◌else◌, Words, update,
}
use hv_sebek.Base.Run.{Run, ok, fatal, fault, out_of_fuel, ◌>>=◌}

-- What `va_arg` reads: an `int`, a string from its pointer on, or a pointer as a number. It has to
-- be read at the type at which it was passed.
pub data Arg : Type 0 where
  int : ℕ → Arg
  string : List ℕ → Arg
  pointer : ℕ → Arg

-- `DIGITS[n & 0xf]`
unfoldable pub digit : ℕ → ℕ
digit n = let d = bit_and n 0xf in if ltb d 10 then 48 + d else 87 + d

-- The loop that fills `tmp`; what it has written stands in the order in which it is read later,
-- from the end.
unfoldable pub hex_digits : ℕ → ℕ → List ℕ → Run (List ℕ)
unfolding digit
hex_digits zero n tmp = out_of_fuel
hex_digits (suc fuel) n tmp =
    let tmp' = digit n ∷ tmp in
    let rest = hex_digits fuel (shr n 4) tmp' in if shr n 4 == 0 then ok tmp' else rest

-- `for (i = 0; i < len; i++) if (j + i < size) buf[j + 2 + i] = ...`
unfoldable pub write_digits : List ℕ → ℕ → ℕ → ℕ → Words → Words
write_digits [] size j i buf = buf
write_digits (d ∷ tmp) size j i buf =
    write_digits tmp size j (i + 1) (if ltb (j + i) size then update buf (j + 2 + i) d else buf)

abbrev pub count : List ℕ → ℕ
count [] = 0
count (_ ∷ l) = suc (count l)

-- A 64-bit number has at most 16 digits.
unfoldable pub number : Words → ℕ → ℕ → ℕ → Run (Words × ℕ)
number buf size j num = hex_digits 16 num [] >>= λ tmp.
    ok (write_digits tmp size j 0 (update (update buf j 48) (j + 1) 120), count tmp + 2)

-- `PUT_CHAR`, without the step of the index.
abbrev pub put_char : Words → ℕ → ℕ → ℕ → Words
put_char buf index size c = if ltb index size then update buf index c else buf

unfoldable pub put_string : List ℕ → ℕ → Words → ℕ → Run (Words × ℕ)
put_string [] size buf j = fault
put_string (c ∷ s) size buf j =
    let rest = put_string s size (put_char buf j size c) (j + 1) in
    if c == 0 then ok (buf, j) else rest

-- The locals of `vsnprintf` that change: the arguments that are left, the buffer and `j`.
pub record Output : Type 0 where
  pub args : List Arg
  pub buf : Words
  pub j : ℕ

-- The four conversions.
unfoldable pub convert_char : ℕ → List Arg → Words → ℕ → Run Output
convert_char size (int c ∷ args) buf j =
    ok (record { args = args; buf = put_char buf j size (c % 2 ^ 8); j = j + 1 })
convert_char size (string s ∷ args) buf j = fault
convert_char size (pointer n ∷ args) buf j = fault
convert_char size [] buf j = fault

unfoldable pub convert_string : ℕ → List Arg → Words → ℕ → Run Output
convert_string size (string s ∷ args) buf j =
    put_string s size buf j >>= λ (buf', j'). ok (record { args = args; buf = buf'; j = j' })
convert_string size (int c ∷ args) buf j = fault
convert_string size (pointer n ∷ args) buf j = fault
convert_string size [] buf j = fault

unfoldable pub convert_hex : ℕ → List Arg → Words → ℕ → Run Output
convert_hex size (pointer n ∷ args) buf j =
    number buf size j n >>= λ (buf', len). ok (record { args = args; buf = buf'; j = j + len })
convert_hex size (int c ∷ args) buf j = fault
convert_hex size (string s ∷ args) buf j = fault
convert_hex size [] buf j = fault

-- `switch (fmt[i])`
unfoldable pub convert : ℕ → ℕ → List Arg → Words → ℕ → Run Output
convert c size args buf j =
    if c == 99
    then convert_char size args buf j
    else (if c == 115
        then convert_string size args buf j
        else (if c == 120
            then convert_hex size args buf j
            else (if c == 37
                then ok (record { args = args; buf = put_char buf j size 37; j = j + 1 })
                else fatal)))

-- The loop over the format from the pointer on; the flag says that a `%` has been read.
unfoldable pub format_from : Bool → ℕ → List ℕ → List Arg → Words → ℕ → Run (ℕ × Words)
format_from percent size [] args buf j = fault
format_from true size (c ∷ fmt) args buf j =
    convert c size args buf j >>= λ out. format_from false size fmt out.args out.buf out.j
format_from false size (c ∷ fmt) args buf j =
    if c == 0
    then ok (j, put_char buf j size 0)
    else (if c == 37
        then format_from true size fmt args buf j
        else format_from false size fmt args (put_char buf j size c) (j + 1))

-- The result and the buffer afterwards, by index.
unfoldable pub vsnprintf : Words → ℕ → List ℕ → List Arg → Run (ℕ × Words)
vsnprintf buf size fmt args =
    if size == 0 then ok (0, buf) else format_from false size fmt args buf 0
