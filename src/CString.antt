-- ===== src/CString.antt =====
-- The functions of kernel/string.c on strings. A string is the list of the bytes from its pointer
-- on; to read or write past the list is a fault. A pointer into it that is returned is an index.
pub mod Compare
pub mod Search
pub mod Fill
use hv_sebek.Base.{
  ℕ, zero, suc, ◌+◌, ◌-◌, ◌%◌, ◌^◌, Bool, true, false, Option, none, some, List, [], ◌∷◌, ltb, leb,
  ◌==◌, ◌&&◌, if◌then◌else◌,
}
use hv_sebek.Base.Run.{Run, ok, fault, ◌>>=◌}

unfoldable pub strlen_from : ℕ → List ℕ → Run ℕ
strlen_from n [] = fault
strlen_from n (c ∷ s) = let rest = strlen_from (n + 1) s in if c == 0 then ok n else rest

unfoldable pub strlen : List ℕ → Run ℕ
unfolding strlen_from
strlen s = strlen_from 0 s

-- `__res = *cs - *ct`, a `signed char`, by its eight bits.
unfoldable pub char_diff : ℕ → ℕ → ℕ
char_diff a b = (a + 2 ^ 8 - b) % 2 ^ 8

unfoldable pub strcmp : List ℕ → List ℕ → Run ℕ
strcmp [] ct = fault
strcmp (c ∷ cs) [] = fault
strcmp (c ∷ cs) (d ∷ ct) =
    let rest = strcmp cs ct in
    if char_diff c d == 0 then (if c == 0 then ok 0 else rest) else ok (char_diff c d)

unfoldable pub strncmp : List ℕ → List ℕ → ℕ → Run ℕ
strncmp cs ct zero = ok 0
strncmp [] ct (suc count) = fault
strncmp (c ∷ cs) [] (suc count) = fault
strncmp (c ∷ cs) (d ∷ ct) (suc count) =
    let rest = strncmp cs ct count in
    if char_diff c d == 0 then (if c == 0 then ok 0 else rest) else ok (char_diff c d)

-- A null pointer is `none`.
unfoldable pub strchr_from : ℕ → List ℕ → ℕ → Run (Option ℕ)
strchr_from i [] c = fault
strchr_from i (b ∷ s) c =
    let rest = strchr_from (i + 1) s c in
    if b == 0 then ok none else (if b == c then ok (some i) else rest)

unfoldable pub strchr : List ℕ → ℕ → Run (Option ℕ)
unfolding strchr_from
strchr s c = strchr_from 0 s c

-- `save` is the last place so far.
unfoldable pub strrchr_from : Option ℕ → ℕ → List ℕ → ℕ → Run (Option ℕ)
strrchr_from save i [] ch = fault
strrchr_from save i (b ∷ p) ch =
    let save' = if b == ch then some i else save in
    let rest = strrchr_from save' (i + 1) p ch in if b == 0 then ok save' else rest

unfoldable pub strrchr : List ℕ → ℕ → Run (Option ℕ)
unfolding strrchr_from
strrchr p ch = strrchr_from none 0 p ch

-- The inner loop of `strstr`: whether `sub` ends before it differs from `buf`.
unfoldable pub matches : List ℕ → List ℕ → Run Bool
matches bp [] = fault
matches [] (c ∷ sp) = if c == 0 then ok true else fault
matches (b ∷ bp) (c ∷ sp) =
    let rest = matches bp sp in if c == 0 then ok true else (if b == c then rest else ok false)

unfoldable pub strstr_from : ℕ → List ℕ → List ℕ → Run (Option ℕ)
unfolding matches
strstr_from i [] sub = fault
strstr_from i (b ∷ buf) sub =
    let rest = strstr_from (i + 1) buf sub in
    if b == 0
    then ok none
    else (matches (b ∷ buf) sub >>= λ here. if here then ok (some i) else rest)

unfoldable pub strstr : List ℕ → List ℕ → Run (Option ℕ)
unfolding strstr_from
strstr buf [] = fault
strstr buf (c ∷ sub) = if c == 0 then ok (some 0) else strstr_from 0 buf (c ∷ sub)

-- `dest` afterwards; the two do not overlap.
unfoldable pub strcpy : List ℕ → List ℕ → Run (List ℕ)
strcpy dest [] = fault
strcpy [] (c ∷ src) = fault
strcpy (d ∷ dest) (c ∷ src) =
    let rest = strcpy dest src in
    if c == 0 then ok (c ∷ dest) else (rest >>= λ written. ok (c ∷ written))

-- `src` stays at its end.
unfoldable pub strncpy : List ℕ → List ℕ → ℕ → Run (List ℕ)
strncpy dst src zero = ok dst
strncpy dst [] (suc size) = fault
strncpy [] (c ∷ src) (suc size) = fault
strncpy (d ∷ dst) (c ∷ src) (suc size) =
    strncpy dst (if c == 0 then c ∷ src else src) size >>= λ written. ok (c ∷ written)

-- `strcase_charmap`: the table takes upper case to lower case and all else to itself.
unfoldable pub strcase_charmap : ℕ → ℕ
strcase_charmap c = if leb 0x41 c && leb c 0x5a then c + 0x20 else c

-- The difference that is returned, by its 32 bits.
unfoldable pub strncasecmp : List ℕ → List ℕ → ℕ → Run ℕ
unfolding strcase_charmap
strncasecmp us1 us2 zero = ok 0
strncasecmp [] us2 (suc n) = fault
strncasecmp (c ∷ us1) [] (suc n) = fault
strncasecmp (c ∷ us1) (d ∷ us2) (suc n) =
    let rest = strncasecmp us1 us2 n in
    if strcase_charmap c == strcase_charmap d
    then (if c == 0 then ok 0 else rest)
    else ok ((strcase_charmap c + 2 ^ 32 - strcase_charmap d) % 2 ^ 32)
