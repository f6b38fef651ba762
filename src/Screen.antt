-- ===== src/Screen.antt =====
-- The text screen of kernel/printf.c: `clear_screen`, `scroll` and `putstr`, with the cursor that
-- `struct screen_info` keeps.
pub mod Cursor
use hv_sebek.Base.{
  ℕ, zero, suc, ◌+◌, ◌-◌, ◌*◌, ◌%◌, ◌^◌, Bool, List, [], ◌∷◌, ◌==◌, leb, if◌then◌else◌, Words,
  update,
}
use hv_sebek.Base.Run.{Run, ok, fault, ◌>>=◌}
use hv_sebek.Bytes.{memmove, memset}

abbrev pub video_mem : ℕ
video_mem = 0xb8000

abbrev pub cols : ℕ
cols = 80

abbrev pub lines : ℕ
lines = 25

-- The static `scr_info`, beside memory by bytes.
pub record Screen : Type 0 where
  pub mem : Words
  pub orig_x : ℕ
  pub orig_y : ℕ

unfoldable pub clear_screen : Screen → Screen
clear_screen scr = record {
  mem = memset video_mem 0 (cols * lines) scr.mem;
  orig_x = 0;
  orig_y = 0;
}

-- `for (; i < LINES * COLS * 2; i += 2) VIDEO_MEM[i] = ' '`, over the rounds that are left.
unfoldable pub blank_cells : ℕ → ℕ → Words → Words
blank_cells zero i mem = mem
blank_cells (suc rounds) i mem = blank_cells rounds (i + 2) (update mem (video_mem + i) 32)

unfoldable pub scroll : Words → Words
scroll mem =
    blank_cells cols ((lines - 1) * cols * 2)
      (memmove video_mem (video_mem + cols * 2) ((lines - 1) * cols * 2) mem)

-- `if (++y >= LINES) { scroll(); y--; }`, with the cursor at the start of a line.
unfoldable pub next_line : Screen → Screen
next_line scr =
    if leb lines (scr.orig_y + 1)
    then record { mem = scroll scr.mem; orig_x = 0; orig_y = scr.orig_y }
    else record scr { orig_x = 0; orig_y = scr.orig_y + 1 }

-- One character other than the last: 10 is the newline.
unfoldable pub put_cell : Screen → ℕ → Screen
put_cell scr c =
    let at = video_mem + (scr.orig_x + cols * scr.orig_y) * 2 in
    let written : Screen = record scr { mem = update scr.mem at c } in
    if c == 10
    then next_line scr
    else (if leb cols (scr.orig_x + 1)
        then next_line written
        else record written { orig_x = scr.orig_x + 1 })

-- `s` from the pointer on.
unfoldable pub putstr : Screen → List ℕ → Run Screen
putstr scr [] = fault
putstr scr (c ∷ s) = let rest = putstr (put_cell scr c) s in if c == 0 then ok scr else rest
