-- ===== src/Output/Clear.antt =====
-- The whole screen of source/kernel/print.c: what `cls` clears, and where the rows end.
use kernel_on_qemu.Prelude.{
  ℕ, zero, suc, ◌+◌, ◌*◌, ◌≤◌, ◌<◌, ◌^◌, ◌≡◌, refl, ◌∙◌, ap, Bool, inl, List, length, ◌&&◌, leb,
  ltb, if◌then◌else◌, arith,
}
use kernel_on_qemu.Output.Screen.{
  Screen, vga_width, vga_height, set_cell, clear_columns, clear_rows, cls, print_newline,
  print_text,
}
use kernel_on_qemu.Output.Shown.{print_text-Shows}

clear_columns_lem :
    (n i j : ℕ) (cells : ℕ → ℕ) (x : ℕ)
    → clear_columns n i j cells x
      ≡ (if leb (i * vga_width + j) x && ltb x (i * vga_width + j + n) then 0x0F20 else cells x)
unfolding clear_columns
clear_columns_lem zero i j cells x = ground arith
clear_columns_lem (suc n) i j cells x =
    ground (arith, clear_columns_lem n i (j + 1) (set_cell cells (i * vga_width + j) 0x0F20) x)

-- The range from `a` on is that of `w` offsets and the `r` behind it.
abbrev within : (lo hi x : ℕ) → Bool
within lo hi x = leb lo x && ltb x hi

within_join :
    (a w r x v base : ℕ)
    → (if within (a + w) (a + w + r) x then v else if within a (a + w) x then v else base)
      ≡ (if within a (a + w + r) x then v else base)
within_join a w r x v base = ground arith

clear_rows_lem :
    (n i : ℕ) (cells : ℕ → ℕ) (x : ℕ)
    → clear_rows n i cells x
      ≡ (if within (i * vga_width) (i * vga_width + n * vga_width) x then 0x0F20 else cells x)
unfolding clear_rows
clear_rows_lem zero i cells x = ground arith
clear_rows_lem (suc n) i cells x =
    let row = i * vga_width in
    let next : (i + 1) * vga_width ≡ row + vga_width = omega arith in
    let end : row + vga_width + n * vga_width ≡ row + suc n * vga_width = omega arith in
    let first : row + 0 ≡ row = omega arith in
    clear_rows_lem n (i + 1) (clear_columns vga_width i 0 cells) x
    ∙ ap
        (λ lo.
          if within lo (lo + n * vga_width) x then 0x0F20 else clear_columns vga_width i 0 cells x)
        next
    ∙ ap
        (λ (c : ℕ).
          if within (row + vga_width) (row + vga_width + n * vga_width) x then 0x0F20 else c)
        (clear_columns_lem vga_width i 0 cells x
          ∙ ap (λ lo. if within lo (lo + vga_width) x then 0x0F20 else cells x) first)
    ∙ within_join row vga_width (n * vga_width) x 0x0F20 (cells x)
    ∙ ap (λ hi. if within row hi x then 0x0F20 else cells x) end

-- `cls` makes exactly the cells of the screen blank, and moves no counter.
pub cls_lem :
    (s : Screen)
    → ((x : ℕ) → (cls s).cells x ≡ (if ltb x (vga_width * vga_height) then 0x0F20 else s.cells x))
      × ((cls s).console_index ≡ s.console_index)
      × ((cls s).console_row ≡ s.console_row)
unfolding cls
cls_lem s = (λ x. clear_rows_lem vga_height 0 s.cells x ∙ ground arith, refl, refl)

-- `n` line feeds.
abbrev pub newlines : (n : ℕ) → Screen → Screen
newlines zero s = s
newlines (suc n) s = newlines n (print_newline s)

newlines_lem :
    (n : ℕ) (s : Screen)
    → s.console_row + suc n < 2 ^ 24
    → ((newlines (suc n) s).console_index ≡ (s.console_row + suc n) * vga_width)
      × ((x : ℕ) → (newlines (suc n) s).cells x ≡ s.cells x)
unfolding print_newline
newlines_lem zero s h = (omega arith, λ x. refl)
newlines_lem (suc n) s h =
    let s' = print_newline s in
    let row : s'.console_row ≡ s.console_row + 1 = omega arith in
    let (index, cells) = newlines_lem n s' (omega arith) in (omega (arith, index, row), cells)

-- The screen does not scroll: what is printed after line feeds that lead to row 25 or further, while
-- the counters do not wrap, changes no cell of the screen.
pub print_text_unseen :
    (n : ℕ) (l : List ℕ) (s : Screen)
    → vga_height ≤ s.console_row + suc n
    → s.console_row + suc n < 2 ^ 24
    → length l < 2 ^ 24
    → (x : ℕ) → x < vga_width * vga_height
    → (print_text l (newlines (suc n) s)).cells x ≡ s.cells x
print_text_unseen n l s low room short x inside =
    let (index, cells) = newlines_lem n s room in
    let shows = print_text-Shows l (newlines (suc n) s) (omega (arith, index)) in
    shows.rest x (inl (omega (arith, index))) ∙ cells x
