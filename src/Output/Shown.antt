-- ===== src/Output/Shown.antt =====
-- What source/kernel/print.c leaves on the screen.
use kernel_on_qemu.Prelude.{
  ℕ, ◌+◌, ◌≤◌, ◌<◌, ◌^◌, ◌≡◌, ◌≢◌, refl, ◌∙◌, ap, sym, some, List, [], ◌∷◌, length, arith, ◌⊎◌, inl,
  inr,
}
use mathlib.Core.Path.{subst}
use native.Mathlib.Decide.{dec_lt}
use kernel_on_qemu.Bytes.{Bytes}
use kernel_on_qemu.Text.{strlen, strlen_lem}
use kernel_on_qemu.Output.Screen.{
  Screen, text_cell, put_cell, print_text, print_chars, print_string, print_dword,
}
use kernel_on_qemu.Output.Hex.{hex_dword, read_hex, print_dword_text, read_hex-hex_dword}

-- `cells` from `index` on are the characters of the list.
abbrev pub IsShown : (cells : ℕ → ℕ) (index : ℕ) → List ℕ → Type 0
IsShown cells index [] = Unit
IsShown cells index (c ∷ l) = (cells index ≡ text_cell c) × IsShown cells (index + 1) l

-- The screen `t` is `s` with these characters written from the counter on.
pub record Shows (s : Screen) (l : List ℕ) (t : Screen) : Type 0 where
  pub written : IsShown t.cells s.console_index l
  pub moved : t.console_index ≡ s.console_index + length l
  pub row : t.console_row ≡ s.console_row
  pub rest :
      (x : ℕ) → (x < s.console_index) ⊎ (s.console_index + length l ≤ x) → t.cells x ≡ s.cells x

here : (c : ℕ) (s : Screen) → (put_cell (text_cell c) s).cells s.console_index ≡ text_cell c
here c s = ground arith

beside :
    (c : ℕ) (s : Screen) (x : ℕ)
    → x ≢ s.console_index
    → (put_cell (text_cell c) s).cells x ≡ s.cells x
beside c s x ne = ground arith

pub print_text-Shows :
    (l : List ℕ) (s : Screen) → s.console_index + length l < 2 ^ 32 → Shows s l (print_text l s)
unfolding print_text
print_text-Shows [] s h = record {
  written = tt;
  moved = omega arith;
  row = refl;
  rest = λ x o. refl;
}
print_text-Shows (c ∷ l) s h =
    let s' = put_cell (text_cell c) s in
    let next : s'.console_index ≡ s.console_index + 1 = omega arith in
    let ih = print_text-Shows l s' (omega arith) in
    record {
      written = (
        ih.rest s.console_index (inl (omega arith)) ∙ here c s,
        subst (λ i. IsShown (print_text l s').cells i l) next ih.written,
      );
      moved = omega (arith, ih.moved);
      row = ih.row;
      rest = λ x o. elim o [
        | inl before ↦ ih.rest x (inl (omega arith)) ∙ beside c s x (omega arith)
        | inr behind ↦ ih.rest x (inr (omega arith)) ∙ beside c s x (omega arith)
      ];
    }

-- A string in memory: its characters, none of them zero, and a zero.
abbrev pub IsString : Bytes → (p : ℕ) → List ℕ → Type 0
IsString m p [] = m p ≡ 0
IsString m p (c ∷ l) = (m p ≡ c) × (c ≢ 0) × IsString m (p + 1) l

-- The end of a string: the zero, and what stands before it.
pub IsString-end :
    (m : Bytes) (p : ℕ) (l : List ℕ)
    → IsString m p l
    → (m (p + length l) ≡ 0) × ((x : ℕ) → p ≤ x → x < p + length l → m x ≢ 0)
IsString-end m p [] h = (ap m (omega arith) ∙ h, λ x lo hi. absurd (omega arith))
IsString-end m p (c ∷ l) (e, ne, h) =
    let (zero_end, before) = IsString-end m (p + 1) l h in
    (
      ap m (omega arith) ∙ zero_end,
      λ x lo hi. elim (dec_lt p x) [
        | yes later ↦ before x (omega arith) (omega arith)
        | no first ↦ let at : x ≡ p = omega arith in λ z. ne (sym e ∙ ap m (sym at) ∙ z)
      ],
    )

pub strlen-IsString :
    (fuel : ℕ) (m : Bytes) (p : ℕ) (l : List ℕ)
    → IsString m p l
    → length l < fuel
    → strlen fuel m p ≡ some (length l)
strlen-IsString fuel m p l h enough =
    let (zero_end, before) = IsString-end m p l h in
    strlen_lem fuel m p (p + length l) (omega arith) (omega arith) zero_end before
    ∙ ap some (omega arith)

print_chars_lem :
    (m : Bytes) (p : ℕ) (l : List ℕ) (s : Screen)
    → IsString m p l
    → print_chars (length l) m p s ≡ print_text l s
unfolding print_chars print_text
print_chars_lem m p [] s h = refl
print_chars_lem m p (c ∷ l) s (e, ne, h) =
    ap (λ b. print_chars (length l) m (p + 1) (put_cell (text_cell b) s)) e
    ∙ print_chars_lem m (p + 1) l (put_cell (text_cell c) s) h

-- `print_string` prints the characters of a string, with more fuel than there are.
pub print_string_lem :
    (fuel : ℕ) (m : Bytes) (p : ℕ) (l : List ℕ) (s : Screen)
    → IsString m p l
    → length l < fuel
    → print_string fuel m p s ≡ some (print_text l s)
unfolding print_string
print_string_lem fuel m p l s h enough =
    rw (strlen-IsString fuel m p l h enough) (ap some (print_chars_lem m p l s h))

-- `print_dword` of a 32-bit number writes eight digits from the counter on, which stand for the
-- number, and changes no other cell; the row stays, and the counter moves on by eight, where it does
-- not wrap.
pub print_dword_lem :
    (n : ℕ) (s : Screen)
    → n < 2 ^ 32
    → s.console_index + 8 < 2 ^ 32
    → (l : List ℕ) × (read_hex 0 l ≡ some n) × (length l ≡ 8) × Shows s l (print_dword n s)
print_dword_lem n s h room = (
  hex_dword n,
  read_hex-hex_dword n h,
  refl,
  subst (Shows s (hex_dword n)) (sym (print_dword_text n s))
      (print_text-Shows (hex_dword n) s room),
)
