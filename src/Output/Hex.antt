-- ===== src/Output/Hex.antt =====
-- The hexadecimal numbers of source/kernel/print.c and serial.c.
use kernel_on_qemu.Prelude.{
  ℕ, ◌+◌, ◌-◌, ◌*◌, ◌/◌, ◌%◌, ◌^◌, ◌<◌, ◌≡◌, refl, ◌∙◌, ap, sym, Option, none, some, ◌>>=◌, List,
  [], ◌∷◌, ◌++◌, ◌&&◌, leb, if◌then◌else◌, arith,
}
use kernel_on_qemu.Words.{u8, u16}
use kernel_on_qemu.Output.Screen.{
  Screen, hex_digit, text_cell, put_cell, set_cell, print_byte, print_word, print_dword, print_text,
}

-- The digits `0` to `9` and `A` to `F`.
unfoldable pub digit_value : ℕ → Option ℕ
digit_value c =
    if leb b'0' c && leb c b'9'
    then some (c - b'0')
    else if leb b'A' c && leb c b'F'
    then some (10 + (c - b'A'))
    else none

-- The number that a row of digits stands for.
unfoldable pub read_hex : (acc : ℕ) → List ℕ → Option ℕ
read_hex acc [] = some acc
read_hex acc (c ∷ l) = digit_value c >>= λ d. read_hex (acc * 16 + d) l

abbrev pub hex_byte : ℕ → List ℕ
hex_byte n = hex_digit ((n / 2 ^ 4) % 2 ^ 4) ∷ hex_digit (n % 2 ^ 4) ∷ []

abbrev pub hex_word : ℕ → List ℕ
hex_word n = hex_byte (u8 (n / 2 ^ 8)) ++ hex_byte (u8 n)

abbrev pub hex_dword : ℕ → List ℕ
hex_dword n = hex_word (u16 (n / 2 ^ 16)) ++ hex_word (u16 n)

digit_value-hex_digit : (d : ℕ) → d < 16 → digit_value (hex_digit d) ≡ some d
unfolding digit_value hex_digit
digit_value-hex_digit d h = ground arith

read_hex-hex_digit :
    (acc d : ℕ) (l : List ℕ) → d < 16 → read_hex acc (hex_digit d ∷ l) ≡ read_hex (acc * 16 + d) l
unfolding read_hex
read_hex-hex_digit acc d l h = rw (digit_value-hex_digit d h) refl

read_hex-hex_byte :
    (acc n : ℕ) (l : List ℕ) → n < 256 → read_hex acc (hex_byte n ++ l) ≡ read_hex (acc * 256 + n) l
read_hex-hex_byte acc n l h =
    read_hex-hex_digit acc ((n / 2 ^ 4) % 2 ^ 4) _ (omega arith)
    ∙ read_hex-hex_digit (acc * 16 + (n / 2 ^ 4) % 2 ^ 4) (n % 2 ^ 4) l (omega arith)
    ∙ ap (λ a. read_hex a l) (omega arith)

read_hex-hex_word :
    (acc n : ℕ) (l : List ℕ)
    → n < 2 ^ 16
    → read_hex acc (hex_word n ++ l) ≡ read_hex (acc * 2 ^ 16 + n) l
read_hex-hex_word acc n l h =
    read_hex-hex_byte acc (u8 (n / 2 ^ 8)) (hex_byte (u8 n) ++ l) (omega arith)
    ∙ read_hex-hex_byte (acc * 256 + u8 (n / 2 ^ 8)) (u8 n) l (omega arith)
    ∙ ap (λ a. read_hex a l) (omega arith)

pub read_hex-hex_dword : (n : ℕ) → n < 2 ^ 32 → read_hex 0 (hex_dword n) ≡ some n
unfolding read_hex
read_hex-hex_dword n h =
    read_hex-hex_word 0 (u16 (n / 2 ^ 16)) (hex_word (u16 n)) (omega arith)
    ∙ read_hex-hex_word (0 * 2 ^ 16 + u16 (n / 2 ^ 16)) (u16 n) [] (omega arith)
    ∙ ap some (omega arith)

hex_digit-ascii : (d : ℕ) → d < 16 → text_cell (hex_digit d) ≡ 0x0F00 + hex_digit d
unfolding hex_digit
hex_digit-ascii d h = ground arith

pub print_byte_lem : (n : ℕ) (s : Screen) → print_byte n s ≡ print_text (hex_byte n) s
unfolding print_byte print_text
print_byte_lem n s =
    rw
      (
        hex_digit-ascii ((n / 2 ^ 4) % 2 ^ 4) (omega arith),
        hex_digit-ascii (n % 2 ^ 4) (omega arith),
      )
      (λ i. record {
        cells =
            set_cell (set_cell s.cells s.console_index (0x0F00 + hex_digit ((n / 2 ^ 4) % 2 ^ 4)))
              ((s.console_index + 1) % 2 ^ 32) (0x0F00 + hex_digit (n % 2 ^ 4));
        console_index =
            let e : (s.console_index + 2) % 2 ^ 32 ≡ ((s.console_index + 1) % 2 ^ 32 + 1) % 2 ^ 32 =
              omega arith in
            e i;
        console_row = s.console_row;
      })

pub print_text-append :
    (l r : List ℕ) (s : Screen) → print_text (l ++ r) s ≡ print_text r (print_text l s)
unfolding print_text
print_text-append [] r s = refl
print_text-append (c ∷ l) r s = print_text-append l r (put_cell (text_cell c) s)

print_word_lem : (n : ℕ) (s : Screen) → print_word n s ≡ print_text (hex_word n) s
unfolding print_word
print_word_lem n s =
    print_byte_lem (u8 n) (print_byte (u8 (n / 2 ^ 8)) s)
    ∙ ap (print_text (hex_byte (u8 n))) (print_byte_lem (u8 (n / 2 ^ 8)) s)
    ∙ sym (print_text-append (hex_byte (u8 (n / 2 ^ 8))) (hex_byte (u8 n)) s)

pub print_dword_text : (n : ℕ) (s : Screen) → print_dword n s ≡ print_text (hex_dword n) s
unfolding print_dword
print_dword_text n s =
    print_word_lem (u16 n) (print_word (u16 (n / 2 ^ 16)) s)
    ∙ ap (print_text (hex_word (u16 n))) (print_word_lem (u16 (n / 2 ^ 16)) s)
    ∙ sym (print_text-append (hex_word (u16 (n / 2 ^ 16))) (hex_word (u16 n)) s)
