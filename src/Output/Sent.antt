-- ===== src/Output/Sent.antt =====
-- What source/kernel/serial.c sends.
use kernel_on_qemu.Prelude.{
  ℕ, zero, suc, ◌+◌, ◌-◌, ◌/◌, ◌<◌, ◌^◌, ◌≡◌, refl, ◌∙◌, ap, sym, true, false, inl, inr, Bool-cases,
  Option, some, ◌>>=◌, Yields, Yields-map, Yields-bind, List, [], ◌∷◌, ◌++◌, length, arith, ◌==◌,
}
use mathlib.Core.Path.{subst}
use native.Mathlib.Decide.{dec_lt}
use mathlib.Core.List.{append_assoc, append-nil}
use kernel_on_qemu.Words.{u8, u16}
use kernel_on_qemu.Bytes.{Bytes}
use kernel_on_qemu.Output.Hex.{hex_byte, hex_word, hex_dword, read_hex, read_hex-hex_dword}
use kernel_on_qemu.Output.Shown.{IsString, strlen-IsString}
use kernel_on_qemu.Output.Serial.{
  Line, transmit_status, await_line, serial_write_char, serial_write_byte, serial_write_word,
  serial_write_dword, serial_write_chars, serial_write_string, serial_write_text,
}

-- The call ends, and sends these characters after those of the line.
abbrev pub Sends : Line → List ℕ → Option Line → Type 0
Sends l text = Yields (λ l'. l'.sent ≡ l.sent ++ text)

pub Sends-bind :
    (a b : List ℕ) (l : Line) (o : Option Line) (g : Line → Option Line)
    → Sends l a o
    → ((l' : Line) → Sends l' b (g l'))
    → Sends l (a ++ b) (o >>= g)
Sends-bind a b l o g first second =
    Yields-bind (λ l'. l'.sent ≡ l.sent ++ a) (λ l'. l'.sent ≡ l.sent ++ (a ++ b)) o g first
      (λ l' e.
        Yields-map (λ t. t.sent ≡ l'.sent ++ b) (λ t. t.sent ≡ l.sent ++ (a ++ b)) (g l')
          (λ t e'. e' ∙ ap (λ x. x ++ b) e ∙ append_assoc l.sent a b) (second l'))

-- From every read on the line is ready within as many reads as there is fuel.
abbrev pub IsReady : (status : ℕ → ℕ) → (fuel : ℕ) → Type 0
IsReady status fuel =
    (t : ℕ) → (k : ℕ) × (k < fuel) × ((transmit_status status (t + k) == 0) ≡ false)

await_line_busy :
    (status : ℕ → ℕ) (fuel t : ℕ)
    → (transmit_status status t == 0) ≡ true
    → await_line status (suc fuel) t ≡ await_line status fuel (t + 1)
unfolding await_line
await_line_busy status fuel t busy = rw (busy, await_line) refl

await_line_now :
    (status : ℕ → ℕ) (fuel t : ℕ)
    → (transmit_status status t == 0) ≡ false
    → await_line status (suc fuel) t ≡ some (t + 1)
unfolding await_line
await_line_now status fuel t now = rw (now, await_line) refl

await_line_ends :
    (status : ℕ → ℕ) (fuel t k : ℕ)
    → k < fuel
    → (transmit_status status (t + k) == 0) ≡ false
    → (t' : ℕ) × (await_line status fuel t ≡ some t')
unfolding await_line
await_line_ends status zero t k lt ready = absurd (omega arith)
await_line_ends status (suc fuel) t k lt ready = elim (Bool-cases (transmit_status status t == 0)) [
  | inr now ↦ (t + 1, await_line_now status fuel t now)
  | inl busy ↦ elim (dec_lt 0 k) [
    | yes more ↦
        let at : t + 1 + (k - 1) ≡ t + k = omega arith in
        let (t', e) =
          await_line_ends status fuel (t + 1) (k - 1) (omega arith)
            (ap (λ x. transmit_status status x == 0) at ∙ ready) in
        (t', await_line_busy status fuel t busy ∙ e)
    | no last ↦
        let at : t ≡ t + k = omega arith in
        cc (sym busy ∙ ap (λ x. transmit_status status x == 0) at ∙ ready)
  ]
]

module _ (status : ℕ → ℕ) (fuel : ℕ) (ready : IsReady status fuel) where
  pub serial_write_char_lem :
      (c : ℕ) (l : Line) → Sends l (c ∷ []) (serial_write_char status fuel c l)
  unfolding serial_write_char
  serial_write_char_lem c l =
      let (k, lt, set) = ready l.reads in
      let (t', e) = await_line_ends status fuel l.reads k lt set in
      subst
        (λ o. Sends l (c ∷ []) (o >>= λ t. some (record { sent = l.sent ++ (c ∷ []); reads = t })))
        (sym e) refl

  serial_write_byte_lem :
      (n : ℕ) (l : Line) → Sends l (hex_byte n) (serial_write_byte status fuel n l)
  unfolding serial_write_byte
  serial_write_byte_lem n l =
      Sends-bind _ _ l _ _ (serial_write_char_lem _ l) (serial_write_char_lem _)

  serial_write_word_lem :
      (n : ℕ) (l : Line) → Sends l (hex_word n) (serial_write_word status fuel n l)
  unfolding serial_write_word
  serial_write_word_lem n l =
      Sends-bind (hex_byte (u8 (n / 2 ^ 8))) (hex_byte (u8 n)) l _ _ (serial_write_byte_lem _ l)
        (serial_write_byte_lem _)

  serial_write_dword_text :
      (n : ℕ) (l : Line) → Sends l (hex_dword n) (serial_write_dword status fuel n l)
  unfolding serial_write_dword
  serial_write_dword_text n l =
      Sends-bind (hex_word (u16 (n / 2 ^ 16))) (hex_word (u16 n)) l _ _ (serial_write_word_lem _ l)
        (serial_write_word_lem _)

  serial_write_chars_lem :
      (m : Bytes) (p : ℕ) (text : List ℕ) (l : Line)
      → IsString m p text
      → Sends l text (serial_write_chars status fuel (length text) m p l)
  unfolding serial_write_chars
  serial_write_chars_lem m p [] l h = sym (append-nil l.sent)
  serial_write_chars_lem m p (c ∷ text) l (e, ne, h) =
      Sends-bind (c ∷ []) text l _ _
        (subst (λ b. Sends l (b ∷ []) (serial_write_char status fuel (m p) l)) e
          (serial_write_char_lem (m p) l))
        (λ l'. serial_write_chars_lem m (p + 1) text l' h)

  pub serial_write_text_lem :
      (text : List ℕ) (l : Line) → Sends l text (serial_write_text status fuel text l)
  unfolding serial_write_text
  serial_write_text_lem [] l = sym (append-nil l.sent)
  serial_write_text_lem (c ∷ text) l =
      Sends-bind (c ∷ []) text l _ _ (serial_write_char_lem c l) (serial_write_text_lem text)

  -- `serial_write_string` ends, and sends the characters of the string, where the line is ready
  -- within the fuel from every read on, and the string is shorter than that.
  pub serial_write_string_lem :
      (m : Bytes) (p : ℕ) (text : List ℕ) (l : Line)
      → IsString m p text
      → length text < fuel
      → Sends l text (serial_write_string status fuel m p l)
  unfolding serial_write_string
  serial_write_string_lem m p text l h enough =
      rw (strlen-IsString fuel m p text h enough) (serial_write_chars_lem m p text l h)

  -- `serial_write_dword` of a 32-bit number ends, and sends eight digits which stand for the number,
  -- where the line is ready within the fuel from every read on.
  pub serial_write_dword_lem :
      (n : ℕ) (l : Line)
      → n < 2 ^ 32
      → (text : List ℕ) × (read_hex 0 text ≡ some n)
        × (length text ≡ 8)
        × Sends l text (serial_write_dword status fuel n l)
  serial_write_dword_lem n l h =
      (hex_dword n, read_hex-hex_dword n h, refl, serial_write_dword_text n l)
