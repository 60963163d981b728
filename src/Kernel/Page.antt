-- ===== src/Kernel/Page.antt =====
-- What source/kernel/kernel.c makes of the answer of the web server.
use kernel_on_qemu.Prelude.{
  ℕ, zero, suc, ◌+◌, ◌-◌, ◌≤◌, ◌<◌, ◌^◌, ◌≡◌, ◌≢◌, refl, ◌∙◌, sym, ap, Bool, true, false, ◌||◌,
  Option, none, some, ◌>>=◌, List, [], ◌∷◌, map, length, ◌==◌, if◌then◌else◌, arith,
}
use native.Mathlib.Decide.{dec_lt}
use kernel_on_qemu.Words.{sub32}
use kernel_on_qemu.Bytes.{Bytes, write8}
use kernel_on_qemu.Output.Screen.{Screen, print_text, print_string}
use kernel_on_qemu.Output.Shown.{IsString, print_string_lem}
use kernel_on_qemu.Kernel.Web.{is_end, find_body, blank_at, blank_lines, show_page}

-- Without an end of the header among the offsets, what was found before stays.
find_body_none :
    (n i : ℕ) (m : Bytes) (body : Option ℕ)
    → ((k : ℕ) → i ≤ k → k < i + n → is_end m k ≡ false)
    → find_body n i m body ≡ body
unfolding find_body
find_body_none zero i m body h = refl
find_body_none (suc n) i m body h =
    let here : is_end m i ≡ false = h i (omega arith) (omega arith) in
    ap (λ b. find_body n (i + 1) m (if b then some (i + 4) else body)) here
    ∙ find_body_none n (i + 1) m body (λ k lo hi. h k (omega arith) (omega arith))

-- The last end of the header among the offsets is found.
find_body_last :
    (n i j : ℕ) (m : Bytes) (body : Option ℕ)
    → i ≤ j
    → j < i + n
    → is_end m j ≡ true
    → ((k : ℕ) → j < k → k < i + n → is_end m k ≡ false)
    → find_body n i m body ≡ some (j + 4)
unfolding find_body
find_body_last zero i j m body lo hi e h = absurd (omega arith)
find_body_last (suc n) i j m body lo hi e h = elim (dec_lt i j) [
  | yes later ↦
      find_body_last n (i + 1) j m _ (omega arith) (omega arith) e
        (λ k lo' hi'. h k lo' (omega arith))
  | no here ↦
      let at : i ≡ j = omega arith in
      ap (λ b. find_body n (i + 1) m (if b then some (i + 4) else body)) (ap (is_end m) at ∙ e)
      ∙ find_body_none n (i + 1) m (some (i + 4)) (λ k lo' hi'. h k (omega arith) (omega arith))
      ∙ ap (λ x. some (x + 4)) at
]

-- A tab or a line feed becomes a blank.
abbrev pub blank : ℕ → ℕ
blank c = if c == 0x9 || c == 0xA then 0x20 else c

IsString-agree :
    (m m' : Bytes) (p : ℕ) (l : List ℕ)
    → ((x : ℕ) → p ≤ x → m' x ≡ m x)
    → IsString m p l
    → IsString m' p l
IsString-agree m m' p [] same h = same p (omega arith) ∙ h
IsString-agree m m' p (c ∷ l) same (e, ne, h) =
    (same p (omega arith) ∙ e, ne, IsString-agree m m' (p + 1) l (λ x lo. same x (omega arith)) h)

-- A write at `p` that is made or not.
written_other : (b : Bool) (m : Bytes) (p v x : ℕ) → x ≢ p → (if b then write8 m p v else m) x ≡ m x
unfolding write8
written_other true m p v x ne = ground arith
written_other false m p v x ne = refl

written_here :
    (b : Bool) (m : Bytes) (p v : ℕ) → (if b then write8 m p v else m) p ≡ (if b then v else m p)
unfolding write8
written_here true m p v = ground arith
written_here false m p v = refl

blank_at_other : (m : Bytes) (p x : ℕ) → x ≢ p → blank_at m p x ≡ m x
unfolding blank_at
blank_at_other m p x ne = written_other (m p == 0x9 || m p == 0xA) m p 0x20 x ne

blank_at_here : (m : Bytes) (p : ℕ) → blank_at m p p ≡ blank (m p)
unfolding blank_at
blank_at_here m p = written_here (m p == 0x9 || m p == 0xA) m p 0x20

blank_lines_step :
    (fuel : ℕ) (m : Bytes) (p : ℕ)
    → m p ≢ 0
    → blank_lines (suc fuel) m p ≡ blank_lines fuel (blank_at m p) (p + 1)
unfolding blank_lines
blank_lines_step fuel m p ne = let more : (m p == 0) ≡ false = ground arith in rw more refl

blank_lines_end : (fuel : ℕ) (m : Bytes) (p : ℕ) → m p ≡ 0 → blank_lines (suc fuel) m p ≡ some m
unfolding blank_lines
blank_lines_end fuel m p z = let over : (m p == 0) ≡ true = ground arith in rw over refl

blank-ne-zero : (c : ℕ) → c ≢ 0 → blank c ≢ 0
blank-ne-zero c ne = ground arith

-- The loop ends, and makes the tabs and line feeds of a string blank.
blank_lines_lem :
    (fuel : ℕ) (m : Bytes) (p : ℕ) (l : List ℕ)
    → IsString m p l
    → length l < fuel
    → (m' : Bytes) × (blank_lines fuel m p ≡ some m')
      × IsString m' p (map blank l)
      × ((x : ℕ) → x < p → m' x ≡ m x)
blank_lines_lem zero m p l h enough = absurd (omega arith)
blank_lines_lem (suc fuel) m p [] h enough = (m, blank_lines_end fuel m p h, h, λ x lt. refl)
blank_lines_lem (suc fuel) m p (c ∷ l) (e, ne, h) enough =
    let m1 = blank_at m p in
    let (m', found, string, before) =
      blank_lines_lem fuel m1 (p + 1) l
        (IsString-agree m m1 (p + 1) l (λ x lo. blank_at_other m p x (omega arith)) h)
        (omega arith) in
    (
      m',
      blank_lines_step fuel m p (λ z. ne (sym e ∙ z)) ∙ found,
      (before p (omega arith) ∙ blank_at_here m p ∙ ap blank e, blank-ne-zero c ne, string),
      λ x lt. before x (omega arith) ∙ blank_at_other m p x (omega arith),
    )

length-map : (f : ℕ → ℕ) (l : List ℕ) → length (map f l) ≡ length l
length-map f [] = refl
length-map f (c ∷ l) = ap suc (length-map f l)

-- An answer of at least three bytes, with `j` the last offset where an end of the header stands
-- among its bytes, and a string behind it: the string is printed, with tabs and line feeds made
-- blank. The fuel is more than its length.
pub show_page_lem :
    (fuel len j : ℕ) (m : Bytes) (l : List ℕ) (screen : Screen)
    → 3 ≤ len
    → len < 2 ^ 32
    → j + 3 < len
    → is_end m j ≡ true
    → ((k : ℕ) → j < k → k + 3 < len → is_end m k ≡ false)
    → IsString m (j + 4) l
    → length l < fuel
    → show_page fuel m len screen ≡ some (print_text (map blank l) screen)
unfolding show_page
show_page_lem fuel len j m l screen enough word inside found last string fuelled =
    let n : sub32 len 3 ≡ len - 3 = omega arith in
    let body : find_body (sub32 len 3) 0 m none ≡ some (j + 4) =
      find_body_last (sub32 len 3) 0 j m none (omega arith) (omega arith) found
        (λ k lo hi. last k lo (omega arith)) in
    let (m', blanked, string', before) = blank_lines_lem fuel m (j + 4) l string fuelled in
    ap (λ o. o >>= λ p. blank_lines fuel m p >>= λ r. print_string fuel r p screen) body
    ∙ ap (λ o. o >>= λ r. print_string fuel r (j + 4) screen) blanked
    ∙ print_string_lem fuel m' (j + 4) (map blank l) screen string'
        (omega (arith, length-map blank l))

-- An answer without an end of the header makes the kernel read through NULL.
pub show_page_headless :
    (fuel len : ℕ) (m : Bytes) (screen : Screen)
    → 3 ≤ len
    → len < 2 ^ 32
    → ((k : ℕ) → k + 3 < len → is_end m k ≡ false)
    → show_page fuel m len screen ≡ none
unfolding show_page
show_page_headless fuel len m screen enough word h =
    let n : sub32 len 3 ≡ len - 3 = omega arith in
    ap (λ o. o >>= λ p. blank_lines fuel m p >>= λ r. print_string fuel r p screen)
      (find_body_none (sub32 len 3) 0 m none (λ k lo hi. h k (omega arith)))
