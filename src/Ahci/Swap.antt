-- ===== src/Ahci/Swap.antt =====
-- `identify_swap` of source/kernel/ahci.c.
use kernel_on_qemu.Prelude.{
  ℕ, zero, suc, ◌+◌, ◌-◌, ◌%◌, ◌≡◌, refl, ◌∙◌, ap, inl, inr, Bool, true, false, ◌&&◌, arith, ltb,
  leb, ◌==◌, if◌then◌else◌, Bool-cases,
}
use mathlib.Core.Path.{subst}
use kernel_on_qemu.Bytes.{Bytes, write8}
use kernel_on_qemu.Ahci.Identify.{swap_rounds, identify_swap}

-- The other byte of a pair.
abbrev pub partner : (buf x : ℕ) → ℕ
partner buf x = if (x - buf) % 2 == 0 then x + 1 else x - 1

abbrev double : ℕ → ℕ
double zero = zero
double (suc p) = suc (suc (double p))

-- What two rounds do.
abbrev swapped : (i buf : ℕ) → Bytes → Bytes
swapped i buf m = write8 (write8 m (buf + i) (m (buf + (i + 1)))) (buf + (i + 1)) (m (buf + i))

two_rounds :
    (n i buf : ℕ) (m : Bytes)
    → i % 2 ≡ 0
    → swap_rounds (suc (suc n)) i buf m ≡ swap_rounds n (i + 1 + 1) buf (swapped i buf m)
unfolding swap_rounds
two_rounds n i buf m even =
    let e0 : (i % 2 == 0) ≡ true = ground arith in
    let e1 : ((i + 1) % 2 == 0) ≡ false = ground arith in rw (swap_rounds, e0, e1) refl

abbrev pub in_buffer : (buf len x : ℕ) → Bool
in_buffer buf len x = leb buf x && ltb x (buf + len)

-- The first pair, and the others.
pair_first :
    (len i buf x : ℕ) (m : Bytes)
    → i % 2 ≡ 0
    → (if in_buffer (buf + (i + 1 + 1)) len x
        then swapped i buf m (partner (buf + (i + 1 + 1)) x)
        else swapped i buf m x)
      ≡ (if in_buffer (buf + i) (suc (suc len)) x then m (partner (buf + i) x) else m x)
unfolding write8
pair_first len i buf x m even = elim (Bool-cases (ltb x (buf + i))) [
  | inl below ↦ ground arith
  | inr above ↦ elim (Bool-cases (ltb x (buf + i + 2))) [
    | inl inside ↦ elim (Bool-cases (x == buf + i)) [
      | inl first ↦ ground arith
      | inr second ↦ ground arith
    ]
    | inr behind ↦ ground arith
  ]
]

swap_pairs_lem :
    (p i buf x : ℕ) (m : Bytes)
    → i % 2 ≡ 0
    → swap_rounds (double p) i buf m x
      ≡ (if in_buffer (buf + i) (double p) x then m (partner (buf + i) x) else m x)
unfolding swap_rounds
swap_pairs_lem zero i buf x m even = ground arith
swap_pairs_lem (suc p) i buf x m even =
    ap (λ f. f x) (two_rounds (double p) i buf m even)
    ∙ swap_pairs_lem p (i + 1 + 1) buf x (swapped i buf m) (omega (arith, even))
    ∙ pair_first (double p) i buf x m even

double-half : (n : ℕ) → n % 2 ≡ 0 → (p : ℕ) × (double p ≡ n)
double-half zero e = (0, refl)
double-half (suc zero) e = absurd (omega (arith, e))
double-half (suc (suc n)) e =
    let h = double-half n (omega (arith, e)) in (suc h.0, ap (λ n. suc (suc n)) h.1)

-- For an even number of bytes `identify_swap` exchanges the bytes of every pair of the buffer, and
-- changes nothing else.
pub identify_swap_lem :
    (buf len x : ℕ) (m : Bytes)
    → len % 2 ≡ 0
    → identify_swap buf len m x ≡ (if in_buffer buf len x then m (partner buf x) else m x)
unfolding identify_swap
identify_swap_lem buf len x m even =
    let h = double-half len even in
    let at : buf + 0 ≡ buf = omega arith in
    subst (λ n. swap_rounds n 0 buf m x ≡ (if in_buffer buf n x then m (partner buf x) else m x))
      h.1
      (swap_pairs_lem h.0 0 buf x m refl
        ∙ ap (λ b. if in_buffer b (double h.0) x then m (partner b x) else m x) at)
