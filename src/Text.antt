-- ===== src/Text.antt =====
-- strlen and strncmp of source/kernel/string.c. A string is an object and an offset into it.
use kernel_on_qemu.Prelude.{
  ℕ, zero, suc, ◌+◌, ◌<◌, ◌≡◌, ◌≢◌, ◌↔◌, true, false, Option, none, some, arith, ◌==◌,
  if◌then◌else◌, ◌-◌, ◌≤◌, ap, ◌∙◌, refl,
}
use native.Mathlib.Decide.{dec_lt}
use kernel_on_qemu.Bytes.{Bytes}

-- The `while` loop, on fuel; `none` means that the fuel ran out.
strlen_loop : ℕ → Bytes → ℕ → ℕ → Option ℕ
strlen_loop zero m s len = none
strlen_loop (suc fuel) m s len =
    let rest = strlen_loop fuel m (s + 1) (len + 1) in if m s == 0 then some len else rest

pub strlen : ℕ → Bytes → ℕ → Option ℕ
unfolding strlen_loop
strlen fuel m s = strlen_loop fuel m s 0

pub strncmp : Bytes → ℕ → Bytes → ℕ → ℕ → ℕ
strncmp m1 str1 m2 str2 zero = 0
strncmp m1 str1 m2 str2 (suc num) = elim (m1 str1 == m2 str2) [
  | false ↦ 1
  | true ↦ strncmp m1 (str1 + 1) m2 (str2 + 1) num
]

strlen_loop_lem :
    (fuel : ℕ) (m : Bytes) (s end len : ℕ)
    → s ≤ end
    → end < s + fuel
    → m end ≡ 0
    → ((x : ℕ) → s ≤ x → x < end → m x ≢ 0)
    → strlen_loop fuel m s len ≡ some (len + (end - s))
unfolding strlen_loop
strlen_loop_lem zero m s end len le h z nz = absurd (omega arith)
strlen_loop_lem (suc fuel) m s end len le h z nz = elim (dec_lt s end) [
  | yes p ↦ ground (
    arith,
    nz s,
    strlen_loop_lem fuel m (s + 1) end (len + 1) (omega arith) (omega arith) z
        (λ x lo hi. nz x (omega arith) hi),
  )
  | no p ↦ let e : s ≡ end = omega arith in ground (arith, ap m e)
]

-- strlen returns the distance to the first zero byte of the string, given more rounds than that.
pub strlen_lem :
    (fuel : ℕ) (m : Bytes) (s end : ℕ)
    → s ≤ end
    → end < s + fuel
    → m end ≡ 0
    → ((x : ℕ) → s ≤ x → x < end → m x ≢ 0)
    → strlen fuel m s ≡ some (end - s)
unfolding strlen
strlen_lem fuel m s end le h z nz = strlen_loop_lem fuel m s end 0 le h z nz ∙ ap some (omega arith)

strncmp_of_same :
    (num : ℕ) (m1 : Bytes) (str1 : ℕ) (m2 : Bytes) (str2 : ℕ)
    → ((i : ℕ) → i < num → m1 (str1 + i) ≡ m2 (str2 + i))
    → strncmp m1 str1 m2 str2 num ≡ 0
unfolding strncmp
strncmp_of_same zero m1 str1 m2 str2 same = refl
strncmp_of_same (suc num) m1 str1 m2 str2 same =
    let first : m1 str1 ≡ m2 str2 = ground (arith, same 0 (omega arith)) in
    ground (
      arith,
      strncmp_of_same num m1 (str1 + 1) m2 (str2 + 1)
          (λ i h. ground (arith, same (suc i) (omega arith))),
    )

same_of_strncmp :
    (num : ℕ) (m1 : Bytes) (str1 : ℕ) (m2 : Bytes) (str2 : ℕ)
    → strncmp m1 str1 m2 str2 num ≡ 0
    → (i : ℕ) → i < num
    → m1 (str1 + i) ≡ m2 (str2 + i)
unfolding strncmp
same_of_strncmp zero m1 str1 m2 str2 e i h = absurd (omega arith)
same_of_strncmp (suc num) m1 str1 m2 str2 e zero h = ground arith
same_of_strncmp (suc num) m1 str1 m2 str2 e (suc i) h = ground (
  arith,
  λ (e' : strncmp m1 (str1 + 1) m2 (str2 + 1) num ≡ 0).
      same_of_strncmp num m1 (str1 + 1) m2 (str2 + 1) e' i (omega arith),
)

-- strncmp returns 0 exactly when the `num` bytes from `str1` on and those from `str2` on agree.
-- Zero bytes do not end the comparison.
pub strncmp_iff :
    (num : ℕ) (m1 : Bytes) (str1 : ℕ) (m2 : Bytes) (str2 : ℕ)
    → (strncmp m1 str1 m2 str2 num ≡ 0) ↔ ((i : ℕ) → i < num → m1 (str1 + i) ≡ m2 (str2 + i))
strncmp_iff num m1 str1 m2 str2 =
    (same_of_strncmp num m1 str1 m2 str2, strncmp_of_same num m1 str1 m2 str2)
