-- ===== src/Checksum/Verify.antt =====
-- The check of a receiver on a checksum of source/kernel/checksum.c that is stored in its field.
use kernel_on_qemu.Prelude.{
  ℕ, zero, suc, ◌+◌, ◌*◌, ◌^◌, ◌<◌, ◌≤◌, ◌≡◌, ◌≢◌, refl, sym, ◌∙◌, ap, arith,
}
use kernel_on_qemu.Words.{u32, sub32, netswap16, netswap16-lt}
use kernel_on_qemu.Bytes.{Bytes, write16, read16}
use kernel_on_qemu.Bytes.Range.{IsBytes}
use kernel_on_qemu.Checksum.{netchecksum_loop, netchecksum_final, netchecksum}
use kernel_on_qemu.Checksum.Laws.{netchecksum_final_cancels, netchecksum_final_of_multiple}

pub netchecksum_loop_same :
    (len : ℕ) (m n : Bytes) (p sum : ℕ)
    → ((x : ℕ) → p ≤ x → m x ≡ n x)
    → netchecksum_loop m len p sum ≡ netchecksum_loop n len p sum
unfolding netchecksum_loop read16
netchecksum_loop_same zero m n p sum same = refl
netchecksum_loop_same (suc zero) m n p sum same = ground (arith, same p)
netchecksum_loop_same (suc (suc len)) m n p sum same =
    rw (same p (omega arith), same (p + 1) (omega arith))
      (netchecksum_loop_same len m n (p + 2) _ (λ x h. same x (omega arith)))

netchecksum_loop_add :
    (len : ℕ) (m : Bytes) (p sum v : ℕ)
    → netchecksum_loop m len p (u32 (sum + v)) ≡ u32 (netchecksum_loop m len p (u32 sum) + v)
unfolding netchecksum_loop
netchecksum_loop_add zero m p sum v = omega arith
netchecksum_loop_add (suc zero) m p sum v = omega arith
netchecksum_loop_add (suc (suc len)) m p sum v =
    let e : u32 (u32 (sum + v) + read16 m p) ≡ u32 (u32 sum + read16 m p + v) = omega arith in
    ap (netchecksum_loop m len (p + 2)) e
    ∙ netchecksum_loop_add len m (p + 2) (u32 sum + read16 m p) v

netchecksum_loop-le :
    (len : ℕ) (m : Bytes) (p sum : ℕ)
    → IsBytes m
    → sum + 0x10000 * len < 2 ^ 32
    → netchecksum_loop m len p sum ≤ sum + 0x10000 * len
unfolding netchecksum_loop read16
netchecksum_loop-le zero m p sum b h = omega arith
netchecksum_loop-le (suc zero) m p sum b h = omega (arith, b p)
netchecksum_loop-le (suc (suc len)) m p sum b h =
    let e : u32 (sum + read16 m p) ≡ sum + read16 m p = omega (arith, b p, b (p + 1)) in
    rw e (
      omega (
        arith,
        b p,
        b (p + 1),
        netchecksum_loop-le len m (p + 2) (sum + read16 m p) b (omega (arith, b p, b (p + 1))),
      ))

netchecksum_loop-write16 :
    (k len : ℕ) (m : Bytes) (p sum v a : ℕ)
    → a ≡ p + 2 * k
    → 2 * k + 1 < len
    → v < 2 ^ 16
    → sum < 2 ^ 32
    → m a ≡ 0
    → m (a + 1) ≡ 0
    → netchecksum_loop (write16 m a v) len p sum ≡ u32 (netchecksum_loop m len p sum + v)
unfolding netchecksum_loop read16 write16
netchecksum_loop-write16 k zero m p sum v a e h hv hs z z' = absurd (omega arith)
netchecksum_loop-write16 k (suc zero) m p sum v a e h hv hs z z' = absurd (omega arith)
netchecksum_loop-write16 zero (suc (suc len)) m p sum v a e h hv hs z z' =
    let here : read16 (write16 m a v) p ≡ v = ground arith in
    let before : read16 m p ≡ 0 = ground (arith, ap m e, ap (λ x. m (x + 1)) e) in
    let e' : u32 (sum + read16 m p) ≡ u32 sum = omega arith in
    netchecksum_loop_same len (write16 m a v) m (p + 2) _ (λ x lo. ground arith)
    ∙ ap (λ r. netchecksum_loop m len (p + 2) (u32 (sum + r))) here
    ∙ netchecksum_loop_add len m (p + 2) sum v
    ∙ ap (λ r. u32 (netchecksum_loop m len (p + 2) r + v)) (sym e')
netchecksum_loop-write16 (suc k) (suc (suc len)) m p sum v a e h hv hs z z' =
    let here : read16 (write16 m a v) p ≡ read16 m p = ground arith in
    ap (λ r. netchecksum_loop (write16 m a v) len (p + 2) (u32 (sum + r))) here
    ∙ netchecksum_loop-write16 k len m (p + 2) (u32 (sum + read16 m p)) v a (omega arith)
        (omega arith) hv (omega arith) z z'

nonzero_with_checksum : (sum : ℕ) → sum + netswap16 (netchecksum_final sum) ≢ 0
unfolding netswap16 netchecksum_final
nonzero_with_checksum sum = omega arith

-- The checksum of a region of `len` bytes, less than 2 ^ 15 and below 2 ^ 32, from `h` on, computed while the field at the even distance
-- `2 * k` is 0 and stored there in network order, makes the checksum of the region 0.
pub netchecksum_verifies :
    (m : Bytes) (h len k a : ℕ)
    → IsBytes m
    → a ≡ h + 2 * k
    → 2 * k + 1 < len
    → len < 2 ^ 15
    → h + len < 2 ^ 32
    → m a ≡ 0
    → m (a + 1) ≡ 0
    → netchecksum (write16 m a (netswap16 (netchecksum m h (h + len)))) h (h + len) ≡ 0
unfolding netchecksum
netchecksum_verifies m h len k a b e inside small fits z z' =
    let n : sub32 (h + len) h ≡ len = omega arith in
    let sum : ℕ = netchecksum_loop m len h 0 in
    let le : sum ≤ 0x10000 * len = omega (arith, netchecksum_loop-le len m h 0 b (omega arith)) in
    let field : ℕ = netswap16 (netchecksum_final sum) in
    let lt : field < 2 ^ 16 = netswap16-lt (netchecksum_final sum) in
    let stored : netchecksum_loop (write16 m a field) len h 0 ≡ u32 (sum + field) =
      netchecksum_loop-write16 k len m h 0 field a e inside lt (omega arith) z z' in
    let fits' : u32 (sum + field) ≡ sum + field = omega arith in
    rw (n, stored, fits')
      (netchecksum_final_of_multiple (sum + field) (omega arith) (nonzero_with_checksum sum)
        (netchecksum_final_cancels sum (omega arith)))

pub netchecksum_same :
    (m n : Bytes) (start end : ℕ)
    → ((x : ℕ) → start ≤ x → m x ≡ n x)
    → netchecksum m start end ≡ netchecksum n start end
unfolding netchecksum
netchecksum_same m n start end same =
    ap netchecksum_final (netchecksum_loop_same (sub32 end start) m n start 0 same)
