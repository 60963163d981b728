-- ===== src/Kernel/Request.antt =====
-- The request that source/kernel/kernel.c sends to the web server.
use kernel_on_qemu.Prelude.{
  ℕ, suc, ◌+◌, ◌-◌, ◌≤◌, ◌<◌, ◌≡◌, refl, ◌∙◌, sym, ap, List, [], ◌∷◌, ◌++◌, String, codes, length,
  length-append, arith,
}
use mathlib.Core.Path.{subst}
use kernel_on_qemu.Bytes.{Bytes, memcpy, write8}
use kernel_on_qemu.Bytes.Laws.{memcpy_lem}
use kernel_on_qemu.Kernel.Web.{object, append_text, http_get}

-- The bytes from offset `p` on are those of the list.
abbrev pub Holds : Bytes → (p : ℕ) → List ℕ → Type 0
Holds m p [] = Unit
Holds m p (c ∷ l) = (m p ≡ c) × Holds m (p + 1) l

Holds-append :
    (m : Bytes) (p : ℕ) (l r : List ℕ) → Holds m p l → Holds m (p + length l) r → Holds m p (l ++ r)
Holds-append m p [] r h k = subst (λ x. Holds m x r) (omega arith) k
Holds-append m p (c ∷ l) r (e, h) k =
    (e, Holds-append m (p + 1) l r h (subst (λ x. Holds m x r) (omega arith) k))

-- Another object that agrees on the bytes of the list holds it too.
Holds-agree :
    (m m' : Bytes) (p : ℕ) (l : List ℕ)
    → ((x : ℕ) → p ≤ x → x < p + length l → m' x ≡ m x)
    → Holds m p l
    → Holds m' p l
Holds-agree m m' p [] same h = tt
Holds-agree m m' p (c ∷ l) same (e, h) = (
  same p (omega arith) (omega arith) ∙ e,
  Holds-agree m m' (p + 1) l (λ x lo hi. same x (omega arith) (omega arith)) h,
)

-- A copy of an object that holds a list.
Holds-memcpy :
    (l : List ℕ) (m src : Bytes) (p s : ℕ) → Holds src s l → Holds (memcpy m p src s (length l)) p l
unfolding memcpy
Holds-memcpy [] m src p s h = tt
Holds-memcpy (c ∷ l) m src p s (e, h) = (
  memcpy_lem m p src s (suc (length l)) p
      ∙ ground (arith, ap src (let at : s + (p - p) ≡ s = omega arith in at)),
  Holds-memcpy l (write8 m p (src s)) src (p + 1) (s + 1) h,
)

Holds-object : (l : List ℕ) (m : Bytes) (s : ℕ) → ((x : ℕ) → m (s + x) ≡ object l x) → Holds m s l
Holds-object [] m s h = tt
Holds-object (c ∷ l) m s h = (
  ap m (let at : s ≡ s + 0 = omega arith in at) ∙ h 0,
  Holds-object l m (s + 1)
      (λ x. ap m (let at : s + 1 + x ≡ s + suc x = omega arith in at) ∙ h (suc x)),
)

-- Appending a text behind a list.
append_text-Holds :
    (text : String) (l : List ℕ) (m : Bytes)
    → Holds m 0 l
    → let (m', p') = append_text text (m, length l) in
      Holds m' 0 (l ++ codes text) × (p' ≡ length (l ++ codes text))
unfolding append_text
append_text-Holds text l m h =
    let src = object (codes text) in
    let m' = memcpy m (length l) src 0 (length (codes text)) in
    let copied : Holds m' (length l) (codes text) =
      Holds-memcpy (codes text) m src (length l) 0
        (Holds-object (codes text) src 0 (λ x. ap src (omega arith))) in
    let kept : Holds m' 0 l =
      Holds-agree m m' 0 l
        (λ x lo hi. memcpy_lem m (length l) src 0 (length (codes text)) x ∙ ground arith) h in
    (
      Holds-append m' 0 l (codes text) kept
          (subst (λ x. Holds m' x (codes text)) (omega arith) copied),
      omega (arith, length-append l (codes text)),
    )

-- What has been written so far, and the offset behind it.
abbrev pub IsText : List ℕ → Bytes × ℕ → Type 0
IsText l (m, p) = Holds m 0 l × (p ≡ length l)

append_text-IsText :
    (text : String) (l : List ℕ) (r : Bytes × ℕ)
    → IsText l r
    → IsText (l ++ codes text) (append_text text r)
append_text-IsText text l (m, p) (h, e) =
    subst (λ x. IsText (l ++ codes text) (append_text text (m, x))) (sym e)
      (append_text-Holds text l m h)

-- The lines of the request, in order.
abbrev pub request : List ℕ
request = codes "GET / HTTP/1.1\r\nHost: 192.168.1.111\r\nUser-Agent: kernel\r\nAccept: */*\r\n\r\n"

-- The request is the text of the four lines, with an empty one, in any page.
pub http_get_lem : (buf : Bytes) → IsText request (http_get buf)
unfolding http_get
http_get_lem buf =
    let first = codes "GET / HTTP/1.1\r\n" in
    let second = first ++ codes "Host: 192.168.1.111\r\n" in
    let third = second ++ codes "User-Agent: kernel\r\n" in
    let r1 = append_text "GET / HTTP/1.1\r\n" (buf, 0) in
    let r2 = append_text "Host: 192.168.1.111\r\n" r1 in
    let r3 = append_text "User-Agent: kernel\r\n" r2 in
    append_text-IsText "Accept: */*\r\n\r\n" third r3 (
      append_text-IsText "User-Agent: kernel\r\n" second r2 (
        append_text-IsText "Host: 192.168.1.111\r\n" first r1
          (append_text-IsText "GET / HTTP/1.1\r\n" [] (buf, 0) (tt, refl))))
