-- ===== src/Queue/Chain.antt =====
-- The entries of a queue, as a chain on the heap.
use kernel_on_qemu.Prelude.{
  ℕ, ◌≡◌, ◌≢◌, refl, Bool, true, false, ◌||◌, some, List, [], ◌∷◌, ◌++◌, arith, ◌==◌,
}
use kernel_on_qemu.Queue.{Heap, null, entry}

-- The address and the pointer of each entry, in order.
abbrev pub Cells : Type 0
Cells = List (ℕ × ℕ)

abbrev pub has : ℕ → Cells → Bool
has a [] = false
has a ((b, v) ∷ xs) = a == b || has a xs

-- From `p` the entries lead through `xs`, each at an address of its own, to the last one, at `t`.
abbrev pub Chain : Heap → (p t : ℕ) → Cells → Type 0
Chain h p t [] = ⊥
Chain h p t ((a, v) ∷ []) = (p ≡ a) × (t ≡ a) × (a ≢ null) × (h a ≡ some (entry v null))
Chain h p t ((a, v) ∷ (b, w) ∷ xs) =
    (p ≡ a)
    × (a ≢ null)
    × (h a ≡ some (entry v b))
    × (has a ((b, w) ∷ xs) ≡ false)
    × Chain h b t ((b, w) ∷ xs)

module _ (h : Heap) where
  pub frame :
      (g : Heap) (p t : ℕ) (xs : Cells)
      → Chain h p t xs
      → ((a : ℕ) → has a xs ≡ true → g a ≡ h a)
      → Chain g p t xs
  frame g p t [] c same = c
  frame g p t ((a, v) ∷ []) c same = ground (arith, same a)
  frame g p t ((a, v) ∷ (b, w) ∷ xs) c same = (
    c.0,
    c.1,
    ground (arith, same a, c.2),
    c.3,
    frame g b t ((b, w) ∷ xs) c.4 (λ x i. same x (ground arith)),
  )

  pub tail_in : (p t : ℕ) (xs : Cells) → Chain h p t xs → has t xs ≡ true
  tail_in p t [] c = absurd c
  tail_in p t ((a, v) ∷ []) c = ground arith
  tail_in p t ((a, v) ∷ (b, w) ∷ xs) c = ground (arith, tail_in b t ((b, w) ∷ xs) c.4)

  pub ends_ne_null : (p t : ℕ) (xs : Cells) → Chain h p t xs → (p ≢ null) × (t ≢ null)
  ends_ne_null p t [] c = absurd c
  ends_ne_null p t ((a, v) ∷ []) c = ground arith
  ends_ne_null p t ((a, v) ∷ (b, w) ∷ xs) c = ground (arith, ends_ne_null b t ((b, w) ∷ xs) c.4)

  -- The last entry.
  pub tail_entry : (p t : ℕ) (xs : Cells) → Chain h p t xs → (u : ℕ) × (h t ≡ some (entry u null))
  tail_entry p t [] c = absurd c
  tail_entry p t ((a, v) ∷ []) c = (v, ground arith)
  tail_entry p t ((a, v) ∷ (b, w) ∷ xs) c = tail_entry b t ((b, w) ∷ xs) c.4

pub has-append : (x a v : ℕ) (xs : Cells) → has x (xs ++ ((a, v) ∷ [])) ≡ (has x xs || x == a)
has-append x a v [] = ground arith
has-append x a v ((b, w) ∷ xs) = ground (arith, has-append x a v xs)

-- Linking a new entry behind the last one.
pub append :
    (h g : Heap) (p t fresh v : ℕ) (xs : Cells)
    → Chain h p t xs
    → has fresh xs ≡ false
    → fresh ≢ null
    → g fresh ≡ some (entry v null)
    → ((u : ℕ) → h t ≡ some (entry u null) → g t ≡ some (entry u fresh))
    → ((a : ℕ) → has a xs ≡ true → a ≢ t → g a ≡ h a)
    → Chain g p fresh (xs ++ ((fresh, v) ∷ []))
append h g p t fresh v [] c out ne new link same = absurd c
append h g p t fresh v ((a, u) ∷ []) c out ne new link same =
    (c.0, c.2, ground (arith, link u), ground arith, (refl, refl, ne, new))
append h g p t fresh v ((a, u) ∷ (b, w) ∷ []) c out ne new link same = (
  c.0,
  c.1,
  ground (arith, same a),
  ground arith,
  append h g b t fresh v ((b, w) ∷ []) c.4 (ground arith) ne new link
      (λ x i n. same x (ground arith) n),
)
append h g p t fresh v ((a, u) ∷ (b, w) ∷ y ∷ xs) c out ne new link same = (
  c.0,
  c.1,
  ground (arith, same a, tail_in h b t ((b, w) ∷ y ∷ xs) c.4),
  ground (arith, has-append a fresh v xs),
  append h g b t fresh v ((b, w) ∷ y ∷ xs) c.4 (ground arith) ne new link
      (λ x i n. same x (ground arith) n),
)
