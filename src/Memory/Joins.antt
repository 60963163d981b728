-- ===== src/Memory/Joins.antt =====
-- Joining the halves of a block in source/kernel/memory.c, as an operation on the tree.
use kernel_on_qemu.Prelude.{
  ℕ, zero, suc, ◌+◌, ◌-◌, ◌*◌, ◌≡◌, refl, sym, ◌∙◌, ap, inl, inr, Bool, true, false, ◌==◌, ◌&&◌,
  arith, if◌then◌else◌, ltb,
}
use mathlib.Core.Path.{subst}
use kernel_on_qemu.Memory.{null}
use kernel_on_qemu.Memory.Lists.{Buddy, unlink_node}
use kernel_on_qemu.Memory.Alloc.{set_leaves}
use kernel_on_qemu.Memory.Free.{set_status, both_unallocated, relist, join_leaves}
use kernel_on_qemu.Memory.Tree.{
  Tree, Tree.free, Tree.used, Tree.node, size, View, view, leaf, IsBlock, Frame, size_positive,
  IsBlock-same, view-push_node, view-unlink_node, view-else, update, update-same, update-other,
  update-update, view-set_leaves, view-set_status,
}

abbrev pub is_free : Tree → Bool
is_free free = true
is_free used = false
is_free (node l r) = false

-- Two free halves are one free block.
abbrev pub join : Tree → Tree → Tree
join l r = if is_free l && is_free r then free else node l r

-- Frees the first `n` pages.
abbrev pub merge_tree : (k n : ℕ) → Tree → Tree
merge_tree k n free = free
merge_tree k n used = free
merge_tree zero n (node l r) = node l r
merge_tree (suc k) n (node l r) =
    join (merge_tree k n l)
      (elim (ltb (size k) n) [ true ↦ merge_tree k (n - size k) r | false ↦ r ])

-- Joins free halves.
abbrev pub coalesce : Tree → Tree
coalesce free = free
coalesce used = used
coalesce (node l r) = join (coalesce l) (coalesce r)

abbrev pub SameTypes : View → View → Type 0
SameTypes v w = (q : ℕ) → (w q).type ≡ (v q).type

-- From `b` to `r` the tree of the block at `p` becomes `t`; other nodes keep what they hold.
abbrev pub Becomes : (k p a : ℕ) → Tree → (b r : Buddy) → Type 0
Becomes k p a t b r =
    IsBlock (view r) k p a t × Frame k p (view b) (view r) × SameTypes (view b) (view r)

-- The two leaves of a node.
abbrev pub left_leaf : ℕ → ℕ
left_leaf p = p + 24

abbrev pub right_leaf : (k p : ℕ) → ℕ
right_leaf k p = p + 24 * size (suc k)

pub IsBlock-status :
    (v : View) (k p a : ℕ) (t : Tree) → IsBlock v k p a t → ((v p).status == 1) ≡ is_free t
IsBlock-status v k p a free h = ap (λ f. f.status == 1) h
IsBlock-status v k p a used h = ap (λ f. f.status == 1) h
IsBlock-status v zero p a (node l r) h = absurd h
IsBlock-status v (suc k) p a (node l r) h = ap (λ f. f.status == 1) h.0

pub IsBlock-type : (v : View) (k p a : ℕ) (t : Tree) → IsBlock v k p a t → (v p).type ≡ size k
IsBlock-type v k p a free h = ap (λ f. f.type) h
IsBlock-type v k p a used h = ap (λ f. f.type) h
IsBlock-type v zero p a (node l r) h = absurd h
IsBlock-type v (suc k) p a (node l r) h = ap (λ f. f.type) h.0

pub IsBlock-address : (v : View) (k p a : ℕ) (t : Tree) → IsBlock v k p a t → (v p).address ≡ a
IsBlock-address v k p a free h = ap (λ f. f.address) h
IsBlock-address v k p a used h = ap (λ f. f.address) h
IsBlock-address v zero p a (node l r) h = absurd h
IsBlock-address v (suc k) p a (node l r) h = ap (λ f. f.address) h.0

pub both_unallocated_lem :
    (k p a : ℕ) (l r : Tree) (b : Buddy)
    → IsBlock (view b) (suc k) p a (node l r)
    → both_unallocated p b ≡ (is_free l && is_free r)
both_unallocated_lem k p a l r b (n, hl, hr) =
    ap (λ f. (view b f.leaf_left).status == 1 && (view b f.leaf_right).status == 1) n
    ∙ (λ i. IsBlock-status (view b) k _ _ l hl i && IsBlock-status (view b) k _ _ r hr i)

view-relist : (i p : ℕ) (b : Buddy) → view (relist i p b) ≡ view b
unfolding relist
view-relist i p b = view-else _ _ b b (view-push_node i p b) refl

-- A node is joined: it is a free block, and nothing else changes but the leaves' status.
abbrev free_view : (k p a : ℕ) → View → View
free_view k p a v = update v p (leaf k a 1)

pub free_view-Becomes :
    (k p a : ℕ) (b r : Buddy)
    → (view b p).type ≡ size k
    → view r ≡ free_view k p a (view b)
    → Becomes k p a free b r
free_view-Becomes k p a b r t e = (
  ap (λ v. v p) e ∙ update-same (view b) p (leaf k a 1),
  (λ q o.
      ap (λ v. v q) e ∙ update-other (view b) p q (leaf k a 1) (ground (arith, size_positive k))),
  (λ q. ap (λ v. (v q).type) e ∙ ground (arith, t)),
)

pub view-set_free :
    (k p a : ℕ) (b : Buddy)
    → (view b p).type ≡ size k
    → (view b p).address ≡ a
    → view (set_status p 1 (set_leaves p null null b)) ≡ free_view k p a (view b)
view-set_free k p a b t d =
    let b1 = set_leaves p null null b in
    let v1 = view-set_leaves p null null b in
    let n1 = ap (λ v. v p) v1 ∙ update-same (view b) p _ in
    view-set_status p 1 b1
    ∙ (λ i. update (v1 i) p (record {
      type = (ap (λ f. f.type) n1 ∙ t) i;
      status = 1;
      address = (ap (λ f. f.address) n1 ∙ d) i;
      leaf_left = (n1 i).leaf_left;
      leaf_right = (n1 i).leaf_right;
    }))
    ∙ update-update (view b) p _ (leaf k a 1)

pub Becomes-same :
    (k p a : ℕ) (t : Tree) (b r : Buddy)
    → view r ≡ view b
    → IsBlock (view b) k p a t
    → Becomes k p a t b r
Becomes-same k p a t b r e h = (
  subst (λ v. IsBlock v k p a t) (sym e) h,
  (λ q o. ap (λ v. v q) e),
  λ q. ap (λ v. (v q).type) e,
)

pub if_free :
    (k p a : ℕ) (t : Tree) (b : Buddy) (c : Bool) (x y : Buddy)
    → (c ≡ true → Becomes k p a free b x)
    → (c ≡ false → Becomes k p a t b y)
    → Becomes k p a (if c then free else t) b (if c then x else y)
if_free k p a t b true x y f g = f refl
if_free k p a t b false x y f g = g refl

pub join_leaves_lem :
    (k p a index : ℕ) (l r : Tree) (b : Buddy)
    → IsBlock (view b) (suc k) p a (node l r)
    → Becomes (suc k) p a (join l r) b (join_leaves p index b)
unfolding join_leaves
join_leaves_lem k p a index l r b h =
    let left = (b.store p).leaf_left in
    let right = (b.store p).leaf_right in
    let b1 = unlink_node index right (unlink_node index left b) in
    let v1 : view b1 ≡ view b =
      view-unlink_node index right (unlink_node index left b) ∙ view-unlink_node index left b in
    let b2 = relist index right (relist index left b) in
    let v2 : view b2 ≡ view b =
      view-relist index right (relist index left b) ∙ view-relist index left b in
    let t1 = ap (λ v. (v p).type) v1 ∙ ap (λ f. f.type) h.0 in
    let a1 = ap (λ v. (v p).address) v1 ∙ ap (λ f. f.address) h.0 in
    subst (λ c. Becomes (suc k) p a (if c then free else node l r) b (join_leaves p index b))
      (both_unallocated_lem k p a l r b h)
      (if_free (suc k) p a (node l r) b (both_unallocated p b)
        (set_status p 1 (set_leaves p null null b1)) b2
        (λ e.
          free_view-Becomes (suc k) p a b (set_status p 1 (set_leaves p null null b1))
            (ap (λ f. f.type) h.0)
            (view-set_free (suc k) p a b1 t1 a1 ∙ ap (free_view (suc k) p a) v1))
        (λ e. Becomes-same (suc k) p a (node l r) b b2 v2 h))

pub Becomes-trans :
    (k p a : ℕ) (t : Tree) (b c d : Buddy) (s : Tree)
    → Becomes k p a s b c
    → Becomes k p a t c d
    → Becomes k p a t b d
Becomes-trans k p a t b c d s (h, f, e) (h2, f2, e2) =
    (h2, (λ q o. f2 q o ∙ f q o), λ q. e2 q ∙ e q)

-- A half becomes another tree.
pub Becomes-left :
    (k p a : ℕ) (l r t : Tree) (b c : Buddy)
    → IsBlock (view b) (suc k) p a (node l r)
    → Becomes k (left_leaf p) a t b c
    → Becomes (suc k) p a (node t r) b c
Becomes-left k p a l r t b c (n, hl, hr) (h, f, e) = (
  (
    f p (inl (omega arith)) ∙ n,
    h,
    IsBlock-same (view b) (view c) k (right_leaf k p) (a + 0x1000 * size k) r
        (λ q lo hi. f q (inr (omega (arith, size_positive k)))) hr,
  ),
  (λ q o. f q (ground (arith, size_positive k))),
  e,
)

pub Becomes-right :
    (k p a : ℕ) (l r t : Tree) (b c : Buddy)
    → IsBlock (view b) (suc k) p a (node l r)
    → Becomes k (right_leaf k p) (a + 0x1000 * size k) t b c
    → Becomes (suc k) p a (node l t) b c
Becomes-right k p a l r t b c (n, hl, hr) (h, f, e) = (
  (
    f p (inl (omega (arith, size_positive k))) ∙ n,
    IsBlock-same (view b) (view c) k (left_leaf p) a l
        (λ q lo hi. f q (inl (omega (arith, size_positive k)))) hl,
    h,
  ),
  (λ q o. f q (ground (arith, size_positive k))),
  e,
)
