-- ===== src/Memory/Tree.antt =====
-- The tree of the nodes of one largest block of source/kernel/memory.c: what the nodes hold less the
-- links of the free lists, which blocks a tree stands for, and what the writes of the lists leave.
use kernel_on_qemu.Prelude.{
  ℕ, zero, suc, ◌+◌, ◌-◌, ◌*◌, ◌≤◌, ◌<◌, ◌≡◌, refl, ◌∙◌, fun_ext, ◌⊎◌, ◌||◌, Bool, true, false,
  some, ◌==◌, arith, if◌then◌else◌,
}
use kernel_on_qemu.Memory.{BuddyNode, null, put}
use kernel_on_qemu.Memory.Alloc.{set_leaves, init_bnode}
use kernel_on_qemu.Memory.Free.{set_status}
use kernel_on_qemu.Memory.Lists.{
  Buddy, set_head, set_next, set_prev, push_node, pop_node, unlink_node, is_linked, order_index,
}

-- A block: free, used, or split in two.
pub data Tree : Type 0 where
  free : Tree
  used : Tree
  node : Tree → Tree → Tree

-- The pages of a block of an order.
abbrev pub size : (k : ℕ) → ℕ
size zero = 1
size (suc k) = size k + size k

-- What a node holds of the tree.
pub record Fields : Type 0 where
  pub type : ℕ
  pub status : ℕ
  pub address : ℕ
  pub leaf_left : ℕ
  pub leaf_right : ℕ

abbrev pub fields : BuddyNode → Fields
fields n = record {
  type = n.type;
  status = n.status;
  address = n.address;
  leaf_left = n.leaf_left;
  leaf_right = n.leaf_right;
}

abbrev pub View : Type 0
View = ℕ → Fields

abbrev pub view : Buddy → View
view b q = fields (b.store q)

abbrev pub leaf : (k a status : ℕ) → Fields
leaf k a status = record {
  type = size k;
  status = status;
  address = a;
  leaf_left = null;
  leaf_right = null;
}

-- The nodes from `p` on are a tree for the block of order `k` at `a`.
abbrev pub IsBlock : View → (k p a : ℕ) → Tree → Type 0
IsBlock v k p a free = v p ≡ leaf k a 1
IsBlock v k p a used = v p ≡ leaf k a 0
IsBlock v zero p a (node l r) = ⊥
IsBlock v (suc k) p a (node l r) =
    (v p ≡ record {
      type = size (suc k);
      status = 0;
      address = a;
      leaf_left = p + 24;
      leaf_right = p + 24 * size (suc k);
    })
    × IsBlock v k (p + 24) a l
    × IsBlock v k (p + 24 * size (suc k)) (a + 0x1000 * size k) r

-- The address is not of a node of the tree for a block of order `k`.
abbrev pub IsOutside : (k p q : ℕ) → Type 0
IsOutside k p q = (q < p) ⊎ (p + 24 * (2 * size k - 1) ≤ q)

-- Nodes outside the tree keep what they hold.
abbrev pub Frame : (k p : ℕ) → View → View → Type 0
Frame k p v w = (q : ℕ) → IsOutside k p q → w q ≡ v q

pub size_positive : (k : ℕ) → 1 ≤ size k
size_positive zero = omega arith
size_positive (suc k) = omega (arith, size_positive k)

-- Nodes that hold the same are the same tree.
pub IsBlock-same :
    (v w : View) (k p a : ℕ) (t : Tree)
    → ((q : ℕ) → p ≤ q → q < p + 24 * (2 * size k - 1) → w q ≡ v q)
    → IsBlock v k p a t
    → IsBlock w k p a t
IsBlock-same v w k p a free e h = e p (omega arith) (omega (arith, size_positive k)) ∙ h
IsBlock-same v w k p a used e h = e p (omega arith) (omega (arith, size_positive k)) ∙ h
IsBlock-same v w zero p a (node l r) e h = h
IsBlock-same v w (suc k) p a (node l r) e (n, hl, hr) = (
  e p (omega arith) (omega (arith, size_positive k)) ∙ n,
  IsBlock-same v w k (p + 24) a l (λ q lo hi. e q (omega arith) (omega (arith, size_positive k)))
      hl,
  IsBlock-same v w k (p + 24 * size (suc k)) (a + 0x1000 * size k) r
      (λ q lo hi. e q (omega arith) (omega (arith, size_positive k))) hr,
)

-- The writes of the lists leave the tree.
pub view-set_head : (i p : ℕ) (b : Buddy) → view (set_head i p b) ≡ view b
unfolding set_head
view-set_head i p b = refl

pub view-set_next : (p x : ℕ) (b : Buddy) → view (set_next p x b) ≡ view b
unfolding set_next put
view-set_next p x b = fun_ext (λ q. ground arith)

pub view-set_prev : (p x : ℕ) (b : Buddy) → view (set_prev p x b) ≡ view b
unfolding set_prev put
view-set_prev p x b = fun_ext (λ q. ground arith)

pub view-push_node : (i p : ℕ) (b : Buddy) → view (push_node i p b) ≡ view b
unfolding push_node
view-push_node i p b =
    let head = b.lists i in
    view-set_head i p (set_prev head p (set_next p head b))
    ∙ view-set_prev head p (set_next p head b)
    ∙ view-set_next p head b

pub view-pop_node : (i p : ℕ) (b : Buddy) → view (pop_node i p b) ≡ view b
unfolding pop_node
view-pop_node i p b =
    let head = (b.store p).list_next in
    let b1 = set_head i head b in
    let b2 = set_prev head null b1 in
    view-set_prev p null (set_next p null b2)
    ∙ view-set_next p null b2
    ∙ view-set_prev head null b1
    ∙ view-set_head i head b

pub view-else :
    (c : Bool) (x y b : Buddy)
    → view x ≡ view b
    → view y ≡ view b
    → view (if c then x else y) ≡ view b
view-else true x y b hx hy = hx
view-else false x y b hx hy = hy

pub view-unlink_node : (i p : ℕ) (b : Buddy) → view (unlink_node i p b) ≡ view b
unfolding unlink_node
view-unlink_node i p b =
    let b1 = if b.lists i == p then set_head i (b.store p).list_next b else b in
    let e1 : view b1 ≡ view b =
      view-else (b.lists i == p) _ b b (view-set_head i (b.store p).list_next b) refl in
    let prev = (b1.store p).list_prev in
    let b2 = if prev == null then b1 else set_next prev (b1.store p).list_next b1 in
    let e2 : view b2 ≡ view b1 =
      view-else (prev == null) b1 _ b1 refl (view-set_next prev (b1.store p).list_next b1) in
    let next = (b2.store p).list_next in
    let b3 = if next == null then b2 else set_prev next (b2.store p).list_prev b2 in
    let e3 : view b3 ≡ view b2 =
      view-else (next == null) b2 _ b2 refl (view-set_prev next (b2.store p).list_prev b2) in
    view-else (is_linked (b.store p) || b.lists i == p) _ b b
      (view-set_prev p null (set_next p null b3) ∙ view-set_next p null b3 ∙ e3 ∙ e2 ∙ e1) refl

pub order_index-size : (fuel k i : ℕ) → k < fuel → order_index fuel (size k) i ≡ some (i + k)
unfolding order_index
order_index-size zero k i h = absurd (omega arith)
order_index-size (suc fuel) zero i h = ground arith
order_index-size (suc fuel) (suc k) i h =
    ground (arith, order_index-size fuel k (i + 1), size_positive k)

abbrev pub update : View → ℕ → Fields → View
update v p f q = if q == p then f else v q

pub update-same : (v : View) (p : ℕ) (f : Fields) → update v p f p ≡ f
update-same v p f = ground arith

pub update-other : (v : View) (p q : ℕ) (f : Fields) → q < p ⊎ p < q → update v p f q ≡ v q
update-other v p q f h = ground arith

pub update-update : (v : View) (p : ℕ) (f g : Fields) → update (update v p f) p g ≡ update v p g
update-update v p f g = fun_ext (λ q. ground arith)

pub view-set_leaves :
    (p l r : ℕ) (b : Buddy)
    → view (set_leaves p l r b)
      ≡ update (view b) p (record (view b p) { leaf_left = l; leaf_right = r })
unfolding set_leaves put
view-set_leaves p l r b = fun_ext (λ q. ground arith)

pub view-set_status :
    (p s : ℕ) (b : Buddy)
    → view (set_status p s b) ≡ update (view b) p (record (view b p) { status = s })
unfolding set_status put
view-set_status p s b = fun_ext (λ q. ground arith)

pub view-init_bnode :
    (p s t d a x y l r : ℕ) (b : Buddy)
    → view (init_bnode p s t d a x y l r b)
      ≡ update
          (view b)
          p
          (record { type = t; status = s; address = a; leaf_left = l; leaf_right = r })
unfolding init_bnode put
view-init_bnode p s t d a x y l r b = fun_ext (λ q. ground arith)
