-- ===== src/Ahci/Slots.antt =====
-- The slot of a command in source/kernel/ahci.c.
use kernel_on_qemu.Prelude.{
  ℕ, zero, suc, ◌+◌, ◌*◌, ◌/◌, ◌^◌, ◌≤◌, ◌<◌, ◌≡◌, ◌≢◌, refl, sym, ◌∙◌, inl, inr, true, false,
  arith, ◌==◌, Bool-cases, ==_iff,
}
use mathlib.Core.Path.{subst}
use mathlib.Core.Bool.{false≢true}
use kernel_on_qemu.Words.{u16}
use kernel_on_qemu.Bytes.{Bytes}
use kernel_on_qemu.Ahci.{
  Port, CommandHeader, has_bit, set_bit, find_slot, ahci_execute_command, port_count, set_command,
  fis_size,
}

-- The search from `i` on over `n` slots gives the first that is free.
pub find_slot_lem :
    (n i j ci : ℕ)
    → i ≤ j
    → j < i + n
    → has_bit ci j ≡ false
    → ((k : ℕ) → i ≤ k → k < j → has_bit ci k ≡ true)
    → find_slot n i ci ≡ j
unfolding find_slot
find_slot_lem zero i j ci lo hi free busy = absurd (omega arith)
find_slot_lem (suc n) i j ci lo hi free busy = elim (Bool-cases (has_bit ci i)) [
  | inl taken ↦
      let other : i ≢ j = λ e. false≢true (sym free ∙ subst (λ i. has_bit ci i ≡ true) e taken) in
      rw (find_slot, taken)
        (find_slot_lem n (i + 1) j ci (omega (arith, lo, other)) (omega (arith, hi)) free
          (λ k from to. busy k (omega (arith, from)) to))
  | inr here ↦
      let same : i ≡ j = elim (Bool-cases (i == j)) [
        | inl e ↦ (==_iff i j).0 e
        | inr e ↦ absurd (false≢true (sym here ∙ busy i (omega arith) (ground (arith, lo, e))))
      ] in
      rw (find_slot, here) same
]

-- Where every slot is taken the search gives 0.
pub find_slot_busy :
    (n i ci : ℕ) → ((k : ℕ) → i ≤ k → k < i + n → has_bit ci k ≡ true) → find_slot n i ci ≡ 0
unfolding find_slot
find_slot_busy zero i ci busy = refl
find_slot_busy (suc n) i ci busy =
    rw (find_slot, busy i (omega arith) (omega arith))
      (find_slot_busy n (i + 1) ci (λ k lo hi. busy k (omega (arith, lo)) (omega (arith, hi))))

-- The port with a command in slot `i`.
abbrev issued : (command_table : ℕ) (table : Bytes) (prdtl i : ℕ) → Port → ℕ × Port
issued command_table table prdtl i p = (
  i,
  record p {
    command_list = set_command p.command_list i (record {
      desc_info = fis_size / 4 + u16 prdtl * 2 ^ 16;
      prdbc = 0;
      ctba = command_table;
      ctbau = 0;
      table = table;
    });
    ci = set_bit p.ci i;
  },
)

set_command-same : (l : ℕ → CommandHeader) (i : ℕ) (c : CommandHeader) → set_command l i c i ≡ c
set_command-same l i c = ground arith

set_command-other :
    (l : ℕ → CommandHeader) (i k : ℕ) (c : CommandHeader) → k ≢ i → set_command l i c k ≡ l k
set_command-other l i k c ne = let e : (k == i) ≡ false = ground (arith, ne) in rw e refl

-- What a port holds after a command was issued: the command is in slot `j`, whose bit is set, and
-- nothing else changed.
abbrev pub IsIssued : (command_table : ℕ) (table : Bytes) (prdtl j : ℕ) → Port → ℕ × Port → Type 0
IsIssued command_table table prdtl j p r =
    (r.0 ≡ j)
    × (r.1.command_list j ≡ record {
      desc_info = 5 + u16 prdtl * 2 ^ 16;
      prdbc = 0;
      ctba = command_table;
      ctbau = 0;
      table = table;
    })
    × ((k : ℕ) → k ≢ j → r.1.command_list k ≡ p.command_list k)
    × (r.1.ci ≡ p.ci + 2 ^ j)

-- A command goes to the first slot that is free, whose bit is set, and the commands in the other
-- slots stay as they are.
pub ahci_execute_command_lem :
    (command_table : ℕ) (table : Bytes) (prdtl j : ℕ) (p : Port)
    → j < port_count
    → has_bit p.ci j ≡ false
    → ((k : ℕ) → k < j → has_bit p.ci k ≡ true)
    → IsIssued command_table table prdtl j p (ahci_execute_command command_table table prdtl p)
unfolding ahci_execute_command
ahci_execute_command_lem command_table table prdtl j p lt free busy =
    let slot : find_slot port_count 0 p.ci ≡ j =
      find_slot_lem port_count 0 j p.ci (omega arith) (omega (arith, lt)) free
        (λ k lo hi. busy k hi) in
    let Goal : ℕ → Type 0 =
      λ i. IsIssued command_table table prdtl j p (issued command_table table prdtl i p) in
    subst Goal (sym slot) (
      refl,
      set_command-same p.command_list j _,
      (λ k ne. set_command-other p.command_list j k _ ne),
      rw free refl,
    )
