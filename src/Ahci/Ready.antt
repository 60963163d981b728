-- ===== src/Ahci/Ready.antt =====
-- The disks that `AHCI_init` of source/kernel/ahci.c registers.
use kernel_on_qemu.Prelude.{
  ℕ, zero, suc, ◌+◌, ◌%◌, ◌≡◌, refl, sym, inl, inr, Bool, true, false, not, ◌&&◌, List, [], ◌∷◌,
  All, arith, ◌==◌, if◌then◌else◌, Bool-cases,
}
use mathlib.Core.Path.{subst}
use kernel_on_qemu.Bytes.{Bytes}
use kernel_on_qemu.Interrupt.{Cpu}
use kernel_on_qemu.Pci.{Space, Token}
use kernel_on_qemu.Ahci.{
  Port, Hba, Device, has_bit, set_bit, set_port, port_count, register_device, ahci_execute_command,
}
use kernel_on_qemu.Ahci.Identify.{
  PortPages, Disks, has_feature_48, swap_strings, take_identity, start_port, issue_identify,
  init_port, init_ports, ahci_init,
}

-- A port that runs: interrupts are on, it receives, and it works on commands.
abbrev pub IsStarted : Port → Type 0
IsStarted p = (has_bit p.ie 0 ≡ true) × (has_bit p.cmd 4 ≡ true) × (has_bit p.cmd 0 ≡ true)

-- A disk at a port that is there and runs.
abbrev pub IsReady : Hba → Device → Type 0
IsReady h d = (has_bit h.pi d.port ≡ true) × IsStarted (h.ports d.port)

bit_four : (x : ℕ) → has_bit (set_bit x 4) 4 ≡ true
bit_four x = ground arith

keep_four : (x : ℕ) → has_bit x 4 ≡ true → has_bit (set_bit x 0) 4 ≡ true
keep_four x h = ground arith

issue_identify-IsStarted : (pages : PortPages) (p : Port) → IsStarted (issue_identify pages p)
unfolding issue_identify start_port ahci_execute_command
issue_identify-IsStarted pages p =
    (ground arith, keep_four (set_bit p.cmd 4) (bit_four p.cmd), ground arith)

set_port-same : (ports : ℕ → Port) (i : ℕ) (p : Port) → set_port ports i p i ≡ p
set_port-same ports i p = ground arith

-- A port that is started stays so for the other disks.
IsReady-set_port :
    (h : Hba) (i : ℕ) (p : Port) (d : Device)
    → IsStarted p
    → IsReady h d
    → IsReady (record h { ports = set_port h.ports i p }) d
IsReady-set_port h i p d s (present, started) = (
  present,
  elim (Bool-cases (d.port == i)) [ inl here ↦ rw here s | inr other ↦ rw other started ],
)

if_All :
    (P : Device → Type 0) (d : Device) (l : List Device) (c : Bool)
    → P d
    → All P l
    → All P (if c then d ∷ l else l)
if_All P d l true x h = (x, h)
if_All P d l false x h = h

-- The disk that is registered.
take_identity-All :
    (P : Device → Type 0) (entry answer : Bytes) (port : ℕ) (devices : List Device)
    → ((d : Device) → d.port ≡ port → P d)
    → All P devices
    → All P (take_identity entry answer port devices)
unfolding take_identity register_device
take_identity-All P entry answer port devices new old =
    if_All P _ devices (has_feature_48 (swap_strings answer)) (new _ refl) old

All-map : (P Q : Device → Type 0) (l : List Device) → ((d : Device) → P d → Q d) → All P l → All Q l
All-map P Q [] f h = tt
All-map P Q (d ∷ l) f h = (f d h.0, All-map P Q l f h.1)

abbrev pub AllReady : Disks → Type 0
AllReady d = All (IsReady d.1) d.0

and_first : (x y : Bool) → (x && y) ≡ true → x ≡ true
and_first true y h = refl
and_first false y h = h

init_port-AllReady :
    (pages : ℕ → PortPages) (i : ℕ) (d : Disks) → AllReady d → AllReady (init_port pages i d)
unfolding init_port
init_port-AllReady pages i (devices, h) ready =
    let there = has_bit h.pi i && not ((h.ports i).ssts % 4 == 0) in
    let p = issue_identify (pages i) (h.ports i) in
    let started = issue_identify-IsStarted (pages i) (h.ports i) in
    let h1 = record h { ports = set_port h.ports i p } in
    let Goal : Bool → Type 0 = λ c. AllReady (
      if c then (take_identity (pages i).entry (pages i).answer i devices, h1) else (devices, h)) in
    elim (Bool-cases there) [
      | inl e ↦ subst Goal (sym e) (
          take_identity-All (IsReady h1) (pages i).entry (pages i).answer i devices
            (λ d at.
              subst (λ k. (has_bit h.pi k ≡ true) × IsStarted (set_port h.ports i p k)) (sym at)
                (
                  and_first _ (not ((h.ports i).ssts % 4 == 0)) e,
                  subst IsStarted (sym (set_port-same h.ports i p)) started,
                ))
            (All-map (IsReady h) (IsReady h1) devices
              (λ d old. IsReady-set_port h i p d started old) ready))
      | inr e ↦ subst Goal (sym e) ready
    ]

init_ports-AllReady :
    (pages : ℕ → PortPages) (n i : ℕ) (d : Disks) → AllReady d → AllReady (init_ports pages n i d)
unfolding init_ports
init_ports-AllReady pages zero i d h = h
init_ports-AllReady pages (suc n) i d h =
    init_ports-AllReady pages n (i + 1) (init_port pages i d) (init_port-AllReady pages i d h)

AllReady-if :
    (c : Bool) (x y : Cpu × Disks) → AllReady x.1 → AllReady y.1 → AllReady (if c then x else y).1
AllReady-if true x y hx hy = hx
AllReady-if false x y hx hy = hy

-- Every disk that `AHCI_init` registers is at a port that is implemented and that was started, with
-- its interrupt on; no disk is registered before.
pub ahci_init-AllReady :
    (handler : ℕ) (space : Space) (token : Token) (pages : ℕ → PortPages) (reset : Hba → Hba)
    (cpu : Cpu) (h : Hba)
    → AllReady (ahci_init handler space token pages reset cpu ([], h)).1
unfolding ahci_init
ahci_init-AllReady handler space token pages reset cpu h =
    AllReady-if (has_bit h.cap2 0) (cpu, ([], h)) _ tt
      (init_ports-AllReady pages port_count 0
        (
          [],
          (let h = reset (record h { ghc = set_bit h.ghc 0 }) in
              record h { ghc = set_bit h.ghc 1 }),
        )
        tt)
