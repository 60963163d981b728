-- ===== src/Pci/Enumeration.antt =====
-- The enumeration of source/kernel/pci.c and the loops that follow it.
use kernel_on_qemu.Prelude.{
  ℕ, zero, suc, ◌+◌, ◌*◌, ◌/◌, ◌^◌, ◌<◌, ◌==◌, ◌&&◌, fun_ext, arith, ◌≡◌, refl, sym, ap, ◌∙◌, Bool,
  true, false, List, [], ◌∷◌, ◌++◌, if◌then◌else◌, Bool-cases, inl, inr,
}
use Prim.Native.Nat.{bit_and}
use kernel_on_qemu.Words.{u8, u16}
use kernel_on_qemu.Pci.{
  Token, DeviceClass, Space, is_present, has_functions, is_class, walk_functions, walk_device,
  walk_devices, walk_buses, enum_pci, find_pci_device, find_functions, find_on_device, find_devices,
  find_buses, get_pci_offset, read_config_data, config_address,
}

unfoldable pub visit_all : {S : Type 0} → (Token → S → S) → List Token → S → S
visit_all v [] s = s
visit_all v (t ∷ l) s = visit_all v l (v t s)

abbrev pub add : Token → List Token → List Token
add t l = l ++ (t ∷ [])

module _ {S : Type 0} (space : Space) (v : Token → S → S) (s : S) where
  visit_all-append :
      (l : List Token) (t : Token) (s : S) → visit_all v (l ++ (t ∷ [])) s ≡ v t (visit_all v l s)
  unfolding visit_all
  visit_all-append [] t s = refl
  visit_all-append (u ∷ l) t s = visit_all-append l t (v u s)

  visit_if :
      (b : Bool) (t : Token) (l : List Token)
      → visit_all v (if b then add t l else l) s
        ≡ (if b then v t (visit_all v l s) else visit_all v l s)
  visit_if true t l = visit_all-append l t s
  visit_if false t l = refl

  walk_functions_lem :
      (bus device k n : ℕ) (l : List Token)
      → visit_all v (walk_functions space add bus device k n l) s
        ≡ walk_functions space v bus device k n (visit_all v l s)
  unfolding walk_functions
  walk_functions_lem bus device k zero l = refl
  walk_functions_lem bus device k (suc n) l =
      walk_functions_lem bus device (k + 1) n _
      ∙ ap (walk_functions space v bus device (k + 1) n) (
          visit_if (is_present space bus device k)
            (record { bus = bus; device = device; function = k }) l)

  walk_device_lem :
      (bus device : ℕ) (l : List Token)
      → visit_all v (walk_device space add bus device l) s
        ≡ walk_device space v bus device (visit_all v l s)
  unfolding walk_device
  walk_device_lem bus device l =
      let t : Token = record { bus = bus; device = device; function = 0 } in
      elim (Bool-cases (is_present space bus device 0)) [
        | inr absent ↦ rw absent refl
        | inl present ↦ elim (Bool-cases (has_functions space bus device)) [
          | inr single ↦ rw (present, single) (visit_all-append l t s)
          | inl more ↦
              rw (present, more)
                (walk_functions_lem bus device 1 7 (add t l)
                  ∙ ap (walk_functions space v bus device 1 7) (visit_all-append l t s))
        ]
      ]

  walk_devices_lem :
      (bus j n : ℕ) (l : List Token)
      → visit_all v (walk_devices space add bus j n l) s
        ≡ walk_devices space v bus j n (visit_all v l s)
  unfolding walk_devices
  walk_devices_lem bus j zero l = refl
  walk_devices_lem bus j (suc n) l =
      walk_devices_lem bus (j + 1) n _
      ∙ ap (walk_devices space v bus (j + 1) n) (walk_device_lem bus j l)

  -- The loops visit the functions of the enumeration in its order.
  pub walk_buses_lem :
      (i n : ℕ) (l : List Token)
      → visit_all v (walk_buses space add i n l) s ≡ walk_buses space v i n (visit_all v l s)
  unfolding walk_buses
  walk_buses_lem i zero l = refl
  walk_buses_lem i (suc n) l =
      walk_buses_lem (i + 1) n _ ∙ ap (walk_buses space v (i + 1) n) (walk_devices_lem i 0 0x20 l)

-- The last match of a list, or `t` without one.
unfoldable pub last_match : (Token → Bool) → Token → List Token → Token
last_match p t [] = t
last_match p t (u ∷ l) = last_match p (if p u then u else t) l

last_match_lem :
    (p : Token → Bool) (t : Token) (l : List Token)
    → visit_all (λ u found. if p u then u else found) l t ≡ last_match p t l
unfolding last_match visit_all
last_match_lem p t [] = refl
last_match_lem p t (u ∷ l) = last_match_lem p (if p u then u else t) l

-- The loops of the search are those of the enumeration with the test of the class.
module _ (space : Space) (c : DeviceClass) where
  abbrev keep_match : Token → Token → Token
  keep_match t found = if is_class space c t then t else found

  find_functions_walk :
      (bus device k n : ℕ) (t : Token)
      → find_functions space c bus device k n t ≡ walk_functions space keep_match bus device k n t
  unfolding find_functions walk_functions is_present
  find_functions_walk bus device k zero t = refl
  find_functions_walk bus device k (suc n) t =
      elim (Bool-cases (u16 (get_pci_offset space bus device k 0) == 0xFFFF)) [
        | inl absent ↦ rw absent (find_functions_walk bus device (k + 1) n _)
        | inr there ↦ rw there (find_functions_walk bus device (k + 1) n _)
      ]

  find_on_device_walk :
      (bus device : ℕ) (t : Token)
      → find_on_device space c bus device t ≡ walk_device space keep_match bus device t
  unfolding find_on_device walk_device is_present has_functions
  find_on_device_walk bus device t =
      elim (Bool-cases (u16 (get_pci_offset space bus device 0 0) == 0xFFFF)) [
        | inl absent ↦ rw absent refl
        | inr there ↦
            elim (Bool-cases
              (bit_and (u8 (get_pci_offset space bus device 0 0xC / 2 ^ 16)) 0x80 == 0)) [
                | inl single ↦ rw (there, single) refl
                | inr more ↦ rw (there, more) (find_functions_walk bus device 1 7 _)
              ]
      ]

  find_devices_walk :
      (bus j n : ℕ) (t : Token)
      → find_devices space c bus j n t ≡ walk_devices space keep_match bus j n t
  unfolding find_devices walk_devices
  find_devices_walk bus j zero t = refl
  find_devices_walk bus j (suc n) t =
      find_devices_walk bus (j + 1) n _
      ∙ ap (walk_devices space keep_match bus (j + 1) n) (find_on_device_walk bus j t)

  find_buses_walk :
      (i n : ℕ) (t : Token) → find_buses space c i n t ≡ walk_buses space keep_match i n t
  unfolding find_buses walk_buses
  find_buses_walk i zero t = refl
  find_buses_walk i (suc n) t =
      find_buses_walk (i + 1) n _
      ∙ ap (walk_buses space keep_match (i + 1) n) (find_devices_walk i 0 0x20 t)

-- The class register of a function, without its revision, is the number of the three bytes.
abbrev pub matches : Space → DeviceClass → Token → Bool
matches space c t =
    space (0x80000000 + t.bus * 2 ^ 16 + t.device * 2 ^ 11 + t.function * 2 ^ 8 + 8) / 2 ^ 8
    == c.class_code * 2 ^ 16 + c.sub_class * 2 ^ 8 + c.prog_if

number_of_bytes :
    (x a b d : ℕ)
    → x < 2 ^ 32
    → a < 2 ^ 8
    → b < 2 ^ 8
    → d < 2 ^ 8
    → (u8 (x / 2 ^ 24) == a && u8 (x / 2 ^ 16) == b && u8 (x / 2 ^ 8) == d)
      ≡ (x / 2 ^ 8 == a * 2 ^ 16 + b * 2 ^ 8 + d)
number_of_bytes x a b d hx ha hb hd = ground arith

is_class-matches :
    (space : Space) (c : DeviceClass)
    → ((x : ℕ) → space x < 2 ^ 32)
    → c.class_code < 2 ^ 8
    → c.sub_class < 2 ^ 8
    → c.prog_if < 2 ^ 8
    → is_class space c ≡ matches space c
unfolding is_class get_pci_offset read_config_data config_address
is_class-matches space c words ha hb hd =
    fun_ext (λ t. number_of_bytes _ c.class_code c.sub_class c.prog_if (words _) ha hb hd)

-- The search leaves the last function of the enumeration whose class register, without its revision,
-- is the number of the three bytes of the class, and the token as it was if there is none. The
-- registers are of 32 bits, and the bytes of the class are bytes.
pub find_pci_device_lem :
    (space : Space) (token : Token) (c : DeviceClass)
    → ((x : ℕ) → space x < 2 ^ 32)
    → c.class_code < 2 ^ 8
    → c.sub_class < 2 ^ 8
    → c.prog_if < 2 ^ 8
    → find_pci_device space token c ≡ last_match (matches space c) token (enum_pci space)
unfolding find_pci_device enum_pci visit_all
find_pci_device_lem space token c words ha hb hd =
    find_buses_walk space c 0 0x100 token
    ∙ sym (walk_buses_lem space (keep_match space c) token 0 0x100 [])
    ∙ last_match_lem (is_class space c) token (enum_pci space)
    ∙ ap (λ p. last_match p token (enum_pci space)) (is_class-matches space c words ha hb hd)
