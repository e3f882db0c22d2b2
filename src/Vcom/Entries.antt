-- ===== src/Vcom/Entries.antt =====
-- The five entries of the table, and what a line does to them.
use test_tools.Common.{
  ℕ, zero, suc, ◌+◌, ◌%◌, ◌^◌, ◌<◌, ◌≤◌, ◌≡◌, refl, Bool, true, false, Option, none, some, List, [],
  ◌∷◌, ◌++◌, ◌==◌, arith, if◌then◌else◌, take, drop, length, Bool-cases, inl, inr,
}
use test_tools.Common.Text.{bytes, is_prefix}
use test_tools.Vcom.Table.{Partition, zeros, strncpy, Statics, Line, assign, enter_device, enter}

abbrev pub is_battery : List ℕ → Bool
is_battery name = is_prefix (bytes "battery") name

-- The entry stands for this address, or is none of the battery's.
abbrev pub Stands : Option ℕ → Partition → Type 0
Stands none p = is_battery p.name ≡ false
Stands (some a) p = (is_battery p.name ≡ true) × (p.offset ≡ a)

-- Five entries, the last of them the battery's if its address was found.
abbrev pub Holds : Option ℕ → List Partition → Type 0
Holds found (p0 ∷ p1 ∷ p2 ∷ p3 ∷ p4 ∷ []) =
    Stands none p0 × Stands none p1 × Stands none p2 × Stands none p3 × Stands found p4
Holds found _ = ⊥

prefix-strncpy :
    (pre name tail rest : List ℕ) (n : ℕ)
    → is_prefix pre name ≡ true
    → length pre ≤ n
    → is_prefix pre (take n (name ++ tail) ++ rest) ≡ true
unfolding is_prefix
prefix-strncpy [] name tail rest n e l = refl
prefix-strncpy (x ∷ pre) [] tail rest n e l = absurd (ground arith)
prefix-strncpy (x ∷ pre) (y ∷ name) tail rest zero e l = absurd (omega arith)
prefix-strncpy (x ∷ pre) (y ∷ name) tail rest (suc n) e l =
    let f : (x == y) ≡ true = ground arith in
    let g : is_prefix pre name ≡ true = ground arith in
    rw (f, prefix-strncpy pre name tail rest n g (omega arith)) refl

-- A name that starts with "device_id" is none of the battery's, copied or not.
device-battery :
    (name tail rest : List ℕ) (n : ℕ)
    → is_prefix (bytes "device_id") name ≡ true
    → 0 < n
    → is_battery (take n (name ++ tail) ++ rest) ≡ false
unfolding is_prefix
device-battery [] tail rest n e l = absurd (ground arith)
device-battery (y ∷ name) tail rest zero e l = absurd (omega arith)
device-battery (y ∷ name) tail rest (suc n) e l =
    let f : (98 == y) ≡ false = ground arith in rw f refl

device_name-battery :
    (name : List ℕ) → is_prefix (bytes "device_id") name ≡ true → is_battery name ≡ false
unfolding is_prefix
device_name-battery [] e = absurd (ground arith)
device_name-battery (y ∷ name) e = let f : (98 == y) ≡ false = ground arith in rw f refl

-- An entry behind the three assignments.
abbrev assigned : Partition → List ℕ → (n offset kind : ℕ) → Partition
assigned p name n offset kind = record {
  name = strncpy p.name name n;
  offset = offset % 2 ^ 32;
  kind = kind;
}

wifi-Stands :
    (p : Partition) (offset kind : ℕ) → Stands none (assigned p (bytes "wifi_mac") 9 offset kind)
unfolding is_prefix
wifi-Stands p offset kind = refl

bt-Stands :
    (p : Partition) (offset kind : ℕ) → Stands none (assigned p (bytes "bt_mac") 7 offset kind)
unfolding is_prefix
bt-Stands p offset kind = refl

pub enter-Holds :
    (s : Statics) (l : Line) (found : Option ℕ) (pinfo : List Partition)
    → s.parts_alloc ≡ 5
    → Holds found pinfo
    → (pinfo' : List Partition) × (enter s l pinfo ≡ some pinfo')
      × Holds (if is_battery l.part_name then some (l.part_saddr % 2 ^ 32) else found) pinfo'
unfolding enter enter_device assign
enter-Holds s l found (p0 ∷ p1 ∷ p2 ∷ p3 ∷ p4 ∷ []) e h =
    elim (Bool-cases (is_prefix (bytes "device_id") l.part_name)) [
      | inl f ↦
          let g = device_name-battery l.part_name f in
          (
            assigned p0 l.part_name 10 l.part_saddr l.part_type
                ∷ assigned p1 (bytes "wifi_mac") 9 (l.part_saddr + s.wifimac_offset) l.part_type
                ∷ assigned p2 (bytes "bt_mac") 7 (l.part_saddr + s.btmac_offset) l.part_type
                ∷ p3
                ∷ p4
                ∷ [],
            rw f refl,
            rw g (
              device-battery l.part_name (zeros 10) (drop 10 p0.name) 10 f (omega arith),
              wifi-Stands p1 (l.part_saddr + s.wifimac_offset) l.part_type,
              bt-Stands p2 (l.part_saddr + s.btmac_offset) l.part_type,
              h.3,
              h.4,
            ),
          )
      | inr f ↦ elim (Bool-cases (is_battery l.part_name)) [
        | inl g ↦ (
          p0 ∷ p1 ∷ p2 ∷ p3 ∷ assigned p4 l.part_name 8 l.part_saddr l.part_type ∷ [],
          rw (f, g, e) refl,
          rw g (
            h.0,
            h.1,
            h.2,
            h.3,
            (
              prefix-strncpy (bytes "battery") l.part_name (zeros 8) (drop 8 p4.name) 8 g
                  (omega arith),
              refl,
            ),
          ),
        )
        | inr g ↦ (p0 ∷ p1 ∷ p2 ∷ p3 ∷ p4 ∷ [], rw (f, g) refl, rw g h)
      ]
    ]
enter-Holds s l found [] e h = absurd h
enter-Holds s l found (p0 ∷ []) e h = absurd h
enter-Holds s l found (p0 ∷ p1 ∷ []) e h = absurd h
enter-Holds s l found (p0 ∷ p1 ∷ p2 ∷ []) e h = absurd h
enter-Holds s l found (p0 ∷ p1 ∷ p2 ∷ p3 ∷ []) e h = absurd h
enter-Holds s l found (p0 ∷ p1 ∷ p2 ∷ p3 ∷ p4 ∷ p5 ∷ ps) e h = absurd h
