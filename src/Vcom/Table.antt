-- ===== src/Vcom/Table.antt =====
-- The table of partitions, and what `scan_partition_info_emmc` puts into it. `pinfo` is the list of the
-- entries that `main` allocates; `none` stands for an access outside of them.
use test_tools.Common.{
  ℕ, zero, suc, ◌+◌, ◌%◌, ◌^◌, Bool, true, false, Option, none, some, List, [], ◌∷◌, ◌++◌, ◌==◌,
  if◌then◌else◌, take, drop, get_elem?, set,
}
use test_tools.Common.Text.{bytes, is_prefix}
use test_tools.Common.Bind.{◌>>=◌}

-- `struct partition`; `size` is never set.
pub record Partition : Type 0 where
  pub name : List ℕ
  pub offset : ℕ
  pub kind : ℕ

abbrev pub zeros : ℕ → List ℕ
zeros zero = []
zeros (suc n) = 0 ∷ zeros n

abbrev pub cleared : Partition
cleared = record { name = zeros 32; offset = 0; kind = 0 }

-- `memset(pinfo, 0, parts_alloc * sizeof(struct partition))`
abbrev pub allocate : ℕ → List Partition
allocate zero = []
allocate (suc n) = cleared ∷ allocate n

-- `strncpy(buffer, text, n)`: zeros behind a text that is shorter.
abbrev pub strncpy : (buffer text : List ℕ) (n : ℕ) → List ℕ
strncpy buffer text n = take n (text ++ zeros n) ++ drop n buffer

-- The three assignments to `pinfo[i]`.
unfoldable pub assign :
    List Partition → (i : ℕ) (text : List ℕ) (n offset kind : ℕ) → Option (List Partition)
assign pinfo i text n offset kind = elim (get_elem? pinfo i) [
  | none ↦ none
  | some p ↦
      some (
        set pinfo i
          (record { name = strncpy p.name text n; offset = offset % 2 ^ 32; kind = kind }))
]

-- The static variables, which `main` leaves at 0.
pub record Statics : Type 0 where
  pub parts_alloc : ℕ
  pub devid_bytes : ℕ
  pub wifimac_offset : ℕ
  pub wifimac_bytes : ℕ
  pub btmac_offset : ℕ
  pub btmac_bytes : ℕ

-- A line that `sscanf` reads: the name, the address, the size and the type.
pub record Line : Type 0 where
  pub part_name : List ℕ
  pub part_saddr : ℕ
  pub part_size : ℕ
  pub part_type : ℕ

-- The first branch: the device, and the two addresses that stand behind its number.
unfoldable pub enter_device : Statics → Line → List Partition → Option (List Partition)
unfolding assign
enter_device s l pinfo = do
  p0 ← assign pinfo 0 l.part_name 10 l.part_saddr l.part_type
  p1 ← assign p0 1 (bytes "wifi_mac") 9 (l.part_saddr + s.wifimac_offset) l.part_type
  assign p1 2 (bytes "bt_mac") 7 (l.part_saddr + s.btmac_offset) l.part_type

-- The two branches for a line of four matches. `pinfo[parts_alloc - 1]` without an entry is outside.
unfoldable pub enter : Statics → Line → List Partition → Option (List Partition)
unfolding is_prefix enter_device assign
enter s l pinfo =
    if is_prefix (bytes "device_id") l.part_name
    then enter_device s l pinfo
    else if is_prefix (bytes "battery") l.part_name
    then elim s.parts_alloc [
      | zero ↦ none
      | suc last ↦ assign pinfo last l.part_name 8 l.part_saddr l.part_type
    ]
    else some pinfo

-- The loop over what was read: at the start of a line `sscanf` reads the rest of the text, then the line
-- is eaten. `sscanf` gives `none` unless there are four matches.
unfoldable pub scan_loop :
    Statics
    → (List ℕ → Option Line)
    → (starts : Bool) (text : List ℕ) → List Partition
    → Option (List Partition)
unfolding enter
scan_loop s sscanf starts [] pinfo = some pinfo
scan_loop s sscanf false (b ∷ text) pinfo = scan_loop s sscanf (b == 10) text pinfo
scan_loop s sscanf true (b ∷ text) pinfo = elim (sscanf (b ∷ text)) [
  | none ↦ scan_loop s sscanf (b == 10) text pinfo
  | some l ↦ elim (enter s l pinfo) [
    | none ↦ none
    | some pinfo' ↦ scan_loop s sscanf (b == 10) text pinfo'
  ]
]
