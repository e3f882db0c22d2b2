-- ===== src/Vcom/Emmc.antt =====
-- The reads and writes of vcom.c on the eMMC, and the properties and the flag that it can set. The
-- memory card is a byte for each offset; an offset is less than 2^31, so `lseek` goes there.
use test_tools.Common.{
  ℕ, zero, suc, ◌+◌, Bool, true, false, Option, none, some, List, [], ◌∷◌, ◌++◌, if◌then◌else◌,
  take, length, get_elem?,
}
use test_tools.Common.Int.{ℤ, pos, negsuc, ltb_ℤ}
use test_tools.Common.Text.{bytes, is_prefix}
use test_tools.Common.Bytes.{Mem, put_bytes, peek}
use test_tools.Vcom.Table.{Partition}

-- What the calls come out with: whether the device opens, how many bytes a call of `read` or `write`
-- takes at most (`none`: it fails), and whether the flag's file opens.
pub record Calls : Type 0 where
  pub opens : Bool
  pub reads : Option ℕ
  pub writes : Option ℕ

-- The result and the card behind it; a device that does not open gives 0.
unfoldable pub write_data_emmc : Calls → Partition → (buf : List ℕ) (size : ℕ) → Mem → ℤ × Mem
unfolding put_bytes
write_data_emmc c p buf size card =
    if c.opens
    then elim c.writes [
      | none ↦ (negsuc 0, card)
      | some n ↦
          let sent = take n (take size buf) in (pos (length sent), put_bytes p.offset sent card)
    ]
    else (pos 0, card)

-- The result and what is read, with a zero behind; a read that fails has the zero put in front of the
-- buffer, which is `none`.
unfoldable pub read_data_emmc : Calls → Partition → (size : ℕ) → Mem → Option (ℤ × List ℕ)
unfolding peek
read_data_emmc c p size card =
    if c.opens
    then elim c.reads [
      | none ↦ none
      | some n ↦
          let got = take n (peek card size p.offset) in some (pos (length got), got ++ 0 ∷ [])
    ]
    else some (pos 0, [])

-- The properties that are set, in order.
abbrev pub Props : Type 0
Props = List (List ℕ × List ℕ)

-- The loop of `set_devid_prop`, `set_wifi_mac_prop` and `set_bt_mac_prop`: with the name that is looked
-- for and the property to set. The last of them has no `break`: `all` is true.
unfoldable pub set_prop :
    (all : Bool) (wanted prop : List ℕ)
    → Calls
    → List Partition
    → (size : ℕ) → Mem
    → Props
    → Option (ℤ × Props)
unfolding is_prefix read_data_emmc
set_prop all wanted prop c [] size card props = some (pos 0, props)
set_prop all wanted prop c (p ∷ pinfo) size card props = elim (is_prefix wanted p.name) [
  | false ↦ set_prop all wanted prop c pinfo size card props
  | true ↦ elim (read_data_emmc c p size card) [
    | none ↦ none
    | some (ret, text) ↦
        let new = props ++ (prop, text) ∷ [] in
        elim (ltb_ℤ ret (pos 0)) [
          | true ↦ some (ret, props ++ (prop, bytes "UNKNOWN") ∷ [])
          | false ↦ elim all [
            | true ↦ set_prop all wanted prop c pinfo size card new
            | false ↦ some (pos 0, new)
          ]
        ]
  ]
]

unfoldable pub set_devid_prop :
    Calls → List Partition → (devid_bytes : ℕ) → Mem → Props → Option (ℤ × Props)
unfolding set_prop
set_devid_prop = set_prop false (bytes "device_id") (bytes "ro.serial.no")

unfoldable pub set_wifi_mac_prop :
    Calls → List Partition → (wifimac_bytes : ℕ) → Mem → Props → Option (ℤ × Props)
unfolding set_prop
set_wifi_mac_prop = set_prop false (bytes "wifi_mac") (bytes "ro.wifi.mac")

unfoldable pub set_bt_mac_prop :
    Calls → List Partition → (btmac_bytes : ℕ) → Mem → Props → Option (ℤ × Props)
unfolding set_prop
set_bt_mac_prop = set_prop true (bytes "bt_mac") (bytes "ro.bt.mac")

-- The result, and what `/cache/recovery/command` holds behind it; `opens` gives `errno` where it fails.
unfoldable pub set_flag_recovery : (errno : Option ℕ) (writes : Option ℕ) → ℤ × List ℕ
set_flag_recovery (some errno) writes = (pos errno, [])
set_flag_recovery none none = (negsuc 0, [])
set_flag_recovery none (some n) =
    let sent = take n (bytes "--wipe_data\n" ++ 0 ∷ []) in (pos (length sent), sent)

-- `sizeof(buf)`, a pointer of the target.
abbrev pub pointer_size : ℕ
pointer_size = 4

-- The loop of `write_vcom_voltage` from entry `i` on, `k` times; `none` for an access outside of the
-- table.
unfoldable pub write_loop :
    Calls → List Partition → (buf : List ℕ) (k i : ℕ) → Mem → Option (ℤ × Mem)
unfolding is_prefix write_data_emmc
write_loop c pinfo buf zero i card = some (pos 0, card)
write_loop c pinfo buf (suc k) i card = elim (get_elem? pinfo i) [
  | none ↦ none
  | some p ↦ elim (is_prefix (bytes "battery") p.name) [
    | false ↦ write_loop c pinfo buf k (i + 1) card
    | true ↦
        let (ret, card') = write_data_emmc c p buf pointer_size card in
        if ltb_ℤ ret (pos 0) then some (ret, card') else write_loop c pinfo buf k (i + 1) card'
  ]
]

unfoldable pub write_vcom_voltage : Calls → List Partition → (buf : List ℕ) → Mem → Option (ℤ × Mem)
unfolding write_loop
write_vcom_voltage c pinfo buf card = write_loop c pinfo buf 5 0 card
