-- ===== src/Vcom/Program.antt =====
-- `scan_partition_info_emmc` and `main` of vcom.c.
use test_tools.Common.{ℕ, true, Option, none, some, List, ◌++◌, if◌then◌else◌, take}
use test_tools.Common.Int.{ℤ, pos, negsuc, ltb_ℤ}
use test_tools.Common.Bytes.{Mem, peek}
use test_tools.Vcom.Table.{Partition, zeros, allocate, Statics, Line, scan_loop}
use test_tools.Vcom.Emmc.{Calls, write_vcom_voltage}

-- How the list of partitions is found: no memory, a file that does not open, a read that fails with an
-- `errno`, or the text, of at most 512 bytes.
pub data Found : Type 0 where
  no_memory closed : Found
  unread : ℕ → Found
  text : List ℕ → Found

-- The result and the table; `none` for an access outside of the table. -12 is -ENOMEM.
unfoldable pub scan_partition_info_emmc :
    Statics → (List ℕ → Option Line) → Found → List Partition → Option (ℤ × List Partition)
unfolding scan_loop
scan_partition_info_emmc s sscanf no_memory pinfo = some (negsuc 11, pinfo)
scan_partition_info_emmc s sscanf closed pinfo = some (pos 0, pinfo)
scan_partition_info_emmc s sscanf (unread errno) pinfo = some (pos errno, pinfo)
scan_partition_info_emmc s sscanf (text bs) pinfo =
    elim (scan_loop s sscanf true (take 512 bs) pinfo) [
      | none ↦ none
      | some pinfo' ↦ some (pos 0, pinfo')
    ]

-- `main` with the memory from `argv[1]` on: the result and the card; `none` for an access outside of
-- the table.
unfoldable pub main :
    Statics → (List ℕ → Option Line) → Found → Calls → (argument card : Mem) → Option (ℤ × Mem)
unfolding scan_partition_info_emmc write_vcom_voltage peek
main s sscanf found c argument card =
    let buf = peek argument 4 0 ++ zeros 508 in
    elim (scan_partition_info_emmc s sscanf found (allocate s.parts_alloc)) [
      | none ↦ none
      | some (ret, pinfo) ↦
          if ltb_ℤ ret (pos 0) then some (ret, card) else write_vcom_voltage c pinfo buf card
    ]
