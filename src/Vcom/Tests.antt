-- ===== src/Vcom/Tests.antt =====
-- Runs of vcom.c.
use test_tools.Common.{
  ℕ, ◌≡◌, refl, true, none, some, Option, List, [], ◌∷◌, ◌==◌, if◌then◌else◌, arith,
}
use test_tools.Common.Bytes.{Mem}
use test_tools.Common.Text.{bytes}
use test_tools.Vcom.Table.{Statics, Line}
use test_tools.Vcom.Emmc.{Calls}
use test_tools.Vcom.Program.{closed, main}
use test_tools.Vcom.Outside.{main-outside}

-- Each byte is its offset.
abbrev offsets : Mem
offsets a = a

abbrev statics : ℕ → Statics
statics n = record {
  parts_alloc = n;
  devid_bytes = 0;
  wifimac_offset = 0;
  wifimac_bytes = 0;
  btmac_offset = 0;
  btmac_bytes = 0;
}

-- Reads "b" as a line of the battery.
abbrev sscanf : List ℕ → Option Line
sscanf [] = none
sscanf (b ∷ bs) =
    if b == 98
    then some
        (record { part_name = bytes "battery"; part_saddr = 4096; part_size = 512; part_type = 0 })
    else none

abbrev calls : Calls
calls = record { opens = true; reads = some 64; writes = some 4 }

main-outside_example : main (statics 0) sscanf closed calls offsets offsets ≡ none
main-outside_example =
    main-outside (statics 0) sscanf closed calls offsets offsets refl (λ e. absurd (ground arith))
