-- ===== src/Vcom/Outside.antt =====
-- `main` of vcom.c as it is built: no entry is allocated.
use test_tools.Common.{
  ℕ, ◌≡◌, ◌≢◌, refl, sym, subst, ◌∙◌, Bool, true, false, Option, none, some, List, [], ◌∷◌, ◌==◌,
  take, ltb, arith, ◌+◌, ◌++◌, Bool-cases, Option-cases, inl, inr,
}
use test_tools.Common.Text.{bytes, is_prefix}
use test_tools.Common.Bytes.{Mem, peek}
use test_tools.Vcom.Table.{
  Partition, allocate, zeros, Statics, Line, assign, enter_device, enter, scan_loop,
}
use test_tools.Vcom.Emmc.{Calls, write_loop, write_vcom_voltage}
use test_tools.Vcom.Program.{Found, no_memory, closed, unread, text, scan_partition_info_emmc, main}

-- The scan of a text with an empty table ends outside or leaves the table empty.
abbrev Stays : Option (List Partition) → Type 0
Stays none = Unit
Stays (some pinfo) = pinfo ≡ []

enter-Stays : (s : Statics) (l : Line) → s.parts_alloc ≡ 0 → Stays (enter s l [])
unfolding enter enter_device assign
enter-Stays s l e = elim (Bool-cases (is_prefix (bytes "device_id") l.part_name)) [
  | inl f ↦ rw f tt
  | inr f ↦ elim (Bool-cases (is_prefix (bytes "battery") l.part_name)) [
    | inl g ↦ rw (f, g, e) tt
    | inr g ↦ rw (f, g) refl
  ]
]

scan_loop-Stays :
    (s : Statics) (sscanf : List ℕ → Option Line) (starts : Bool) (bytes_left : List ℕ)
    → s.parts_alloc ≡ 0
    → Stays (scan_loop s sscanf starts bytes_left [])
unfolding scan_loop
scan_loop-Stays s sscanf starts [] e = refl
scan_loop-Stays s sscanf false (b ∷ bs) e = scan_loop-Stays s sscanf (b == 10) bs e
scan_loop-Stays s sscanf true (b ∷ bs) e =
    let ih = scan_loop-Stays s sscanf (b == 10) bs e in
    elim (Option-cases (sscanf (b ∷ bs))) [
      | inl f ↦ rw (Stays, scan_loop, f) ih
      | inr (l, f) ↦ rw (Stays, scan_loop, f) (go (enter s l []) (enter-Stays s l e) ih)
    ]
  where
    go :
        (r : Option (List Partition))
        → Stays r
        → Stays (scan_loop s sscanf (b == 10) bs [])
        → Stays (elim r [ none ↦ none | some pinfo' ↦ scan_loop s sscanf (b == 10) bs pinfo' ])
    go none k ih = tt
    go (some pinfo) k ih = subst (λ p. Stays (scan_loop s sscanf (b == 10) bs p)) (sym k) ih

main-none :
    (s : Statics) (sscanf : List ℕ → Option Line) (bs : List ℕ) (c : Calls) (argument card : Mem)
    → scan_loop s sscanf true (take 512 bs) (allocate s.parts_alloc) ≡ none
    → main s sscanf (text bs) c argument card ≡ none
unfolding main scan_partition_info_emmc
main-none s sscanf bs c argument card e = rw (main, e) refl

-- `main` behind a scan that stays inside of the table.
pub main-scanned :
    (s : Statics) (sscanf : List ℕ → Option Line) (bs : List ℕ) (c : Calls) (argument card : Mem)
    (pinfo : List Partition)
    → scan_loop s sscanf true (take 512 bs) (allocate s.parts_alloc) ≡ some pinfo
    → main s sscanf (text bs) c argument card
      ≡ write_vcom_voltage c pinfo (peek argument 4 0 ++ zeros 508) card
unfolding main scan_partition_info_emmc
main-scanned s sscanf bs c argument card pinfo e = rw (main, e) refl

-- As long as the static variable `parts_alloc` is 0, and it is nowhere set in the code that is built,
-- `main` reads or writes an entry of the table outside of what it has allocated: whatever the list of
-- partitions holds and however the calls come out, unless there is no memory for the scan.
pub main-outside :
    (s : Statics) (sscanf : List ℕ → Option Line) (found : Found) (c : Calls) (argument card : Mem)
    → s.parts_alloc ≡ 0
    → found ≢ no_memory
    → main s sscanf found c argument card ≡ none
unfolding main scan_partition_info_emmc write_vcom_voltage write_loop
main-outside s sscanf no_memory c argument card e n = absurd (n refl)
main-outside s sscanf closed c argument card e n = rw e refl
main-outside s sscanf (unread errno) c argument card e n =
    let f : ltb (errno + 0) 0 ≡ false = ground arith in rw (e, f) refl
main-outside s sscanf (text bs) c argument card e n =
    let k =
      subst (λ n. Stays (scan_loop s sscanf true (take 512 bs) (allocate n))) (sym e)
        (scan_loop-Stays s sscanf true (take 512 bs) e) in
    elim (Option-cases (scan_loop s sscanf true (take 512 bs) (allocate s.parts_alloc))) [
      | inl f ↦ main-none s sscanf bs c argument card f
      | inr (pinfo, f) ↦
          main-scanned s sscanf bs c argument card pinfo f
          ∙ (let g : pinfo ≡ [] = subst Stays f k in rw g refl)
    ]
