-- ===== src/Vcom/Battery.antt =====
-- What vcom.c would write, if five entries were allocated.
use test_tools.Common.{
  ℕ, ◌%◌, ◌^◌, ◌≤◌, ◌≡◌, refl, sym, subst, ◌∙◌, Bool, true, false, Option, none, some, List, [],
  ◌∷◌, ◌==◌, if◌then◌else◌, take, take_all, Option-cases, inl, inr,
}
use test_tools.Common.Int.{pos}
use test_tools.Common.Text.{is_prefix}
use test_tools.Common.Bytes.{Mem, peek, put_bytes}
use test_tools.Vcom.Table.{Partition, allocate, zeros, Statics, Line, scan_loop}
use test_tools.Vcom.Emmc.{Calls, write_data_emmc, write_loop, write_vcom_voltage}
use test_tools.Vcom.Program.{text, main}
use test_tools.Vcom.Outside.{main-scanned}
use test_tools.Vcom.Entries.{is_battery, Holds, enter-Holds}

-- The address of the last line whose name starts with "battery".
unfoldable pub battery_at :
    (List ℕ → Option Line) → (starts : Bool) (bytes_left : List ℕ) (found : Option ℕ) → Option ℕ
unfolding is_prefix
battery_at sscanf starts [] found = found
battery_at sscanf false (b ∷ bs) found = battery_at sscanf (b == 10) bs found
battery_at sscanf true (b ∷ bs) found = elim (sscanf (b ∷ bs)) [
  | none ↦ battery_at sscanf (b == 10) bs found
  | some l ↦
      battery_at sscanf (b == 10) bs
        (if is_battery l.part_name then some (l.part_saddr % 2 ^ 32) else found)
]

battery_at-line :
    (sscanf : List ℕ → Option Line) (b : ℕ) (bs : List ℕ) (found : Option ℕ) (l : Line)
    → sscanf (b ∷ bs) ≡ some l
    → battery_at sscanf true (b ∷ bs) found
      ≡ battery_at sscanf
          (b == 10)
          bs
          (if is_battery l.part_name then some (l.part_saddr % 2 ^ 32) else found)
unfolding battery_at
battery_at-line sscanf b bs found l f = rw (battery_at, f) refl

battery_at-none :
    (sscanf : List ℕ → Option Line) (b : ℕ) (bs : List ℕ) (found : Option ℕ)
    → sscanf (b ∷ bs) ≡ none
    → battery_at sscanf true (b ∷ bs) found ≡ battery_at sscanf (b == 10) bs found
unfolding battery_at
battery_at-none sscanf b bs found f = rw (battery_at, f) refl

scan_loop-Holds :
    (s : Statics) (sscanf : List ℕ → Option Line) (starts : Bool) (bs : List ℕ) (found : Option ℕ)
    (pinfo : List Partition)
    → s.parts_alloc ≡ 5
    → Holds found pinfo
    → (pinfo' : List Partition) × (scan_loop s sscanf starts bs pinfo ≡ some pinfo')
      × Holds (battery_at sscanf starts bs found) pinfo'
unfolding scan_loop battery_at
scan_loop-Holds s sscanf starts [] found pinfo e h = (pinfo, refl, h)
scan_loop-Holds s sscanf false (b ∷ bs) found pinfo e h =
    scan_loop-Holds s sscanf (b == 10) bs found pinfo e h
scan_loop-Holds s sscanf true (b ∷ bs) found pinfo e h = elim (Option-cases (sscanf (b ∷ bs))) [
  | inl f ↦
      let (pinfo', ep, hp) = scan_loop-Holds s sscanf (b == 10) bs found pinfo e h in
      (
        pinfo',
        rw (scan_loop, f) ep,
        subst (λ a. Holds a pinfo') (sym (battery_at-none sscanf b bs found f)) hp,
      )
  | inr (l, f) ↦
      let (p1, e1, h1) = enter-Holds s l found pinfo e h in
      let (pinfo', ep, hp) =
        scan_loop-Holds s sscanf (b == 10) bs
          (if is_battery l.part_name then some (l.part_saddr % 2 ^ 32) else found) p1 e h1 in
      (
        pinfo',
        rw (scan_loop, f, e1) ep,
        subst (λ a. Holds a pinfo') (sym (battery_at-line sscanf b bs found l f)) hp,
      )
]

-- What the card holds behind the program.
abbrev pub written : Option ℕ → List ℕ → Mem → Mem
written none bs card = card
written (some a) bs card = put_bytes a bs card

write_loop-Holds :
    (c : Calls) (found : Option ℕ) (pinfo : List Partition) (n b0 b1 b2 b3 : ℕ) (rest : List ℕ)
    (card : Mem)
    → Holds found pinfo
    → c.opens ≡ true
    → c.writes ≡ some n
    → 4 ≤ n
    → write_vcom_voltage c pinfo (b0 ∷ b1 ∷ b2 ∷ b3 ∷ rest) card
      ≡ some (pos 0, written found (b0 ∷ b1 ∷ b2 ∷ b3 ∷ []) card)
unfolding write_vcom_voltage write_loop write_data_emmc
write_loop-Holds c none (p0 ∷ p1 ∷ p2 ∷ p3 ∷ p4 ∷ []) n b0 b1 b2 b3 rest card h o w l =
    rw (h.0, h.1, h.2, h.3, h.4) refl
write_loop-Holds c (some a) (p0 ∷ p1 ∷ p2 ∷ p3 ∷ p4 ∷ []) n b0 b1 b2 b3 rest card h o w l =
    let t : take n (b0 ∷ b1 ∷ b2 ∷ b3 ∷ []) ≡ b0 ∷ b1 ∷ b2 ∷ b3 ∷ [] =
      take_all n (b0 ∷ b1 ∷ b2 ∷ b3 ∷ []) l in
    rw (h.0, h.1, h.2, h.3, h.4.0, o, w, t, h.4.1) refl
write_loop-Holds c found [] n b0 b1 b2 b3 rest card h o w l = absurd h
write_loop-Holds c found (p0 ∷ []) n b0 b1 b2 b3 rest card h o w l = absurd h
write_loop-Holds c found (p0 ∷ p1 ∷ []) n b0 b1 b2 b3 rest card h o w l = absurd h
write_loop-Holds c found (p0 ∷ p1 ∷ p2 ∷ []) n b0 b1 b2 b3 rest card h o w l = absurd h
write_loop-Holds c found (p0 ∷ p1 ∷ p2 ∷ p3 ∷ []) n b0 b1 b2 b3 rest card h o w l = absurd h
write_loop-Holds c found (p0 ∷ p1 ∷ p2 ∷ p3 ∷ p4 ∷ p5 ∷ ps) n b0 b1 b2 b3 rest card h o w l =
    absurd h

cleared-Holds : Holds none (allocate 5)
unfolding is_prefix
cleared-Holds = (refl, refl, refl, refl, refl)

-- With five entries allocated, as they would be if the code under `#if 0` were built, a card that opens and a write that takes four bytes, `main` returns 0 and
-- has written the first four bytes of its argument at the address of the last line, within the first 512
-- bytes of the list of partitions, whose name starts with "battery"; without such a line nothing is
-- written.
pub main-written :
    (s : Statics) (sscanf : List ℕ → Option Line) (bs : List ℕ) (c : Calls) (argument card : Mem)
    (n : ℕ)
    → s.parts_alloc ≡ 5
    → c.opens ≡ true
    → c.writes ≡ some n
    → 4 ≤ n
    → main s sscanf (text bs) c argument card
      ≡ some (pos 0, written (battery_at sscanf true (take 512 bs) none) (peek argument 4 0) card)
unfolding peek
main-written s sscanf bs c argument card n e o w l =
    let (pinfo, ep, hp) =
      scan_loop-Holds s sscanf true (take 512 bs) none (allocate s.parts_alloc) e
        (rw e cleared-Holds) in
    main-scanned s sscanf bs c argument card pinfo ep
    ∙ write_loop-Holds c (battery_at sscanf true (take 512 bs) none) pinfo n (argument 0)
        (argument 1) (argument 2) (argument 3) (zeros 508) card hp o w l
