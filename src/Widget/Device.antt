-- ===== src/Widget/Device.antt =====
-- open_keyboard_fd and open_button_fd of widget.c: the device path, read from the lines that `fgets`
-- gives of /proc/bus/input/devices. `none` is the read through `NULL` that follows when the line of
-- the handlers names no event. `open` is the system's; `O_RDONLY | O_NONBLOCK` is left to it.
use test_tools.Common.{ℕ, Option, none, some, List, [], ◌∷◌, ◌++◌, take, if◌then◌else◌, ◌||◌}
use test_tools.Common.Int.{ℤ, pos, negsuc, ltb_ℤ, eqb_ℤ}
use test_tools.Common.Text.{bytes, strstr, contains}

abbrev pub dev_input : List ℕ
dev_input = bytes "/dev/input/"

-- `strlcpy(event, tmp, 8); strlcat(dev_path, event, 18);`
unfoldable pub event_path : List ℕ → List ℕ
event_path tmp = take 17 (dev_input ++ take 7 tmp)

unfoldable pub handlers_path : List (List ℕ) → Option (List ℕ)
unfolding strstr event_path
handlers_path [] = some dev_input
handlers_path (line ∷ lines) =
    if contains line (bytes "Handlers")
    then elim (strstr line (bytes "event")) [ none ↦ none | some tmp ↦ some (event_path tmp) ]
    else handlers_path lines

unfoldable pub device_path : List ℕ → List (List ℕ) → Option (List ℕ)
unfolding handlers_path
device_path name [] = some dev_input
device_path name (line ∷ lines) =
    if contains line name then handlers_path lines else device_path name lines

-- The descriptor, -1 if `open` gives one that is not positive.
abbrev open_checked : (List ℕ → ℤ) → List ℕ → ℤ
open_checked open_fd path =
    let fd = open_fd path in if ltb_ℤ fd (pos 0) || eqb_ℤ fd (pos 0) then negsuc 0 else fd

unfoldable pub open_keyboard_fd : (List ℕ → ℤ) → List (List ℕ) → Option ℤ
unfolding device_path
open_keyboard_fd open_fd lines = elim (device_path (bytes "gpio-keys") lines) [
  | none ↦ none
  | some path ↦ some (open_checked open_fd path)
]

unfoldable pub open_button_fd : (List ℕ → ℤ) → List (List ℕ) → Option ℤ
unfolding device_path
open_button_fd open_fd lines = elim (device_path (bytes "_ts") lines) [
  | none ↦ none
  | some path ↦ some (open_checked open_fd path)
]
