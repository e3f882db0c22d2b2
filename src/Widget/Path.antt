-- ===== src/Widget/Path.antt =====
-- The device path that open_keyboard_fd and open_button_fd open.
use test_tools.Common.{◌∙◌, ℕ, ◌≡◌, refl, true, false, some, List, [], ◌∷◌, ◌++◌, All, ap}
use test_tools.Common.Text.{bytes, strstr, contains}
use test_tools.Widget.Device.{event_path, handlers_path, device_path}

-- The lines of a listing in which the device's name stands before its handlers.
pub record Listing (name : List ℕ) (before : List (List ℕ)) (named : List ℕ)
    (between : List (List ℕ)) (handlers : List ℕ) : Type 0 where
  pub not_before : All (λ l. contains l name ≡ false) before
  pub names : contains named name ≡ true
  pub not_between : All (λ l. contains l (bytes "Handlers") ≡ false) between
  pub handles : contains handlers (bytes "Handlers") ≡ true

handlers_path-found :
    (between : List (List ℕ)) (handlers : List ℕ) (after : List (List ℕ)) (tmp : List ℕ)
    → All (λ l. contains l (bytes "Handlers") ≡ false) between
    → contains handlers (bytes "Handlers") ≡ true
    → strstr handlers (bytes "event") ≡ some tmp
    → handlers_path (between ++ handlers ∷ after) ≡ some (event_path tmp)
unfolding handlers_path
handlers_path-found [] handlers after tmp none_before h e = rw (h, e)
handlers_path-found (l ∷ ls) handlers after tmp (here, rest) h e =
    rw here (handlers_path-found ls handlers after tmp rest h e)

device_path-found :
    (name : List ℕ) (before : List (List ℕ)) (named : List ℕ) (lines : List (List ℕ))
    → All (λ l. contains l name ≡ false) before
    → contains named name ≡ true
    → device_path name (before ++ named ∷ lines) ≡ handlers_path lines
unfolding device_path
device_path-found name [] named lines none_before h = rw h
device_path-found name (l ∷ ls) named lines (here, rest) h =
    rw here (device_path-found name ls named lines rest h)

event_path-digit :
    (d : ℕ) (rest : List ℕ)
    → event_path (bytes "event" ++ d ∷ rest) ≡ bytes "/dev/input/event" ++ d ∷ []
unfolding event_path
event_path-digit d [] = refl
event_path-digit d (x ∷ rest) = refl

-- In a listing where a line with the device's name is followed by its line of handlers, which
-- says "event" and a digit, the path that open_keyboard_fd and open_button_fd open is
-- "/dev/input/event" and that one digit, whatever follows it: an event number of two digits is cut
-- to its first.
pub device_path-one_digit :
    (name : List ℕ) (before : List (List ℕ)) (named : List ℕ) (between : List (List ℕ))
    (handlers : List ℕ) (after : List (List ℕ)) (d : ℕ) (rest : List ℕ)
    → Listing name before named between handlers
    → strstr handlers (bytes "event") ≡ some (bytes "event" ++ d ∷ rest)
    → device_path name (before ++ named ∷ (between ++ handlers ∷ after))
      ≡ some (bytes "/dev/input/event" ++ d ∷ [])
device_path-one_digit name before named between handlers after d rest l e =
    device_path-found name before named (between ++ handlers ∷ after) l.not_before l.names
    ∙ handlers_path-found between handlers after (bytes "event" ++ d ∷ rest) l.not_between l.handles
        e
    ∙ ap some (event_path-digit d rest)
