-- ===== src/Lcd/Setup.antt =====
-- Opening and closing the display in test_lcd.c. The values that the system calls return are given.
use test_tools.Common.{◌≡◌, ◌≢◌, Bool, true, false, not, ◌||◌, if◌then◌else◌, arith}
use test_tools.Common.Int.{ℤ, pos, negsuc, ltb_ℤ, eqb_ℤ}

-- What the calls of `gr_init` return, each if it is reached.
pub record Answers : Type 0 where
  pub access_tty : ℤ
  pub open_tty : ℤ
  pub set_graphics : ℤ
  pub open_graphics_fb0 : ℤ
  pub open_fb0 : ℤ
  pub fixed_info : ℤ
  pub variable_info : ℤ
  pub map_failed : Bool

-- `gr_fb_fd`, `gr_vt_fd`, whether the console is in the graphics mode, and whether `/dev/tty0` is open.
pub record Display : Type 0 where
  pub gr_fb_fd : ℤ
  pub gr_vt_fd : ℤ
  pub graphics : Bool
  pub tty_open : Bool

abbrev pub negative : ℤ → Bool
negative z = ltb_ℤ z (pos 0)

pub get_framebuffer : Answers → ℤ
get_framebuffer a =
    let fd = if negative a.open_graphics_fb0 then a.open_fb0 else a.open_graphics_fb0 in
    if negative fd
    then negsuc 0
    else if negative a.fixed_info || negative a.variable_info || a.map_failed
    then negsuc 0
    else fd

-- Behind the part on the console, with its descriptor.
pub init_framebuffer : Answers → ℤ → Display → ℤ × Display
init_framebuffer a fd d =
    let fb = get_framebuffer a in
    let d' = record d { gr_fb_fd = fb } in
    if negative fb
    then (negsuc 0, if negative fd then d' else record d' { graphics = false; tty_open = false })
    else (pos 0, record d' { gr_vt_fd = fd })

pub gr_init : Answers → Display → ℤ × Display
gr_init a d =
    if not (eqb_ℤ a.access_tty (pos 0))
    then init_framebuffer a (negsuc 0) d
    else if negative a.open_tty
    then (negsuc 0, d)
    else if not (eqb_ℤ a.set_graphics (pos 0))
    then (negsuc 0, d)
    else init_framebuffer a a.open_tty (record d { graphics = true; tty_open = true })

-- `close` of `gr_fb_fd` is left out.
pub gr_exit : Display → Display
gr_exit d =
    let d' = record d { gr_fb_fd = negsuc 0 } in
    if negative d.gr_vt_fd
    then d'
    else record d' { graphics = false; tty_open = false; gr_vt_fd = negsuc 0 }

abbrev pub closed_display : Display
closed_display = record {
  gr_fb_fd = negsuc 0;
  gr_vt_fd = negsuc 0;
  graphics = false;
  tty_open = false;
}

-- If `gr_init` fails, the console is in the text mode and closed; if it succeeds, `gr_exit` brings it
-- back there, and the two descriptors are -1 again.
pub gr_init-gr_exit :
    (a : Answers)
    → let (r, d) = gr_init a closed_display in
      (r ≢ pos 0 → (d.graphics ≡ false) × (d.tty_open ≡ false))
      × (r ≡ pos 0 → gr_exit d ≡ closed_display)
unfolding gr_init gr_exit init_framebuffer
gr_init-gr_exit a = (λ e. ground arith, λ e. ground arith)
