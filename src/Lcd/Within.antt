-- ===== src/Lcd/Within.antt =====
-- The pictures of test_lcd.c write nothing behind the two buffers.
use test_tools.Lcd.{Lcd}
