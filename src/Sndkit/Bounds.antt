-- ===== src/Sndkit/Bounds.antt =====
-- `play` stays inside of its buffer.
