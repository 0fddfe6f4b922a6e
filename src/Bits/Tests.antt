-- ===== src/Bits/Tests.antt =====
-- A run of base/arch.h.
