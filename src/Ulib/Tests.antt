-- ===== src/Ulib/Tests.antt =====
-- A number that is printed and read back.
