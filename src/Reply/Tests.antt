-- ===== src/Reply/Tests.antt =====
-- An instance of the theorem on the codes.
