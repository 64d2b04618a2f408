-- ===== src/Command/Tests.antt =====
-- Instances of the theorems on the commands' texts.
