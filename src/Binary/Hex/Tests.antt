-- ===== src/Binary/Hex/Tests.antt =====
-- Concrete numbers and bytes for the theorems on system/lib/binaryHelpers.ts.
