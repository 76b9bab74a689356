-- ===== src/Digital/Tests.antt =====
-- A concrete edge for the theorem on system/lib/digitalHelpers.ts.
