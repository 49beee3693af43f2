-- ===== src/Worker/World/Tests.antt =====
-- A cycle on a small world.
