-- ===== src/Mesh/Hotspot/Scope.antt =====
-- src/mesh.c.
