-- ===== src/Mesh/Tests.antt =====
-- src/mesh.c: concrete runs.
mod Reception
mod Queueing
mod Paths
mod Texts
mod Gates
