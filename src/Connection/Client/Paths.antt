-- ===== src/Connection/Client/Paths.antt =====
-- Which options of a configuration `TypeDbCore::connect` reads.
