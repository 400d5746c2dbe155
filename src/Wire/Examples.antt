-- ===== src/Wire/Examples.antt =====
-- A port and an id on the wire.
