-- ===== src/Certs/Gencert/Ends.antt =====
-- examples/gencert/main.go: a run whose calls all succeed, and what it leaves.
