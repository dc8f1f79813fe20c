-- ===== src/Vm/Integers/Inverse.antt =====
-- internal/vm/execute.go: subtraction against addition, and division against multiplication.
