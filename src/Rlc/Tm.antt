-- ===== src/Rlc/Tm.antt =====
-- stack/rlc/src/rlc_tm.cpp: transparent mode passes what it gets.
use aether_stack.Base.{ℕ, List}

unfoldable pub tm_tx : List ℕ → List ℕ
tm_tx sdu = sdu

unfoldable pub tm_rx : List ℕ → List ℕ
tm_rx pdu = pdu
