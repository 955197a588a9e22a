-- ===== src/Core/Qos/Channels.antt =====
-- The service classes and their logical channels stand for each other.
use aether_stack.Base.{ℕ, some, ◌≡◌, refl, ◌↔◌, arith}
use aether_stack.Core.Qos.{Qci, sig, voice, video, best_effort, lcid_of, qci_of_lcid}

-- A data channel belongs to a service class exactly when it is the channel of that class.
pub qci_of_lcid_iff : (l : ℕ) (q : Qci) → (qci_of_lcid l ≡ some q) ↔ (l ≡ lcid_of q)
unfolding qci_of_lcid lcid_of
qci_of_lcid_iff l q = (forward q, backward q)
  where
    forward : (q : Qci) → qci_of_lcid l ≡ some q → l ≡ lcid_of q
    forward sig e = ground (arith, e)
    forward voice e = ground (arith, e)
    forward video e = ground (arith, e)
    forward best_effort e = ground (arith, e)

    backward : (q : Qci) → l ≡ lcid_of q → qci_of_lcid l ≡ some q
    backward sig e = rw e refl
    backward voice e = rw e refl
    backward video e = rw e refl
    backward best_effort e = rw e refl
