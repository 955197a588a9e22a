-- ===== src/Nas/Attach.antt =====
-- The attach procedure with authentication, from the request of the UE to its end at both sides.
pub mod Steps
pub mod Agreement
use aether_stack.Base.{ℕ, List, [], ◌∷◌, ◌++◌}
use aether_stack.Nas.Ue.{NasUe, send_attach_request, on_message}
use aether_stack.Nas.Bs.{UeContext, NasBs, handle_message}

-- Messages are taken in order; the answers of each stand behind those of the ones before.
unfoldable pub ue_takes : NasUe → List (ℕ × List ℕ) → NasUe × List (List ℕ)
ue_takes u [] = (u, [])
ue_takes u (m ∷ ms) =
    let s = on_message u m.1 in let rest = ue_takes s.0 ms in (rest.0, s.1 ++ rest.1)

module _ (order : List (ℕ × UeContext) → List (ℕ × UeContext)) where
  unfoldable pub bs_takes : NasBs → List ℕ → ℕ → List (List ℕ) → NasBs × List (ℕ × List ℕ)
  bs_takes b r tmsi [] = (b, [])
  bs_takes b r tmsi (m ∷ ms) =
      let s = handle_message order b r tmsi m in
      let rest = bs_takes s.0 r tmsi ms in (rest.0, s.1 ++ rest.1)

  -- Request, challenge, response and accept. `r` and `r2` are what the source of random numbers gives.
  unfoldable pub attach : NasUe → NasBs → List ℕ → List ℕ → List ℕ → ℕ → NasUe × NasBs
  unfolding ue_takes bs_takes
  attach u b imsi r r2 tmsi =
      let s1 = send_attach_request u imsi in
      let s2 = bs_takes b r tmsi s1.1 in
      let s3 = ue_takes s1.0 s2.1 in
      let s4 = bs_takes s2.0 r2 tmsi s3.1 in let s5 = ue_takes s3.0 s4.1 in (s5.0, s4.0)
