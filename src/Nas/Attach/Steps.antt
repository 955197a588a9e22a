-- ===== src/Nas/Attach/Steps.antt =====
-- What each end does with the messages of an attach.
use aether_stack.Base.{
  ℕ, ◌%◌, ◌^◌, ◌<◌, ◌≡◌, refl, sym, ap, ◌∙◌, List, [], ◌∷◌, ◌++◌, some, true, false, arith, length,
  length-append, take, drop, take-prefix, drop-prefix, append-nil, leb, ◌==◌, ==_iff,
  same_bytes_self,
}
use aether_stack.Nas.Aka.{f2, generate, autn}
use aether_stack.Nas.Aka.Verify.{length-autn, verify_autn-generate, take-autn}
use aether_stack.Nas.Messages.{attach_request, attach_accept, auth_request, auth_response, encode}
use aether_stack.Nas.Messages.Codec.{decode-encode}
use aether_stack.Nas.Ue.{registering, NasUe, on_auth_request, on_accept, on_message}
use aether_stack.Nas.Bs.{UeContext, NasBs, find_first, on_res, on_attach, handle_message}

abbrev pub message : ℕ → List ℕ → List ℕ
message t value = encode (record { msg_type = t; value = value })

pub on_message-auth_request :
    (u : NasUe) (value : List ℕ)
    → length value < 2 ^ 16
    → on_message u (message auth_request value) ≡ on_auth_request u value
unfolding on_message
on_message-auth_request u value h =
    rw (decode-encode (record { msg_type = auth_request; value = value }) h) refl

pub on_message-attach_accept :
    (u : NasUe) (value : List ℕ)
    → length value < 2 ^ 16
    → on_message u (message attach_accept value) ≡ (on_accept u value, [])
unfolding on_message
on_message-attach_accept u value h =
    rw (decode-encode (record { msg_type = attach_accept; value = value }) h) refl

-- The UE that waits for its attach answers a challenge that names a fresh sequence number.
pub on_auth_request-generate :
    (u : NasUe) (sqn : ℕ) (rand : List ℕ)
    → u.state ≡ registering
    → u.has_usim ≡ true
    → length rand ≡ 16
    → u.sqn_ms < sqn % 2 ^ 48
    → on_auth_request u (rand ++ autn (generate u.usim_key sqn rand)) ≡ (
      record u {
        sqn_ms = sqn % 2 ^ 48;
        session_key = (generate u.usim_key sqn rand).kasme;
        auth_pending = true;
      },
      message auth_response (f2 u.usim_key rand) ∷ [],
    )
unfolding on_auth_request
on_auth_request-generate u sqn rand s h e fresh =
    let k = u.usim_key in
    let token = autn (generate k sqn rand) in
    let n = length-autn k sqn rand in
    let size : (length (rand ++ token) == 32) ≡ true =
      (==_iff (length (rand ++ token)) 32).1 (omega (arith, length-append rand token, e, n)) in
    let first = take-prefix 16 rand token (sym e) in
    let second : take 16 (drop 16 (rand ++ token)) ≡ token =
      ap (take 16) (drop-prefix 16 rand token (sym e) ∙ sym (append-nil token))
      ∙ take-prefix 16 token [] (sym n) in
    let newer : leb (sqn % 2 ^ 48) u.sqn_ms ≡ false = ground (arith, fresh) in
    rw (s, h, size, first, second, verify_autn-generate k sqn rand, newer, take-autn k sqn rand)
      (unfold generate in refl)

module _ (order : List (ℕ × UeContext) → List (ℕ × UeContext))
    (single : (e : ℕ × UeContext) → order (e ∷ []) ≡ e ∷ []) where
  pub handle_message-attach_request :
      (b : NasBs) (r : List ℕ) (tmsi : ℕ) (imsi : List ℕ)
      → length imsi < 2 ^ 16
      → handle_message order b r tmsi (message attach_request imsi) ≡ on_attach b imsi r
  unfolding handle_message
  handle_message-attach_request b r tmsi imsi h =
      rw (decode-encode (record { msg_type = attach_request; value = imsi }) h) refl

  -- The right answer to the only challenge.
  pub handle_message-auth_response :
      (b : NasBs) (r : List ℕ) (tmsi : ℕ) (e : ℕ × UeContext)
      → b.pending_auth ≡ e ∷ []
      → length e.1.xres ≡ 16
      → handle_message order b r tmsi (message auth_response e.1.xres) ≡ on_res b (some e)
  unfolding handle_message find_first
  handle_message-auth_response b r tmsi e p h =
      let size : (length e.1.xres == 16) ≡ true = (==_iff (length e.1.xres) 16).1 h in
      rw (decode-encode (record { msg_type = auth_response; value = e.1.xres }) (omega (arith, h)))
        (rw (size, p, single e, same_bytes_self e.1.xres) refl)
