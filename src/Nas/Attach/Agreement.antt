-- ===== src/Nas/Attach/Agreement.antt =====
-- Both ends of an attach with authentication hold the same session key.
use aether_stack.Base.Endian.{bytes32, word32-bytes32}
use aether_stack.Base.{
  ℕ, ◌+◌, ◌%◌, ◌^◌, ◌<◌, ◌≡◌, refl, sym, ap, ◌∙◌, List, [], ◌∷◌, ◌++◌, some, true, false, arith,
  bit_and, length, length-append, ==_iff, u32, same_bytes, lookup, put, lookup-put_self,
}
use aether_stack.Base.Bits.{bit_and_mask}
use aether_stack.Nas.Aka.{Vector, sqn_mask, f2, generate, autn}
use aether_stack.Nas.Aka.Verify.{length-f2, length-autn}
use aether_stack.Nas.Messages.{attach_request, auth_request, auth_response}
use aether_stack.Nas.Ue.{
  deregistered, registering, registered, NasUe, transition, send_attach_request, on_accept,
  on_message,
}
use aether_stack.Nas.Bs.{
  UeContext, NasBs, same_tmsi, subscriber_sqn, send_challenge, accept_message, on_res,
  on_attach_key, on_attach, handle_message, find_ue, is_ue_registered, session_key,
}
use aether_stack.Nas.Attach.{ue_takes, bs_takes, attach}
use aether_stack.Nas.Attach.Steps.{
  message, on_message-auth_request, on_message-attach_accept, on_auth_request-generate,
  handle_message-attach_request, handle_message-auth_response,
}

module _ (order : List (ℕ × UeContext) → List (ℕ × UeContext))
    (single : (e : ℕ × UeContext) → order (e ∷ []) ≡ e ∷ []) where
  -- A run of five messages, of which each step is known.
  attach_lem :
      (u : NasUe) (b : NasBs) {u1 u2 u3 : NasUe} {b1 b2 : NasBs} (imsi r r2 : List ℕ) (tmsi : ℕ)
      {m1 m3 : List ℕ} {m2 m4 : ℕ × List ℕ}
      → send_attach_request u imsi ≡ (u1, m1 ∷ [])
      → handle_message order b r tmsi m1 ≡ (b1, m2 ∷ [])
      → on_message u1 m2.1 ≡ (u2, m3 ∷ [])
      → handle_message order b1 r2 tmsi m3 ≡ (b2, m4 ∷ [])
      → on_message u2 m4.1 ≡ (u3, [])
      → attach order u b imsi r r2 tmsi ≡ (u3, b2)
  unfolding attach ue_takes bs_takes
  attach_lem u b imsi r r2 tmsi e1 e2 e3 e4 e5 = rw (e1, e2, e3, e4, e5) refl

  module _ (u : NasUe) (b : NasBs) (imsi r : List ℕ) where
    abbrev asking : NasUe
    asking = record u {
      imsi = imsi;
      authenticated = false;
      auth_pending = false;
      state = registering;
    }

    -- The number that goes into the vector.
    abbrev next_sqn : ℕ
    next_sqn = bit_and ((subscriber_sqn b imsi + 1) % 2 ^ 64) sqn_mask

    abbrev vector : Vector
    vector = generate u.usim_key next_sqn r

    abbrev challenged : UeContext
    challenged = record {
      imsi = imsi;
      tmsi = b.next_tmsi;
      registered = false;
      k = u.usim_key;
      xres = vector.xres;
      session_k = vector.kasme;
      rand = r;
    }

    abbrev waiting : NasBs
    waiting = record b {
      next_tmsi = u32 (b.next_tmsi + 1);
      sqn = put same_bytes b.sqn imsi ((subscriber_sqn b imsi + 1) % 2 ^ 64);
      pending_auth = (b.next_tmsi, challenged) ∷ [];
    }

    abbrev answered : NasUe
    answered = record (asking) {
      sqn_ms = next_sqn % 2 ^ 48;
      session_key = vector.kasme;
      auth_pending = true;
    }

    requested :
        u.state ≡ deregistered
        → send_attach_request u imsi ≡ (asking, message attach_request imsi ∷ [])
    unfolding send_attach_request transition
    requested s = rw s refl

    known :
        b.pending_auth ≡ []
        → lookup same_bytes b.keys imsi ≡ some u.usim_key
        → on_attach b imsi r
          ≡ (waiting, (b.next_tmsi, message auth_request (r ++ autn vector)) ∷ [])
    unfolding on_attach on_attach_key send_challenge generate
    known p k = ap (on_attach_key b imsi r) k ∙ rw p refl

    abbrev finished : NasBs
    finished = record (waiting) {
      pending_auth = [];
      ue_contexts =
          put same_tmsi b.ue_contexts b.next_tmsi (record (challenged) { registered = true });
      session_keys = put same_tmsi b.session_keys b.next_tmsi vector.kasme;
    }

    done :
        on_res waiting (some (b.next_tmsi, challenged))
        ≡ (finished, accept_message b.next_tmsi ∷ [])
    unfolding on_res
    done = rw ((==_iff b.next_tmsi b.next_tmsi).1 refl) refl

    abbrev attached : NasUe
    attached = record (answered) {
      assigned_tmsi = b.next_tmsi;
      authenticated = true;
      auth_pending = false;
      state = registered;
    }

    accepted : b.next_tmsi < 2 ^ 32 → on_accept answered (bytes32 b.next_tmsi) ≡ attached
    unfolding on_accept bytes32
    accepted h = rw (word32-bytes32 b.next_tmsi h) refl

    vector_fields : (vector.xres ≡ f2 u.usim_key r) × (vector.rand ≡ r)
    unfolding generate
    vector_fields = (refl, refl)

    -- The whole run, and where it ends.
    attach_run :
        (r2 : List ℕ) (tmsi : ℕ)
        → u.state ≡ deregistered
        → u.has_usim ≡ true
        → length imsi < 2 ^ 16
        → length r ≡ 16
        → b.pending_auth ≡ []
        → lookup same_bytes b.keys imsi ≡ some u.usim_key
        → b.next_tmsi < 2 ^ 32
        → u.sqn_ms < (subscriber_sqn b imsi + 1) % 2 ^ 48
        → attach order u b imsi r r2 tmsi ≡ (attached, finished)
    attach_run r2 tmsi s h n e p k t fresh =
        let newer : u.sqn_ms < next_sqn % 2 ^ 48 =
          omega (arith, bit_and_mask 48 ((subscriber_sqn b imsi + 1) % 2 ^ 64), fresh) in
        let size : length (r ++ autn vector) < 2 ^ 16 =
          omega (arith, length-append r (autn vector), length-autn u.usim_key next_sqn r, e) in
        let x16 : length vector.xres ≡ 16 = ap length (vector_fields).0 ∙ length-f2 u.usim_key r in
        attach_lem u b imsi r r2 tmsi (requested s)
          (handle_message-attach_request order single b r tmsi imsi n ∙ known p k)
          (on_message-auth_request asking (r ++ autn vector) size
            ∙ on_auth_request-generate asking next_sqn r refl h e newer)
          (ap (λ x. handle_message order waiting r2 tmsi (message auth_response x))
              (sym (vector_fields).0)
            ∙ handle_message-auth_response order single waiting r2 tmsi (b.next_tmsi, challenged)
                refl x16
            ∙ done)
          (unfold accept_message in
            on_message-attach_accept answered (bytes32 b.next_tmsi) (unfold bytes32 in omega arith)
            ∙ ap (λ a. (a, [])) (accepted t))

-- An attach of a UE whose key the network knows succeeds, whatever the random numbers are: both ends
-- are registered under the TMSI that the network gave, the UE is authenticated, and the session key
-- that the network keeps for this TMSI is the one that the UE derived. (The UE is deregistered and
-- its highest sequence number, of 48 bits, is below the network's next one; no other challenge is
-- outstanding; the run through a map of one entry meets this entry.)
pub attach-agreement :
    (order : List (ℕ × UeContext) → List (ℕ × UeContext))
    → ((e : ℕ × UeContext) → order (e ∷ []) ≡ e ∷ [])
    → (u : NasUe) (b : NasBs) (imsi r r2 : List ℕ) (tmsi : ℕ) → u.state ≡ deregistered
    → u.has_usim ≡ true
    → length imsi < 2 ^ 16
    → length r ≡ 16
    → b.pending_auth ≡ []
    → lookup same_bytes b.keys imsi ≡ some u.usim_key
    → b.next_tmsi < 2 ^ 32
    → u.sqn_ms < (subscriber_sqn b imsi + 1) % 2 ^ 48
    → ((attach order u b imsi r r2 tmsi).0.state ≡ registered)
      × ((attach order u b imsi r r2 tmsi).0.authenticated ≡ true)
      × ((attach order u b imsi r r2 tmsi).0.assigned_tmsi ≡ b.next_tmsi)
      × (is_ue_registered (attach order u b imsi r r2 tmsi).1 b.next_tmsi ≡ true)
      × (session_key (attach order u b imsi r r2 tmsi).1 b.next_tmsi
          ≡ some (attach order u b imsi r r2 tmsi).0.session_key)
attach-agreement order single u b imsi r r2 tmsi s h n e p k t fresh =
    let t_self = (==_iff b.next_tmsi b.next_tmsi).1 refl in
    rw (attach_run order single u b imsi r r2 tmsi s h n e p k t fresh) (
      refl,
      refl,
      refl,
      (unfold is_ue_registered find_ue in
          rw
            (lookup-put_self same_tmsi b.ue_contexts b.next_tmsi
              (record (challenged order single u b imsi r) { registered = true }) t_self)
            refl),
      (unfold session_key in
          lookup-put_self same_tmsi b.session_keys b.next_tmsi
            (vector order single u b imsi r).kasme t_self),
    )
