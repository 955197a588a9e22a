-- ===== src/Nas/Resync.antt =====
-- stack/nas: what a UE that is ahead of the network in its sequence numbers is answered, and what a
-- message that is too short does.
use aether_stack.Base.{
  ℕ, ◌+◌, ◌%◌, ◌^◌, ◌<◌, ◌≡◌, refl, sym, ap, ◌∙◌, List, [], ◌∷◌, ◌++◌, none, some, true, false,
  arith, bit_and, length, length-append, take, take-prefix, drop-prefix, take_all, leb, ltb, ==_iff,
  u8, same_bytes, same_bytes_self, lookup, remove, lookup-put_self,
}
use aether_stack.Base.Bits.{bit_and_mask}
use aether_stack.Nas.Aka.{sqn_mask, cause_synch_failure, generate, autn, build_auts}
use aether_stack.Nas.Aka.Verify.{length-build_auts, verify_auts-build_auts}
use aether_stack.Nas.Messages.{auth_request, auth_failure, decode}
use aether_stack.Nas.Messages.Codec.{decode-encode}
use aether_stack.Nas.Ue.{NasUe, failure}
use aether_stack.Nas.Bs.{
  UeContext, NasBs, same_tmsi, marked, is_ue_registered, find_ue, or_zero, accept_message,
  subscriber_sqn, find_first, on_auth_failure, on_failure, resync, set_subscriber_sqn,
  send_challenge, on_attach_key, on_attach, handle_message,
}
use aether_stack.Nas.Attach.Steps.{message}

-- The number behind one that was set.
subscriber_sqn-put :
    (b : NasBs) (imsi : List ℕ) (n : ℕ) (pending : List (ℕ × UeContext))
    → subscriber_sqn (set_subscriber_sqn (record b { pending_auth = pending }) imsi n) imsi ≡ n
unfolding subscriber_sqn set_subscriber_sqn or_zero
subscriber_sqn-put b imsi n pending =
    ap or_zero (lookup-put_self same_bytes b.sqn imsi n (same_bytes_self imsi))

-- What the network sends once it has the number of the UE.
resync-sends :
    (b : NasBs) (imsi : List ℕ) (e : ℕ × UeContext) (r : List ℕ) (n : ℕ)
    → e.1.imsi ≡ imsi
    → n + 1 < 2 ^ 48
    → (resync b imsi e r (some n)).1
      ≡ (e.1.tmsi, message auth_request (r ++ autn (generate e.1.k (n + 1) r))) ∷ []
unfolding resync send_challenge
resync-sends b imsi e r n i small =
    let pending = remove same_tmsi b.pending_auth e.0 in
    let m = bit_and n sqn_mask in
    let stored : subscriber_sqn (set_subscriber_sqn (record b { pending_auth = pending }) imsi m)
          e.1.imsi
        ≡ m =
      ap (subscriber_sqn (set_subscriber_sqn (record b { pending_auth = pending }) imsi m)) i
      ∙ subscriber_sqn-put b imsi m pending in
    let next : bit_and ((m + 1) % 2 ^ 64) sqn_mask ≡ n + 1 =
      omega (arith, bit_and_mask 48 n, bit_and_mask 48 ((m + 1) % 2 ^ 64), small) in
    let kept : (generate e.1.k (n + 1) r).rand ≡ r = unfold generate in refl in
    rw (stored, next, kept) refl

module _ (order : List (ℕ × UeContext) → List (ℕ × UeContext))
    (single : (e : ℕ × UeContext) → order (e ∷ []) ≡ e ∷ []) where
  handle_message-auth_failure :
      (b : NasBs) (r : List ℕ) (tmsi : ℕ) (value : List ℕ)
      → length value < 2 ^ 16
      → handle_message order b r tmsi (message auth_failure value) ≡ on_auth_failure order b value r
  unfolding handle_message
  handle_message-auth_failure b r tmsi value h =
      rw (decode-encode (record { msg_type = auth_failure; value = value }) h) refl

  -- A report that names the only UE with a challenge.
  on_auth_failure_lem :
      (b : NasBs) (r : List ℕ) (cause : ℕ) (auts : List ℕ) (e : ℕ × UeContext)
      → b.pending_auth ≡ e ∷ []
      → on_auth_failure order b (cause ∷ length e.1.imsi ∷ (e.1.imsi ++ auts)) r
        ≡ on_failure b cause e.1.imsi auts r (some e)
  unfolding on_auth_failure find_first
  on_auth_failure_lem b r cause auts e p =
      let imsi = e.1.imsi in
      let whole : ltb (2 + length (imsi ++ auts)) (2 + length imsi) ≡ false =
        ground (arith, length-append imsi auts) in
      rw
        (
          whole,
          take-prefix (length imsi) imsi auts refl,
          drop-prefix (length imsi) imsi auts refl,
          p,
          single e,
          same_bytes_self imsi,
        )
        refl

  on_failure-synch :
      (b : NasBs) (r : List ℕ) (sqn : ℕ) (e : ℕ × UeContext)
      → on_failure b cause_synch_failure e.1.imsi (build_auts e.1.k sqn e.1.rand) r (some e)
        ≡ resync b e.1.imsi e r (some (sqn % 2 ^ 48))
  unfolding on_failure
  on_failure-synch b r sqn e =
      let auts = build_auts e.1.k sqn e.1.rand in
      let n = length-build_auts e.1.k sqn e.1.rand in
      let full : leb 14 (length auts) ≡ true = ground (arith, n) in
      let all : take 14 auts ≡ auts = ap (λ (k : ℕ). take k auts) (sym n) ∙ take_all auts in
      rw (full, all, verify_auts-build_auts e.1.k sqn e.1.rand) refl

  -- The challenge that answers a synchronisation failure is made for the number behind the highest
  -- one of the UE. (The challenge of this UE is the only one; the UE has less than 2^48 - 1 as its
  -- number, its IMSI is shorter than 256 bytes, and the network has its key.)
  pub resync-next :
      (b : NasBs) (r : List ℕ) (tmsi : ℕ) (u : NasUe) (e : ℕ × UeContext)
      → b.pending_auth ≡ e ∷ []
      → e.1.imsi ≡ u.imsi
      → e.1.k ≡ u.usim_key
      → length u.imsi < 256
      → u.sqn_ms + 1 < 2 ^ 48
      → (handle_message order b r tmsi
          (failure u cause_synch_failure (build_auts u.usim_key u.sqn_ms e.1.rand))).1
        ≡ (e.1.tmsi, message auth_request (r ++ autn (generate u.usim_key (u.sqn_ms + 1) r))) ∷ []
  unfolding failure
  resync-next b r tmsi u e p i k short small =
      let auts = build_auts e.1.k u.sqn_ms e.1.rand in
      let value = cause_synch_failure ∷ length e.1.imsi ∷ (e.1.imsi ++ auts) in
      let n = length-append e.1.imsi auts in
      let m = length-build_auts e.1.k u.sqn_ms e.1.rand in
      let same : length e.1.imsi ≡ length u.imsi = ap length i in
      let whole : u.sqn_ms % 2 ^ 48 ≡ u.sqn_ms = omega (arith, small) in
      ap (λ v. (handle_message order b r tmsi (message auth_failure v)).1)
        (as_sent (u8 (length u.imsi)) (omega (arith, short, same)))
      ∙ ap (λ s. s.1)
          (handle_message-auth_failure b r tmsi value (omega (arith, n, m, same, short))
            ∙ on_auth_failure_lem b r cause_synch_failure auts e p
            ∙ on_failure-synch b r u.sqn_ms e
            ∙ ap (λ o. resync b e.1.imsi e r (some o)) whole)
      ∙ resync-sends b e.1.imsi e r u.sqn_ms refl small
      ∙ ap
          (λ key. (e.1.tmsi, message auth_request (r ++ autn (generate key (u.sqn_ms + 1) r))) ∷ [])
          k
    where
      as_sent :
          (len : ℕ)
          → len ≡ length e.1.imsi
          → cause_synch_failure ∷ len ∷ (u.imsi ++ build_auts u.usim_key u.sqn_ms e.1.rand)
            ≡ cause_synch_failure
              ∷ length e.1.imsi
              ∷ (e.1.imsi ++ build_auts e.1.k u.sqn_ms e.1.rand)
      as_sent len h = rw (h, ← i, ← k) refl

-- A PDU of less than three bytes, which is no message, is taken as an attach request without an
-- IMSI, and the UE is registered under the next TMSI and told so. (No subscriber has the empty
-- IMSI.)
pub short_message-registers :
    (order : List (ℕ × UeContext) → List (ℕ × UeContext)) (b : NasBs) (r : List ℕ) (tmsi : ℕ)
    (pdu : List ℕ)
    → length pdu < 3
    → lookup same_bytes b.keys [] ≡ none
    → (is_ue_registered (handle_message order b r tmsi pdu).0 b.next_tmsi ≡ true)
      × ((handle_message order b r tmsi pdu).1 ≡ accept_message b.next_tmsi ∷ [])
unfolding handle_message
short_message-registers order b r tmsi pdu h none_known =
    rw (nothing pdu h)
      (opened (on_attach b [] r) (unfold on_attach in ap (on_attach_key b [] r) none_known))
  where
    nothing : (l : List ℕ) → length l < 3 → decode l ≡ record { msg_type = 1; value = [] }
    nothing [] k = unfold decode in refl
    nothing (x ∷ []) k = unfold decode in refl
    nothing (x ∷ y ∷ []) k = unfold decode in refl
    nothing (x ∷ y ∷ z ∷ l) k = absurd (omega arith)

    opened :
        (s : NasBs × List (ℕ × List ℕ))
        → s ≡ on_attach_key b [] r none
        → (is_ue_registered s.0 b.next_tmsi ≡ true) × (s.1 ≡ accept_message b.next_tmsi ∷ [])
    opened s e = rw e (
        unfold on_attach_key is_ue_registered find_ue marked in
        (
          ap marked (
              lookup-put_self same_tmsi b.ue_contexts b.next_tmsi _
                ((==_iff b.next_tmsi b.next_tmsi).1 refl)),
          refl,
        ))
