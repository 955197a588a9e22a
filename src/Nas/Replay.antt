-- ===== src/Nas/Replay.antt =====
-- stack/nas/src/nas_ue.cpp: what a message can do to the keys of a UE, and stack/nas/src/nas_bs.cpp:
-- what it takes to be registered.
use aether_stack.Base.{
  ℕ, ◌^◌, ◌<◌, ◌≤◌, ==_iff, ◌≡◌, refl, sym, ap, ◌∙◌, ◌⊎◌, inl, inr, List, [], ◌∷◌, Option, none,
  some, Bool, true, false, not, ◌||◌, arith, length, take, drop, leb, ◌==◌, if◌then◌else◌,
  Bool-cases, same_bytes, same_bytes→eq, put,
}
use aether_stack.Nas.Aka.{f1, verify_autn}
use aether_stack.Nas.Aka.Verify.{verify_autn-mac}
use aether_stack.Nas.Messages.{attach_accept, attach_reject, auth_request, auth_response, decode}
use aether_stack.Nas.Messages.Codec.{decode-encode}
use aether_stack.Nas.Ue.{
  UeState, deregistered, registering, registered, NasUe, is_registering, answer, on_auth_request,
  on_accept, on_reject, transition, on_message,
}
use aether_stack.Nas.Bs.{UeContext, NasBs, same_tmsi, find_first, no_match, on_res, handle_message}
use aether_stack.Nas.Attach.Steps.{message}

-- The number and the session key stay, and no challenge is answered.
abbrev Stays : NasUe → NasUe → Type 0
Stays u v =
    (v.sqn_ms ≡ u.sqn_ms)
    × (v.session_key ≡ u.session_key)
    × ((v.auth_pending ≡ u.auth_pending) ⊎ (v.auth_pending ≡ false))

abbrev rand_of : List ℕ → List ℕ
rand_of pdu = take 16 (decode pdu).value

abbrev token_of : List ℕ → List ℕ
token_of pdu = take 16 (drop 16 (decode pdu).value)

-- A challenge that is answered: its AUTN is accepted, with a number above the highest one so far.
abbrev Answers : NasUe → List ℕ → NasUe → Type 0
Answers u pdu v =
    ((decode pdu).msg_type ≡ auth_request)
    × (is_registering u ≡ true)
    × (u.has_usim ≡ true)
    × (length (decode pdu).value ≡ 32)
    × (u.sqn_ms < v.sqn_ms)
    × (verify_autn u.usim_key (rand_of pdu) (token_of pdu) ≡ some v.sqn_ms)

registering_state : (u : NasUe) → is_registering u ≡ true → u.state ≡ registering
registering_state u h = by_state u.state refl
  where
    by_state : (s : UeState) → u.state ≡ s → u.state ≡ registering
    by_state deregistered e = absurd (clash (unfold is_registering in rw e at h))
      where
        clash : false ≡ true → ⊥
        clash c = cc
    by_state registering e = e
    by_state registered e = absurd (clash (unfold is_registering in rw e at h))
      where
        clash : false ≡ true → ⊥
        clash c = cc

stays : (u : NasUe) → Stays u u
stays u = (refl, refl, inl refl)

module _ (u : NasUe) (pdu : List ℕ) (is_request : (decode pdu).msg_type ≡ auth_request)
    (asked : is_registering u ≡ true) (has_usim : u.has_usim ≡ true)
    (long : length (decode pdu).value ≡ 32) where
  answered :
      (o : Option ℕ)
      → verify_autn u.usim_key (rand_of pdu) (token_of pdu) ≡ o
      → Stays u (answer u (rand_of pdu) (token_of pdu) o).0
        ⊎ Answers u pdu (answer u (rand_of pdu) (token_of pdu) o).0
  unfolding answer
  answered none e = inl (stays u)
  answered (some sqn) e = elim (Bool-cases (leb sqn u.sqn_ms)) [
    | inl old ↦ rw old (inl (stays u))
    | inr new ↦ rw new (inr (is_request, asked, has_usim, long, ground (arith, new), e))
  ]

on_auth_request-Answers :
    (u : NasUe) (pdu : List ℕ)
    → (decode pdu).msg_type ≡ auth_request
    → Stays u (on_auth_request u (decode pdu).value).0
      ⊎ Answers u pdu (on_auth_request u (decode pdu).value).0
unfolding on_auth_request
on_auth_request-Answers u pdu is_request =
    by_guard (is_registering u) u.has_usim (length (decode pdu).value == 32) refl refl refl
  where
    reply : NasUe × List (List ℕ)
    reply =
        answer u (rand_of pdu) (token_of pdu) (verify_autn u.usim_key (rand_of pdu) (token_of pdu))

    by_guard :
        (a b c : Bool)
        → is_registering u ≡ a
        → u.has_usim ≡ b
        → (length (decode pdu).value == 32) ≡ c
        → Stays u (if not a || not b || not c then (u, []) else reply).0
          ⊎ Answers u pdu (if not a || not b || not c then (u, []) else reply).0
    by_guard false b c e f g = inl (stays u)
    by_guard true false c e f g = inl (stays u)
    by_guard true true false e f g = inl (stays u)
    by_guard true true true e f g =
        answered u pdu is_request e f ((==_iff (length (decode pdu).value) 32).0 g)
          (verify_autn u.usim_key (rand_of pdu) (token_of pdu)) refl

on_accept-Stays : (u : NasUe) (value : List ℕ) → Stays u (on_accept u value)
unfolding on_accept transition
on_accept-Stays u value = elim (Bool-cases (is_registering u)) [
  | inl e ↦ rw e (refl, refl, inr refl)
  | inr e ↦ rw e (stays u)
]

on_reject-Stays : (u : NasUe) → Stays u (on_reject u)
unfolding on_reject transition
on_reject-Stays u = elim (Bool-cases (is_registering u)) [
  | inl e ↦ rw e (refl, refl, inl refl)
  | inr e ↦ rw e (stays u)
]

on_message-Answers :
    (u : NasUe) (pdu : List ℕ) → Stays u (on_message u pdu).0 ⊎ Answers u pdu (on_message u pdu).0
unfolding on_message
on_message-Answers u pdu =
    let msg = decode pdu in
    elim (Bool-cases (msg.msg_type == auth_request)) [
      | inl a ↦ rw a (on_auth_request-Answers u pdu ((==_iff msg.msg_type auth_request).0 a))
      | inr a ↦ elim (Bool-cases (msg.msg_type == attach_accept)) [
        | inl b ↦ rw (a, b) (inl (on_accept-Stays u msg.value))
        | inr b ↦ elim (Bool-cases (msg.msg_type == attach_reject)) [
          | inl c ↦ rw (a, b, c) (inl (on_reject-Stays u))
          | inr c ↦ rw (a, b, c) (inl (stays u))
        ]
      ]
    ]

-- Whatever the bytes of a message are, the sequence number of the UE and its session key stay, and no
-- challenge becomes an answered one, but for one case: the message is a challenge of 32 bytes to a
-- registering UE with a key, the number goes up, and the last 8 bytes are the MAC f1 under the key of
-- the UE over this very number, the RAND and the AMF of the challenge.
pub on_message-Fresh :
    (u : NasUe) (pdu : List ℕ)
    → let v = (on_message u pdu).0 in
      let value = (decode pdu).value in
      ((v.sqn_ms ≡ u.sqn_ms)
        × (v.session_key ≡ u.session_key)
        × ((v.auth_pending ≡ u.auth_pending) ⊎ (v.auth_pending ≡ false)))
      ⊎ (((decode pdu).msg_type ≡ auth_request)
          × (u.state ≡ registering)
          × (u.has_usim ≡ true)
          × (length value ≡ 32)
          × (u.sqn_ms < v.sqn_ms)
          × (take 8 (drop 8 (take 16 (drop 16 value)))
              ≡ f1 u.usim_key v.sqn_ms (take 16 value) (take 2 (drop 6 (take 16 (drop 16 value))))))
on_message-Fresh u pdu = elim (on_message-Answers u pdu) [
  | inl same ↦ inl same
  | inr a ↦
      let mac =
        verify_autn-mac u.usim_key (rand_of pdu) (token_of pdu) (on_message u pdu).0.sqn_ms a.5 in
      inr (a.0, registering_state u a.1, a.2, a.3, a.4, mac.1)
]

-- A challenge that once raised the number of a UE does nothing more: a UE with the same key whose
-- number is at least as high as it was then, in whatever state it is, stays exactly as it is.
pub on_message-replayed :
    (u w : NasUe) (pdu : List ℕ)
    → u.sqn_ms < (on_message u pdu).0.sqn_ms
    → w.usim_key ≡ u.usim_key
    → (on_message u pdu).0.sqn_ms ≤ w.sqn_ms
    → (on_message w pdu).0 ≡ w
on_message-replayed u w pdu raised same_key high = elim (on_message-Answers u pdu) [
  | inl same ↦ absurd (omega (arith, same.0, raised))
  | inr a ↦
      refused (on_message u pdu).0.sqn_ms high a.0
        (ap (λ k. verify_autn k (rand_of pdu) (token_of pdu)) same_key ∙ a.5)
]
  where
    refused :
        (sqn : ℕ)
        → sqn ≤ w.sqn_ms
        → (decode pdu).msg_type ≡ auth_request
        → verify_autn w.usim_key (rand_of pdu) (token_of pdu) ≡ some sqn
        → (on_message w pdu).0 ≡ w
    refused sqn le is_request e =
        let old : leb sqn w.sqn_ms ≡ true = ground (arith, le) in
        let stale : (answer w (rand_of pdu) (token_of pdu) (some sqn)).0 ≡ w =
          unfold answer in rw old refl in
        unfold on_message on_auth_request in
        rw (is_request, e)
          (by_guard
            (not (is_registering w) || not w.has_usim || not (length (decode pdu).value == 32))
            (answer w (rand_of pdu) (token_of pdu) (some sqn)) stale)
      where
        by_guard :
            (ignored : Bool) (r : NasUe × List (List ℕ))
            → r.0 ≡ w
            → (if ignored then (w, []) else r).0 ≡ w
        by_guard true r h = refl
        by_guard false r h = h

find_first_holds :
    (test : UeContext → Bool) (es : List (ℕ × UeContext)) (e : ℕ × UeContext)
    → find_first test es ≡ some e
    → test e.1 ≡ true
unfolding find_first
find_first_holds test [] e h = absurd (ground (arith, h))
find_first_holds test (x ∷ es) e h = by_test (find_first_holds test es e) (test x.1) refl h
  where
    holds : Option (ℕ × UeContext) → Bool
    holds none = true
    holds (some y) = test y.1

    by_test :
        (find_first test es ≡ some e → test e.1 ≡ true)
        → (b : Bool) → test x.1 ≡ b
        → (if b then some x else find_first test es) ≡ some e
        → test e.1 ≡ true
    by_test rest true t k = ap holds (sym k) ∙ t
    by_test rest false t k = rest k

no_match-contexts :
    (b : NasBs) (es : List (ℕ × UeContext)) → (no_match b es).0.ue_contexts ≡ b.ue_contexts
unfolding no_match
no_match-contexts b [] = refl
no_match-contexts b (e ∷ []) = refl
no_match-contexts b (e ∷ e2 ∷ es) = refl

-- A RES puts no UE among the registered ones, unless it is the very answer that an outstanding
-- challenge expects; then exactly the UE of this challenge is registered, under its TMSI. (The value
-- of the message has less than 2^16 bytes.)
pub auth_response-contexts :
    (order : List (ℕ × UeContext) → List (ℕ × UeContext)) (b : NasBs) (r : List ℕ) (tmsi : ℕ)
    (value : List ℕ)
    → length value < 2 ^ 16
    → ((handle_message order b r tmsi (message auth_response value)).0.ue_contexts ≡ b.ue_contexts)
      ⊎ ((e : ℕ × UeContext) × (find_first (λ ctx. same_bytes value ctx.xres) (order b.pending_auth)
            ≡ some e)
          × (value ≡ e.1.xres)
          × ((handle_message order b r tmsi (message auth_response value)).0.ue_contexts
              ≡ put same_tmsi b.ue_contexts e.1.tmsi (record (e.1) { registered = true })))
unfolding handle_message
auth_response-contexts order b r tmsi value h =
    rw (decode-encode (record { msg_type = auth_response; value = value }) h)
      (by_size (length value == 16))
  where
    found : Option (ℕ × UeContext)
    found = find_first (λ ctx. same_bytes value ctx.xres) (order b.pending_auth)

    Registers : NasBs × List (ℕ × List ℕ) → Type 0
    Registers s =
        (s.0.ue_contexts ≡ b.ue_contexts)
        ⊎ ((e : ℕ × UeContext) × (found ≡ some e)
            × (value ≡ e.1.xres)
            × (s.0.ue_contexts
                ≡ put same_tmsi b.ue_contexts e.1.tmsi (record (e.1) { registered = true })))

    by_found : (o : Option (ℕ × UeContext)) → found ≡ o → Registers (on_res b o)
    by_found none e = unfold on_res in inl (no_match-contexts b b.pending_auth)
    by_found (some x) e =
        unfold on_res in
        inr (
          x,
          e,
          same_bytes→eq value x.1.xres
              (find_first_holds (λ ctx. same_bytes value ctx.xres) (order b.pending_auth) x e),
          refl,
        )

    by_size : (right : Bool) → Registers (if right then on_res b found else (b, []))
    by_size true = by_found found refl
    by_size false = inl refl
