-- ===== src/Nas/Bs.antt =====
-- stack/nas/src/nas_bs.cpp and stack/nas/include/nas/nas_bs.h. The second component of a result is
-- what the send callback is called with, in order. The maps are association lists; `order` is the
-- order in which the library's hash map of the outstanding challenges is run through, and `r` what
-- the source of random numbers gives next. The log lines are left out.
use aether_stack.Base.Endian.{bytes32, word32}
use aether_stack.Base.{
  ℕ, ◌+◌, ◌^◌, ◌%◌, List, [], ◌∷◌, ◌++◌, Option, none, some, Bool, true, false, ◌&&◌, bit_and,
  length, take, drop, replicate, leb, ltb, ◌==◌, if◌then◌else◌, u32, same_bytes, lookup, put,
  remove,
}
use aether_stack.Nas.Aka.{
  res_len, auts_len, sqn_mask, cause_synch_failure, generate, autn, verify_auts,
}
use aether_stack.Nas.Messages.{
  attach_request, attach_accept, attach_reject, detach, auth_request, auth_response, auth_failure,
  encode, decode,
}

pub record UeContext : Type 0 where
  pub imsi : List ℕ
  pub tmsi : ℕ
  pub registered : Bool
  pub k : List ℕ
  pub xres : List ℕ
  pub session_k : List ℕ
  pub rand : List ℕ

-- `UeContext ctx;` with an IMSI and a TMSI.
abbrev blank : List ℕ → ℕ → UeContext
blank imsi tmsi = record {
  imsi = imsi;
  tmsi = tmsi;
  registered = false;
  k = replicate 32 0;
  xres = [];
  session_k = replicate 32 0;
  rand = replicate 16 0;
}

pub record NasBs : Type 0 where
  pub ue_contexts : List (ℕ × UeContext)
  pub session_keys : List (ℕ × List ℕ)
  pub pending_auth : List (ℕ × UeContext)
  pub keys : List (List ℕ × List ℕ)
  pub sqn : List (List ℕ × ℕ)
  pub next_tmsi : ℕ

abbrev pub same_tmsi : ℕ → ℕ → Bool
same_tmsi a b = a == b

unfoldable pub or_zero : Option ℕ → ℕ
or_zero none = 0
or_zero (some n) = n

-- A missing entry counts as 0.
unfoldable pub subscriber_sqn : NasBs → List ℕ → ℕ
unfolding or_zero
subscriber_sqn b imsi = or_zero (lookup same_bytes b.sqn imsi)

unfoldable pub set_subscriber_sqn : NasBs → List ℕ → ℕ → NasBs
set_subscriber_sqn b imsi n = record b { sqn = put same_bytes b.sqn imsi n }

unfoldable pub add_subscriber : NasBs → List ℕ → List ℕ → NasBs
add_subscriber b imsi k = record b { keys = put same_bytes b.keys imsi k }

unfoldable pub send_challenge : NasBs → UeContext → List ℕ → NasBs × List (ℕ × List ℕ)
unfolding subscriber_sqn
send_challenge b ctx r =
    let n = (subscriber_sqn b ctx.imsi + 1) % 2 ^ 64 in
    let v = generate ctx.k (bit_and n sqn_mask) r in
    (
      record b {
        sqn = put same_bytes b.sqn ctx.imsi n;
        pending_auth =
            put same_tmsi b.pending_auth ctx.tmsi
              (record ctx { rand = v.rand; xres = v.xres; session_k = v.kasme });
      },
      (ctx.tmsi, encode (record { msg_type = auth_request; value = v.rand ++ autn v })) ∷ [],
    )

unfoldable pub accept_message : ℕ → ℕ × List ℕ
accept_message t = (t, encode (record { msg_type = attach_accept; value = bytes32 t }))

-- The first of the entries that a test holds for.
unfoldable pub find_first : (UeContext → Bool) → List (ℕ × UeContext) → Option (ℕ × UeContext)
find_first test [] = none
find_first test (e ∷ es) = let rest = find_first test es in if test e.1 then some e else rest

-- No challenge expects this RES: the only one there is, if there is just one, is rejected.
unfoldable pub no_match : NasBs → List (ℕ × UeContext) → NasBs × List (ℕ × List ℕ)
no_match b [] = (b, [])
no_match b (e ∷ []) =
    let doomed = e.1 in
    (
      record b { pending_auth = [] },
      (doomed.tmsi, encode (record { msg_type = attach_reject; value = bytes32 doomed.tmsi })) ∷ [],
    )
no_match b (e ∷ e2 ∷ es) = (b, [])

unfoldable pub on_res : NasBs → Option (ℕ × UeContext) → NasBs × List (ℕ × List ℕ)
unfolding no_match accept_message
on_res b none = no_match b b.pending_auth
on_res b (some e) =
    let ctx : UeContext = record (e.1) { registered = true } in
    (
      record b {
        pending_auth = remove same_tmsi b.pending_auth e.0;
        ue_contexts = put same_tmsi b.ue_contexts ctx.tmsi ctx;
        session_keys = put same_tmsi b.session_keys e.0 ctx.session_k;
      },
      accept_message ctx.tmsi ∷ [],
    )

-- `pending_auth_.erase(it)`, then the resynchronisation.
unfoldable pub resync :
    NasBs → List ℕ → ℕ × UeContext → List ℕ → Option ℕ → NasBs × List (ℕ × List ℕ)
unfolding send_challenge set_subscriber_sqn
resync b imsi e r none = (record b { pending_auth = remove same_tmsi b.pending_auth e.0 }, [])
resync b imsi e r (some sqn_ms) =
    send_challenge
      (set_subscriber_sqn (record b { pending_auth = remove same_tmsi b.pending_auth e.0 }) imsi
        (bit_and sqn_ms sqn_mask))
      e.1 r

-- The failure report of a UE with an outstanding challenge; `auts` is what stands behind its IMSI.
unfoldable pub on_failure :
    NasBs → ℕ → List ℕ → List ℕ → List ℕ → Option (ℕ × UeContext) → NasBs × List (ℕ × List ℕ)
unfolding resync
on_failure b cause imsi auts r none = (b, [])
on_failure b cause imsi auts r (some e) =
    if cause == cause_synch_failure && leb auts_len (length auts)
    then resync b imsi e r (verify_auts e.1.k (take auts_len auts) e.1.rand)
    else (record b { pending_auth = remove same_tmsi b.pending_auth e.0 }, [])

-- A subscriber with a key is challenged, any other IMSI is let in.
unfoldable pub on_attach_key : NasBs → List ℕ → List ℕ → Option (List ℕ) → NasBs × List (ℕ × List ℕ)
unfolding send_challenge accept_message
on_attach_key b imsi r (some key) =
    send_challenge (record b { next_tmsi = u32 (b.next_tmsi + 1) })
      (record (blank imsi b.next_tmsi) { k = key }) r
on_attach_key b imsi r none = (
  record b {
    next_tmsi = u32 (b.next_tmsi + 1);
    ue_contexts =
        put same_tmsi b.ue_contexts b.next_tmsi
          (record (blank imsi b.next_tmsi) { registered = true });
  },
  accept_message b.next_tmsi ∷ [],
)

unfoldable pub on_attach : NasBs → List ℕ → List ℕ → NasBs × List (ℕ × List ℕ)
unfolding on_attach_key
on_attach b imsi r = on_attach_key b imsi r (lookup same_bytes b.keys imsi)

unfoldable pub detaching_tmsi : ℕ → List ℕ → ℕ
detaching_tmsi tmsi [] = tmsi
detaching_tmsi tmsi (a ∷ []) = tmsi
detaching_tmsi tmsi (a ∷ b ∷ []) = tmsi
detaching_tmsi tmsi (a ∷ b ∷ c ∷ []) = tmsi
detaching_tmsi tmsi (a ∷ b ∷ c ∷ d ∷ bytes) = word32 a b c d

module _ (order : List (ℕ × UeContext) → List (ℕ × UeContext)) where
  -- A message of at least two bytes: the cause, the length of the IMSI and what stands behind.
  unfoldable pub on_auth_failure : NasBs → List ℕ → List ℕ → NasBs × List (ℕ × List ℕ)
  unfolding on_failure find_first
  on_auth_failure b [] r = (b, [])
  on_auth_failure b (cause ∷ []) r = (b, [])
  on_auth_failure b (cause ∷ n ∷ bytes) r =
      let imsi = take n bytes in
      if ltb (2 + length bytes) (2 + n)
      then (b, [])
      else on_failure b cause imsi (drop n bytes) r
          (find_first (λ ctx. same_bytes ctx.imsi imsi) (order b.pending_auth))

  unfoldable pub handle_message : NasBs → List ℕ → ℕ → List ℕ → NasBs × List (ℕ × List ℕ)
  unfolding find_first on_res on_auth_failure on_attach detaching_tmsi
  handle_message b r tmsi pdu =
      let msg = decode pdu in
      let value = msg.value in
      if msg.msg_type == auth_response
      then (if length value == res_len
          then on_res b (find_first (λ ctx. same_bytes value ctx.xres) (order b.pending_auth))
          else (b, []))
      else if msg.msg_type == auth_failure
      then on_auth_failure b value r
      else if msg.msg_type == attach_request
      then on_attach b value r
      else if msg.msg_type == detach
      then (
        record b { ue_contexts = remove same_tmsi b.ue_contexts (detaching_tmsi tmsi value) },
        [],
      )
      else (b, [])

unfoldable pub find_ue : NasBs → ℕ → Option UeContext
find_ue b tmsi = lookup same_tmsi b.ue_contexts tmsi

unfoldable pub marked : Option UeContext → Bool
marked none = false
marked (some ctx) = ctx.registered

unfoldable pub is_ue_registered : NasBs → ℕ → Bool
unfolding find_ue marked
is_ue_registered b tmsi = marked (find_ue b tmsi)

unfoldable pub find_ue_by_imsi :
    NasBs → (List (ℕ × UeContext) → List (ℕ × UeContext)) → List ℕ → Option (ℕ × UeContext)
unfolding find_first
find_ue_by_imsi b order imsi =
    find_first (λ ctx. same_bytes ctx.imsi imsi && ctx.registered) (order b.ue_contexts)

unfoldable pub session_key : NasBs → ℕ → Option (List ℕ)
session_key b tmsi = lookup same_tmsi b.session_keys tmsi

-- 32 zeros stand in for the key, unless there is one.
unfoldable pub adopt_ue : NasBs → ℕ → List ℕ → NasBs
unfolding session_key
adopt_ue b tmsi imsi = record b {
  ue_contexts = put same_tmsi b.ue_contexts tmsi (record (blank imsi tmsi) { registered = true });
  session_keys = elim (session_key b tmsi) [
    | none ↦ put same_tmsi b.session_keys tmsi (replicate 32 0)
    | some key ↦ b.session_keys
  ];
}

unfoldable pub release_ue : NasBs → ℕ → NasBs
release_ue b tmsi = record b {
  ue_contexts = remove same_tmsi b.ue_contexts tmsi;
  session_keys = remove same_tmsi b.session_keys tmsi;
}
