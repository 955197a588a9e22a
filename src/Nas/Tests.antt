-- ===== src/Nas/Tests.antt =====
-- An attach and its failures at concrete inputs.
use aether_stack.Base.{
  length, ◌↔◌, take, drop, ℕ, ◌+◌, ◌<◌, ◌%◌, ◌^◌, ◌≡◌, refl, ◌⊎◌, List, [], ◌∷◌, ◌++◌, some, true,
  false, arith, replicate, same_bytes, put, lookup,
}
use aether_stack.Nas.Aka.{f1, cause_synch_failure, generate, autn, verify_autn, build_auts, f2}
use aether_stack.Nas.Aka.Verify.{verify_autn-generate}
use aether_stack.Nas.Messages.{NasMessage, encode, decode, auth_request, auth_response}
use aether_stack.Nas.Messages.Codec.{decode-encode}
use aether_stack.Nas.Ue.{deregistered, registering, registered, NasUe, failure, on_message}
use aether_stack.Nas.Bs.{
  UeContext, NasBs, same_tmsi, or_zero, subscriber_sqn, handle_message, is_ue_registered,
  session_key, accept_message, find_first,
}
use aether_stack.Nas.Attach.{attach}
use aether_stack.Nas.Attach.Steps.{message}
use aether_stack.Nas.Attach.Agreement.{attach-agreement}
use aether_stack.Nas.Moves.{Operation, attach_to, take_message, detach_now, operate_all}
use aether_stack.Nas.Moves.History.{Registers, registered-operate_all_iff}
use aether_stack.Nas.Replay.{on_message-Fresh, on_message-replayed, auth_response-contexts}
use aether_stack.Nas.Resync.{resync-next, short_message-registers}

abbrev key : List ℕ
key = replicate 32 7

abbrev rand : List ℕ
rand = replicate 16 0x5a

verify_autn-generate_example :
    verify_autn key rand (autn (generate key 0x1000000000007 rand)) ≡ some 7
verify_autn-generate_example = verify_autn-generate key 0x1000000000007 rand

abbrev imsi : List ℕ
imsi = 0x30 ∷ 0x30 ∷ 0x31 ∷ []

abbrev request : NasMessage
request = record { msg_type = 1; value = imsi }

decode-encode_example : decode (encode request) ≡ request
decode-encode_example = decode-encode request (omega arith)

abbrev ue : NasUe
ue = record {
  state = deregistered;
  imsi = [];
  assigned_tmsi = 0;
  usim_key = key;
  session_key = [];
  has_usim = true;
  authenticated = false;
  auth_pending = false;
  sqn_ms = 4;
}

abbrev bs : NasBs
bs = record {
  ue_contexts = [];
  session_keys = [];
  pending_auth = [];
  keys = (imsi, key) ∷ [];
  sqn = (imsi, 4) ∷ [];
  next_tmsi = 0x00010001;
}

abbrev in_order : List (ℕ × UeContext) → List (ℕ × UeContext)
in_order es = es

abbrev after : NasUe × NasBs
after = attach in_order ue bs imsi rand rand 0

attach-agreement_example :
    ((after).0.state ≡ registered)
    × ((after).0.authenticated ≡ true)
    × ((after).0.assigned_tmsi ≡ 0x00010001)
    × (is_ue_registered (after).1 0x00010001 ≡ true)
    × (session_key (after).1 0x00010001 ≡ some (after).0.session_key)
attach-agreement_example =
    attach-agreement in_order (λ e. refl) ue bs imsi rand rand 0 refl refl (omega arith) refl refl
      known (omega arith) fresh
  where
    known : lookup same_bytes bs.keys imsi ≡ some key
    known = refl

    fresh : 4 < (subscriber_sqn bs imsi + 1) % 2 ^ 48
    fresh = unfold subscriber_sqn or_zero in omega arith

-- A challenge for the number 7, at a registering UE with the same key.
abbrev asking : NasUe
asking = record ue { state = registering; has_usim = true; usim_key = key }

abbrev challenge : List ℕ
challenge = 5 ∷ 32 ∷ 0 ∷ (rand ++ autn (generate key 7 rand))

on_message-Fresh_example :
    let v = (on_message asking challenge).0 in
    let value = (decode challenge).value in
    ((v.sqn_ms ≡ 4) × (v.session_key ≡ []) × ((v.auth_pending ≡ false) ⊎ (v.auth_pending ≡ false)))
    ⊎ (((decode challenge).msg_type ≡ 5)
        × (registering ≡ registering)
        × (true ≡ true)
        × (length value ≡ 32)
        × (4 < v.sqn_ms)
        × (take 8 (drop 8 (take 16 (drop 16 value)))
            ≡ f1 key v.sqn_ms (take 16 value) (take 2 (drop 6 (take 16 (drop 16 value))))))
on_message-Fresh_example = on_message-Fresh asking challenge

raised_run : (on_message asking challenge).0.sqn_ms ≡ 7
unfolding on_message decode generate autn verify_autn f1 aether_stack.Nas.Aka.f
    aether_stack.Nas.Aka.f5 aether_stack.Nas.Aka.sqn_bytes aether_stack.Nas.Aka.reveal
    aether_stack.Nas.Ue.on_auth_request aether_stack.Nas.Ue.answer
    aether_stack.Nas.Ue.is_registering aether_stack.Crypto.Hmac.hmac_sha256
    aether_stack.Crypto.Chacha.xor_bytes aether_stack.Crypto.Sha256.finalise
    aether_stack.Crypto.Sha256.update aether_stack.Crypto.Sha256.init
    aether_stack.Crypto.Sha256.rotr aether_stack.Crypto.Sha256.compress
    aether_stack.Crypto.Sha256.digest aether_stack.Crypto.Sha256.padding
raised_run = refl

-- The challenge again, after it was answered.
on_message-replayed_example :
    (on_message (record asking { sqn_ms = 7 }) challenge).0 ≡ record asking { sqn_ms = 7 }
on_message-replayed_example =
    on_message-replayed asking (record asking { sqn_ms = 7 }) challenge (omega (arith, raised_run))
      refl (omega (arith, raised_run))

abbrev waiting : UeContext
waiting = record {
  imsi = imsi;
  tmsi = 7;
  registered = false;
  k = key;
  xres = f2 key rand;
  session_k = [];
  rand = rand;
}

abbrev challenger : NasBs
challenger = record bs { pending_auth = (7, waiting) ∷ [] }

abbrev wrong : List ℕ
wrong = replicate 16 0

auth_response-contexts_example :
    ((handle_message in_order challenger rand 0 (message auth_response wrong)).0.ue_contexts ≡ [])
    ⊎ ((e : ℕ × UeContext) × (find_first (λ ctx. same_bytes wrong ctx.xres) ((7, waiting) ∷ [])
          ≡ some e)
        × (wrong ≡ e.1.xres)
        × ((handle_message in_order challenger rand 0 (message auth_response wrong)).0.ue_contexts
            ≡ put same_tmsi [] e.1.tmsi (record (e.1) { registered = true })))
auth_response-contexts_example =
    auth_response-contexts in_order challenger rand 0 wrong (omega arith)

abbrev ue_ahead : NasUe
ue_ahead = record ue { state = registering; imsi = imsi; sqn_ms = 900 }

resync-next_example :
    (handle_message in_order challenger rand 0
      (failure ue_ahead cause_synch_failure (build_auts key 900 rand))).1
    ≡ (7, message auth_request (rand ++ autn (generate key 901 rand))) ∷ []
resync-next_example =
    resync-next in_order (λ e. refl) challenger rand 0 ue_ahead (7, waiting) refl refl refl
      (omega arith) (omega arith)

short_message-registers_example :
    (is_ue_registered (handle_message in_order bs rand 0 (9 ∷ [])).0 0x00010001 ≡ true)
    × ((handle_message in_order bs rand 0 (9 ∷ [])).1 ≡ accept_message 0x00010001 ∷ [])
short_message-registers_example =
    short_message-registers in_order bs rand 0 (9 ∷ []) (omega arith) refl

abbrev session : List Operation
session = attach_to imsi ∷ take_message (2 ∷ 0 ∷ 0 ∷ []) ∷ detach_now ∷ []

registered-operate_all_iff_example :
    ((operate_all ue session).state ≡ registered) ↔ Registers session
registered-operate_all_iff_example = registered-operate_all_iff ue session refl
