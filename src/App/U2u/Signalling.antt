-- ===== src/App/U2u/Signalling.antt =====
-- A signalling message is read back, but for the media kind that it cannot carry.
use aether_stack.Base.{
  ◌^◌, ◌<◌, ◌≡◌, refl, some, false, ◌||◌, ltb, leb, ◌==◌, ==_iff, Bool-cases, inl, inr,
  if◌then◌else◌,
}
use aether_stack.Base.Endian.{bytes32, word32-bytes32}
use aether_stack.Core.Qos.{MediaKind, sig_media, voice_media, video_media, msg_media}
use aether_stack.App.U2u.{
  SigMethod, invite, ringing_180, ok_200, ack_call, bye, ok_bye, busy_486, decline_603, cancel,
  method_byte, method_of, kind_byte, kind_of, SigMessage, encode_sig, word_at, decode_sig,
}

-- What the receiver takes a media kind for: signalling is no medium of a call.
abbrev pub heard : MediaKind → MediaKind
heard sig_media = voice_media
heard voice_media = voice_media
heard video_media = video_media
heard msg_media = msg_media

heard_lem :
    (k : MediaKind) → (if leb (kind_byte k) 2 then kind_of (kind_byte k) else voice_media) ≡ heard k
unfolding kind_byte kind_of
heard_lem sig_media = refl
heard_lem voice_media = refl
heard_lem video_media = refl
heard_lem msg_media = refl

method_of-method_byte :
    (m : SigMethod)
    → (method_of (method_byte m) ≡ m) × ((ltb (method_byte m) 1 || ltb 9 (method_byte m)) ≡ false)
unfolding method_of method_byte
method_of-method_byte invite = (refl, refl)
method_of-method_byte ringing_180 = (refl, refl)
method_of-method_byte ok_200 = (refl, refl)
method_of-method_byte ack_call = (refl, refl)
method_of-method_byte bye = (refl, refl)
method_of-method_byte ok_bye = (refl, refl)
method_of-method_byte busy_486 = (refl, refl)
method_of-method_byte decline_603 = (refl, refl)
method_of-method_byte cancel = (refl, refl)

-- A signalling message is decoded to itself, also with a conference, except that the media kind
-- "sig" arrives as "voice". (The identities have 32 bits.)
pub decode_sig-encode_sig :
    (msg : SigMessage)
    → msg.call_id < 2 ^ 32
    → msg.conf_id < 2 ^ 32
    → decode_sig (encode_sig msg) ≡ some (record msg { media = heard msg.media })
unfolding decode_sig encode_sig bytes32 word_at
decode_sig-encode_sig msg h k =
    let m = method_of-method_byte msg.method in
    let call = word32-bytes32 msg.call_id h in
    elim (Bool-cases (msg.conf_id == 0)) [
      | inl none_known ↦
          let zero_conf = (==_iff msg.conf_id 0).0 none_known in
          rw (none_known, m.1, m.0, call, heard_lem msg.media) (rw zero_conf refl)
      | inr known ↦
          rw (known, m.1, m.0, call, heard_lem msg.media, word32-bytes32 msg.conf_id k) refl
    ]
