-- ===== src/App/U2u.antt =====
-- stack/app/src/u2u.cpp and stack/app/include/app/u2u.h: packets between terminals, call signalling
-- and media. A string is the list of its bytes.
pub mod Flags
pub mod Parts
pub mod RoundTrip
pub mod Signalling
use aether_stack.Base.{
  ℕ, zero, suc, ◌+◌, ◌*◌, ◌%◌, List, [], ◌∷◌, ◌++◌, Option, none, some, Bool, true, false, not,
  ◌&&◌, ◌||◌, bit_and, bit_or, length, get_or, take, drop, ltb, leb, ◌==◌, if◌then◌else◌, u8, u32,
}
use aether_stack.Base.Endian.{bytes32, word32}
use aether_stack.Core.Qos.{MediaKind, sig_media, voice_media, video_media, msg_media}

abbrev pub u2u_magic : ℕ
u2u_magic = 0xa5

abbrev pub u2u_flag_conf : ℕ
u2u_flag_conf = 0x20

abbrev pub u2u_flag_end : ℕ
u2u_flag_end = 0x40

abbrev pub u2u_flag_ack : ℕ
u2u_flag_ack = 0x80

abbrev pub u2u_max_imsi_len : ℕ
u2u_max_imsi_len = 32

unfoldable pub kind_byte : MediaKind → ℕ
kind_byte msg_media = 0
kind_byte voice_media = 1
kind_byte video_media = 2
kind_byte sig_media = 3

unfoldable pub kind_of : ℕ → MediaKind
kind_of zero = msg_media
kind_of (suc zero) = voice_media
kind_of (suc (suc zero)) = video_media
kind_of (suc (suc (suc n))) = sig_media

pub data SigMethod : Type 0 where
  invite ringing_180 ok_200 ack_call bye ok_bye busy_486 decline_603 cancel : SigMethod

unfoldable pub method_byte : SigMethod → ℕ
method_byte invite = 1
method_byte ringing_180 = 2
method_byte ok_200 = 3
method_byte ack_call = 4
method_byte bye = 5
method_byte ok_bye = 6
method_byte busy_486 = 7
method_byte decline_603 = 8
method_byte cancel = 9

-- The cast of a byte from 1 to 9.
unfoldable pub method_of : ℕ → SigMethod
method_of n =
    if n == 1
    then invite
    else if n == 2
    then ringing_180
    else if n == 3
    then ok_200
    else if n == 4
    then ack_call
    else if n == 5
    then bye
    else if n == 6
    then ok_bye
    else if n == 7
    then busy_486
    else if n == 8
    then decline_603
    else cancel

pub record SigMessage : Type 0 where
  pub method : SigMethod
  pub call_id : ℕ
  pub media : MediaKind
  pub conf_id : ℕ

pub record U2uPacket : Type 0 where
  pub kind : MediaKind
  pub ack : Bool
  pub end : Bool
  pub seq : ℕ
  pub timestamp_ms : ℕ
  pub src_imsi : List ℕ
  pub dst_imsi : List ℕ
  pub conf_id : ℕ
  pub payload : List ℕ

-- Nothing, unless there is a conference.
unfoldable pub conf_bytes : ℕ → List ℕ
conf_bytes conf_id = if conf_id == 0 then [] else bytes32 conf_id

unfoldable pub encode_sig : SigMessage → List ℕ
unfolding conf_bytes
encode_sig msg =
    method_byte msg.method ∷ (bytes32 msg.call_id ++ (kind_byte msg.media ∷ conf_bytes msg.conf_id))

-- The word in the four bytes at `off`.
unfoldable pub word_at : List ℕ → ℕ → ℕ
word_at bytes off =
    let l = drop off bytes in word32 (get_or l 0 0) (get_or l 1 0) (get_or l 2 0) (get_or l 3 0)

unfoldable pub decode_sig : List ℕ → Option SigMessage
unfolding word_at
decode_sig payload =
    let method = get_or payload 0 0 in
    let media = get_or payload 5 0 in
    if ltb (length payload) 6
    then none
    else if ltb method 1 || ltb 9 method
    then none
    else some (record {
      method = method_of method;
      call_id = word_at payload 1;
      media = if leb media 2 then kind_of media else voice_media;
      conf_id = if leb 10 (length payload) then word_at payload 6 else 0;
    })

abbrev with_flag : Bool → ℕ → ℕ → ℕ
with_flag set flag x = if set then bit_or x flag else x

-- The kind and the flags of a packet.
unfoldable pub flags_byte : MediaKind → Bool → Bool → Bool → ℕ
flags_byte kind conf end ack =
    with_flag ack u2u_flag_ack
      (with_flag end u2u_flag_end (with_flag conf u2u_flag_conf (bit_and (kind_byte kind) 0x0f)))

unfoldable pub encode_u2u : U2uPacket → List ℕ
unfolding conf_bytes flags_byte
encode_u2u p =
    u2u_magic
    ∷ flags_byte p.kind (not (p.conf_id == 0)) p.end p.ack
    ∷ (bytes32 p.seq
        ++ (bytes32 p.timestamp_ms
            ++ (u8 (length p.src_imsi)
                ∷ (p.src_imsi
                    ++ (u8 (length p.dst_imsi)
                        ∷ (p.dst_imsi ++ (conf_bytes p.conf_id ++ p.payload)))))))

-- A flag of the second byte.
unfoldable pub has_flag : List ℕ → ℕ → Bool
has_flag bytes flag = not (bit_and (get_or bytes 1 0) flag == 0)

-- The fields, once all lengths are known to fit.
unfoldable pub packet_of : List ℕ → ℕ → ℕ → U2uPacket
unfolding has_flag word_at
packet_of bytes src_len dst_len =
    let off = 12 + src_len + dst_len in
    let conf = has_flag bytes u2u_flag_conf in
    record {
      kind = kind_of (bit_and (get_or bytes 1 0) 0x0f);
      ack = has_flag bytes u2u_flag_ack;
      end = has_flag bytes u2u_flag_end;
      seq = word_at bytes 2;
      timestamp_ms = word_at bytes 6;
      src_imsi = take src_len (drop 11 bytes);
      dst_imsi = take dst_len (drop (12 + src_len) bytes);
      conf_id = if conf then word_at bytes off else 0;
      payload = drop (if conf then off + 4 else off) bytes;
    }

-- Whether the second length fits.
unfoldable pub bad_dst : List ℕ → ℕ → ℕ → Bool
unfolding has_flag
bad_dst bytes src_len dst_len =
    let conf = has_flag bytes u2u_flag_conf in
    (dst_len == 0 && not conf)
    || ltb u2u_max_imsi_len dst_len
    || ltb (length bytes) (12 + src_len + dst_len + (if conf then 4 else 0))

unfoldable pub decode_u2u : List ℕ → Option U2uPacket
unfolding packet_of bad_dst
decode_u2u bytes =
    let src_len = get_or bytes 10 0 in
    let dst_len = get_or bytes (11 + src_len) 0 in
    if ltb (length bytes) 12 || not (get_or bytes 0 0 == u2u_magic)
    then none
    else if ltb 3 (bit_and (get_or bytes 1 0) 0x0f)
    then none
    else if src_len == 0 || ltb u2u_max_imsi_len src_len || ltb (length bytes) (12 + src_len)
    then none
    else if bad_dst bytes src_len dst_len
    then none
    else some (packet_of bytes src_len dst_len)

pub record MediaProfile : Type 0 where
  pub payload_bytes : ℕ
  pub interval_ms : ℕ

unfoldable pub media_profile : MediaKind → MediaProfile
media_profile voice_media = record { payload_bytes = 160; interval_ms = 30 }
media_profile video_media = record { payload_bytes = 512; interval_ms = 50 }
media_profile msg_media = record { payload_bytes = 0; interval_ms = 0 }
media_profile sig_media = record { payload_bytes = 0; interval_ms = 0 }

-- `for i in [i, i + n)`; `size_t` has 64 bits, `seq * 7` has 32.
unfoldable pub media_bytes : ℕ → ℕ → ℕ → ℕ → List ℕ
media_bytes zero i base seq = []
media_bytes (suc n) i base seq =
    u8 (base + (i + u32 (seq * 7)) % 26) ∷ media_bytes n (i + 1) base seq

unfoldable pub make_media_payload : MediaKind → ℕ → List ℕ
unfolding media_profile media_bytes
make_media_payload kind seq =
    let base = if kind_byte kind == 2 then 0x30 else 0x60 in
    media_bytes (media_profile kind).payload_bytes 0 base seq
