-- ===== src/App/Tests.antt =====
-- Packets at concrete inputs.
use aether_stack.Base.{◌≡◌, inl, [], ◌∷◌, some, true, false, arith}
use aether_stack.Core.Qos.{voice_media}
use aether_stack.App.U2u.{U2uPacket, encode_u2u, decode_u2u}
use aether_stack.App.U2u.RoundTrip.{decode_u2u-encode_u2u}

abbrev packet : U2uPacket
packet = record {
  kind = voice_media;
  ack = true;
  end = false;
  seq = 70000;
  timestamp_ms = 12;
  src_imsi = 0x31 ∷ 0x32 ∷ [];
  dst_imsi = 0x33 ∷ [];
  conf_id = 77;
  payload = 9 ∷ 8 ∷ 7 ∷ [];
}

decode_u2u-encode_u2u_example : decode_u2u (encode_u2u packet) ≡ some packet
decode_u2u-encode_u2u_example =
    decode_u2u-encode_u2u packet (omega arith) (omega arith) (omega arith) (omega arith)
      (omega arith) (omega arith) (inl (omega arith))
