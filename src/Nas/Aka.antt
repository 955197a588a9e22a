-- ===== src/Nas/Aka.antt =====
-- stack/nas/src/aka.cpp and stack/nas/include/nas/aka.h: authentication vectors, AUTN and AUTS. A
-- fixed array is a list of its length; the 64-bit shifts keep their wrap-around.
pub mod Verify
use aether_stack.Base.{
  ℕ, zero, suc, ◌+◌, ◌-◌, ◌/◌, ◌*◌, ◌^◌, ◌%◌, List, [], ◌∷◌, ◌++◌, Option, none, some, bit_and,
  bit_or, bit_xor, take, drop, same_bytes, if◌then◌else◌, u8,
}
use aether_stack.Crypto.Hmac.{hmac_sha256}
use aether_stack.Crypto.Chacha.{xor_bytes}

abbrev pub rand_len : ℕ
rand_len = 16

abbrev pub autn_len : ℕ
autn_len = 16

abbrev pub ak_len : ℕ
ak_len = 6

abbrev pub amf_len : ℕ
amf_len = 2

abbrev pub mac_len : ℕ
mac_len = 8

abbrev pub res_len : ℕ
res_len = 16

abbrev pub auts_len : ℕ
auts_len = 14

abbrev pub sqn_mask : ℕ
sqn_mask = 2 ^ 48 - 1

abbrev pub cause_mac_failure : ℕ
cause_mac_failure = 0x14

abbrev pub cause_synch_failure : ℕ
cause_synch_failure = 0x15

abbrev pub amf_bytes : List ℕ
amf_bytes = 0x80 ∷ 0x00 ∷ []

pub record Vector : Type 0 where
  pub rand : List ℕ
  pub sqn_xor_ak : List ℕ
  pub amf : List ℕ
  pub mac : List ℕ
  pub xres : List ℕ
  pub ck : List ℕ
  pub ik : List ℕ
  pub kasme : List ℕ
  pub sqn : ℕ

-- The parts behind the label, one after the other.
unfoldable pub f : List ℕ → ℕ → List (List ℕ) → List ℕ
f k label parts = hmac_sha256 k (label ∷ joined parts)
  where
    joined : List (List ℕ) → List ℕ
    joined [] = []
    joined (p ∷ ps) = p ++ joined ps

-- `n` bytes, the highest first.
unfoldable pub sqn_bytes : ℕ → ℕ → List ℕ
sqn_bytes zero sqn = []
sqn_bytes (suc n) sqn = u8 (bit_and (sqn / 2 ^ (8 * n)) 0xff) ∷ sqn_bytes n sqn

unfoldable pub f5 : List ℕ → List ℕ → List ℕ
f5 k rand = take ak_len (f k 0x05 (rand ∷ []))

unfoldable pub f1 : List ℕ → ℕ → List ℕ → List ℕ → List ℕ
f1 k sqn rand amf = take mac_len (f k 0x01 (sqn_bytes 6 sqn ∷ rand ∷ amf ∷ []))

unfoldable pub f2 : List ℕ → List ℕ → List ℕ
f2 k rand = take res_len (f k 0x02 (rand ∷ []))

unfoldable pub f3 : List ℕ → List ℕ → List ℕ
f3 k rand = f k 0x03 (rand ∷ [])

unfoldable pub f4 : List ℕ → List ℕ → List ℕ
f4 k rand = f k 0x04 (rand ∷ [])

-- Under the key CK || IK: "kasme" and the concealed sequence number.
unfoldable pub kasme : List ℕ → List ℕ → List ℕ → List ℕ
kasme ck ik sqn_xor_ak = hmac_sha256 (ck ++ ik) (0x6b ∷ 0x61 ∷ 0x73 ∷ 0x6d ∷ 0x65 ∷ sqn_xor_ak)

unfoldable pub f5s : List ℕ → List ℕ → List ℕ
f5s k rand = take ak_len (f k 0x55 (rand ∷ []))

unfoldable pub f1s : List ℕ → ℕ → List ℕ → List ℕ → List ℕ
f1s k sqn_ms rand amf = take mac_len (f k 0x51 (sqn_bytes 6 sqn_ms ∷ rand ∷ amf ∷ []))

unfoldable pub generate : List ℕ → ℕ → List ℕ → Vector
generate k sqn rand =
    let s = bit_and sqn sqn_mask in
    let x = xor_bytes (sqn_bytes 6 s) (f5 k rand) in
    let c = f3 k rand in
    let i = f4 k rand in
    record {
      rand = rand;
      sqn_xor_ak = x;
      amf = amf_bytes;
      mac = f1 k s rand amf_bytes;
      xres = f2 k rand;
      ck = c;
      ik = i;
      kasme = kasme c i x;
      sqn = s;
    }

unfoldable pub autn : Vector → List ℕ
autn v = v.sqn_xor_ak ++ (v.amf ++ v.mac)

-- `sqn = (sqn << 8) | (xs[i] ^ ak[i])` over the bytes.
unfoldable pub reveal : ℕ → List ℕ → List ℕ → ℕ
reveal sqn [] ak = sqn
reveal sqn (x ∷ xs) [] = sqn
reveal sqn (x ∷ xs) (a ∷ ak) = reveal (bit_or (sqn * 2 ^ 8 % 2 ^ 64) (u8 (bit_xor x a))) xs ak

unfoldable pub verify_autn : List ℕ → List ℕ → List ℕ → Option ℕ
verify_autn k rand token =
    let amf = take amf_len (drop ak_len token) in
    let mac = take mac_len (drop (ak_len + amf_len) token) in
    let sqn = reveal 0 (take ak_len token) (f5 k rand) in
    if same_bytes (f1 k sqn rand amf) mac then some sqn else none

unfoldable pub build_auts : List ℕ → ℕ → List ℕ → List ℕ
build_auts k sqn_ms rand =
    let s = bit_and sqn_ms sqn_mask in
    xor_bytes (sqn_bytes 6 s) (f5s k rand) ++ f1s k s rand amf_bytes

unfoldable pub verify_auts : List ℕ → List ℕ → List ℕ → Option ℕ
verify_auts k auts rand =
    let sqn_ms = reveal 0 (take ak_len auts) (f5s k rand) in
    let mac_s = take mac_len (drop ak_len auts) in
    if same_bytes (f1s k sqn_ms rand amf_bytes) mac_s then some sqn_ms else none
