-- ===== src/Crypto/Sha256.antt =====
-- stack/common/src/crypto.cpp, `Sha256Ctx` and `sha256`. The pending bytes of `buf` are a list, as
-- what stands behind them is never read; the working variables of `compress` are a record.
pub mod Padding
pub mod Streaming
use aether_stack.Base.{
  ℕ, zero, suc, ◌+◌, ◌-◌, ◌*◌, ◌/◌, ◌%◌, ◌^◌, min, List, [], ◌∷◌, ◌++◌, bit_and, bit_or, bit_xor,
  ◌==◌, if◌then◌else◌, length, get_or, take, drop, u8, u32,
}

unfoldable pub rotr : ℕ → ℕ → ℕ
rotr v c = bit_or (v / 2 ^ c) (u32 (v * 2 ^ (32 - c)))

abbrev pub k_table : List ℕ
k_table =
    0x428a2f98 ∷ 0x71374491 ∷ 0xb5c0fbcf ∷ 0xe9b5dba5 ∷ 0x3956c25b ∷ 0x59f111f1 ∷ 0x923f82a4
    ∷ 0xab1c5ed5 ∷ 0xd807aa98 ∷ 0x12835b01 ∷ 0x243185be ∷ 0x550c7dc3 ∷ 0x72be5d74 ∷ 0x80deb1fe
    ∷ 0x9bdc06a7 ∷ 0xc19bf174 ∷ 0xe49b69c1 ∷ 0xefbe4786 ∷ 0x0fc19dc6 ∷ 0x240ca1cc ∷ 0x2de92c6f
    ∷ 0x4a7484aa ∷ 0x5cb0a9dc ∷ 0x76f988da ∷ 0x983e5152 ∷ 0xa831c66d ∷ 0xb00327c8 ∷ 0xbf597fc7
    ∷ 0xc6e00bf3 ∷ 0xd5a79147 ∷ 0x06ca6351 ∷ 0x14292967 ∷ 0x27b70a85 ∷ 0x2e1b2138 ∷ 0x4d2c6dfc
    ∷ 0x53380d13 ∷ 0x650a7354 ∷ 0x766a0abb ∷ 0x81c2c92e ∷ 0x92722c85 ∷ 0xa2bfe8a1 ∷ 0xa81a664b
    ∷ 0xc24b8b70 ∷ 0xc76c51a3 ∷ 0xd192e819 ∷ 0xd6990624 ∷ 0xf40e3585 ∷ 0x106aa070 ∷ 0x19a4c116
    ∷ 0x1e376c08 ∷ 0x2748774c ∷ 0x34b0bcb5 ∷ 0x391c0cb3 ∷ 0x4ed8aa4a ∷ 0x5b9cca4f ∷ 0x682e6ff3
    ∷ 0x748f82ee ∷ 0x78a5636f ∷ 0x84c87814 ∷ 0x8cc70208 ∷ 0x90befffa ∷ 0xa4506ceb ∷ 0xbef9a3f7
    ∷ 0xc67178f2 ∷ []

-- The variables `a` to `hh` of `compress`, or the state `h[0]` to `h[7]`.
pub record Words8 : Type 0 where
  pub a : ℕ
  pub b : ℕ
  pub c : ℕ
  pub d : ℕ
  pub e : ℕ
  pub f : ℕ
  pub g : ℕ
  pub hh : ℕ

pub record Sha256Ctx : Type 0 where
  pub h : Words8
  pub total_bits : ℕ
  pub buf : List ℕ

unfoldable pub init : Sha256Ctx
init = record {
  h = record {
    a = 0x6a09e667;
    b = 0xbb67ae85;
    c = 0x3c6ef372;
    d = 0xa54ff53a;
    e = 0x510e527f;
    f = 0x9b05688c;
    g = 0x1f83d9ab;
    hh = 0x5be0cd19;
  };
  total_bits = 0;
  buf = [];
}

unfoldable pub load_be : List ℕ → ℕ → ℕ
load_be p i =
    bit_or
      (bit_or (bit_or (get_or p i 0 * 2 ^ 24) (get_or p (i + 1) 0 * 2 ^ 16))
        (get_or p (i + 2) 0 * 2 ^ 8))
      (get_or p (i + 3) 0)

unfoldable pub store_be : ℕ → List ℕ
store_be v = u8 (v / 2 ^ 24) ∷ u8 (v / 2 ^ 16) ∷ u8 (v / 2 ^ 8) ∷ u8 v ∷ []

-- `for i in [i, i + n)`: w[i] from the block.
unfoldable pub load_words : ℕ → ℕ → List ℕ → List ℕ
unfolding load_be
load_words zero i block = []
load_words (suc n) i block = load_be block (4 * i) ∷ load_words n (i + 1) block

-- The next word of the schedule, at i = 16 and later.
unfoldable pub next_word : List ℕ → ℕ → ℕ
unfolding rotr
next_word w i =
    let x = get_or w (i - 15) 0 in
    let y = get_or w (i - 2) 0 in
    let s0 = bit_xor (bit_xor (rotr x 7) (rotr x 18)) (x / 2 ^ 3) in
    let s1 = bit_xor (bit_xor (rotr y 17) (rotr y 19)) (y / 2 ^ 10) in
    u32 (get_or w (i - 16) 0 + s0 + get_or w (i - 7) 0 + s1)

-- `for i in [i, i + n)`.
unfoldable pub extend_words : ℕ → ℕ → List ℕ → List ℕ
unfolding next_word
extend_words zero i w = w
extend_words (suc n) i w = extend_words n (i + 1) (w ++ (next_word w i ∷ []))

-- The body of the loop over the 64 rounds.
unfoldable pub round : Words8 → ℕ → ℕ → Words8
unfolding rotr
round v k w =
    let big_s1 = bit_xor (bit_xor (rotr v.e 6) (rotr v.e 11)) (rotr v.e 25) in
    let ch = bit_xor (bit_and v.e v.f) (bit_and (bit_xor v.e 0xffffffff) v.g) in
    let t1 = u32 (v.hh + big_s1 + ch + k + w) in
    let big_s0 = bit_xor (bit_xor (rotr v.a 2) (rotr v.a 13)) (rotr v.a 22) in
    let maj = bit_xor (bit_xor (bit_and v.a v.b) (bit_and v.a v.c)) (bit_and v.b v.c) in
    let t2 = u32 (big_s0 + maj) in
    record {
      a = u32 (t1 + t2);
      b = v.a;
      c = v.b;
      d = v.c;
      e = u32 (v.d + t1);
      f = v.e;
      g = v.f;
      hh = v.g;
    }

unfoldable pub rounds : List ℕ → List ℕ → Words8 → Words8
unfolding round
rounds [] ws v = v
rounds (k ∷ ks) [] v = v
rounds (k ∷ ks) (w ∷ ws) v = rounds ks ws (round v k w)

unfoldable pub compress : Words8 → List ℕ → Words8
unfolding load_words extend_words rounds
compress h block =
    let v = rounds k_table (extend_words 48 16 (load_words 16 0 block)) h in
    record {
      a = u32 (h.a + v.a);
      b = u32 (h.b + v.b);
      c = u32 (h.c + v.c);
      d = u32 (h.d + v.d);
      e = u32 (h.e + v.e);
      f = u32 (h.f + v.f);
      g = u32 (h.g + v.g);
      hh = u32 (h.hh + v.hh);
    }

-- `if (buf_len == 64) { compress(buf); buf_len = 0; }`
unfoldable pub flush : Sha256Ctx → Sha256Ctx
flush s = if length s.buf == 64 then record s { h = compress s.h s.buf; buf = [] } else s

-- The loop of `update`; each round takes a byte at least, so as much fuel as there are bytes is enough.
unfoldable pub update_loop : ℕ → Sha256Ctx → List ℕ → Sha256Ctx
unfolding flush
update_loop zero s bytes = s
update_loop (suc fuel) s [] = s
update_loop (suc fuel) s (x ∷ bytes) =
    let n = min (length (x ∷ bytes)) (64 - length s.buf) in
    update_loop fuel (flush (record s { buf = s.buf ++ take n (x ∷ bytes) })) (drop n (x ∷ bytes))

-- The count of bits is a word of 64 bits.
unfoldable pub update : Sha256Ctx → List ℕ → Sha256Ctx
unfolding update_loop
update s bytes =
    update_loop (length bytes)
      (record s { total_bits = (s.total_bits + length bytes * 8) % 2 ^ 64 }) bytes

-- `while ((buf_len + t) % 64 != 56) tail[t++] = 0x00`
unfoldable pub pad_zeros : ℕ → ℕ → List ℕ → List ℕ
pad_zeros zero buf_len tail = tail
pad_zeros (suc fuel) buf_len tail =
    let more = pad_zeros fuel buf_len (tail ++ (0 ∷ [])) in
    if (buf_len + length tail) % 64 == 56 then tail else more

-- `for i in [i, i + n)`: the count of bits, big endian.
unfoldable pub length_bytes : ℕ → ℕ → ℕ → List ℕ
length_bytes zero i bits = []
length_bytes (suc n) i bits = u8 (bits / 2 ^ (56 - 8 * i)) ∷ length_bytes n (i + 1) bits

unfoldable pub padding : ℕ → ℕ → List ℕ
unfolding pad_zeros length_bytes
padding buf_len bits = pad_zeros 64 buf_len (0x80 ∷ []) ++ length_bytes 8 0 bits

unfoldable pub digest : Words8 → List ℕ
unfolding store_be
digest h =
    store_be h.a
    ++ (store_be h.b
        ++ (store_be h.c
            ++ (store_be h.d
                ++ (store_be h.e ++ (store_be h.f ++ (store_be h.g ++ store_be h.hh))))))

unfoldable pub finalise : Sha256Ctx → List ℕ
finalise s = digest (update s (padding (length s.buf) s.total_bits)).h

unfoldable pub sha256 : List ℕ → List ℕ
sha256 bytes = finalise (update init bytes)
