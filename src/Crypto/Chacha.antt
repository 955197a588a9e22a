-- ===== src/Crypto/Chacha.antt =====
-- stack/common/src/crypto.cpp, ChaCha20. The array `x` of 16 words is a list.
pub mod Inverse
use aether_stack.Base.{
  ℕ, zero, suc, ◌+◌, ◌-◌, ◌*◌, ◌/◌, ◌^◌, List, [], ◌∷◌, ◌++◌, bit_or, bit_xor, length, get_or, set,
  take, drop, u8, u32,
}

unfoldable pub rotl : ℕ → ℕ → ℕ
rotl v c = bit_or (u32 (v * 2 ^ c)) (v / 2 ^ (32 - c))

-- The words `a`, `b`, `c` and `d` that a quarter round reads and writes.
pub record Quarter : Type 0 where
  pub a : ℕ
  pub b : ℕ
  pub c : ℕ
  pub d : ℕ

-- `a += b; d ^= a; d = rotl(d, r)`
unfoldable pub mix_d : ℕ → Quarter → Quarter
mix_d r q = let a = u32 (q.a + q.b) in record q { a = a; d = rotl (bit_xor q.d a) r }

-- `c += d; b ^= c; b = rotl(b, r)`
unfoldable pub mix_b : ℕ → Quarter → Quarter
mix_b r q = let c = u32 (q.c + q.d) in record q { c = c; b = rotl (bit_xor q.b c) r }

unfoldable pub quarter_round : Quarter → Quarter
unfolding mix_d mix_b
quarter_round q = mix_b 7 (mix_d 8 (mix_b 12 (mix_d 16 q)))

-- The round on the words at four indices of `x`.
unfoldable pub quarter_at : List ℕ → ℕ → ℕ → ℕ → ℕ → List ℕ
unfolding quarter_round
quarter_at x i j k l =
    let q =
      quarter_round
        (record { a = get_or x i 0; b = get_or x j 0; c = get_or x k 0; d = get_or x l 0 }) in
    set (set (set (set x i q.a) j q.b) k q.c) l q.d

unfoldable pub double_round : List ℕ → List ℕ
unfolding quarter_at
double_round x0 =
    let x1 = quarter_at x0 0 4 8 12 in
    let x2 = quarter_at x1 1 5 9 13 in
    let x3 = quarter_at x2 2 6 10 14 in
    let x4 = quarter_at x3 3 7 11 15 in
    let x5 = quarter_at x4 0 5 10 15 in
    let x6 = quarter_at x5 1 6 11 12 in let x7 = quarter_at x6 2 7 8 13 in quarter_at x7 3 4 9 14

unfoldable pub double_rounds : ℕ → List ℕ → List ℕ
unfolding double_round
double_rounds zero x = x
double_rounds (suc n) x = double_rounds n (double_round x)

unfoldable pub load_le32 : List ℕ → ℕ → ℕ
load_le32 p i =
    bit_or
      (bit_or (bit_or (get_or p i 0) (get_or p (i + 1) 0 * 2 ^ 8)) (get_or p (i + 2) 0 * 2 ^ 16))
      (get_or p (i + 3) 0 * 2 ^ 24)

-- `for i in [i, i + n)`.
unfoldable pub load_le : ℕ → ℕ → List ℕ → List ℕ
unfolding load_le32
load_le zero i p = []
load_le (suc n) i p = load_le32 p (4 * i) ∷ load_le n (i + 1) p

-- The four words of "expand 32-byte k", the key, the counter and the nonce.
unfoldable pub start_state : List ℕ → List ℕ → ℕ → List ℕ
unfolding load_le
start_state key nonce counter =
    0x61707865
    ∷ 0x3320646e
    ∷ 0x79622d32
    ∷ 0x6b206574
    ∷ (load_le 8 0 key ++ (counter ∷ load_le 3 0 nonce))

-- The output bytes for i in [i, i + n).
unfoldable pub out_bytes : ℕ → ℕ → List ℕ → List ℕ → List ℕ
out_bytes zero i x st = []
out_bytes (suc n) i x st =
    let v = u32 (get_or x i 0 + get_or st i 0) in
    u8 v ∷ u8 (v / 2 ^ 8) ∷ u8 (v / 2 ^ 16) ∷ u8 (v / 2 ^ 24) ∷ out_bytes n (i + 1) x st

unfoldable pub chacha20_block : List ℕ → List ℕ → ℕ → List ℕ
unfolding start_state double_rounds out_bytes
chacha20_block key nonce counter =
    let st = start_state key nonce counter in out_bytes 16 0 (double_rounds 10 st) st

-- `out[off + i] = data[off + i] ^ ks[i]` for as many bytes as there are of both.
unfoldable pub xor_bytes : List ℕ → List ℕ → List ℕ
xor_bytes [] ks = []
xor_bytes (x ∷ bytes) [] = []
xor_bytes (x ∷ bytes) (k ∷ ks) = bit_xor x k ∷ xor_bytes bytes ks

-- The loop over blocks of 64 bytes, of which each round takes one or what is left.
unfoldable pub xor_loop : ℕ → List ℕ → List ℕ → ℕ → List ℕ → List ℕ
unfolding xor_bytes
xor_loop zero key nonce ctr bytes = []
xor_loop (suc fuel) key nonce ctr [] = []
xor_loop (suc fuel) key nonce ctr (x ∷ bytes) =
    xor_bytes (take 64 (x ∷ bytes)) (chacha20_block key nonce ctr)
    ++ xor_loop fuel key nonce (u32 (ctr + 1)) (drop 64 (x ∷ bytes))

unfoldable pub chacha20_xor : List ℕ → List ℕ → ℕ → List ℕ → List ℕ
chacha20_xor key nonce counter bytes = xor_loop (length bytes) key nonce counter bytes
