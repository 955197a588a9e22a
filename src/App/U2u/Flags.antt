-- ===== src/App/U2u/Flags.antt =====
-- The kind and the flags of the second byte are read back.
use aether_stack.Base.{◌≡◌, refl, Bool, true, false, not, bit_and, ltb, ◌==◌}
use aether_stack.Core.Qos.{MediaKind, sig_media, voice_media, video_media, msg_media}
use aether_stack.App.U2u.{kind_byte, kind_of, flags_byte}

-- What is read from the second byte.
abbrev pub Reads : MediaKind → Bool → Bool → Bool → Type 0
Reads k c e a =
    (kind_of (bit_and (flags_byte k c e a) 0x0f) ≡ k)
    × (ltb 3 (bit_and (flags_byte k c e a) 0x0f) ≡ false)
    × (not (bit_and (flags_byte k c e a) 0x20 == 0) ≡ c)
    × (not (bit_and (flags_byte k c e a) 0x40 == 0) ≡ e)
    × (not (bit_and (flags_byte k c e a) 0x80 == 0) ≡ a)

for_kinds {ℓ} :
    (P : MediaKind → Type ℓ)
    → P msg_media
    → P voice_media
    → P video_media
    → P sig_media
    → (k : MediaKind) → P k
for_kinds P m v d s msg_media = m
for_kinds P m v d s voice_media = v
for_kinds P m v d s video_media = d
for_kinds P m v d s sig_media = s

pub flags_byte-Reads : (k : MediaKind) (c e a : Bool) → Reads k c e a
unfolding flags_byte kind_byte kind_of
flags_byte-Reads k true true true =
    for_kinds (λ x. Reads x true true true) (refl, refl, refl, refl, refl)
      (refl, refl, refl, refl, refl) (refl, refl, refl, refl, refl) (refl, refl, refl, refl, refl) k
flags_byte-Reads k true true false =
    for_kinds (λ x. Reads x true true false) (refl, refl, refl, refl, refl)
      (refl, refl, refl, refl, refl) (refl, refl, refl, refl, refl) (refl, refl, refl, refl, refl) k
flags_byte-Reads k true false true =
    for_kinds (λ x. Reads x true false true) (refl, refl, refl, refl, refl)
      (refl, refl, refl, refl, refl) (refl, refl, refl, refl, refl) (refl, refl, refl, refl, refl) k
flags_byte-Reads k true false false =
    for_kinds (λ x. Reads x true false false) (refl, refl, refl, refl, refl)
      (refl, refl, refl, refl, refl) (refl, refl, refl, refl, refl) (refl, refl, refl, refl, refl) k
flags_byte-Reads k false true true =
    for_kinds (λ x. Reads x false true true) (refl, refl, refl, refl, refl)
      (refl, refl, refl, refl, refl) (refl, refl, refl, refl, refl) (refl, refl, refl, refl, refl) k
flags_byte-Reads k false true false =
    for_kinds (λ x. Reads x false true false) (refl, refl, refl, refl, refl)
      (refl, refl, refl, refl, refl) (refl, refl, refl, refl, refl) (refl, refl, refl, refl, refl) k
flags_byte-Reads k false false true =
    for_kinds (λ x. Reads x false false true) (refl, refl, refl, refl, refl)
      (refl, refl, refl, refl, refl) (refl, refl, refl, refl, refl) (refl, refl, refl, refl, refl) k
flags_byte-Reads k false false false =
    for_kinds (λ x. Reads x false false false) (refl, refl, refl, refl, refl)
      (refl, refl, refl, refl, refl) (refl, refl, refl, refl, refl) (refl, refl, refl, refl, refl) k
