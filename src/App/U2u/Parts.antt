-- ===== src/App/U2u/Parts.antt =====
-- The parts of a packet are found by the lengths that it carries.
use aether_stack.Base.{
  ℕ, ◌+◌, ◌≡◌, refl, sym, ap, ◌∙◌, List, ◌∷◌, ◌++◌, arith, length, length-append, get_or,
  get_or-add, take, drop, drop-add, take-prefix, drop-prefix,
}

-- The parts behind a head: the source, the length of the destination, the destination, the rest.
abbrev pub whole_of : List ℕ → List ℕ → List ℕ → List ℕ → List ℕ
whole_of head src dst rest = head ++ (src ++ (length dst ∷ (dst ++ rest)))

module _ (head src dst rest : List ℕ) (h11 : length head ≡ 11) where
  abbrev whole : List ℕ
  whole = whole_of head src dst rest

  behind_head : drop 11 whole ≡ src ++ (length dst ∷ (dst ++ rest))
  behind_head = drop-prefix 11 head (src ++ (length dst ∷ (dst ++ rest))) (sym h11)

  pub src_part : take (length src) (drop 11 whole) ≡ src
  src_part =
      ap (take (length src)) behind_head
      ∙ take-prefix (length src) src (length dst ∷ (dst ++ rest)) refl

  behind_src : drop (11 + length src) whole ≡ length dst ∷ (dst ++ rest)
  behind_src =
      drop-add 11 (length src) whole
      ∙ ap (drop (length src)) behind_head
      ∙ drop-prefix (length src) src (length dst ∷ (dst ++ rest)) refl

  pub dst_length : get_or whole (11 + length src) 0 ≡ length dst
  dst_length =
      let e : 11 + length src ≡ (11 + length src) + 0 = omega arith in
      ap (λ n. get_or whole n 0) e
      ∙ get_or-add (11 + length src) 0 whole 0
      ∙ ap (λ l. get_or l 0 0) behind_src

  behind_length : drop (12 + length src) whole ≡ dst ++ rest
  behind_length =
      let e : 12 + length src ≡ (11 + length src) + 1 = omega arith in
      ap (λ n. drop n whole) e ∙ drop-add (11 + length src) 1 whole ∙ ap (drop 1) behind_src

  pub dst_part : take (length dst) (drop (12 + length src) whole) ≡ dst
  dst_part = ap (take (length dst)) behind_length ∙ take-prefix (length dst) dst rest refl

  pub behind_dst : drop (12 + length src + length dst) whole ≡ rest
  behind_dst =
      drop-add (12 + length src) (length dst) whole
      ∙ ap (drop (length dst)) behind_length
      ∙ drop-prefix (length dst) dst rest refl

  pub length-whole : length whole ≡ 12 + length src + length dst + length rest
  length-whole = omega (
    arith,
    length-append head (src ++ (length dst ∷ (dst ++ rest))),
    length-append src (length dst ∷ (dst ++ rest)),
    length-append dst rest,
    h11,
  )
