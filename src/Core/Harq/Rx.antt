-- ===== src/Core/Harq/Rx.antt =====
-- stack/core/src/harq.cpp, `HarqRx`: one soft buffer for each process, merged into a retransmission
-- before it is decoded.
pub mod Soft
pub mod History
pub mod Delivery
pub mod Crash
use aether_stack.Base.{
  ℕ, zero, suc, ◌+◌, ◌-◌, ◌*◌, min, List, [], ◌∷◌, ◌++◌, Option, none, some, Bool, true, false, not,
  ◌&&◌, ◌||◌, length, get_or, set, take, drop, replicate, ltb, leb, ◌==◌, if◌then◌else◌,
}
use aether_stack.Phy.Fec.BitOrder.{bytes_to_bits}
use aether_stack.Core.Harq.Wire.{
  Header, header_size, unpack, valid_coded_bits, Verdict, verdict, escaped, link_decode_bits,
}

pub record SoftBuf : Type 0 where
  pub ndi : ℕ
  pub bits : List ℕ

abbrev pub empty_slot : SoftBuf
empty_slot = record { ndi = 1; bits = [] }

pub record HarqRx : Type 0 where
  pub soft : List SoftBuf

pub record Result : Type 0 where
  pub delivered : Bool
  pub need_feedback : Bool
  pub ack : Bool
  pub proc : ℕ
  pub mac_pdu : List ℕ

abbrev pub no_result : Result
no_result = record { delivered = false; need_feedback = false; ack = false; proc = 0; mac_pdu = [] }

-- `crashed`: an exception leaves `receive`.
pub data Reception : Type 0 where
  received : Result → HarqRx → Reception
  crashed : Reception

unfoldable pub reset : HarqRx → HarqRx
reset s = record { soft = replicate 8 empty_slot }

abbrev pub slot : HarqRx → ℕ → SoftBuf
slot s proc = get_or s.soft proc empty_slot

abbrev pub is_empty : List ℕ → Bool
is_empty [] = true
is_empty (b ∷ bs) = false

-- The condition under which stored bits are merged.
pub combines : HarqRx → Header → List ℕ → Bool
combines s h rx_bits =
    (h.ndi == 0)
    && (ltb h.proc (length s.soft)
        && (not (is_empty (slot s h.proc).bits) && (length (slot s h.proc).bits == length rx_bits)))

-- `rx_bits[i] = (rx_bits[i] + slot[i] >= 2) ? 1 : 0` for the first `n` bits.
pub combine : ℕ → List ℕ → List ℕ → List ℕ
combine zero rx kept = rx
combine (suc n) [] kept = []
combine (suc n) (x ∷ rx) [] = x ∷ rx
combine (suc n) (x ∷ rx) (y ∷ kept) = (if leb 2 (x + y) then 1 else 0) ∷ combine n rx kept

pub merged : HarqRx → Header → List ℕ → List ℕ
unfolding combine combines
merged s h rx_bits =
    if combines s h rx_bits
    then combine (min (valid_coded_bits h) (length rx_bits)) rx_bits (slot s h.proc).bits
    else rx_bits

-- `if (h.ndi || delivered) slot->bits.clear()`
cleared : List SoftBuf → ℕ → List SoftBuf
cleared soft proc = set soft proc (record (get_or soft proc empty_slot) { bits = [] })

-- `soft_.resize(proc + 1)` where it is shorter.
grown : List SoftBuf → ℕ → List SoftBuf
grown soft proc =
    if leb (length soft) proc then soft ++ replicate (proc + 1 - length soft) empty_slot else soft

-- The soft-memory lifecycle after a decoding attempt.
pub remember : HarqRx → Header → Bool → List ℕ → HarqRx
unfolding cleared grown
remember s h delivered bits =
    let kept = if not (h.ndi == 0) || delivered then cleared s.soft h.proc else s.soft in
    record {
      soft =
          if delivered
          then kept
          else set (grown kept h.proc) h.proc (record { ndi = h.ndi; bits = bits });
    }

pub after_decode : HarqRx → Header → List ℕ → Verdict → Reception
unfolding remember
after_decode s h bits (verdict delivered mac_pdu) =
    received
      (record {
        delivered = delivered;
        need_feedback = true;
        ack = delivered;
        proc = h.proc;
        mac_pdu = mac_pdu;
      })
      (remember s h delivered bits)
after_decode s h bits escaped = crashed

pub receive_block : HarqRx → Header → List ℕ → Reception
unfolding merged
receive_block s h rx_bits =
    let trimmed = take (min (length rx_bits) (valid_coded_bits h)) (merged s h rx_bits) in
    after_decode s h trimmed (link_decode_bits trimmed h.info_len [])

receive_header : HarqRx → List ℕ → Option Header → Reception
unfolding receive_block after_decode
receive_header s payload none = received no_result s
receive_header s payload (some h) =
    if ltb (length payload) (header_size + h.len)
    then received no_result s
    else receive_block s h (bytes_to_bits (take h.len (drop header_size payload)))

unfoldable pub receive : HarqRx → List ℕ → Reception
unfolding receive_header
receive s payload = receive_header s payload (unpack payload)
