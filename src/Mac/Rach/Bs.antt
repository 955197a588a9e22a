-- ===== src/Mac/Rach/Bs.antt =====
-- stack/mac/src/rach_bs.cpp, `RachBs`: random access at a base station. The map of contexts by
-- RA-RNTI is an association list, whose order nothing observes.
pub mod Grants
use aether_stack.Base.{
  ℕ, suc, ◌+◌, ◌/◌, ◌^◌, List, [], ◌∷◌, ◌++◌, Option, none, some, Bool, true, false, not, ltb, ◌==◌,
  if◌then◌else◌, length, drop, bit_and, u8, u16,
}
use aether_stack.Mac.Rach.{
  cell_for_preamble, ra_rnti_for_preamble, msg2_rar, msg4_contention_resolve, msg_byte, Output,
  sends, hands_ccch, le16,
}

pub record UeContext : Type 0 where
  pub ra_rnti : ℕ
  pub c_rnti : ℕ
  pub preamble : ℕ
  pub rach_complete : Bool

pub record RachBs : Type 0 where
  pub ue_contexts : List UeContext
  pub cell_id : ℕ
  pub next_crnti : ℕ

unfoldable pub set_cell_id : RachBs → ℕ → RachBs
set_cell_id s cell_id = record s { cell_id = cell_id }

unfoldable pub set_crnti_base : RachBs → ℕ → RachBs
set_crnti_base s base = record s { next_crnti = base }

unfoldable pub find_context : List UeContext → ℕ → Option UeContext
find_context [] r = none
find_context (c ∷ cs) r = let rest = find_context cs r in if c.ra_rnti == r then some c else rest

-- `ue_contexts_[ctx.ra_rnti] = ctx`
unfoldable pub put_context : List UeContext → UeContext → List UeContext
put_context [] ctx = ctx ∷ []
put_context (c ∷ cs) ctx =
    let rest = put_context cs ctx in if c.ra_rnti == ctx.ra_rnti then ctx ∷ cs else c ∷ rest

unfoldable pub on_prach_received : RachBs → ℕ → RachBs × List Output
on_prach_received s preamble_idx =
    let ra_rnti = ra_rnti_for_preamble preamble_idx in
    if not (cell_for_preamble preamble_idx == s.cell_id) then (s, []) else (
      record s {
        ue_contexts = put_context s.ue_contexts (record {
          ra_rnti = ra_rnti;
          c_rnti = 0;
          preamble = preamble_idx;
          rach_complete = false;
        });
      },
      sends msg2_rar (msg_byte msg2_rar ∷ (le16 ra_rnti ++ (12 ∷ 5 ∷ []))) ∷ [],
    )

abbrev pub ccch_output : ℕ → List ℕ → List Output
ccch_output crnti msg3_data =
    if ltb 3 (length msg3_data) then hands_ccch crnti (drop 3 msg3_data) ∷ [] else []

unfoldable pub on_msg3_received : RachBs → ℕ → List ℕ → RachBs × List Output
unfolding find_context
on_msg3_received s ra_rnti msg3_data = known (find_context s.ue_contexts ra_rnti)
  where
    known : Option UeContext → RachBs × List Output
    known none = (s, [])
    known (some ctx) =
        let crnti = s.next_crnti in
        (
          record s {
            ue_contexts =
                put_context s.ue_contexts (record ctx { c_rnti = crnti; rach_complete = true });
            next_crnti = u16 (crnti + 1);
          },
          sends msg4_contention_resolve
                (msg_byte msg4_contention_resolve ∷ (le16 crnti ++ le16 ra_rnti))
              ∷ ccch_output crnti msg3_data,
        )

unfoldable pub find_ue : RachBs → ℕ → Option UeContext
find_ue s ra_rnti = find_context s.ue_contexts ra_rnti

unfoldable pub is_rach_complete : RachBs → ℕ → Bool
is_rach_complete s ra_rnti = complete (find_context s.ue_contexts ra_rnti)
  where
    complete : Option UeContext → Bool
    complete none = false
    complete (some ctx) = ctx.rach_complete

-- What a base station hears.
pub data Heard : Type 0 where
  prach : ℕ → Heard
  msg3 : ℕ → List ℕ → Heard

unfoldable pub step : RachBs → Heard → RachBs × List Output
unfolding on_prach_received on_msg3_received
step s (prach p) = on_prach_received s p
step s (msg3 ra_rnti msg3_data) = on_msg3_received s ra_rnti msg3_data

unfoldable pub run : RachBs → List Heard → RachBs × List Output
unfolding step
run s [] = (s, [])
run s (h ∷ hs) = let (t, os) = step s h in let (u, ps) = run t hs in (u, os ++ ps)
