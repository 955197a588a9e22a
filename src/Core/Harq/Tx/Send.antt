-- ===== src/Core/Harq/Tx/Send.antt =====
-- When a transport block is taken: the round-robin search misses no free process.
use native.Mathlib.Nat.{mod-eq_of_lt, add-mod_right, mod-lt}
use aether_stack.Base.{
  ℕ, zero, suc, ◌+◌, ◌-◌, ◌%◌, ◌^◌, ◌<◌, ◌≤◌, ◌≡◌, ◌≢◌, ◌↔◌, inl, inr, refl, sym, ◌∙◌, subst, List,
  [], ◌∷◌, Option, none, some, true, false, length, get_or, set, arith, Bool-cases, bit_xor, u8,
  IsBytes, Option-cases, dec_lt, length-set, get_or-set_self, get_or-set_ne,
}
use aether_stack.Core.Harq.Tx.{
  Proc, new_tx, HarqTx, Event, fresh_proc, proc_at, put_proc, find_free, all_busy, sent, loaded,
  started, start_at, send, in_flight,
}
use aether_stack.Core.Harq.Wire.{link_encode}
use aether_stack.Core.Harq.Link.{link_encode_returns}

pub record WellFormed (s : HarqTx) : Type 0 where
  pub some_procs : 0 < s.cfg.num_processes
  pub few_procs : s.cfg.num_processes < 256
  pub all_procs : length s.procs ≡ s.cfg.num_processes
  pub next_lt : s.next_proc < s.cfg.num_processes

abbrev nth : HarqTx → ℕ → ℕ
nth s i = u8 ((s.next_proc + i) % s.cfg.num_processes)

find_free-none :
    (n i : ℕ) (s : HarqTx)
    → find_free n i s ≡ none
    → (j : ℕ) → i ≤ j
    → j < i + n
    → (proc_at s (nth s j)).busy ≡ true
unfolding find_free
find_free-none zero i s e j le lt = absurd (omega arith)
find_free-none (suc n) i s e j le lt = elim (Bool-cases (proc_at s (nth s i)).busy) [
  | inr free ↦ cc (rw free at e)
  | inl busy ↦ elim (dec_lt i j) [
    | yes later ↦ find_free-none n (i + 1) s (rw busy at e) j (omega arith) (omega arith)
    | no here ↦ subst (λ k. (proc_at s (nth s k)).busy ≡ true) (omega arith) busy
  ]
]

find_free-some :
    (n i : ℕ) (s : HarqTx) (p : ℕ)
    → find_free n i s ≡ some p
    → ((proc_at s p).busy ≡ false) × ((j : ℕ) × (p ≡ nth s j))
unfolding find_free
find_free-some zero i s p e = cc
find_free-some (suc n) i s p e = elim (Bool-cases (proc_at s (nth s i)).busy) [
  | inr free ↦
      let here : nth s i ≡ p = some_eq (nth s i) p (rw free at e) in
      (subst (λ k. (proc_at s k).busy ≡ false) here free, (i, sym here))
  | inl busy ↦ find_free-some n (i + 1) s p (rw busy at e)
]
  where
    some_eq : (a b : ℕ) → some a ≡ some b → a ≡ b
    some_eq a b h = cc

-- Every process comes up in one turn of the search.
turn : (p n k : ℕ) → p < n → k < n → n < 256 → (j : ℕ) × (j < n) × (u8 ((k + j) % n) ≡ p)
turn p n k h l m = elim (dec_lt p k) [
  | yes before ↦ (n + p - k, omega arith, wrapped (omega arith))
  | no after ↦ (p - k, omega arith, direct (omega arith))
]
  where
    wrapped : k + (n + p - k) ≡ p + n → u8 ((k + (n + p - k)) % n) ≡ p
    wrapped e = rw (e, add-mod_right p n, mod-eq_of_lt h) (omega arith)

    direct : k + (p - k) ≡ p → u8 ((k + (p - k)) % n) ≡ p
    direct e = rw (e, mod-eq_of_lt h) (omega arith)

nth_lt : (s : HarqTx) → WellFormed s → (j : ℕ) → nth s j < s.cfg.num_processes
nth_lt s w j =
    omega (arith, mod-lt (s.next_proc + j) {m = s.cfg.num_processes} w.some_procs, w.few_procs)

refused_of :
    (s : HarqTx) (mac_pdu : List ℕ) (o : Option ℕ)
    → IsBytes mac_pdu
    → start_at s mac_pdu o ≡ all_busy
    → o ≡ none
unfolding start_at started
refused_of s mac_pdu none h e = refl
refused_of s mac_pdu (some p) h e =
    cc (rw (link_encode_returns mac_pdu p (bit_xor (proc_at s p).ndi 1) h).1 at e)

-- A block is refused exactly when every process is busy.
-- (There are 1 to 255 processes, the next one is in range, and the block is of bytes.)
pub send_refuses_iff :
    (s : HarqTx) (mac_pdu : List ℕ)
    → WellFormed s
    → IsBytes mac_pdu
    → (send s mac_pdu ≡ all_busy) ↔ ((p : ℕ) → p < s.cfg.num_processes → (proc_at s p).busy ≡ true)
send_refuses_iff s mac_pdu w h = (forward, backward)
  where
    forward :
        send s mac_pdu ≡ all_busy → (p : ℕ) → p < s.cfg.num_processes → (proc_at s p).busy ≡ true
    forward e p lt =
        let t = turn p s.cfg.num_processes s.next_proc lt w.next_lt w.few_procs in
        let none_free =
          refused_of s mac_pdu (find_free s.cfg.num_processes 0 s) h (unfold send in e) in
        subst (λ k. (proc_at s k).busy ≡ true) t.2
          (find_free-none s.cfg.num_processes 0 s none_free t.0 (omega arith) (omega (arith, t.1)))

    backward :
        ((p : ℕ) → p < s.cfg.num_processes → (proc_at s p).busy ≡ true) → send s mac_pdu ≡ all_busy
    backward all = elim (Option-cases (find_free s.cfg.num_processes 0 s)) [
      | inl e ↦ unfold send start_at in rw e refl
      | inr (p, e) ↦
          let f = find_free-some s.cfg.num_processes 0 s p e in
          cc (sym f.0 ∙ all p (rw f.1.1 (nth_lt s w f.1.0)))
    ]

in_flight-set :
    (prs : List Proc) (p : ℕ) (pr : Proc)
    → p < length prs
    → (get_or prs p fresh_proc).busy ≡ false
    → pr.busy ≡ true
    → in_flight (set prs p pr) ≡ in_flight prs + 1
unfolding in_flight
in_flight-set [] p pr h e k = absurd (omega arith)
in_flight-set (x ∷ prs) zero pr h e k = ground (arith, e, k)
in_flight-set (x ∷ prs) (suc p) pr h e k = omega (arith, in_flight-set prs p pr (omega arith) e k)

-- An accepted block takes a process that was free: its new-data indicator flips, its count starts
-- over, its deadline lies one timeout ahead, and it holds the block and the frame that goes out. No
-- other process changes, and the search goes on behind it next time.
pub record Accepted (s : HarqTx) (mac_pdu : List ℕ) (e : Event) (t : HarqTx) : Type 0 where
  pub is_new : e.kind ≡ new_tx
  pub was_free : (proc_at s e.proc).busy ≡ false
  pub in_range : e.proc < s.cfg.num_processes
  pub flipped : e.ndi ≡ bit_xor (proc_at s e.proc).ndi 1
  pub encoded : link_encode mac_pdu e.proc e.ndi ≡ some e.coded
  pub stored : proc_at t e.proc ≡ record {
    busy = true;
    ndi = bit_xor (proc_at s e.proc).ndi 1;
    retx_count = 0;
    deadline = (s.last_now + s.cfg.ack_timeout_ms) % 2 ^ 32;
    coded = e.coded;
    crc_block = mac_pdu;
  }
  pub others : (q : ℕ) → q ≢ e.proc → proc_at t q ≡ proc_at s q
  pub as_many : length t.procs ≡ length s.procs
  pub behind_it : t.next_proc ≡ (e.proc + 1) % s.cfg.num_processes
  pub same_cfg : t.cfg ≡ s.cfg
  pub same_clock : t.last_now ≡ s.last_now
  pub one_more : in_flight t.procs ≡ in_flight s.procs + 1

abbrev accepted_event : HarqTx → ℕ → List ℕ → Event
accepted_event s p coded = record {
  kind = new_tx;
  proc = p;
  ndi = bit_xor (proc_at s p).ndi 1;
  coded = coded;
}

abbrev accepted_state : HarqTx → List ℕ → ℕ → List ℕ → HarqTx
accepted_state s mac_pdu p coded = record (put_proc s p (loaded s p mac_pdu coded)) {
  next_proc = u8 ((p + 1) % s.cfg.num_processes);
}

loaded-Accepted :
    (s : HarqTx) (mac_pdu : List ℕ) (p : ℕ) (coded : List ℕ)
    → WellFormed s
    → (proc_at s p).busy ≡ false
    → p < s.cfg.num_processes
    → link_encode mac_pdu p (bit_xor (proc_at s p).ndi 1) ≡ some coded
    → Accepted s mac_pdu (accepted_event s p coded) (accepted_state s mac_pdu p coded)
loaded-Accepted s mac_pdu p coded w free lt enc = record {
  is_new = refl;
  was_free = free;
  in_range = lt;
  flipped = refl;
  encoded = enc;
  stored =
      get_or-set_self s.procs p (loaded s p mac_pdu coded) fresh_proc
        (omega (arith, w.all_procs, lt));
  others =
      λ q ne. get_or-set_ne s.procs p q (loaded s p mac_pdu coded) fresh_proc (λ e. ne (sym e));
  as_many = length-set s.procs p (loaded s p mac_pdu coded);
  behind_it = omega (arith, mod-lt (p + 1) {m = s.cfg.num_processes} w.some_procs, w.few_procs);
  same_cfg = refl;
  same_clock = refl;
  one_more = in_flight-set s.procs p (loaded s p mac_pdu coded) (rw w.all_procs lt) free refl;
}

abbrev Takes : HarqTx → List ℕ → Type 0
Takes s mac_pdu =
    (e : Event) × ((t : HarqTx) × (send s mac_pdu ≡ sent e t) × Accepted s mac_pdu e t)

Takes-at :
    (s : HarqTx) (mac_pdu : List ℕ) (p : ℕ)
    → WellFormed s
    → IsBytes mac_pdu
    → find_free s.cfg.num_processes 0 s ≡ some p
    → Takes s mac_pdu
Takes-at s mac_pdu p w h found =
    let free = find_free-some s.cfg.num_processes 0 s p found in
    let enc = link_encode_returns mac_pdu p (bit_xor (proc_at s p).ndi 1) h in
    (
      event enc.0,
      (
        after enc.0,
        sends_it enc.0 enc.1,
        loaded-Accepted s mac_pdu p enc.0 w free.0 (rw free.1.1 (nth_lt s w free.1.0)) enc.1,
      ),
    )
  where
    event : List ℕ → Event
    event coded = accepted_event s p coded

    after : List ℕ → HarqTx
    after coded = accepted_state s mac_pdu p coded

    sends_it :
        (coded : List ℕ)
        → link_encode mac_pdu p (bit_xor (proc_at s p).ndi 1) ≡ some coded
        → send s mac_pdu ≡ sent (event coded) (after coded)
    sends_it coded enc = unfold send start_at started in rw (found, enc) refl

-- With a free process, a block is accepted: the process it takes was free and lies in range, and the
-- event holds the block's frame. That process is written: its new-data indicator flips, its count is
-- 0, its deadline is the clock and the timeout in 32 bits, and it holds the block and the frame. No
-- other process changes, one more is busy, and the next search begins behind this process.
-- (There are 1 to 255 processes, the next one is in range, and the block is of bytes.)
pub send_accepts :
    (s : HarqTx) (mac_pdu : List ℕ) (free : ℕ)
    → WellFormed s
    → IsBytes mac_pdu
    → free < s.cfg.num_processes
    → (proc_at s free).busy ≡ false
    → (e : Event) × ((t : HarqTx) × (send s mac_pdu ≡ sent e t) × Accepted s mac_pdu e t)
send_accepts s mac_pdu free w h lt idle = elim (Option-cases (find_free s.cfg.num_processes 0 s)) [
  | inl none_free ↦
      let t = turn free s.cfg.num_processes s.next_proc lt w.next_lt w.few_procs in
      let busy =
        find_free-none s.cfg.num_processes 0 s none_free t.0 (omega arith) (omega (arith, t.1)) in
      let busy_free : (proc_at s free).busy ≡ true =
        subst (λ k. (proc_at s k).busy ≡ true) t.2 busy in
      absurd (clash idle busy_free)
  | inr (p, found) ↦ Takes-at s mac_pdu p w h found
]
  where
    clash : (proc_at s free).busy ≡ false → (proc_at s free).busy ≡ true → ⊥
    clash e f = cc
