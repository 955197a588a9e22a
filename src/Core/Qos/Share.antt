-- ===== src/Core/Qos/Share.antt =====
-- The minimum share of best effort among the picks of the scheduler.
use aether_stack.Base.{
  ℕ, suc, ◌+◌, ◌*◌, ◌≤◌, ◌<◌, ◌≡◌, refl, List, [], ◌∷◌, ◌++◌, Option, some, none, Bool, true, false,
  ◌&&◌, leb, if◌then◌else◌, arith, u32, Bool-cases, inl, inr, ◌⊎◌, min, ◌∙◌,
}
use aether_stack.Core.Qos.{
  Qci, sig, voice, video, best_effort, AppPdu, BearerSet, queue_of, put_queue, is_empty,
  first_queue, pick_queue, pop_from, pop_next, pop_at,
}

-- What a node does with the set: PDUs are queued on a bearer or as control traffic, and popped.
pub data Op : Type 0 where
  queues : Qci → AppPdu → Op
  controls : AppPdu → Op
  pops : Op

abbrev pub state_of : BearerSet → Option (AppPdu × BearerSet) → BearerSet
state_of s none = s
state_of s (some (p, t)) = t

unfoldable pub step : BearerSet → Op → BearerSet
unfolding put_queue queue_of
step s (queues q p) = put_queue s q (queue_of s q ++ (p ∷ []))
step s (controls p) = record s { ctrl = s.ctrl ++ (p ∷ []) }
step s pops = state_of s (pop_next s)

abbrev pub is_be : Qci → Bool
is_be best_effort = true
is_be voice = false
is_be video = false
is_be sig = false

-- A pop that serves a bearer and no control traffic.
abbrev pub is_pick : BearerSet → Op → Bool
is_pick s pops = is_empty s.ctrl
is_pick s (queues q p) = false
is_pick s (controls p) = false

unfoldable pub picks : BearerSet → List Op → ℕ
picks s [] = 0
picks s (o ∷ os) = (if is_pick s o then 1 else 0) + picks (step s o) os

unfoldable pub be_picks : BearerSet → List Op → ℕ
be_picks s [] = 0
be_picks s (o ∷ os) =
    (if is_pick s o && is_be (pick_queue s).0 then 1 else 0) + be_picks (step s o) os

-- Best effort has a PDU waiting at each pick.
unfoldable pub Backlogged : BearerSet → List Op → Type 0
Backlogged s [] = Unit
Backlogged s (o ∷ os) =
    (is_pick s o ≡ true → is_empty s.be_queue ≡ false) × Backlogged (step s o) os

-- A pick with best effort waiting serves it, or serves another queue and counts that.
record Passed (s : BearerSet) : Type 0 where
  early : s.since_be < 3
  counted : (pick_queue s).1 ≡ suc s.since_be
  other : is_be (pick_queue s).0 ≡ false
  ready : is_empty (queue_of s (pick_queue s).0) ≡ false

pick_queue_cases :
    (s : BearerSet) → is_empty s.be_queue ≡ false → ((pick_queue s).0 ≡ best_effort) ⊎ Passed s
unfolding pick_queue first_queue queue_of
pick_queue_cases s waiting = elim (Bool-cases (leb 3 s.since_be)) [
  | inl late ↦ inl (rw (waiting, late) refl)
  | inr early ↦ elim (Bool-cases (is_empty s.sig_queue)) [
    | inr sig_ready ↦ inr (record {
      early = ground (arith, early);
      counted = rw (waiting, early, sig_ready) (u32_suc early);
      other = rw (waiting, early, sig_ready) refl;
      ready = rw (waiting, early, sig_ready) sig_ready;
    })
    | inl no_sig ↦ elim (Bool-cases (is_empty s.voice_queue)) [
      | inr voice_ready ↦ inr (record {
        early = ground (arith, early);
        counted = rw (waiting, early, no_sig, voice_ready) (u32_suc early);
        other = rw (waiting, early, no_sig, voice_ready) refl;
        ready = rw (waiting, early, no_sig, voice_ready) voice_ready;
      })
      | inl no_voice ↦ elim (Bool-cases (is_empty s.video_queue)) [
        | inr video_ready ↦ inr (record {
          early = ground (arith, early);
          counted = rw (waiting, early, no_sig, no_voice, video_ready) (u32_suc early);
          other = rw (waiting, early, no_sig, no_voice, video_ready) refl;
          ready = rw (waiting, early, no_sig, no_voice, video_ready) video_ready;
        })
        | inl no_video ↦ inl (rw (waiting, early, no_sig, no_voice, no_video) refl)
      ]
    ]
  ]
]
  where
    u32_suc : leb 3 s.since_be ≡ false → u32 (s.since_be + 1) ≡ suc s.since_be
    u32_suc e = ground (arith, e)

since_be-pop_from :
    (s t : BearerSet) (q : Qci) (l : List AppPdu)
    → is_empty l ≡ false
    → (state_of s (pop_from t q l)).since_be ≡ t.since_be
unfolding pop_from put_queue
since_be-pop_from s t q [] e = cc
since_be-pop_from s t sig (p ∷ l) e = refl
since_be-pop_from s t voice (p ∷ l) e = refl
since_be-pop_from s t video (p ∷ l) e = refl
since_be-pop_from s t best_effort (p ∷ l) e = refl

since_be-pop_at :
    (s : BearerSet) (l : List AppPdu)
    → is_empty l ≡ true
    → is_empty (queue_of s (pick_queue s).0) ≡ false
    → (state_of s (pop_at s l)).since_be ≡ (pick_queue s).1
unfolding pop_at
since_be-pop_at s [] e r =
    since_be-pop_from s (record s { since_be = (pick_queue s).1 }) (pick_queue s).0 _ r
since_be-pop_at s (p ∷ l) e r = cc

since_be-pop_ctrl :
    (s : BearerSet) (l : List AppPdu)
    → is_empty l ≡ false
    → (state_of s (pop_at s l)).since_be ≡ s.since_be
unfolding pop_at
since_be-pop_ctrl s [] e = cc
since_be-pop_ctrl s (p ∷ l) e = refl

since_be-put_queue :
    (s : BearerSet) (q : Qci) (l : List AppPdu) → (put_queue s q l).since_be ≡ s.since_be
unfolding put_queue
since_be-put_queue s sig l = refl
since_be-put_queue s voice l = refl
since_be-put_queue s video l = refl
since_be-put_queue s best_effort l = refl

-- The share with what is already owed at the start.
share_from :
    (s : BearerSet) (os : List Op)
    → Backlogged s os
    → picks s os + min s.since_be 3 ≤ 4 * be_picks s os + 3
unfolding picks be_picks Backlogged
share_from s [] b = omega arith
share_from s (queues q p ∷ os) b = omega (arith, share_from (step s (queues q p)) os b.1, queued)
  where
    queued : (step s (queues q p)).since_be ≡ s.since_be
    queued = unfold step in since_be-put_queue s q _
share_from s (controls p ∷ os) b = omega (arith, share_from (step s (controls p)) os b.1, queued)
  where
    queued : (step s (controls p)).since_be ≡ s.since_be
    queued = unfold step in refl
share_from s (pops ∷ os) b =
    let rest = share_from (step s pops) os b.1 in
    elim (Bool-cases (is_empty s.ctrl)) [
      | inr busy ↦
          let kept : (step s pops).since_be ≡ s.since_be =
            unfold step pop_next in since_be-pop_ctrl s s.ctrl busy in
          rw busy (omega (arith, rest, kept))
      | inl free ↦ elim (pick_queue_cases s (b.0 free)) [
        | inl be ↦ rw (free, be) (omega (arith, rest))
        | inr passed ↦
            let more : (step s pops).since_be ≡ suc s.since_be =
              unfold step pop_next in since_be-pop_at s s.ctrl free passed.ready ∙ passed.counted in
            rw (free, passed.other) (omega (arith, rest, more, passed.early))
      ]
    ]

-- While best effort has a PDU waiting at each pick, at least every fourth pick serves it: n picks,
-- of bearers and not of control traffic, serve it at least (n - 3) / 4 times, whatever is queued
-- between them and whatever the picks before them were.
pub be_picks-share :
    (s : BearerSet) (os : List Op) → Backlogged s os → picks s os ≤ 4 * be_picks s os + 3
be_picks-share s os b = omega (arith, share_from s os b)
