-- ===== src/Core/Timers/Firing.antt =====
-- Which timers a tick fires.
use aether_stack.Base.{
  ℕ, ◌+◌, ◌%◌, ◌^◌, ◌<◌, ltb→lt, lt→ltb, Bool, ◌≡◌, ◌≢◌, refl, sym, ap, ◌∙◌, List, [], ◌∷◌, none,
  some, true, false, ◌==◌, ltb, arith, Bool-cases, Option-cases, inl, inr, subst, ==_iff, ap₂, not,
  ◌&&◌, sub32, nonneg32,
}
use aether_stack.Core.Timers.{
  Entry, TimerList, find_entry, erase, set_deadline, Command, called, due_ids, resync, rearmed,
  fire_all, clocked, tick,
}

-- One list is another with some members left out.
pub data Sublist : List ℕ → List ℕ → Type 0 where
  ends : Sublist [] []
  omits : {x : ℕ} {xs ys : List ℕ} → Sublist xs ys → Sublist xs (x ∷ ys)
  keeps : {x : ℕ} {xs ys : List ℕ} → Sublist xs ys → Sublist (x ∷ xs) (x ∷ ys)

-- An entry that is found by an id has that id.
id-find_entry : (es : List Entry) (id : ℕ) (e : Entry) → find_entry es id ≡ some e → e.id ≡ id
unfolding find_entry
id-find_entry [] id e h = cc
id-find_entry (x ∷ es) id e h = elim (Bool-cases (x.id == id)) [
  | inr other ↦ id-find_entry es id e (rw other at h)
  | inl same ↦
      let here : some x ≡ some e = rw same at h in some_id x e here ∙ (==_iff x.id id).0 same
]
  where
    some_id : (x e : Entry) → some x ≡ some e → e.id ≡ x.id
    some_id x e h = cc

fire_all-Sublist :
    (act : ℕ → List Command) (now : ℕ) (ids : List ℕ) (s : TimerList)
    → Sublist (fire_all act now s ids).1 ids
unfolding fire_all
fire_all-Sublist act now [] s = ends
fire_all-Sublist act now (id ∷ ids) s = elim (Option-cases (find_entry s.entries id)) [
  | inl gone ↦ rw gone (omits (fire_all-Sublist act now ids s))
  | inr (e, found) ↦
      let later = fire_all act now (called (rearmed s now e) (act e.cb)) ids in
      rw found (
        subst (λ k. Sublist (e.id ∷ later.1) (k ∷ ids)) (id-find_entry s.entries id e found)
          (keeps (fire_all-Sublist act now ids (called (rearmed s now e) (act e.cb)))))
]

entries-clocked : (s : TimerList) (now : ℕ) → (clocked s now).entries ≡ s.entries
entries-clocked s now =
    elim (Bool-cases (nonneg32 (sub32 now s.last_now) && not (sub32 now s.last_now == 0))) [
      | inl later ↦ rw later refl
      | inr earlier ↦ rw earlier refl
    ]

-- Whatever the callbacks do, to their own timer or to others: a tick fires only timers that were due
-- when it began, each at most once, in the order in which they were scheduled.
pub tick-Sublist :
    (act : ℕ → List Command) (s : TimerList) (now : ℕ)
    → Sublist (tick act s now).fired (due_ids s.entries now)
unfolding tick
tick-Sublist act s now =
    subst (λ es. Sublist (tick act s now).fired (due_ids es now)) (entries-clocked s now)
      (fire_all-Sublist act now (due_ids (clocked s now).entries now) (clocked s now))

-- No two timers have one id.
abbrev pub Distinct : List Entry → Type 0
Distinct [] = Unit {0}
Distinct (e ∷ es) = (find_entry es e.id ≡ none) × Distinct es

abbrev AllFound : List Entry → List ℕ → Type 0
AllFound es [] = Unit {0}
AllFound es (id ∷ ids) = ((e : Entry) × (find_entry es id ≡ some e)) × AllFound es ids

abbrev Fresh : ℕ → List ℕ → Type 0
Fresh x [] = Unit {0}
Fresh x (y ∷ ys) = (x ≢ y) × Fresh x ys

abbrev AllFresh : List ℕ → Type 0
AllFresh [] = Unit {0}
AllFresh (x ∷ xs) = Fresh x xs × AllFresh xs

find_entry-erase : (es : List Entry) (x y : ℕ) → x ≢ y → find_entry (erase es x) y ≡ find_entry es y
unfolding find_entry erase
find_entry-erase [] x y ne = refl
find_entry-erase (e ∷ es) x y ne = elim (Bool-cases (e.id == x)) [
  | inl here ↦ rw (here, other e.id ((==_iff e.id x).0 here)) refl
  | inr there ↦ elim (Bool-cases (e.id == y)) [
    | inl found ↦ rw (there, found) refl
    | inr more ↦ rw (there, more) (find_entry-erase es x y ne)
  ]
]
  where
    other : (i : ℕ) → i ≡ x → (i == y) ≡ false
    other i e = ground (arith, e, ne)

find_entry-set_deadline :
    (es : List Entry) (x y d : ℕ) → x ≢ y → find_entry (set_deadline es x d) y ≡ find_entry es y
unfolding find_entry set_deadline
find_entry-set_deadline [] x y d ne = refl
find_entry-set_deadline (e ∷ es) x y d ne = elim (Bool-cases (e.id == x)) [
  | inl here ↦ rw (here, other e.id ((==_iff e.id x).0 here)) refl
  | inr there ↦ elim (Bool-cases (e.id == y)) [
    | inl found ↦ rw (there, found) refl
    | inr more ↦ rw (there, more) (find_entry-set_deadline es x y d ne)
  ]
]
  where
    other : (i : ℕ) → i ≡ x → (i == y) ≡ false
    other i e = ground (arith, e, ne)

find_entry-rearmed :
    (s : TimerList) (now : ℕ) (e : Entry) (y : ℕ)
    → e.id ≢ y
    → find_entry (rearmed s now e).entries y ≡ find_entry s.entries y
unfolding rearmed
find_entry-rearmed s now e y ne = elim (Bool-cases (ltb 0 e.interval)) [
  | inl periodic ↦ rw periodic (find_entry-set_deadline s.entries e.id y (resync now e) ne)
  | inr once ↦ rw once (find_entry-erase s.entries e.id y ne)
]

AllFound-rearmed :
    (s : TimerList) (now : ℕ) (e : Entry) (ids : List ℕ)
    → Fresh e.id ids
    → AllFound s.entries ids
    → AllFound (rearmed s now e).entries ids
AllFound-rearmed s now e [] f h = tt
AllFound-rearmed s now e (y ∷ ids) f h =
    ((h.0.0, find_entry-rearmed s now e y f.0 ∙ h.0.1), AllFound-rearmed s now e ids f.1 h.1)

fire_all-inert :
    (act : ℕ → List Command) (now : ℕ) (ids : List ℕ) (s : TimerList)
    → ((k : ℕ) → act k ≡ [])
    → AllFresh ids
    → AllFound s.entries ids
    → (fire_all act now s ids).1 ≡ ids
unfolding fire_all called
fire_all-inert act now [] s inert fresh found = refl
fire_all-inert act now (id ∷ ids) s inert fresh found =
    let e = found.0.0 in
    let same : e.id ≡ id = id-find_entry s.entries id e found.0.1 in
    rw (found.0.1, inert e.cb)
      (ap₂ ◌∷◌ same (
        fire_all-inert act now ids (rearmed s now e) inert fresh.1
          (AllFound-rearmed s now e ids (rw same fresh.0) found.1)))

find_entry_self : (e : Entry) (es : List Entry) → find_entry (e ∷ es) e.id ≡ some e
unfolding find_entry
find_entry_self e es = rw (itself e.id) refl
  where
    itself : (n : ℕ) → (n == n) ≡ true
    itself n = ground arith

AllFound-cons :
    (e : Entry) (es : List Entry) (ids : List ℕ) → AllFound es ids → AllFound (e ∷ es) ids
AllFound-cons e es [] h = tt
AllFound-cons e es (y ∷ ids) h = (found, AllFound-cons e es ids h.1)
  where
    found : (x : Entry) × (find_entry (e ∷ es) y ≡ some x)
    found =
        unfold find_entry in
        elim (Bool-cases (e.id == y)) [
          | inl here ↦ (e, rw here refl)
          | inr there ↦ (h.0.0, rw there h.0.1)
        ]

due_ids-AllFound : (es : List Entry) (now : ℕ) → AllFound es (due_ids es now)
unfolding due_ids
due_ids-AllFound [] now = tt
due_ids-AllFound (e ∷ es) now =
    let rest = AllFound-cons e es (due_ids es now) (due_ids-AllFound es now) in
    elim (Bool-cases (nonneg32 (sub32 now e.deadline))) [
      | inl due ↦ rw due ((e, find_entry_self e es), rest)
      | inr early ↦ rw early rest
    ]

due_ids-Fresh : (es : List Entry) (now x : ℕ) → find_entry es x ≡ none → Fresh x (due_ids es now)
unfolding due_ids find_entry
due_ids-Fresh [] now x h = tt
due_ids-Fresh (e ∷ es) now x h = elim (Bool-cases (e.id == x)) [
  | inl same ↦ absurd (clash e (rw same at h))
  | inr other ↦
      let rest = due_ids-Fresh es now x (rw other at h) in
      elim (Bool-cases (nonneg32 (sub32 now e.deadline))) [
        | inl due ↦ rw due ((λ eq. differ_from eq other), rest)
        | inr early ↦ rw early rest
      ]
]
  where
    clash : (e : Entry) → some e ≡ none → ⊥
    clash e k = cc

    differ_from : x ≡ e.id → (e.id == x) ≡ false → ⊥
    differ_from eq other = ground (arith, eq, other)

due_ids-AllFresh : (es : List Entry) (now : ℕ) → Distinct es → AllFresh (due_ids es now)
unfolding due_ids
due_ids-AllFresh [] now d = tt
due_ids-AllFresh (e ∷ es) now d = elim (Bool-cases (nonneg32 (sub32 now e.deadline))) [
  | inl due ↦ rw due (due_ids-Fresh es now e.id d.0, due_ids-AllFresh es now d.1)
  | inr early ↦ rw early (due_ids-AllFresh es now d.1)
]

-- A time of 32 bits has come when at most 2^31 - 1 milliseconds have gone by since, on a clock that
-- wraps around.
abbrev pub HasCome : ℕ → ℕ → Type 0
HasCome deadline now = (gone : ℕ) × (gone < 2 ^ 31) × (now ≡ (deadline + gone) % 2 ^ 32)

abbrev pub AllWords : List Entry → Type 0
AllWords [] = Unit {0}
AllWords (e ∷ es) = (e.deadline < 2 ^ 32) × AllWords es

-- The ids of the timers whose time has come, and of no other, in the order of the list.
pub data Due (now : ℕ) : List Entry → List ℕ → Type 0 where
  none_left : Due now [] []
  has_come :
      {e : Entry} {es : List Entry} {ids : List ℕ}
      → HasCome e.deadline now
      → Due now es ids
      → Due now (e ∷ es) (e.id ∷ ids)
  to_come :
      {e : Entry} {es : List Entry} {ids : List ℕ}
      → ¬ HasCome e.deadline now
      → Due now es ids
      → Due now (e ∷ es) ids

due_ids-Due : (es : List Entry) (now : ℕ) → AllWords es → now < 2 ^ 32 → Due now es (due_ids es now)
unfolding due_ids
due_ids-Due [] now w h = none_left
due_ids-Due (e ∷ es) now w h = elim (Bool-cases (nonneg32 (sub32 now e.deadline))) [
  | inl due ↦ rw due (has_come (come e.deadline w.0 due) (due_ids-Due es now w.1 h))
  | inr early ↦ rw early (to_come (not_come e.deadline w.0 early) (due_ids-Due es now w.1 h))
]
  where
    clash : {b : Bool} → b ≡ true → b ≡ false → ⊥
    clash e f = cc

    come : (d : ℕ) → d < 2 ^ 32 → nonneg32 (sub32 now d) ≡ true → HasCome d now
    come d k due =
        let short : sub32 now d < 2 ^ 31 = ltb→lt (sub32 now d) (2 ^ 31) due in
        (sub32 now d, short, omega (arith, h))

    not_come : (d : ℕ) → d < 2 ^ 32 → nonneg32 (sub32 now d) ≡ false → ¬ HasCome d now
    not_come d k early c =
        let short : sub32 now d < 2 ^ 31 = omega (arith, c.1, c.2, k) in
        clash (lt→ltb (sub32 now d) (2 ^ 31) short) early

-- When the callbacks leave the list alone and no two timers have one id, a tick fires every timer
-- whose time has come, exactly once, in the order in which they were scheduled, and no other. (Times
-- are of 32 bits.)
pub tick_fires :
    (act : ℕ → List Command) (s : TimerList) (now : ℕ)
    → ((k : ℕ) → act k ≡ [])
    → Distinct s.entries
    → AllWords s.entries
    → now < 2 ^ 32
    → Due now s.entries (tick act s now).fired
tick_fires act s now inert distinct words h =
    subst (Due now s.entries) (sym (fired act s now inert distinct))
      (due_ids-Due s.entries now words h)
  where
    fired :
        (act : ℕ → List Command) (s : TimerList) (now : ℕ)
        → ((k : ℕ) → act k ≡ [])
        → Distinct s.entries
        → (tick act s now).fired ≡ due_ids s.entries now
    fired act s now inert distinct =
        unfold tick in
        ap (λ es. (fire_all act now (clocked s now) (due_ids es now)).1) (entries-clocked s now)
        ∙ fire_all-inert act now (due_ids s.entries now) (clocked s now) inert
            (due_ids-AllFresh s.entries now distinct)
            (subst (λ es. AllFound es (due_ids s.entries now)) (sym (entries-clocked s now))
              (due_ids-AllFound s.entries now))
