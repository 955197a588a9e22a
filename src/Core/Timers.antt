-- ===== src/Core/Timers.antt =====
-- stack/core/src/timer_list.cpp, `TimerList`: timers on an explicit clock of 32 bits. A callback is
-- a number; what it does to the list when it is called, an argument of `tick`, is a list of commands.
pub mod Firing
use aether_stack.Base.{
  ℕ, zero, suc, ◌+◌, min, List, [], ◌∷◌, ◌++◌, Option, none, some, Bool, not, ltb, ◌==◌, ◌&&◌,
  if◌then◌else◌, u32, sub32, nonneg32,
}

abbrev pub timer_none : ℕ
timer_none = 0xffffffff

pub record Entry : Type 0 where
  pub id : ℕ
  pub deadline : ℕ
  pub interval : ℕ
  pub cb : ℕ

pub record TimerList : Type 0 where
  pub entries : List Entry
  pub next_id : ℕ
  pub last_now : ℕ

unfoldable pub schedule : TimerList → ℕ → Bool → ℕ → TimerList × ℕ
schedule s delay_ms periodic cb =
    let e : Entry = record {
      id = s.next_id;
      deadline = u32 (s.last_now + delay_ms);
      interval = if periodic then delay_ms else 0;
      cb = cb;
    } in
    (record s { entries = s.entries ++ (e ∷ []); next_id = u32 (s.next_id + 1) }, s.next_id)

-- `find_if` by the id.
unfoldable pub find_entry : List Entry → ℕ → Option Entry
find_entry [] id = none
find_entry (e ∷ es) id = let rest = find_entry es id in if e.id == id then some e else rest

-- `entries_.erase(it)` for the entry that `find_if` finds.
unfoldable pub erase : List Entry → ℕ → List Entry
erase [] id = []
erase (e ∷ es) id = let rest = erase es id in if e.id == id then es else e ∷ rest

-- `it->deadline = d` for that entry.
unfoldable pub set_deadline : List Entry → ℕ → ℕ → List Entry
set_deadline [] id d = []
set_deadline (e ∷ es) id d =
    let rest = set_deadline es id d in
    if e.id == id then record e { deadline = d } ∷ es else e ∷ rest

unfoldable pub cancel : TimerList → ℕ → TimerList
cancel s id = record s { entries = erase s.entries id }

unfoldable pub clear : TimerList → TimerList
clear s = record s { entries = [] }

-- What a callback may do to the list.
pub data Command : Type 0 where
  schedules : ℕ → Bool → ℕ → Command
  cancels : ℕ → Command
  clears : Command

unfoldable pub command : TimerList → Command → TimerList
unfolding schedule cancel clear
command s (schedules delay_ms periodic cb) = (schedule s delay_ms periodic cb).0
command s (cancels id) = cancel s id
command s clears = clear s

unfoldable pub called : TimerList → List Command → TimerList
unfolding command
called s [] = s
called s (c ∷ cs) = called (command s c) cs

-- The ids of the timers whose time has come.
unfoldable pub due_ids : List Entry → ℕ → List ℕ
due_ids [] now = []
due_ids (e ∷ es) now =
    let rest = due_ids es now in if nonneg32 (sub32 now e.deadline) then e.id ∷ rest else rest

-- The next deadline of a periodic timer: a timer that fell behind is set after `now`.
unfoldable pub resync : ℕ → Entry → ℕ
resync now e =
    let d = u32 (e.deadline + e.interval) in
    if nonneg32 (sub32 now d) then u32 (now + e.interval) else d

-- A timer that fires, before its callback runs.
unfoldable pub rearmed : TimerList → ℕ → Entry → TimerList
rearmed s now e =
    if ltb 0 e.interval
    then record s { entries = set_deadline s.entries e.id (resync now e) }
    else record s { entries = erase s.entries e.id }

-- One due id: nothing when the timer is gone, else it fires; with the ids that fired.
unfoldable pub fire : (ℕ → List Command) → ℕ → TimerList → Option Entry → TimerList × List ℕ
fire act now s none = (s, [])
fire act now s (some e) = (called (rearmed s now e) (act e.cb), e.id ∷ [])

-- The loop over the due ids.
unfoldable pub fire_all : (ℕ → List Command) → ℕ → TimerList → List ℕ → TimerList × List ℕ
unfolding fire
fire_all act now s [] = (s, [])
fire_all act now s (id ∷ ids) =
    let (t, fired) = fire act now s (find_entry s.entries id) in
    let (u, later) = fire_all act now t ids in (u, fired ++ later)

unfoldable pub next_deadline : List Entry → ℕ → ℕ
next_deadline [] now = timer_none
next_deadline (e ∷ es) now = min (next_deadline es now) (sub32 e.deadline now)

abbrev pub clocked : TimerList → ℕ → TimerList
clocked s now =
    if nonneg32 (sub32 now s.last_now) && not (sub32 now s.last_now == 0)
    then record s { last_now = now }
    else s

pub record Ticked : Type 0 where
  pub state : TimerList
  pub fired : List ℕ
  pub next : ℕ

unfoldable pub tick : (ℕ → List Command) → TimerList → ℕ → Ticked
tick act s now =
    let t = clocked s now in
    let (u, fired) = fire_all act now t (due_ids t.entries now) in
    record { state = u; fired = fired; next = next_deadline u.entries now }
