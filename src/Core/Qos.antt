-- ===== src/Core/Qos.antt =====
-- stack/core/include/core/qos.h: the service classes, the logical channels that carry them, and
-- `BearerSet`, the strict-priority scheduler with a minimum share for best effort. A bearer's RLC
-- entities are not part of the scheduler's state.
pub mod Channels
pub mod Share
use aether_stack.Base.{
  ℕ, zero, suc, ◌+◌, List, [], ◌∷◌, ◌++◌, Option, none, some, Bool, true, false, not, ◌&&◌, leb,
  ◌==◌, if◌then◌else◌, u32,
}
use aether_stack.Mac.Lcid.{
  lcid_rlc_status, lcid_app_dtch, lcid_app_voice, lcid_app_video, lcid_app_sig, lcid_rlc_status_sig,
}

-- `app::MediaKind`.
pub data MediaKind : Type 0 where
  sig_media voice_media video_media msg_media : MediaKind

pub data Qci : Type 0 where
  voice video sig best_effort : Qci

unfoldable pub qci_of : MediaKind → Qci
qci_of sig_media = sig
qci_of voice_media = voice
qci_of video_media = video
qci_of msg_media = best_effort

unfoldable pub lcid_of : Qci → ℕ
lcid_of sig = lcid_app_sig
lcid_of voice = lcid_app_voice
lcid_of video = lcid_app_video
lcid_of best_effort = lcid_app_dtch

unfoldable pub status_lcid_of : Qci → ℕ
status_lcid_of sig = lcid_rlc_status_sig
status_lcid_of voice = lcid_rlc_status
status_lcid_of video = lcid_rlc_status
status_lcid_of best_effort = lcid_rlc_status

unfoldable pub qci_of_lcid : ℕ → Option Qci
qci_of_lcid lcid =
    if lcid == lcid_app_sig
    then some sig
    else if lcid == lcid_app_voice
    then some voice
    else if lcid == lcid_app_video
    then some video
    else if lcid == lcid_app_dtch
    then some best_effort
    else none

unfoldable pub qci_of_status_lcid : ℕ → Option Qci
qci_of_status_lcid lcid =
    if lcid == lcid_rlc_status_sig
    then some sig
    else if lcid == lcid_rlc_status
    then some best_effort
    else none

pub record AppPdu : Type 0 where
  pub lcid : ℕ
  pub cipher : Bool
  pub bytes : List ℕ

-- The queues, front first, and the picks since best effort was last served.
pub record BearerSet : Type 0 where
  pub ctrl : List AppPdu
  pub sig_queue : List AppPdu
  pub voice_queue : List AppPdu
  pub video_queue : List AppPdu
  pub be_queue : List AppPdu
  pub since_be : ℕ

unfoldable pub queue_of : BearerSet → Qci → List AppPdu
queue_of s sig = s.sig_queue
queue_of s voice = s.voice_queue
queue_of s video = s.video_queue
queue_of s best_effort = s.be_queue

unfoldable pub put_queue : BearerSet → Qci → List AppPdu → BearerSet
put_queue s sig q = record s { sig_queue = q }
put_queue s voice q = record s { voice_queue = q }
put_queue s video q = record s { video_queue = q }
put_queue s best_effort q = record s { be_queue = q }

abbrev pub is_empty : List AppPdu → Bool
is_empty [] = true
is_empty (p ∷ q) = false

unfoldable pub empty : BearerSet → Bool
empty s =
    is_empty s.ctrl
    && is_empty s.sig_queue
    && is_empty s.voice_queue
    && is_empty s.video_queue
    && is_empty s.be_queue

-- The loop of `pick_queue` over the queues in the order of their priority.
unfoldable pub first_queue : BearerSet → List Qci → Qci × ℕ
first_queue s [] = (best_effort, s.since_be)
first_queue s (best_effort ∷ qs) =
    let rest = first_queue s qs in if is_empty s.be_queue then rest else (best_effort, s.since_be)
first_queue s (q ∷ qs) =
    let rest = first_queue s qs in
    if is_empty (queue_of s q) then rest else (q, u32 (s.since_be + 1))

abbrev pub priority : List Qci
priority = sig ∷ voice ∷ video ∷ best_effort ∷ []

-- The queue served, with `since_be_` afterwards.
unfoldable pub pick_queue : BearerSet → Qci × ℕ
pick_queue s =
    if not (is_empty s.be_queue) && leb 3 s.since_be
    then (best_effort, 0)
    else first_queue s priority

-- `q.front()` and `q.pop_front()`; the source calls neither on an empty queue.
unfoldable pub pop_from : BearerSet → Qci → List AppPdu → Option (AppPdu × BearerSet)
pop_from s q [] = none
pop_from s q (p ∷ rest) = some (p, put_queue s q rest)

-- With control traffic, that goes first; `ctrl_` is the list.
unfoldable pub pop_at : BearerSet → List AppPdu → Option (AppPdu × BearerSet)
pop_at s (p ∷ rest) = some (p, record s { ctrl = rest })
pop_at s [] =
    let (q, since) = pick_queue s in pop_from (record s { since_be = since }) q (queue_of s q)

unfoldable pub pop_next : BearerSet → Option (AppPdu × BearerSet)
unfolding pop_at
pop_next s = pop_at s s.ctrl
