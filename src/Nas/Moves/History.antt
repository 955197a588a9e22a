-- ===== src/Nas/Moves/History.antt =====
-- stack/nas/src/nas_ue.cpp: which histories leave a UE registered.
use aether_stack.Base.{
  ℕ, ◌≡◌, ◌↔◌, refl, sym, ap, ◌∙◌, ◌⊎◌, inl, inr, List, [], ◌∷◌, ◌++◌, Bool, true, false, ◌||◌,
  ==_iff, Bool-cases,
}
use aether_stack.Nas.Messages.{attach_accept, decode}
use aether_stack.Nas.Ue.{UeState, deregistered, registering, registered, NasUe}
use aether_stack.Nas.Moves.{
  Operation, attach_to, detach_now, force, take_message, accepts, rejects, ends, attaches, next,
  run, operate_all, operate_all-run,
}

-- Neither the UE nor the layers around it give the attach up, and the network does not reject it.
unfoldable pub Quiet : List Operation → Type 0
Quiet [] = Unit {0}
Quiet (o ∷ os) = (ends o ≡ false) × (rejects o ≡ false) × Quiet os

-- Neither the UE nor the layers around it end the registration.
unfoldable pub Kept : List Operation → Type 0
Kept [] = Unit {0}
Kept (o ∷ os) = (ends o ≡ false) × Kept os

-- An accept that comes before the attach is given up, and what follows keeps the registration.
abbrev Accepted : List Operation → Type 0
Accepted os =
    (mid : List Operation) × ((pdu : List ℕ) × ((post : List Operation) × (os
          ≡ mid ++ (take_message pdu ∷ post))
        × ((decode pdu).msg_type ≡ attach_accept)
        × Quiet mid
        × Kept post))

-- The history has an attach, behind it an accept, nothing between them that gives the attach up, and
-- nothing afterwards that ends the registration.
pub record Registers (os : List Operation) : Type 0 where
  pub before : List Operation
  pub imsi : List ℕ
  pub between : List Operation
  pub accept : List ℕ
  pub after : List Operation
  pub parts : os ≡ before ++ (attach_to imsi ∷ (between ++ (take_message accept ∷ after)))
  pub accepted : (decode accept).msg_type ≡ attach_accept
  pub quiet : Quiet between
  pub kept : Kept after

behind : (o : Operation) (os : List Operation) → Registers os → Registers (o ∷ os)
behind o os r = record {
  before = o ∷ r.before;
  imsi = r.imsi;
  between = r.between;
  accept = r.accept;
  after = r.after;
  parts = ap (◌∷◌ o) r.parts;
  accepted = r.accepted;
  quiet = r.quiet;
  kept = r.kept;
}

attached : (imsi : List ℕ) (os : List Operation) → Accepted os → Registers (attach_to imsi ∷ os)
attached imsi os a = record {
  before = [];
  imsi = imsi;
  between = a.0;
  accept = a.1.0;
  after = a.1.1.0;
  parts = ap (◌∷◌ (attach_to imsi)) a.1.1.1;
  accepted = a.1.1.2;
  quiet = a.1.1.3;
  kept = a.1.1.4;
}

later :
    (o : Operation) (os : List Operation)
    → Accepted os ⊎ Registers os
    → ends o ≡ false
    → rejects o ≡ false
    → Accepted (o ∷ os) ⊎ Registers (o ∷ os)
later o os (inr r) e f = inr (behind o os r)
later o os (inl a) e f = inl (
  o ∷ a.0,
  (a.1.0, (a.1.1.0, ap (◌∷◌ o) a.1.1.1, a.1.1.2, unfold Quiet in (e, f, a.1.1.3), a.1.1.4)),
)

-- What a history that ends registered is, from each of the three states.
abbrev FromAll : List Operation → Type 0
FromAll os =
    (run deregistered os ≡ registered → Registers os)
    × (run registering os ≡ registered → Accepted os ⊎ Registers os)
    × (run registered os ≡ registered → Kept os ⊎ Registers os)

or_false : (a b : Bool) → (a || b) ≡ false → (a ≡ false) × (b ≡ false)
or_false true b h = absurd (clash h)
  where
    clash : true ≡ false → ⊥
    clash c = cc
or_false false b h = (refl, h)

module _ (os : List Operation) (all : FromAll os) where
  out_of : (o : Operation) → run (next deregistered o) os ≡ registered → Registers (o ∷ os)
  unfolding next attaches
  out_of (attach_to imsi) h = by_accept (all.1 h)
    where
      by_accept : Accepted os ⊎ Registers os → Registers (attach_to imsi ∷ os)
      by_accept (inl a) = attached imsi os a
      by_accept (inr r) = behind (attach_to imsi) os r
  out_of detach_now h = behind detach_now os (all.0 h)
  out_of force h = behind force os (all.0 h)
  out_of (take_message pdu) h = behind (take_message pdu) os (all.0 h)

  taken : (o : Operation) → accepts o ≡ true → Kept os → Accepted (o ∷ os)
  unfolding accepts
  taken (attach_to imsi) e k = absurd (clash e)
    where
      clash : false ≡ true → ⊥
      clash c = cc
  taken detach_now e k = absurd (clash e)
    where
      clash : false ≡ true → ⊥
      clash c = cc
  taken force e k = absurd (clash e)
    where
      clash : false ≡ true → ⊥
      clash c = cc
  taken (take_message pdu) e k = (
    [],
    (pdu, (os, refl, (==_iff (decode pdu).msg_type attach_accept).0 e, unfold Quiet in tt, k)),
  )

  while_registering :
      (o : Operation)
      → run (next registering o) os ≡ registered
      → Accepted (o ∷ os) ⊎ Registers (o ∷ os)
  while_registering o h = elim (Bool-cases (accepts o)) [
    | inl a ↦ by_kept a (all.2 (unfold next in rw a at h))
    | inr a ↦ elim (Bool-cases (rejects o || ends o)) [
      | inl e ↦ inr (behind o os (all.0 (unfold next in rw (a, e) at h)))
      | inr e ↦
          let both = or_false (rejects o) (ends o) e in
          later o os (all.1 (unfold next in rw (a, e) at h)) both.1 both.0
    ]
  ]
    where
      by_kept : accepts o ≡ true → Kept os ⊎ Registers os → Accepted (o ∷ os) ⊎ Registers (o ∷ os)
      by_kept a (inl k) = inl (taken o a k)
      by_kept a (inr r) = inr (behind o os r)

  while_registered :
      (o : Operation) → run (next registered o) os ≡ registered → Kept (o ∷ os) ⊎ Registers (o ∷ os)
  while_registered o h = elim (Bool-cases (ends o)) [
    | inl e ↦ inr (behind o os (all.0 (unfold next in rw e at h)))
    | inr e ↦ by_kept e (all.2 (unfold next in rw e at h))
  ]
    where
      by_kept : ends o ≡ false → Kept os ⊎ Registers os → Kept (o ∷ os) ⊎ Registers (o ∷ os)
      by_kept e (inl k) = inl (unfold Kept in (e, k))
      by_kept e (inr r) = inr (behind o os r)

from_all : (os : List Operation) → FromAll os
unfolding run
from_all [] = (λ h. absurd (never h), λ h. absurd (not_yet h), λ h. inl (unfold Kept in tt))
  where
    never : deregistered ≡ registered → ⊥
    never c = cc

    not_yet : registering ≡ registered → ⊥
    not_yet c = cc
from_all (o ∷ os) =
    let all = from_all os in
    (out_of os all o, while_registering os all o, while_registered os all o)

-- The way back.
run-append : (s : UeState) (xs ys : List Operation) → run s (xs ++ ys) ≡ run (run s xs) ys
unfolding run
run-append s [] ys = refl
run-append s (x ∷ xs) ys = run-append (next s x) xs ys

abbrev Active : UeState → Type 0
Active s = (s ≡ registering) ⊎ (s ≡ registered)

attach-Active : (s : UeState) (imsi : List ℕ) → Active (next s (attach_to imsi))
unfolding next attaches accepts rejects ends
attach-Active deregistered imsi = inl refl
attach-Active registering imsi = inl refl
attach-Active registered imsi = inr refl

next-Active :
    (s : UeState) (o : Operation)
    → ends o ≡ false
    → rejects o ≡ false
    → Active s
    → Active (next s o)
unfolding next
next-Active s o e f (inr r) = rw (r, e) (inr refl)
next-Active s o e f (inl r) = elim (Bool-cases (accepts o)) [
  | inl a ↦ rw (r, a) (inr refl)
  | inr a ↦ rw (r, a, f, e) (inl refl)
]

run-Active : (s : UeState) (os : List Operation) → Quiet os → Active s → Active (run s os)
unfolding run Quiet
run-Active s [] q a = a
run-Active s (o ∷ os) q a = run-Active (next s o) os q.2 (next-Active s o q.0 q.1 a)

accept-registered :
    (s : UeState) (pdu : List ℕ)
    → (decode pdu).msg_type ≡ attach_accept
    → Active s
    → next s (take_message pdu) ≡ registered
unfolding next accepts ends
accept-registered s pdu h (inl r) = rw (r, h) refl
accept-registered s pdu h (inr r) = rw r refl

run-Kept : (os : List Operation) → Kept os → run registered os ≡ registered
unfolding run Kept next
run-Kept [] k = refl
run-Kept (o ∷ os) k = rw k.0 (run-Kept os k.1)

run-Registers : (s : UeState) (os : List Operation) → Registers os → run s os ≡ registered
run-Registers s os r =
    let begun = next (run s r.before) (attach_to r.imsi) in
    let waiting = run begun r.between in
    let active = run-Active begun r.between r.quiet (attach-Active (run s r.before) r.imsi) in
    ap (run s) r.parts
    ∙ run-append s r.before (attach_to r.imsi ∷ (r.between ++ (take_message r.accept ∷ r.after)))
    ∙ unfold run in
      (run-append begun r.between (take_message r.accept ∷ r.after)
        ∙ unfold run in
          (ap (λ x. run x r.after) (accept-registered waiting r.accept r.accepted active)
            ∙ run-Kept r.after r.kept))

-- A UE that is not registered at first is registered at the end of a history of calls and messages
-- exactly when the history has an attach, behind it an accept of the network, no reject, detach or
-- forced end between the two, and no detach or forced end after them.
pub registered-operate_all_iff :
    (u : NasUe) (os : List Operation)
    → u.state ≡ deregistered
    → ((operate_all u os).state ≡ registered) ↔ Registers os
registered-operate_all_iff u os e = (
  λ h. (from_all os).0 (sym (ap (λ s. run s os) e) ∙ sym (operate_all-run u os) ∙ h),
  λ r. operate_all-run u os ∙ run-Registers u.state os r,
)
