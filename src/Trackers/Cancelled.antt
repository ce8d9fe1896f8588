-- ===== src/Trackers/Cancelled.antt =====
-- Cancelled trackers of internal/handler/download_handler.go, under every later step.
use mathlib.Core.Path.{subst}
use pentaract.Prelude.{
  ℕ, ◌<◌, ◌≤◌, ◌≡◌, refl, inl, inr, true, false, ◌&&◌, not, Option, none, some, ◌==◌, arith,
  Bool-cases,
}
use pentaract.Trackers.{
  Error, client_disconnected, Tracker, State, is_cancelled, put, mark_cancelled, status_of,
  is_current, cancel_previous, setup_tracker, cancel_download, finish_tracker, interrupt_tracker,
  grace_ends, fail_tracker, cleanup_tracker,
}
use pentaract.Trackers.Live.{Step, setup, cancel, finish, fail, expire, cleanup, Reach, here, next}

-- A tracker that is put elsewhere, or that stays cancelled, keeps the cancelled ones.
put-keeps :
    (f : ℕ → Tracker) (b : ℕ) (t : Tracker) (a : ℕ)
    → (((f b).done && (f b).canceled) ≡ true → (t.done && t.canceled) ≡ true)
    → ((f a).done && (f a).canceled) ≡ true
    → ((put f b t a).done && (put f b t a).canceled) ≡ true
unfolding put
put-keeps f b t a k h = elim (Bool-cases (a == b)) [
  | inr other ↦ rw other h
  | inl same ↦
      let p : a ≡ b = ground arith in
      rw same (k (subst (λ x. ((f x).done && (f x).canceled) ≡ true) p h))
]

cancel_previous-keeps :
    (o : Option ℕ) (f : ℕ → Tracker) (a : ℕ)
    → ((f a).done && (f a).canceled) ≡ true
    → ((cancel_previous o f a).done && (cancel_previous o f a).canceled) ≡ true
unfolding cancel_previous mark_cancelled
cancel_previous-keeps none f a h = h
cancel_previous-keeps (some b) f a h = put-keeps f b (mark_cancelled (f b)) a (λ _. refl) h

done_too : (t : Tracker) (e : Option Error) → (t.done && t.canceled) ≡ true → t.canceled ≡ true
done_too t e h = ground arith

interrupt_tracker-keeps :
    (b : ℕ) (s : State) (a : ℕ)
    → ((s.tracker a).done && (s.tracker a).canceled) ≡ true
    → (((interrupt_tracker b s).tracker a).done && ((interrupt_tracker b s).tracker a).canceled)
      ≡ true
unfolding interrupt_tracker
interrupt_tracker-keeps b s a h =
    put-keeps s.tracker b (record (s.tracker b) { interrupted = true }) a (λ k. k) h

finish_tracker-keeps :
    (b : ℕ) (e : Option Error) (s : State) (a : ℕ)
    → ((s.tracker a).done && (s.tracker a).canceled) ≡ true
    → (((finish_tracker b e s).tracker a).done && ((finish_tracker b e s).tracker a).canceled)
      ≡ true
unfolding finish_tracker
finish_tracker-keeps b e s a h =
    put-keeps s.tracker b (record (s.tracker b) { done = true; error = e }) a
      (λ k. done_too (s.tracker b) e k) h

step-keeps :
    {s t : State} (a : ℕ)
    → Step s t
    → a < s.next
    → ((s.tracker a).done && (s.tracker a).canceled) ≡ true
    → ((t.tracker a).done && (t.tracker a).canceled) ≡ true
unfolding cancel_download setup_tracker put fail_tracker grace_ends cleanup_tracker
step-keeps {s} a (setup id storage) n h =
    let q : (a == s.next) ≡ false = ground arith in
    rw (put, q) (cancel_previous-keeps (s.downloads id) s.tracker a h)
step-keeps {s} a (cancel id) n h = cancel_previous-keeps (s.downloads id) s.tracker a h
step-keeps {s} a (finish b e _) n h = finish_tracker-keeps b e s a h
step-keeps {s} a (fail b canceled gone e _) n h = elim (Bool-cases (not canceled && gone)) [
  | inl parks ↦ rw (fail_tracker, parks) (interrupt_tracker-keeps b s a h)
  | inr ends ↦ rw (fail_tracker, ends) (finish_tracker-keeps b (some e) s a h)
]
step-keeps {s} a (expire b _) n h = elim (Bool-cases (is_current s b && not (s.tracker b).done)) [
  | inl ends ↦
      rw (grace_ends, ends)
        (put-keeps s.tracker b
          (record (s.tracker b) { done = true; error = some client_disconnected }) a
          (λ k. done_too (s.tracker b) none k) h)
  | inr stays ↦ rw (grace_ends, stays) h
]
step-keeps {s} a (cleanup b _ _) n h =
    elim (Bool-cases
      (is_current s b && not ((s.tracker b).interrupted && not (s.tracker b).done))) [
        | inl ends ↦ rw (cleanup_tracker, ends) h
        | inr stays ↦ rw (cleanup_tracker, stays) h
      ]

step-next : {s t : State} → Step s t → s.next ≤ t.next
unfolding cancel_download setup_tracker fail_tracker finish_tracker interrupt_tracker grace_ends
    cleanup_tracker
step-next {s} (setup id storage) = omega arith
step-next {s} (cancel id) = omega arith
step-next {s} (finish a e _) = omega arith
step-next {s} (fail a canceled gone e _) = elim (Bool-cases (not canceled && gone)) [
  | inl h ↦ rw h (omega arith)
  | inr h ↦ rw h (omega arith)
]
step-next {s} (expire a _) = elim (Bool-cases (is_current s a && not (s.tracker a).done)) [
  | inl h ↦ rw h (omega arith)
  | inr h ↦ rw h (omega arith)
]
step-next {s} (cleanup a _ _) =
    elim (Bool-cases
      (is_current s a && not ((s.tracker a).interrupted && not (s.tracker a).done))) [
        | inl h ↦ rw h (omega arith)
        | inr h ↦ rw h (omega arith)
      ]

Reach-keeps :
    {s t : State} (a : ℕ)
    → Reach s t
    → a < s.next
    → ((s.tracker a).done && (s.tracker a).canceled) ≡ true
    → (a < t.next) × (((t.tracker a).done && (t.tracker a).canceled) ≡ true)
Reach-keeps a here n h = (n, h)
Reach-keeps a (next {t} {u} r p) n h =
    let (m, k) = Reach-keeps a r n h in
    let l : t.next ≤ u.next = step-next p in (omega arith, step-keeps a p m k)

status_of-flags : (t : Tracker) → status_of t ≡ is_cancelled → (t.done && t.canceled) ≡ true
unfolding status_of
status_of-flags t h = ground arith

-- A download whose status is cancelled keeps that status in every later step: neither the end of its request, nor the
-- timers, nor a new request for its id turn it into a finished, failed or interrupted one.
pub Reach-cancelled :
    {s t : State} (a : ℕ)
    → Reach s t
    → a < s.next
    → status_of (s.tracker a) ≡ is_cancelled
    → status_of (t.tracker a) ≡ is_cancelled
unfolding status_of
Reach-cancelled {s} a r n h =
    let (m, k) = Reach-keeps a r n (status_of-flags (s.tracker a) h) in rw k refl
