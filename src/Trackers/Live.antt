-- ===== src/Trackers/Live.antt =====
-- The machine of the trackers: a live one is always the one that its download id leads to.
use mathlib.Core.Path.{subst}
use mathlib.Core.Option.{some-injective}
use pentaract.Prelude.{
  ℕ, suc, ◌<◌, ◌≡◌, refl, ap, sym, ◌∙◌, inl, inr, Bool, true, false, ◌&&◌, ◌||◌, not, Option, none,
  some, ◌==◌, arith, Bool-cases, Option-cases,
}
use pentaract.Trackers.{
  Error, client_disconnected, Tracker, State, put, mark_cancelled, is_current, cancel_previous,
  setup_tracker, cancel_download, finish_tracker, interrupt_tracker, grace_ends, fail_tracker,
  cleanup_tracker,
}

-- A step of the handler. A tracker that is failed, finished or cleaned up was set up, and its cleanup is started
-- by the end of its request or of its grace period: it is done or interrupted by then.
pub data Step (s : State) : State → Type 0 where
  setup : (id storage : ℕ) → Step s (setup_tracker id storage s)
  cancel : (id : ℕ) → Step s (cancel_download id s).1
  finish : (a : ℕ) (e : Option Error) → a < s.next → Step s (finish_tracker a e s)
  fail :
      (a : ℕ) (canceled gone : Bool) (e : Error)
      → a < s.next
      → Step s (fail_tracker a canceled gone e s)
  expire : (a : ℕ) → a < s.next → Step s (grace_ends a s)
  cleanup :
      (a : ℕ)
      → a < s.next
      → ((s.tracker a).done || (s.tracker a).interrupted) ≡ true
      → Step s (cleanup_tracker a s)

pub data Reach (s : State) : State → Type 0 where
  here : Reach s s
  next : {t u : State} → Reach s t → Step t u → Reach s u

-- Every tracker that is not done is the one of its download id, and the map leads to trackers of their ids.
pub record IsSound (s : State) : Type 0 where
  pub live :
      (a : ℕ)
      → a < s.next
      → (s.tracker a).done ≡ false
      → s.downloads (s.tracker a).download ≡ some a
  pub known : (id a : ℕ) → s.downloads id ≡ some a → (a < s.next) × ((s.tracker a).download ≡ id)

abbrev pub blank : Tracker
blank = record {
  download = 0;
  storage = 0;
  canceled = false;
  interrupted = false;
  error = none;
  done = false;
}

abbrev pub start : State
start = record { next = 0; tracker = λ _. blank; downloads = λ _. none }

start-IsSound : IsSound start
start-IsSound = record {
  live = λ a l. absurd (omega arith);
  known = λ id a e. absurd (ground arith);
}

-- A change of one tracker that keeps its download id, and does not bring it back to life.
changed-IsSound :
    (s : State) (a : ℕ) (t : Tracker)
    → t.download ≡ (s.tracker a).download
    → (t.done ≡ false → (s.tracker a).done ≡ false)
    → IsSound s
    → IsSound (record s { tracker = put s.tracker a t })
unfolding put
changed-IsSound s a t d l h = record {
  live = λ b n e. elim (Bool-cases (b == a)) [
    | inr other ↦ rw (put, other) (h.live b n (rw (put, other) at e))
    | inl same ↦
        let p : b ≡ a = ground arith in
        let q = h.live a (subst (λ x. x < s.next) p n) (l (rw (put, same) at e)) in
        rw (put, same) (ap s.downloads d ∙ q ∙ ap (λ x. some x) (sym p))
  ];
  known = λ id b e.
      let (n, k) = h.known id b e in
      elim (Bool-cases (b == a)) [
        | inr other ↦ rw (put, other) (n, k)
        | inl same ↦
            let p : b ≡ a = ground arith in
            rw (put, same) (n, d ∙ ap (λ x. (s.tracker x).download) (sym p) ∙ k)
      ];
}

cancel_previous-IsSound :
    (s : State) (o : Option ℕ)
    → IsSound s
    → IsSound (record s { tracker = cancel_previous o s.tracker })
unfolding cancel_previous mark_cancelled
cancel_previous-IsSound s none h = h
cancel_previous-IsSound s (some a) h =
    changed-IsSound s a (mark_cancelled (s.tracker a)) refl (λ e. absurd (ground arith)) h

-- What is cancelled is done, and what is done stays so.
cancel_previous-done : (a : ℕ) (f : ℕ → Tracker) → (cancel_previous (some a) f a).done ≡ true
unfolding cancel_previous mark_cancelled put
cancel_previous-done a f = let same : (a == a) ≡ true = ground arith in rw same

cancel_previous-keeps :
    (o : Option ℕ) (f : ℕ → Tracker) (b : ℕ)
    → (f b).done ≡ true
    → (cancel_previous o f b).done ≡ true
unfolding cancel_previous mark_cancelled put
cancel_previous-keeps none f b h = h
cancel_previous-keeps (some a) f b h = elim (Bool-cases (b == a)) [
  | inr other ↦ rw other h
  | inl same ↦ rw same refl
]

-- A new tracker takes an id whose trackers are all done.
added-IsSound :
    (s : State) (t : Tracker)
    → ((a : ℕ) → s.downloads t.download ≡ some a → (s.tracker a).done ≡ true)
    → IsSound s
    → IsSound (record {
      next = suc s.next;
      tracker = put s.tracker s.next t;
      downloads = put s.downloads t.download (some s.next);
    })
unfolding put
added-IsSound s t d h = record {
  live = λ b n e. elim (Bool-cases (b == s.next)) [
    | inl same ↦
        let p : b ≡ s.next = ground arith in
        let q : (t.download == t.download) ≡ true = ground arith in
        rw (put, same, q) (ap (λ x. some x) (sym p))
    | inr other ↦
        let n' : b < s.next = ground arith in
        let e' : (s.tracker b).done ≡ false = rw (put, other) at e in
        let k = h.live b n' e' in
        elim (Bool-cases ((s.tracker b).download == t.download)) [
          | inr apart ↦ rw (put, other, apart) k
          | inl alike ↦
              let q : (s.tracker b).download ≡ t.download = ground arith in
              let c : (s.tracker b).done ≡ true = d b (ap s.downloads (sym q) ∙ k) in
              absurd (ground arith)
        ]
  ];
  known = λ id b e. elim (Bool-cases (id == t.download)) [
    | inl same ↦
        let p : b ≡ s.next = sym (some-injective _ _ (rw (put, same) at e)) in
        let q : (b == s.next) ≡ true = ground arith in rw (put, q) (ground arith, ground arith)
    | inr other ↦
        let (n, k) = h.known id b (rw (put, other) at e) in
        let q : (b == s.next) ≡ false = ground arith in rw (put, q) (ground arith, k)
  ];
}

setup_tracker-IsSound :
    (id storage : ℕ) (s : State) → IsSound s → IsSound (setup_tracker id storage s)
unfolding setup_tracker
setup_tracker-IsSound id storage s h =
    let f = cancel_previous (s.downloads id) s.tracker in
    let ended : (a : ℕ) → s.downloads id ≡ some a → (f a).done ≡ true = λ a e.
      subst (λ o. (cancel_previous o s.tracker a).done ≡ true) (sym e)
        (cancel_previous-done a s.tracker) in
    added-IsSound (record s { tracker = f })
      (record {
        download = id;
        storage = storage;
        canceled = false;
        interrupted = false;
        error = none;
        done = false;
      })
      ended (cancel_previous-IsSound s (s.downloads id) h)

interrupt_tracker-IsSound : (a : ℕ) (s : State) → IsSound s → IsSound (interrupt_tracker a s)
unfolding interrupt_tracker
interrupt_tracker-IsSound a s h =
    changed-IsSound s a (record (s.tracker a) { interrupted = true }) refl (λ e. e) h

finish_tracker-IsSound :
    (a : ℕ) (e : Option Error) (s : State) → IsSound s → IsSound (finish_tracker a e s)
unfolding finish_tracker
finish_tracker-IsSound a e s h =
    changed-IsSound s a (record (s.tracker a) { done = true; error = e }) refl
      (λ f. absurd (ground arith)) h

grace_ends-IsSound : (a : ℕ) (s : State) → IsSound s → IsSound (grace_ends a s)
unfolding grace_ends
grace_ends-IsSound a s h = elim (Bool-cases (is_current s a && not (s.tracker a).done)) [
  | inl ends ↦
      rw (grace_ends, ends)
        (changed-IsSound s a
          (record (s.tracker a) { done = true; error = some client_disconnected }) refl
          (λ f. absurd (ground arith)) h)
  | inr stays ↦ rw (grace_ends, stays) h
]

-- The map leads to a current tracker.
is_current_sound :
    (s : State) (a : ℕ) → is_current s a ≡ true → s.downloads (s.tracker a).download ≡ some a
unfolding is_current
is_current_sound s a h = elim (Option-cases (s.downloads (s.tracker a).download)) [
  | inl gone ↦ absurd (ground arith)
  | inr (b, e) ↦ let p : b ≡ a = ground arith in e ∙ ap (λ x. some x) p
]

cleanup_tracker-IsSound :
    (a : ℕ) (s : State)
    → a < s.next
    → ((s.tracker a).done || (s.tracker a).interrupted) ≡ true
    → IsSound s
    → IsSound (cleanup_tracker a s)
unfolding cleanup_tracker is_current put
cleanup_tracker-IsSound a s n ended h =
    elim (Bool-cases
      (is_current s a && not ((s.tracker a).interrupted && not (s.tracker a).done))) [
        | inr stays ↦ rw (cleanup_tracker, stays) h
        | inl ends ↦
            let over : (s.tracker a).done ≡ true = ground arith in
            rw (cleanup_tracker, ends)
              (record {
                live = λ b m e.
                    elim (Bool-cases ((s.tracker b).download == (s.tracker a).download)) [
                      | inr apart ↦ rw (put, apart) (h.live b m e)
                      | inl alike ↦
                          let q : (s.tracker b).download ≡ (s.tracker a).download = ground arith in
                          let p : b ≡ a = some-injective _ _ (
                            sym (h.live b m e)
                            ∙ ap s.downloads q
                            ∙ is_current_sound s a (ground arith)) in
                          let o : (s.tracker b).done ≡ true =
                            ap (λ x. (s.tracker x).done) p ∙ over in
                          absurd (ground arith)
                    ];
                known = λ id b e. elim (Bool-cases (id == (s.tracker a).download)) [
                  | inl same ↦
                      let lost : none ≡ some b = rw (put, same) at e in absurd (ground arith)
                  | inr other ↦ h.known id b (rw (put, other) at e)
                ];
              })
      ]

fail_tracker-IsSound :
    (a : ℕ) (canceled gone : Bool) (e : Error) (s : State)
    → IsSound s
    → IsSound (fail_tracker a canceled gone e s)
unfolding fail_tracker
fail_tracker-IsSound a canceled gone e s h = elim (Bool-cases (not canceled && gone)) [
  | inl parks ↦ rw (fail_tracker, parks) (interrupt_tracker-IsSound a s h)
  | inr ends ↦ rw (fail_tracker, ends) (finish_tracker-IsSound a (some e) s h)
]

step-IsSound : {s t : State} → Step s t → IsSound s → IsSound t
unfolding cancel_download
step-IsSound {s} (setup id storage) h = setup_tracker-IsSound id storage s h
step-IsSound {s} (cancel id) h = cancel_previous-IsSound s (s.downloads id) h
step-IsSound {s} (finish a e _) h = finish_tracker-IsSound a e s h
step-IsSound {s} (fail a canceled gone e _) h = fail_tracker-IsSound a canceled gone e s h
step-IsSound {s} (expire a _) h = grace_ends-IsSound a s h
step-IsSound {s} (cleanup a n ended) h = cleanup_tracker-IsSound a s n ended h

-- In every state that the handler reaches from an empty map, each download that is not done is the one that the map
-- holds for its id, so that it can be resumed and cancelled, and the map leads only to trackers of their ids.
pub Reach-IsSound : {s : State} → Reach start s → IsSound s
Reach-IsSound here = start-IsSound
Reach-IsSound (next r p) = step-IsSound p (Reach-IsSound r)

-- In every state that the handler reaches, a request to cancel a download id leaves no tracker of that id running:
-- each that was set up is done.
pub cancel_download-Ends :
    {s : State} (id a : ℕ)
    → Reach start s
    → a < s.next
    → (s.tracker a).download ≡ id
    → ((cancel_download id s).1.tracker a).done ≡ true
unfolding cancel_download
cancel_download-Ends {s} id a r n d = elim (Bool-cases (s.tracker a).done) [
  | inl over ↦ cancel_previous-keeps (s.downloads id) s.tracker a over
  | inr runs ↦
      let e : s.downloads id ≡ some a = ap s.downloads (sym d) ∙ (Reach-IsSound r).live a n runs in
      subst (λ o. (cancel_previous o s.tracker a).done ≡ true) (sym e)
        (cancel_previous-done a s.tracker)
]
