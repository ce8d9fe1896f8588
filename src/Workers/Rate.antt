-- ===== src/Workers/Rate.antt =====
-- The rate limit over a run of batches and of cleanups of old usages.
use mathlib.Core.Path.{subst}
use pentaract.Prelude.{
  ℕ, zero, suc, ◌+◌, ◌-◌, ◌≤◌, ◌≡◌, refl, ◌&&◌, List, [], ◌∷◌, ◌==◌, if◌then◌else◌, leb, arith, inl,
  inr, true, false, Bool-cases, length, ◌*◌,
}
use native.Mathlib.Nat.{zero-mul, suc-mul}
use pentaract.Workers.{
  Worker, Usage, Tables, used, choose, record_usages, get_token_batch, expire_usages, usage_window,
}
use pentaract.Workers.Count.{occurrences, occurrences-choose, used-record_usages}

-- The usages of a worker from a time on for the length of the window, both ends included.
pub in_window : ℕ → ℕ → List Usage → ℕ
in_window id a [] = 0
in_window id a (u ∷ us) =
    if u.worker == id && leb a u.created_at && leb u.created_at (a + usage_window)
    then suc (in_window id a us)
    else in_window id a us

-- What happens to the tables: a request for tokens of a storage, or a cleanup, at a time.
pub data Event : Type 0 where
  batch : ℕ → ℕ → ℕ → Event
  cleanup : ℕ → Event

abbrev pub time_of : Event → ℕ
time_of (batch storage count now) = now
time_of (cleanup now) = now

-- The tables, and every usage that was ever recorded.
pub record History : Type 0 where
  pub tables : Tables
  pub log : List Usage

step : ℕ → Event → History → History
unfolding get_token_batch
step rate (batch storage count now) h = record {
  tables = (get_token_batch storage rate count now h.tables).1;
  log = record_usages now (choose storage rate count now h.tables) h.log;
}
step rate (cleanup now) h = record h {
  tables = record h.tables { usages = expire_usages now h.tables.usages };
}

pub play : ℕ → List Event → History → History
unfolding step
play rate [] h = h
play rate (e ∷ es) h = play rate es (step rate e h)

-- The clock does not go back.
abbrev pub InOrder : ℕ → List Event → Type 0
InOrder now [] = Unit
InOrder now (e ∷ es) = (now ≤ time_of e) × InOrder (time_of e) es

-- The tables still have every usage that the window at a time looks at, and no window of the log has
-- too many.
record Keeps (id rate now : ℕ) (h : History) : Type 0 where
  single : occurrences id h.tables.workers ≤ 1
  recent :
      (since : ℕ) → now - usage_window ≤ since → used id since h.log ≡ used id since h.tables.usages
  within : (a : ℕ) → in_window id a h.log ≤ rate

in_window-record_usages :
    (id a now : ℕ) (ws : List Worker) (us : List Usage)
    → in_window id a (record_usages now ws us)
      ≡ (if leb a now && leb now (a + usage_window) then occurrences id ws else 0)
        + in_window id a us
unfolding in_window record_usages occurrences
in_window-record_usages id a now [] us = ground arith
in_window-record_usages id a now (w ∷ ws) us =
    ground (arith, in_window-record_usages id a now ws us)

in_window-le-used :
    (id a since : ℕ) (us : List Usage) → since ≤ a → in_window id a us ≤ used id since us
unfolding in_window used
in_window-le-used id a since [] h = omega arith
in_window-le-used id a since (u ∷ us) h = ground (arith, in_window-le-used id a since us h)

used-expire_usages :
    (id now since : ℕ) (us : List Usage)
    → now - usage_window ≤ since
    → used id since (expire_usages now us) ≡ used id since us
unfolding used expire_usages
used-expire_usages id now since [] h = refl
used-expire_usages id now since (u ∷ us) h = ground (arith, used-expire_usages id now since us h)

step-Keeps :
    (id rate now : ℕ) (e : Event) (h : History)
    → now ≤ time_of e
    → Keeps id rate now h
    → Keeps id rate (time_of e) (step rate e h)
unfolding step get_token_batch
step-Keeps id rate now (cleanup t) h le k = record {
  single = k.single;
  recent = λ since b.
      omega (arith, k.recent since (omega arith), used-expire_usages id t since h.tables.usages b);
  within = k.within;
}
step-Keeps id rate now (batch storage count t) h le k =
    let ws = choose storage rate count t h.tables in
    let since = t - usage_window in
    let few = occurrences-choose id storage rate count t h.tables k.single in
    record {
      single = k.single;
      recent = λ s b. omega (
        arith,
        k.recent s (omega arith),
        used-record_usages id s t ws h.log,
        used-record_usages id s t ws h.tables.usages,
      );
      within = λ a. elim (Bool-cases (leb a t && leb t (a + usage_window))) [
        | inr out ↦ rw (in_window-record_usages id a t ws h.log, out) (omega (arith, k.within a))
        | inl inside ↦
            let below : since ≤ a = ground arith in
            rw (in_window-record_usages id a t ws h.log, inside)
              (omega (
                arith,
                few,
                k.within a,
                in_window-le-used id a since h.log below,
                k.recent since (omega arith),
              ))
      ];
    }

-- The time of the last event.
pub last_time : ℕ → List Event → ℕ
last_time now [] = now
last_time now (e ∷ es) = last_time (time_of e) es

play-Keeps :
    (id rate now : ℕ) (es : List Event) (h : History)
    → InOrder now es
    → Keeps id rate now h
    → Keeps id rate (last_time now es) (play rate es h)
unfolding play last_time
play-Keeps id rate now [] h o k = k
play-Keeps id rate now (e ∷ es) h o k =
    play-Keeps id rate (time_of e) es (step rate e h) o.1 (step-Keeps id rate now e h o.0 k)

-- The log after batches that overlap: all have chosen at one time, from the same tables, before any of them has
-- recorded its usages. A batch is a storage and a count.
pub overlapping : ℕ → ℕ → Tables → List (ℕ × ℕ) → List Usage → List Usage
overlapping rate now t [] log = log
overlapping rate now t ((storage, count) ∷ bs) log =
    record_usages now (choose storage rate count now t) (overlapping rate now t bs log)

in_window-overlapping :
    (id rate now a u : ℕ) (t : Tables) (bs : List (ℕ × ℕ)) (log : List Usage)
    → occurrences id t.workers ≤ 1
    → used id (now - usage_window) t.usages ≡ u
    → in_window id a (overlapping rate now t bs log)
      ≤ (if leb a now && leb now (a + usage_window) then length bs * (rate - u) else 0)
        + in_window id a log
unfolding overlapping
in_window-overlapping id rate now a u t [] log single e =
    let z = zero-mul (rate - u) in ground arith
in_window-overlapping id rate now a u t ((storage, count) ∷ bs) log single e =
    let ws = choose storage rate count now t in
    let few = occurrences-choose id storage rate count now t single in
    let rest = in_window-overlapping id rate now a u t bs log single e in
    let more = suc-mul (length bs) (rate - u) in
    let seen = in_window id a (overlapping rate now t bs log) in
    let past = in_window id a log in
    let rest_out : (leb a now && leb now (a + usage_window)) ≡ false → seen ≤ past = λ o.
      omega (arith, subst (λ b. seen ≤ (if b then length bs * (rate - u) else 0) + past) o rest) in
    let rest_in : (leb a now && leb now (a + usage_window)) ≡ true
        → seen ≤ length bs * (rate - u) + past =
      λ i. subst (λ b. seen ≤ (if b then length bs * (rate - u) else 0) + past) i rest in
    elim (Bool-cases (leb a now && leb now (a + usage_window))) [
      | inr out ↦
          rw (in_window-record_usages id a now ws (overlapping rate now t bs log), out)
            (omega (arith, rest_out out))
      | inl inside ↦
          rw (in_window-record_usages id a now ws (overlapping rate now t bs log), inside)
            (omega (arith, few, e, more, rest_in inside))
    ]

mul-monus : (n rate u : ℕ) → n * (rate - u) ≤ n * rate
mul-monus zero rate u = let a = zero-mul (rate - u) in omega arith
mul-monus (suc n) rate u = omega (arith, suc-mul n (rate - u), suc-mul n rate, mul-monus n rate u)

abbrev pub start : List Worker → History
start ws = record { tables = record { workers = ws; usages = [] }; log = [] }

-- The rate limit, counted over all usages ever recorded, for a worker with an id of its own. From a table with no
-- usages, whatever batches are asked for, each committed before the next is begun, and whatever
-- cleanups run, for any storages and counts and at times that do not go back, the worker is used no
-- more often than the limit within any 60 seconds. And where some batches then overlap, all choosing
-- at one time before any of them has recorded its usages, each of them but the first lets the worker
-- be used at most as often as the limit once more.
pub play-within_limit :
    (id rate : ℕ) (ws : List Worker) (es : List Event) (a : ℕ)
    → occurrences id ws ≤ 1
    → InOrder 0 es
    → let h = play rate es (start ws) in
      (in_window id a h.log ≤ rate)
      × ((now storage count : ℕ) (bs : List (ℕ × ℕ))
          → last_time 0 es ≤ now
          → in_window id a (overlapping rate now h.tables ((storage, count) ∷ bs) h.log)
            ≤ rate + length bs * rate)
play-within_limit id rate ws es a single o =
    let h = play rate es (start ws) in
    let k : Keeps id rate (last_time 0 es) h = play-Keeps id rate 0 es (start ws) o (record {
      single = single;
      recent = λ s b. refl;
      within = λ b. unfold in_window in omega arith;
    }) in
    (
      k.within a,
      λ now storage count bs later.
          let since = now - usage_window in
          let u = used id since h.tables.usages in
          let all = (storage, count) ∷ bs in
          let bound = in_window-overlapping id rate now a u h.tables all h.log k.single refl in
          let more = suc-mul (length bs) (rate - u) in
          let less = mul-monus (length bs) rate u in
          let seen = in_window id a (overlapping rate now h.tables all h.log) in
          let past = in_window id a h.log in
          elim (Bool-cases (leb a now && leb now (a + usage_window))) [
            | inr out ↦
                let b : seen ≤ 0 + past =
                  subst (λ x. seen ≤ (if x then length all * (rate - u) else 0) + past) out bound in
                omega (arith, b, k.within a)
            | inl inside ↦
                let b : seen ≤ length all * (rate - u) + past =
                  subst (λ x. seen ≤ (if x then length all * (rate - u) else 0) + past) inside
                    bound in
                let below : since ≤ a = ground arith in
                let w = in_window-le-used id a since h.log below in
                let r = k.recent since (omega arith) in
                omega (arith, b, more, less, w, r, k.within a)
          ],
    )
