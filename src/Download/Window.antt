-- ===== src/Download/Window.antt =====
-- `writeRangeWindow` over a run of chunks writes exactly the bytes of the range that lie in the run.
use pentaract.Prelude.{
  ℕ, ◌+◌, ◌-◌, ◌≡◌, refl, sym, ap, ◌∙◌, Bool, true, Option, none, List, [], ◌∷◌, ◌++◌, append_assoc,
  append-nil, arith, leb, leb→le, if◌then◌else◌, length, length-append, drop, min, Bool-cases, inl,
  inr,
}
use pentaract.Prelude.Slices.{between, between-append, between_empty, take-min, length-between}
use mathlib.Core.Path.{ap₂, subst}
use native.Mathlib.Nat.{add-zero}
use pentaract.Domain.{FileChunk}
use pentaract.OrderedJobs.Spec.{Outcome, ok, run, run-cons_ok}
use pentaract.Download.{
  Error, Writer, RangeJob, RangeState, check_chunk_layout, write_clipped, write_ranged_chunk,
}
use pentaract.Download.Layout.{contents}

-- The writer takes every slice: the client stays connected.
abbrev pub AcceptsAll : Writer → Type 0
AcceptsAll w = (sent p : List ℕ) → w.accepts sent p ≡ true

module _ (content : FileChunk → List ℕ) where
  -- Every chunk of the run loads, with its content.
  abbrev pub Loads : (FileChunk → Outcome Error (List ℕ)) → List FileChunk → Type 0
  Loads load [] = Unit
  Loads load (c ∷ cs) = (load c ≡ ok (content c)) × Loads load cs

  -- The layout check, where it is made, finds nothing from the offset on.
  abbrev pub Passes : RangeJob → Bool → ℕ → List FileChunk → Type 0
  Passes job check offset [] = Unit
  Passes job check offset (c ∷ cs) =
      ((if check
          then check_chunk_layout c offset (length (content c)) job.last_position job.total_size
          else none)
        ≡ none)
      × Passes job check (offset + length (content c)) cs

-- The bytes of the range among those that start at an offset.
abbrev pub part : RangeJob → ℕ → List ℕ → List ℕ
part job offset bytes = between (job.start - offset) (job.end + 1 - offset) bytes

-- What a run of the handler does from an offset: it fails nowhere, and writes and counts the part of
-- the range that lies in `bytes`.
pub record Wrote (job : RangeJob) (chunk_start : ℕ) (bytes : List ℕ) (s : RangeState)
    (r : Option Error × RangeState) : Type 0 where
  pub fine : r.0 ≡ none
  pub sent : r.1.sink.sent ≡ s.sink.sent ++ part job chunk_start bytes
  pub written : r.1.written ≡ s.written + length (part job chunk_start bytes)

module _ (job : RangeJob) (w : Writer) (accepts : AcceptsAll w) where
  write_clipped-Wrote :
      (c : FileChunk) (chunk_start : ℕ) (bytes : List ℕ) (s : RangeState)
      → Wrote job chunk_start bytes s (write_clipped job w c chunk_start bytes s)
        × ((write_clipped job w c chunk_start bytes s).1.offset ≡ s.offset)
  unfolding write_clipped
  write_clipped-Wrote c chunk_start bytes s =
      elim (Bool-cases
        (leb (min (job.end + 1 - chunk_start) (length bytes)) (job.start - chunk_start))) [
          | inl skip ↦
              let e =
                between_empty (job.start - chunk_start) (job.end + 1 - chunk_start) bytes
                  (leb→le _ _ skip) in
              rw (skip, write_clipped)
                (
                  record {
                    fine = refl;
                    sent = rw e (sym (append-nil s.sink.sent));
                    written = rw e (sym (add-zero s.written));
                  },
                  refl,
                )
          | inr write ↦
              rw (write, write_clipped, accepts)
                (
                  record {
                    fine = refl;
                    sent =
                        ap (λ t. s.sink.sent ++ drop (job.start - chunk_start) t)
                          (take-min (job.end + 1 - chunk_start) bytes)
                        ∙ unfold between in refl;
                    written = rw (length-between);
                  },
                  refl,
                )
        ]

part-append :
    (job : RangeJob) (o : ℕ) (xs ys : List ℕ)
    → part job o (xs ++ ys) ≡ part job o xs ++ part job (o + length xs) ys
part-append job o xs ys =
    between-append (job.start - o) (job.end + 1 - o) xs ys
    ∙ (let e : job.start - o - length xs ≡ job.start - (o + length xs) = omega arith in
        let f : job.end + 1 - o - length xs ≡ job.end + 1 - (o + length xs) = omega arith in
        ap₂ (λ a b. part job o xs ++ between a b ys) e f)

Wrote-append :
    (job : RangeJob) (o : ℕ) (xs ys : List ℕ) (s : RangeState) (r q : Option Error × RangeState)
    → Wrote job o xs s r
    → Wrote job (o + length xs) ys r.1 q
    → Wrote job o (xs ++ ys) s q
Wrote-append job o xs ys s r q first rest = record {
  fine = rest.fine;
  sent =
      rest.sent
      ∙ ap (λ t. t ++ part job (o + length xs) ys) first.sent
      ∙ append_assoc s.sink.sent (part job o xs) (part job (o + length xs) ys)
      ∙ ap (λ t. s.sink.sent ++ t) (sym (part-append job o xs ys));
  written = omega (
    arith,
    rest.written,
    first.written,
    ap (length {A = ℕ}) (part-append job o xs ys),
    length-append (part job o xs) (part job (o + length xs) ys),
  );
}

-- Only the count and the bytes sent so far matter of the state before.
restart :
    (job : RangeJob) (o : ℕ) (bytes : List ℕ) (s s' : RangeState) (r : Option Error × RangeState)
    → s'.sink.sent ≡ s.sink.sent
    → s'.written ≡ s.written
    → Wrote job o bytes s' r
    → Wrote job o bytes s r
restart job o bytes s s' r e f h = record {
  fine = h.fine;
  sent = h.sent ∙ ap (λ t. t ++ part job o bytes) e;
  written = h.written ∙ ap (λ n. n + length (part job o bytes)) f;
}

module _ (content : FileChunk → List ℕ) (job : RangeJob) (w : Writer) (accepts : AcceptsAll w)
    (load : FileChunk → Outcome Error (List ℕ)) (check : Bool) where
  step_lem :
      (c : FileChunk) (cs : List FileChunk) (s : RangeState)
      → load c ≡ ok (content c)
      → (if check
          then check_chunk_layout c s.offset (length (content c)) job.last_position job.total_size
          else none)
        ≡ none
      → let r =
          write_clipped job w c s.offset
            (content c)
            (record s { offset = s.offset + length (content c) }) in
        run load (write_ranged_chunk job w check) (c ∷ cs) s
        ≡ run load (write_ranged_chunk job w check) cs r.1
  unfolding write_ranged_chunk
  step_lem c cs s loaded passes =
      let s' : RangeState = record s { offset = s.offset + length (content c) } in
      let r = write_clipped job w c s.offset (content c) s' in
      let handled : write_ranged_chunk job w check c (content c) s ≡ r =
        rw (passes, write_ranged_chunk) in
      run-cons_ok load (write_ranged_chunk job w check) c cs s r.1 (content c) loaded (
        handled
        ∙ ap (λ z. (z, r.1)) (write_clipped-Wrote job w accepts c s.offset (content c) s').0.fine)

  pub run-Wrote :
      (cs : List FileChunk) (o : ℕ) (s : RangeState)
      → s.offset ≡ o
      → Loads content load cs
      → Passes content job check o cs
      → Wrote job o (contents content cs) s (run load (write_ranged_chunk job w check) cs s)
  unfolding run contents
  run-Wrote [] o s e l p =
      let none_left = between_empty {A = ℕ} (job.start - o) (job.end + 1 - o) [] (omega arith) in
      record {
        fine = refl;
        sent = rw none_left (sym (append-nil s.sink.sent));
        written = rw none_left (sym (add-zero s.written));
      }
  run-Wrote (c ∷ cs) o s e l p =
      let s' : RangeState = record s { offset = s.offset + length (content c) } in
      let r = write_clipped job w c s.offset (content c) s' in
      let (first, kept) = write_clipped-Wrote job w accepts c s.offset (content c) s' in
      let rest =
        run-Wrote cs (o + length (content c)) r.1 (kept ∙ ap (λ k. k + length (content c)) e) l.1
          p.1 in
      let whole =
        Wrote-append job o (content c) (contents content cs) s r
          (run load (write_ranged_chunk job w check) cs r.1)
          (subst (λ k. Wrote job k (content c) s r) e
            (restart job s.offset (content c) s s' r refl refl first))
          rest in
      subst (λ q. Wrote job o (content c ++ contents content cs) s q)
        (sym (
          step_lem c cs s l.0 (
            subst
              (λ k.
                (if check
                  then check_chunk_layout c k (length (content c)) job.last_position job.total_size
                  else none)
                ≡ none)
              (sym e) p.0)))
        whole
