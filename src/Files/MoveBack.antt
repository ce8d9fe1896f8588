-- ===== src/Files/MoveBack.antt =====
-- Moving a file or a folder to a free path and back.
use pentaract.Prelude.{
  ℕ, ◌≡◌, ◌≢◌, refl, ap, sym, ◌∙◌, inl, inr, Bool, true, false, none, List, [], ◌∷◌, ◌++◌,
  if◌then◌else◌, arith, Bool-cases, length, length-append,
}
use pentaract.Prelude.Members.{In}
use pentaract.Domain.{File}
use pentaract.Files.{
  Tables, is_at, is_under, has_file, map_files, move_file, move_under, move, exec_affecting,
}
use pentaract.Files.Like.{is_plain}
use pentaract.Files.Subtree.{has_file_sound}
use pentaract.Files.Move.{
  At, Below, is_at_sound, is_at_complete, is_under_sound, is_under_complete, move_under_lem,
}

map_files_back :
    (test test' : File → Bool) (change change' : File → File) (fs : List File)
    → ((f : File) → In f fs → test f ≡ true → (test' (change f) ≡ true) × (change' (change f) ≡ f))
    → ((f : File) → In f fs → test f ≡ false → test' f ≡ false)
    → map_files test' change' (map_files test change fs) ≡ fs
unfolding map_files
map_files_back test test' change change' [] h k = refl
map_files_back test test' change change' (f ∷ fs) h k =
    let rest =
      map_files_back test test' change change' fs (λ g m. h g (inr m)) (λ g m. k g (inr m)) in
    elim (Bool-cases (test f)) [
      | inl e ↦ let r = h f (inl refl) e in rw (map_files, e, map_files, r.0, rest) (rw (r.1))
      | inr e ↦ rw (map_files, e, map_files, k f (inl refl) e, rest)
    ]

In-map_files :
    (test : File → Bool) (change : File → File) (fs : List File) (g : File)
    → In g (map_files test change fs)
    → (f : File) × In f fs × (g ≡ (if test f then change f else f))
unfolding map_files
In-map_files test change [] g m = absurd m
In-map_files test change (f ∷ fs) g (inl e) = (f, inl refl, e)
In-map_files test change (f ∷ fs) g (inr m) =
    let r = In-map_files test change fs g m in (r.0, inr r.1, r.2)

has_file-map_files :
    (test test' : File → Bool) (change : File → File) (fs : List File)
    → has_file test fs ≡ true
    → ((f : File) → test f ≡ true → test' (change f) ≡ true)
    → has_file test' (map_files test change fs) ≡ true
unfolding has_file map_files
has_file-map_files test test' change [] h k = absurd (ground arith)
has_file-map_files test test' change (f ∷ fs) h k = elim (Bool-cases (test f)) [
  | inl e ↦ rw (map_files, e, has_file, k f e)
  | inr e ↦ ground (arith, has_file-map_files test test' change fs (rw (has_file, e) at h) k)
]

-- A path is not below itself.
longer : (p rest : List ℕ) → p ≢ p ++ b'/' ∷ rest
longer p rest e = absurd (omega (arith, ap length e, length-append p (b'/' ∷ rest)))

-- Nothing of the storage is at a path or below it.
abbrev pub Free : ℕ → List ℕ → List File → Type 0
Free s p fs = (f : File) → In f fs → (¬ At s p f) × (¬ Below s p f)

not-At : (s : ℕ) (p : List ℕ) (f : File) → ¬ At s p f → is_at s p f ≡ false
not-At s p f n = elim (Bool-cases (is_at s p f)) [
  | inr e ↦ e
  | inl e ↦ absurd (n (is_at_sound s p f e))
]

not_under :
    (s : ℕ) (p : List ℕ) (f : File) → is_plain p ≡ true → ¬ Below s p f → is_under s p f ≡ false
not_under s p f h n = elim (Bool-cases (is_under s p f)) [
  | inr e ↦ e
  | inl e ↦ absurd (n (is_under_sound s p f h e))
]

file_back :
    (s : ℕ) (old new : List ℕ) (fs : List File)
    → Free s new fs
    → map_files (is_at s new) (move_file old) (map_files (is_at s old) (move_file new) fs) ≡ fs
unfolding move_file
file_back s old new fs free =
    map_files_back (is_at s old) (is_at s new) (move_file new) (move_file old) fs
      (λ f m e.
        let x = is_at_sound s old f e in
        (
          is_at_complete s new (move_file new f) (x.0, refl),
          ap (λ p. record f { path = p }) (sym x.1),
        ))
      (λ f m e. not-At s new f (free f m).0)

under_back :
    (s : ℕ) (old new : List ℕ) (f : File)
    → is_plain old ≡ true
    → is_plain new ≡ true
    → is_under s old f ≡ true
    → (is_under s new (move_under old new f) ≡ true)
      × (move_under new old (move_under old new f) ≡ f)
under_back s old new f h k e =
    let x = is_under_sound s old f h e in
    let rest = x.1.0 in
    let there = move_under_lem old new rest f x.1.1 in
    let g : File = record f { path = new ++ b'/' ∷ rest } in
    (
      ap (is_under s new) there ∙ is_under_complete s new g k (x.0, (rest, refl)),
      ap (move_under new old) there
          ∙ move_under_lem new old rest g refl
          ∙ ap (λ p. record f { path = p }) (sym x.1.1),
    )

-- A folder that has moved is not a file at its new path.
not_at_after :
    (s : ℕ) (old new : List ℕ) (fs : List File)
    → is_plain old ≡ true
    → Free s new fs
    → has_file (is_at s new) (map_files (is_under s old) (move_under old new) fs) ≡ false
not_at_after s old new fs h free =
    let moved = map_files (is_under s old) (move_under old new) fs in
    elim (Bool-cases (has_file (is_at s new) moved)) [
      | inr e ↦ e
      | inl e ↦
          let (g, m, a) = has_file_sound (is_at s new) moved e in
          let (f, n, i) = In-map_files (is_under s old) (move_under old new) fs g m in
          let at = is_at_sound s new g a in
          elim (Bool-cases (is_under s old f)) [
            | inr u ↦
                let same : g ≡ f = i ∙ ap (λ b. if b then move_under old new f else f) u in
                absurd (
                  (free f n).0
                    (ap (λ x. x.storage_id) (sym same) ∙ at.0, ap (λ x. x.path) (sym same) ∙ at.1))
            | inl u ↦
                let x = is_under_sound s old f h u in
                let there : g ≡ record f { path = new ++ b'/' ∷ x.1.0 } =
                  i
                  ∙ ap (λ b. if b then move_under old new f else f) u
                  ∙ move_under_lem old new x.1.0 f x.1.1 in
                absurd (longer new x.1.0 (sym at.1 ∙ ap (λ y. y.path) there))
          ]
    ]

-- Where a move succeeds and nothing was at the new path or below it, moving back succeeds and restores every
-- row of both tables (for paths without the characters % _ \).
pub move-move :
    (s : ℕ) (old new : List ℕ) (t : Tables)
    → is_plain old ≡ true
    → is_plain new ≡ true
    → Free s new t.files
    → (move s old new t).0 ≡ none
    → move s new old (move s old new t).1 ≡ (none, t)
unfolding move exec_affecting
move-move s old new t h k free done = elim (Bool-cases (has_file (is_at s old) t.files)) [
  | inl e ↦
      let there = has_file-map_files (is_at s old) (is_at s new) (move_file new) t.files e (λ f a.
        is_at_complete s new (move_file new f)
          ((is_at_sound s old f a).0, unfold move_file in refl)) in
      rw (move, e, move, there)
        (ap (λ fs. (none, record t { files = fs })) (file_back s old new t.files free))
  | inr e ↦ elim (Bool-cases (has_file (is_under s old) t.files)) [
    | inr b ↦ absurd (ground arith)
    | inl b ↦
        let there =
          has_file-map_files (is_under s old) (is_under s new) (move_under old new) t.files b
            (λ f a. (under_back s old new f h k a).0) in
        let back =
          map_files_back (is_under s old) (is_under s new) (move_under old new) (move_under new old)
            t.files (λ f m a. under_back s old new f h k a)
            (λ f m a. not_under s new f k (free f m).1) in
        rw
          (
            move,
            e,
            exec_affecting,
            b,
            move,
            not_at_after s old new t.files h free,
            exec_affecting,
            there,
          )
          (ap (λ fs. (none, record t { files = fs })) back)
  ]
]
