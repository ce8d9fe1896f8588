-- ===== src/Files/Move.antt =====
-- What a move renames, and that moving back undoes it.
use pentaract.Prelude.{
  ℕ, ◌≡◌, refl, ap, ◌∙◌, ◌⊎◌, inl, inr, Bool, true, false, Option, none, some, List, [], ◌∷◌, ◌++◌,
  arith, Bool-cases, bytes, bytes_eq, bytes_eq_refl, bytes_eq→eq, length, drop,
}
use pentaract.Prelude.Members.{In}
use pentaract.Domain.{File}
use pentaract.Files.{
  Error, Tables, not_found, is_at, is_under, has_file, map_files, move_file, move_under, move,
  exec_affecting,
}
use pentaract.Files.Like.{like, is_plain, below_sound, below_complete}
use pentaract.Files.Subtree.{has_file_sound, has_file_complete}

abbrev pub At : ℕ → List ℕ → File → Type 0
At storage path f = (f.storage_id ≡ storage) × (f.path ≡ path)

abbrev pub Below : ℕ → List ℕ → File → Type 0
Below storage path f = (f.storage_id ≡ storage) × ((rest : List ℕ) × (f.path ≡ path ++ b'/' ∷ rest))

pub is_at_sound : (s : ℕ) (p : List ℕ) (f : File) → is_at s p f ≡ true → At s p f
unfolding is_at
is_at_sound s p f e = (ground arith, bytes_eq→eq f.path p (ground arith))

pub is_at_complete : (s : ℕ) (p : List ℕ) (f : File) → At s p f → is_at s p f ≡ true
unfolding is_at
is_at_complete s p f (h, e) =
    let same : bytes_eq f.path p ≡ true = ap (λ q. bytes_eq q p) e ∙ bytes_eq_refl p in ground arith

pub is_under_sound :
    (s : ℕ) (p : List ℕ) (f : File) → is_plain p ≡ true → is_under s p f ≡ true → Below s p f
unfolding is_under
is_under_sound s p f h e = (ground arith, below_sound p f.path h (ground arith))

pub is_under_complete :
    (s : ℕ) (p : List ℕ) (f : File) → is_plain p ≡ true → Below s p f → is_under s p f ≡ true
unfolding is_under
is_under_complete s p f h (e, (rest, b)) =
    let below : like f.path (p ++ bytes "/%") ≡ true =
      ap (λ q. like q (p ++ bytes "/%")) b ∙ below_complete p rest h in
    ground arith

pub drop-append : (p q : List ℕ) → drop (length p) (p ++ q) ≡ q
drop-append [] q = refl
drop-append (c ∷ p) q = drop-append p q

pub move_under_lem :
    (old new rest : List ℕ) (f : File)
    → f.path ≡ old ++ b'/' ∷ rest
    → move_under old new f ≡ record f { path = new ++ b'/' ∷ rest }
unfolding move_under
move_under_lem old new rest f e =
    let d : drop (length old) f.path ≡ b'/' ∷ rest =
      ap (drop (length old)) e ∙ drop-append old (b'/' ∷ rest) in
    ap (λ q. record f { path = new ++ q }) d

-- The row of a file before and after, as the two statements of a move change it.
abbrev pub RenamedFile : ℕ → List ℕ → List ℕ → File → File → Type 0
RenamedFile s old new f g =
    (At s old f × (g ≡ record f { path = new })) ⊎ ((¬ At s old f) × (g ≡ f))

abbrev pub RenamedFolder : ℕ → List ℕ → List ℕ → File → File → Type 0
RenamedFolder s old new f g =
    ((f.storage_id ≡ s)
      × ((rest : List ℕ) × (f.path ≡ old ++ b'/' ∷ rest)
          × (g ≡ record f { path = new ++ b'/' ∷ rest })))
    ⊎ ((¬ Below s old f) × (g ≡ f))

-- Row by row.
abbrev pub Pairwise : (File → File → Type 0) → List File → List File → Type 0
Pairwise R [] [] = Unit
Pairwise R [] (g ∷ gs) = ⊥
Pairwise R (f ∷ fs) [] = ⊥
Pairwise R (f ∷ fs) (g ∷ gs) = R f g × Pairwise R fs gs

map_files-Pairwise :
    (R : File → File → Type 0) (test : File → Bool) (change : File → File) (fs : List File)
    → ((f : File) → test f ≡ true → R f (change f))
    → ((f : File) → test f ≡ false → R f f)
    → Pairwise R fs (map_files test change fs)
unfolding map_files
map_files-Pairwise R test change [] h k = tt
map_files-Pairwise R test change (f ∷ fs) h k =
    let rest = map_files-Pairwise R test change fs h k in
    elim (Bool-cases (test f)) [
      | inl e ↦ rw (map_files, e) (h f e, rest)
      | inr e ↦ rw (map_files, e) (k f e, rest)
    ]

abbrev pub IsMoved : ℕ → List ℕ → List ℕ → Tables → Option Error × Tables → Type 0
IsMoved s old new t r =
    (r.1.chunks ≡ t.chunks)
    × (((r.0 ≡ none)
          × ((f : File) × In f t.files × At s old f)
          × Pairwise (RenamedFile s old new) t.files r.1.files)
        ⊎ ((r.0 ≡ none)
            × ((f : File) → In f t.files → ¬ At s old f)
            × ((f : File) × In f t.files × Below s old f)
            × Pairwise (RenamedFolder s old new) t.files r.1.files)
        ⊎ ((r.0 ≡ some not_found)
            × ((f : File) → In f t.files → (¬ At s old f) × (¬ Below s old f))
            × (r.1 ≡ t)))

-- A move to a path renames, in the storage, the file of the old path where there is one, and otherwise
-- every file below it (the old path having none of the characters % _ \), and leaves all else about every row of
-- every storage; where there is neither it reports that and changes nothing.
pub move-renames :
    (s : ℕ) (old new : List ℕ) (t : Tables)
    → is_plain old ≡ true
    → IsMoved s old new t (move s old new t)
unfolding move exec_affecting
move-renames s old new t h =
    let here = is_at s old in
    let below = is_under s old in
    elim (Bool-cases (has_file here t.files)) [
      | inl e ↦
          let r = has_file_sound here t.files e in
          rw (move, e)
            (
              refl,
              inl (
                refl,
                (r.0, r.1, is_at_sound s old r.0 r.2),
                map_files-Pairwise (RenamedFile s old new) here (move_file new) t.files
                    (λ f a. inl (is_at_sound s old f a, unfold move_file in refl))
                    (λ f a. inr (λ x. absurd (ground (arith, is_at_complete s old f x)), refl)),
              ),
            )
      | inr e ↦
          let nobody : (f : File) → In f t.files → ¬ At s old f = λ f m x.
            absurd
              (ground (arith, has_file_complete here t.files f m (is_at_complete s old f x))) in
          elim (Bool-cases (has_file below t.files)) [
            | inl b ↦
                let r = has_file_sound below t.files b in
                rw (move, e, exec_affecting, b)
                  (
                    refl,
                    inr (
                        inl (
                          refl,
                          nobody,
                          (r.0, r.1, is_under_sound s old r.0 h r.2),
                          map_files-Pairwise (RenamedFolder s old new) below (move_under old new)
                              t.files
                              (λ f a.
                                let x = is_under_sound s old f h a in
                                inl (x.0, (x.1.0, x.1.1, move_under_lem old new x.1.0 f x.1.1)))
                              (λ f a. inr (
                                λ x. absurd (ground (arith, is_under_complete s old f h x)),
                                refl,
                              )),
                        )),
                  )
            | inr b ↦
                rw (move, e, exec_affecting, b)
                  (
                    refl,
                    inr (
                        inr (
                          refl,
                          λ f m. (
                            nobody f m,
                            λ x. absurd (
                                ground (
                                  arith,
                                  has_file_complete below t.files f m
                                      (is_under_complete s old f h x),
                                )),
                          ),
                          refl,
                        )),
                  )
          ]
    ]
