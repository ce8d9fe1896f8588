-- ===== src/Files/Shown.antt =====
-- What the listing of a directory shows.
use pentaract.Prelude.{
  ℕ, ◌<◌, ◌≡◌, ◌≢◌, refl, ap, ◌∙◌, ◌⊎◌, inl, inr, ◌↔◌, true, false, List, [], ◌∷◌, ◌++◌, ◌==◌,
  arith, Bool-cases, length, length-append, drop,
}
use pentaract.Domain.{File}
use pentaract.Paths.{slash}
use pentaract.Files.Like.{is_plain}
use pentaract.Files.Listing.{Element, before_slash, has_slash, element, is_listed}
use pentaract.Files.Move.{drop-append}
use pentaract.Files.Searched.{begins-with}

-- An uploaded file of the storage somewhere below a prefix, with its path from there.
abbrev pub IsVisible : ℕ → List ℕ → List ℕ → File → Type 0
IsVisible storage prefix rest f =
    (f.storage_id ≡ storage) × (f.is_uploaded ≡ true) × (f.path ≡ prefix ++ rest) × (rest ≢ [])

-- The first part of a path: all of it, or what stands before its first slash.
abbrev pub IsFirstPart : List ℕ → List ℕ → Type 0
IsFirstPart name rest =
    (has_slash name ≡ false) × ((rest ≡ name) ⊎ ((more : List ℕ) × (rest ≡ name ++ slash ∷ more)))

before_slash_sound :
    (s : List ℕ)
    → has_slash s ≡ true
    → (has_slash (before_slash s) ≡ false)
      × ((more : List ℕ) × (s ≡ before_slash s ++ slash ∷ more))
unfolding before_slash has_slash
before_slash_sound [] h = absurd (ground arith)
before_slash_sound (c ∷ s) h = elim (Bool-cases (c == slash)) [
  | inl e ↦ rw (before_slash, e) (refl, (s, ap (λ d. d ∷ s) (ground arith)))
  | inr e ↦
      let r = before_slash_sound s (rw (has_slash, e) at h) in
      rw (before_slash, e) (rw (has_slash, e) r.0, (r.1.0, ap (λ t. c ∷ t) r.1.1))
]

before_slash_at :
    (name more : List ℕ) → has_slash name ≡ false → before_slash (name ++ slash ∷ more) ≡ name
unfolding before_slash has_slash
before_slash_at [] more h = refl
before_slash_at (c ∷ name) more h = ground (arith, before_slash_at name more)

has_slash_at : (name more : List ℕ) → has_slash (name ++ slash ∷ more) ≡ true
unfolding has_slash
has_slash_at [] more = refl
has_slash_at (c ∷ name) more = ground (arith, has_slash_at name more)

pub is_listed-IsVisible :
    (storage : ℕ) (prefix : List ℕ) (f : File)
    → is_plain prefix ≡ true
    → (is_listed storage prefix f ≡ true) ↔ ((rest : List ℕ) × IsVisible storage prefix rest f)
unfolding is_listed
is_listed-IsVisible storage prefix f h =
    let p = begins-with prefix f.path h in
    (
      λ m.
          let (rest, e) = p.0 (ground arith) in
          let longer : length prefix < length f.path = ground arith in
          (
            rest,
            (
              ground arith,
              ground arith,
              e,
              λ n.
                  absurd
                    (omega (arith, ap length e, length-append prefix rest, ap length n, longer)),
            ),
          ),
      λ (rest, (s, u, e, n)).
          let x = p.1 (rest, e) in
          let longer : length prefix < length f.path =
            omega (arith, ap length e, length-append prefix rest, not_empty rest n) in
          ground arith,
    )
  where
    not_empty : (s : List ℕ) → s ≢ [] → 0 < length s
    not_empty [] n = absurd (n refl)
    not_empty (c ∷ s) n = omega arith

-- What an element says of a file below the prefix.
abbrev pub Shows : List ℕ → Element → File → Type 0
Shows prefix e f =
    (has_slash e.name ≡ false)
    × (((e.is_file ≡ true) × (e.path ≡ f.path) × (e.size ≡ f.size) × (f.path ≡ prefix ++ e.name))
        ⊎ ((e.is_file ≡ false)
            × (e.size ≡ 0)
            × (e.path ≡ prefix ++ (e.name ++ slash ∷ []))
            × ((more : List ℕ) × (f.path ≡ prefix ++ (e.name ++ slash ∷ more)))))

pub element-Shows :
    (prefix rest : List ℕ) (f : File) → f.path ≡ prefix ++ rest → Shows prefix (element prefix f) f
unfolding element
element-Shows prefix rest f e =
    let d : drop (length prefix) f.path ≡ rest =
      ap (drop (length prefix)) e ∙ drop-append prefix rest in
    elim (Bool-cases (has_slash rest)) [
      | inr n ↦ rw (element, d, n) (n, inl (refl, refl, refl, e))
      | inl n ↦
          let (a, (more, b)) = before_slash_sound rest n in
          rw (element, d, n) (a, inr (refl, refl, refl, (more, e ∙ ap (λ s. prefix ++ s) b)))
    ]

pub element-name :
    (prefix rest name : List ℕ) (f : File)
    → f.path ≡ prefix ++ rest
    → IsFirstPart name rest
    → (element prefix f).name ≡ name
unfolding element
element-name prefix rest name f e (n, inl same) =
    let d : drop (length prefix) f.path ≡ name =
      ap (drop (length prefix)) e ∙ drop-append prefix rest ∙ same in
    rw (element, d, n)
element-name prefix rest name f e (n, inr (more, b)) =
    let d : drop (length prefix) f.path ≡ name ++ slash ∷ more =
      ap (drop (length prefix)) e ∙ drop-append prefix rest ∙ b in
    rw (element, d, has_slash_at name more) (before_slash_at name more n)
