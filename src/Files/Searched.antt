-- ===== src/Files/Searched.antt =====
-- What a search finds.
use pentaract.Prelude.{
  ℕ, ◌≡◌, refl, ap, sym, ◌∙◌, inl, inr, ◌↔◌, Bool, true, false, ◌||◌, List, [], ◌∷◌, ◌++◌, ◌==◌,
  arith, Bool-cases, Option-cases, bytes, bytes_eq, bytes_eq_refl, bytes_eq→eq,
}
use pentaract.Domain.{File}
use pentaract.Files.Like.{
  like, tokens_of, accepts, some_end, strip, strip-append, strip_sound, is_some, some_end_all,
  is_plain, is_special, like_prefix,
}
use pentaract.Prelude.Members.{In}
use pentaract.Paths.{dir_prefix}
use pentaract.Files.{Tables}
use pentaract.Files.Listing.{
  escape, Element, is_found, rows_where, order_by, found_element, found_elements, search,
}
use pentaract.Files.Ordered.{In-order_by, In-rows_where}

unfoldable pub has_backslash : List ℕ → Bool
has_backslash [] = false
has_backslash (c ∷ s) = c == b'\\' || has_backslash s

-- The escaped text and `%` accept what begins with the text.
accepts-escape :
    (s t : List ℕ)
    → has_backslash s ≡ false
    → accepts (tokens_of false (escape s ++ bytes "%")) t ≡ is_some (strip s t)
unfolding accepts tokens_of escape strip has_backslash
accepts-escape [] t h = some_end_all t
accepts-escape (c ∷ s) [] h = ground arith
accepts-escape (c ∷ s) (x ∷ t) h = ground (arith, accepts-escape s t)

some_end_sound :
    (f : List ℕ → Bool) (t : List ℕ)
    → some_end f t ≡ true
    → (a : List ℕ) × (e : List ℕ) × (t ≡ a ++ e) × (f e ≡ true)
unfolding some_end
some_end_sound f [] h = ([], [], refl, h)
some_end_sound f (x ∷ t) h = elim (Bool-cases (f (x ∷ t))) [
  | inl e ↦ ([], x ∷ t, refl, e)
  | inr e ↦
      let r = some_end_sound f t (rw (some_end, e) at h) in (x ∷ r.0, r.1, ap (λ s. x ∷ s) r.2, r.3)
]

some_end_complete : (f : List ℕ → Bool) (a e : List ℕ) → f e ≡ true → some_end f (a ++ e) ≡ true
unfolding some_end
some_end_complete f [] [] h = h
some_end_complete f [] (x ∷ e) h = ground arith
some_end_complete f (x ∷ a) e h = ground (arith, some_end_complete f a e h)

-- A pattern of an escaped text between two `%` matches exactly the paths that contain the text, where that has
-- no backslash.
like-escape :
    (s t : List ℕ)
    → has_backslash s ≡ false
    → (like t (b'%' ∷ escape s ++ bytes "%") ≡ true)
      ↔ ((a : List ℕ) × (b : List ℕ) × (t ≡ a ++ (s ++ b)))
unfolding like tokens_of accepts
like-escape s t h =
    let f = accepts (tokens_of false (escape s ++ bytes "%")) in
    (
      λ m.
          let r = some_end_sound f t m in
          elim (Option-cases (strip s r.1)) [
            | inl n ↦ absurd (ground (arith, accepts-escape s r.1 h, r.3, ap is_some n))
            | inr (b, n) ↦ (r.0, b, r.2 ∙ ap (λ e. r.0 ++ e) (strip_sound s r.1 b n))
          ],
      λ (a, b, e).
          ap (some_end f) e
          ∙ some_end_complete f a (s ++ b)
              (accepts-escape s (s ++ b) h ∙ ap is_some (strip-append s b)),
    )

accepts-plain : (p t : List ℕ) → is_plain p ≡ true → accepts (tokens_of false p) t ≡ bytes_eq t p
unfolding accepts tokens_of is_plain is_special bytes_eq
accepts-plain [] [] h = refl
accepts-plain [] (x ∷ t) h = refl
accepts-plain (c ∷ p) [] h = ground arith
accepts-plain (c ∷ p) (x ∷ t) h = ground (arith, accepts-plain p t)

-- `LIKE '%/.folder'`.
abbrev pub IsPlaceholder : List ℕ → Type 0
IsPlaceholder path = (folder : List ℕ) × (path ≡ folder ++ bytes "/.folder")

like-IsPlaceholder : (t : List ℕ) → (like t (bytes "%/.folder") ≡ true) ↔ IsPlaceholder t
unfolding like tokens_of accepts is_plain is_special
like-IsPlaceholder t =
    let w = bytes "/.folder" in
    let f = accepts (tokens_of false w) in
    (
      λ m.
          let r = some_end_sound f t m in
          (
            r.0,
            r.2 ∙ ap (λ e. r.0 ++ e) (bytes_eq→eq r.1 w (sym (accepts-plain w r.1 refl) ∙ r.3)),
          ),
      λ (a, e).
          ap (some_end f) e ∙ some_end_complete f a w (accepts-plain w w refl ∙ bytes_eq_refl w),
    )

In-found_elements :
    (fs : List File) (e : Element)
    → In e (found_elements fs) ↔ ((f : File) × In f fs × (e ≡ found_element f))
unfolding found_elements
In-found_elements [] e = (λ m. absurd m, λ m. absurd m.1)
In-found_elements (g ∷ fs) e =
    let ih = In-found_elements fs e in
    (
      λ m. elim m [
        | inl same ↦ (g, inl refl, same)
        | inr n ↦ let r = ih.0 n in (r.0, inr r.1, r.2)
      ],
      λ (f, m, same). elim m [
        | inl here ↦ inl (same ∙ ap found_element here)
        | inr n ↦ inr (ih.1 (f, n, same))
      ],
    )

-- What a search of a storage below a directory prefix is for: the uploaded files there whose path contains the
-- text, without the placeholders of folders.
abbrev pub IsSought : ℕ → List ℕ → List ℕ → File → Type 0
IsSought storage prefix text f =
    (f.storage_id ≡ storage)
    × ((rest : List ℕ) × (f.path ≡ prefix ++ rest))
    × ((a : List ℕ) × (b : List ℕ) × (f.path ≡ a ++ (text ++ b)))
    × (f.is_uploaded ≡ true)
    × (¬ IsPlaceholder f.path)

pub begins-with :
    (p t : List ℕ)
    → is_plain p ≡ true
    → (like t (p ++ bytes "%") ≡ true) ↔ ((rest : List ℕ) × (t ≡ p ++ rest))
begins-with p t h = (
  λ m. elim (Option-cases (strip p t)) [
    | inl n ↦ absurd (ground (arith, like_prefix p t h))
    | inr (rest, n) ↦ (rest, strip_sound p t rest n)
  ],
  λ (rest, e).
      ap (λ u. like u (p ++ bytes "%")) e
      ∙ like_prefix p (p ++ rest) h
      ∙ ap is_some (strip-append p rest),
)

pub not-IsPlaceholder : (t : List ℕ) → (like t (bytes "%/.folder") ≡ false) ↔ (¬ IsPlaceholder t)
not-IsPlaceholder t =
    let p = like-IsPlaceholder t in
    (
      λ e x. absurd (ground (arith, p.1 x)),
      λ n. elim (Bool-cases (like t (bytes "%/.folder"))) [
        | inr e ↦ e
        | inl e ↦ absurd (n (p.0 e))
      ],
    )

is_found-IsSought :
    (storage : ℕ) (prefix text : List ℕ) (f : File)
    → is_plain prefix ≡ true
    → has_backslash text ≡ false
    → (is_found storage prefix text f ≡ true) ↔ IsSought storage prefix text f
unfolding is_found
is_found-IsSought storage prefix text f h k =
    let p = begins-with prefix f.path h in
    let q = like-escape text f.path k in
    let r = not-IsPlaceholder f.path in
    (
      λ m. (ground arith, p.0 (ground arith), q.0 (ground arith), ground arith, r.0 (ground arith)),
      λ (s, b, c, u, n). let x = p.1 b in let y = q.1 c in let z = r.1 n in ground arith,
    )

-- A search below a directory without the characters % _ \ for a text without \ finds exactly the uploaded files
-- of the storage that are there and contain the text, but for the placeholders of folders.
pub search-IsSought :
    (collate : List ℕ → List ℕ → Bool) (storage : ℕ) (base text : List ℕ) (t : Tables) (e : Element)
    → is_plain (dir_prefix base) ≡ true
    → has_backslash text ≡ false
    → In e (search collate storage base text t) ↔ (
        (f : File) × In f t.files
        × IsSought storage (dir_prefix base) text f
        × (e ≡ found_element f))
unfolding search
search-IsSought collate storage base text t e h k =
    let le = λ (a b : File). collate a.path b.path in
    let test = is_found storage (dir_prefix base) text in
    let rows = rows_where test t.files in
    let out = In-found_elements (order_by le rows) e in
    (
      λ m.
          let (f, n, same) = out.0 m in
          let r = (In-rows_where test t.files f).0 ((In-order_by le rows f).0 n) in
          (f, r.0, (is_found-IsSought storage (dir_prefix base) text f h k).0 r.1, same),
      λ (f, n, s, same).
          let r =
            (In-rows_where test t.files f).1
              (n, (is_found-IsSought storage (dir_prefix base) text f h k).1 s) in
          out.1 (f, (In-order_by le rows f).1 r, same),
    )
