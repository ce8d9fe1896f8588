-- ===== src/Files/Directory.antt =====
-- The listing of a directory as a whole: everything visible, once.
use pentaract.Prelude.{
  ℕ, ◌≤◌, ◌≡◌, ◌≢◌, refl, ap, sym, ◌∙◌, inl, inr, ◌↔◌, Bool, true, false, ◌&&◌, List, [], ◌∷◌,
  if◌then◌else◌, arith, Bool-cases, bytes, bytes_eq, bytes_eq_refl, bytes_eq→eq,
}
use pentaract.Prelude.Members.{In}
use pentaract.Domain.{File}
use pentaract.Paths.{dir_prefix}
use pentaract.Files.{Tables}
use pentaract.Files.Like.{is_plain}
use pentaract.Files.Listing.{
  Element, element, is_listed, elements, has_name, distinct_on_name, order_by, hide_placeholders,
  list_dir,
}
use pentaract.Files.Ordered.{In-order_by, sum_by, sum_by-order_by}
use pentaract.Files.Shown.{
  IsVisible, IsFirstPart, Shows, is_listed-IsVisible, element-Shows, element-name,
}

In-elements :
    (storage : ℕ) (prefix : List ℕ) (fs : List File) (e : Element)
    → In e (elements storage prefix fs)
      ↔ ((f : File) × In f fs × (is_listed storage prefix f ≡ true) × (e ≡ element prefix f))
unfolding elements
In-elements storage prefix [] e = (λ m. absurd m, λ m. absurd m.1)
In-elements storage prefix (g ∷ fs) e =
    let ih = In-elements storage prefix fs e in
    elim (Bool-cases (is_listed storage prefix g)) [
      | inl l ↦
          rw (elements, l)
            (
              λ m. elim m [
                | inl same ↦ (g, inl refl, l, same)
                | inr n ↦ let r = ih.0 n in (r.0, inr r.1, r.2, r.3)
              ],
              λ (f, m, k, same). elim m [
                | inl here ↦ inl (same ∙ ap (element prefix) here)
                | inr n ↦ inr (ih.1 (f, n, k, same))
              ],
            )
      | inr l ↦
          rw (elements, l)
            (
              λ m. let r = ih.0 m in (r.0, inr r.1, r.2, r.3),
              λ (f, m, k, same). elim m [
                | inl here ↦ absurd (ground (arith, ap (is_listed storage prefix) here, k))
                | inr n ↦ ih.1 (f, n, k, same)
              ],
            )
    ]

In-distinct_on_name : (es : List Element) (e : Element) → In e (distinct_on_name es) → In e es
unfolding distinct_on_name
In-distinct_on_name [] e m = m
In-distinct_on_name (x ∷ es) e m = elim (Bool-cases (has_name x.name (distinct_on_name es))) [
  | inl h ↦ inr (In-distinct_on_name es e (rw (distinct_on_name, h) at m))
  | inr h ↦ elim (rw (distinct_on_name, h) at m) [
    | inl same ↦ inl same
    | inr n ↦ inr (In-distinct_on_name es e n)
  ]
]

In-hide_placeholders : (es : List Element) (e : Element) → In e (hide_placeholders es) → In e es
unfolding hide_placeholders
In-hide_placeholders [] e m = m
In-hide_placeholders (x ∷ es) e m =
    elim (Bool-cases (x.is_file && bytes_eq x.name (bytes ".folder"))) [
      | inl h ↦ inr (In-hide_placeholders es e (rw (hide_placeholders, h) at m))
      | inr h ↦ elim (rw (hide_placeholders, h) at m) [
        | inl same ↦ inl same
        | inr n ↦ inr (In-hide_placeholders es e n)
      ]
    ]

-- How often a name is listed.
abbrev pub has : List ℕ → Element → ℕ
has name e = if bytes_eq e.name name then 1 else 0

pub times : List ℕ → List Element → ℕ
unfolding sum_by
times name es = sum_by (has name) es

times-none : (name : List ℕ) (es : List Element) → has_name name es ≡ false → times name es ≡ 0
unfolding times has_name sum_by
times-none name [] h = refl
times-none name (x ∷ es) h = ground (arith, times-none name es)

-- Once, where it was there at all.
times-distinct_on_name :
    (name : List ℕ) (es : List Element)
    → times name (distinct_on_name es) ≡ (if has_name name es then 1 else 0)
unfolding times has_name sum_by distinct_on_name
times-distinct_on_name name [] = refl
times-distinct_on_name name (x ∷ es) =
    let rest = distinct_on_name es in
    let ih = times-distinct_on_name name es in
    elim (Bool-cases (bytes_eq x.name name)) [
      | inr other ↦ elim (Bool-cases (has_name x.name rest)) [
        | inl h ↦ rw (distinct_on_name, h, has_name, other) ih
        | inr h ↦ rw (distinct_on_name, h, has_name, other) (ground (arith, ih))
      ]
      | inl same ↦
          let e = bytes_eq→eq x.name name same in
          elim (Bool-cases (has_name x.name rest)) [
            | inl h ↦
                let there : has_name name rest ≡ true = ap (λ n. has_name n rest) (sym e) ∙ h in
                rw (distinct_on_name, h, has_name, same)
                  (ground (arith, ih, present name rest there))
            | inr h ↦
                let none_there : times name rest ≡ 0 =
                  times-none name rest (ap (λ n. has_name n rest) (sym e) ∙ h) in
                rw (distinct_on_name, h, has_name, same) (ground (arith, none_there))
          ]
    ]
  where
    present : (n : List ℕ) (l : List Element) → has_name n l ≡ true → 1 ≤ sum_by (has n) l
    present n [] h = absurd (ground arith)
    present n (y ∷ l) h = ground (arith, present n l)

times-hide_placeholders :
    (name : List ℕ) (es : List Element)
    → name ≢ bytes ".folder"
    → times name (hide_placeholders es) ≡ times name es
unfolding times sum_by hide_placeholders
times-hide_placeholders name [] n = refl
times-hide_placeholders name (x ∷ es) n =
    let ih = times-hide_placeholders name es n in
    elim (Bool-cases (x.is_file && bytes_eq x.name (bytes ".folder"))) [
      | inr h ↦ rw (hide_placeholders, h) (omega (arith, ih))
      | inl h ↦ elim (Bool-cases (bytes_eq x.name name)) [
        | inl same ↦ absurd (
            n (
              sym (bytes_eq→eq x.name name same)
              ∙ bytes_eq→eq x.name (bytes ".folder") (ground arith)))
        | inr other ↦ rw (hide_placeholders, h, other) (omega (arith, ih))
      ]
    ]

has_name-In : (es : List Element) (e : Element) → In e es → has_name e.name es ≡ true
unfolding has_name
has_name-In [] e m = absurd m
has_name-In (x ∷ es) e (inl same) =
    let k : bytes_eq x.name e.name ≡ true =
      ap (λ y. bytes_eq y.name e.name) (sym same) ∙ bytes_eq_refl e.name in
    ground arith
has_name-In (x ∷ es) e (inr m) = ground (arith, has_name-In es e m)

abbrev pub IsListing : ℕ → List ℕ → Tables → List Element → Type 0
IsListing storage prefix t es =
    ((e : Element)
      → In e es
      → (f : File) × In f t.files
        × ((rest : List ℕ) × IsVisible storage prefix rest f)
        × Shows prefix e f)
    × ((f : File) (rest name : List ℕ)
        → In f t.files
        → IsVisible storage prefix rest f
        → IsFirstPart name rest
        → name ≢ bytes ".folder"
        → times name es ≡ 1)
    × ((name : List ℕ) → name ≢ bytes ".folder" → times name es ≤ 1)

-- The listing of a directory (without the characters % _ \ in its prefix). Each element shows an uploaded file
-- below the directory: itself where no slash follows, with its path and size, or else the folder in which
-- it lies. Each such file is shown, once, by the first part of its path, unless that is the name of the
-- placeholders; and no other name is listed more than once.
pub list_dir_lem :
    (collate : List ℕ → List ℕ → Bool) (storage : ℕ) (path : List ℕ) (t : Tables)
    → is_plain (dir_prefix path) ≡ true
    → IsListing storage (dir_prefix path) t (list_dir collate storage path t)
unfolding list_dir times sum_by
list_dir_lem collate storage path t h =
    let prefix = dir_prefix path in
    let le = λ (a b : Element). collate a.name b.name in
    let rows = elements storage prefix t.files in
    let es = list_dir collate storage path t in
    let count : (name : List ℕ)
        → name ≢ bytes ".folder"
        → times name es ≡ (if has_name name rows then 1 else 0) =
      λ name n.
        times-hide_placeholders name (order_by le (distinct_on_name rows)) n
        ∙ sum_by-order_by le (has name) (distinct_on_name rows)
        ∙ times-distinct_on_name name rows in
    (
      λ e m.
          let n =
            In-distinct_on_name rows e
              ((In-order_by le (distinct_on_name rows) e).0 (In-hide_placeholders _ e m)) in
          let (f, i, l, same) = (In-elements storage prefix t.files e).0 n in
          let v = (is_listed-IsVisible storage prefix f h).0 l in
          (f, i, v, rw same (element-Shows prefix v.0 f v.1.2)),
      λ f rest name m v p n.
          let l = (is_listed-IsVisible storage prefix f h).1 (rest, v) in
          let i = (In-elements storage prefix t.files (element prefix f)).1 (f, m, l, refl) in
          let k = element-name prefix rest name f v.2 p in
          count name n
          ∙ ap (λ b. if b then 1 else 0)
              (ap (λ x. has_name x rows) (sym k) ∙ has_name-In rows (element prefix f) i),
      λ name n. ground (arith, count name n),
    )
