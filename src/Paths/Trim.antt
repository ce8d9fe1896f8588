-- ===== src/Paths/Trim.antt =====
-- Trimming, joining and directory prefixes: the results are in normal form.
use pentaract.Prelude.{
  ℕ, zero, suc, Option, List, ◌≡◌, ◌≢◌, refl, ap, ◌∙◌, arith, Bool, true, false, [], ◌∷◌, ◌++◌,
  ◌==◌, if◌then◌else◌, append_assoc, none, some, length, take, drop, bytes,
}
use pentaract.Paths.{
  slash, is_empty, trim, trim_left, trim_trailing_slash, join, join_trimmed, dir_prefix,
  archive_name, archive_base, last_index, split_dir_and_file,
}
use pentaract.Paths.Split.{
  contains, last_index-append, last_index-none, last_index_after, last_index_at,
}

pub starts_with_slash : List ℕ → Bool
starts_with_slash [] = false
starts_with_slash (c ∷ s) = c == slash

pub ends_with_slash : List ℕ → Bool
ends_with_slash [] = false
ends_with_slash (c ∷ s) = if is_empty s then c == slash else ends_with_slash s

-- Neither end of the path is a slash.
pub record IsTrimmed (s : List ℕ) : Type 0 where
  pub front : starts_with_slash s ≡ false
  pub back : ends_with_slash s ≡ false

ends-trim_trailing_slash : (s : List ℕ) → ends_with_slash (trim_trailing_slash s) ≡ false
unfolding trim_trailing_slash ends_with_slash
ends-trim_trailing_slash [] = refl
ends-trim_trailing_slash (c ∷ s) = ground (arith, ends-trim_trailing_slash s)

starts-trim_trailing_slash :
    (s : List ℕ) → starts_with_slash s ≡ false → starts_with_slash (trim_trailing_slash s) ≡ false
unfolding trim_trailing_slash starts_with_slash
starts-trim_trailing_slash [] h = refl
starts-trim_trailing_slash (c ∷ s) h = ground arith

starts-trim_left : (s : List ℕ) → starts_with_slash (trim_left s) ≡ false
unfolding trim_left starts_with_slash
starts-trim_left [] = refl
starts-trim_left (c ∷ s) = ground (arith, starts-trim_left s)

trim_left_of_trimmed : (s : List ℕ) → starts_with_slash s ≡ false → trim_left s ≡ s
unfolding trim_left starts_with_slash
trim_left_of_trimmed [] h = refl
trim_left_of_trimmed (c ∷ s) h = ground arith

trim_trailing_of_trimmed : (s : List ℕ) → ends_with_slash s ≡ false → trim_trailing_slash s ≡ s
unfolding trim_trailing_slash ends_with_slash
trim_trailing_of_trimmed [] h = refl
trim_trailing_of_trimmed (c ∷ []) h = ground arith
trim_trailing_of_trimmed (c ∷ d ∷ s) h = ground (arith, trim_trailing_of_trimmed (d ∷ s))

trim_trailing-append_slash :
    (s : List ℕ) → trim_trailing_slash (s ++ slash ∷ []) ≡ trim_trailing_slash s
unfolding trim_trailing_slash
trim_trailing-append_slash [] = refl
trim_trailing-append_slash (c ∷ s) = rw (trim_trailing-append_slash s)

pub trim-IsTrimmed : (s : List ℕ) → IsTrimmed (trim s)
unfolding trim
trim-IsTrimmed s = record {
  front = starts-trim_trailing_slash (trim_left s) (starts-trim_left s);
  back = ends-trim_trailing_slash (trim_left s);
}

pub trim_of_IsTrimmed : (s : List ℕ) → IsTrimmed s → trim s ≡ s
unfolding trim
trim_of_IsTrimmed s t = rw (trim_left_of_trimmed s t.front) (trim_trailing_of_trimmed s t.back)

ends-append :
    (s : List ℕ) (c : ℕ) (t : List ℕ) → ends_with_slash (s ++ c ∷ t) ≡ ends_with_slash (c ∷ t)
unfolding ends_with_slash
ends-append [] c t = refl
ends-append (x ∷ []) c t = refl
ends-append (x ∷ y ∷ s) c t = ends-append (y ∷ s) c t

join_trimmed-IsTrimmed : (a b : List ℕ) → IsTrimmed a → IsTrimmed b → IsTrimmed (join_trimmed a b)
unfolding join_trimmed
join_trimmed-IsTrimmed [] b ta tb = tb
join_trimmed-IsTrimmed (x ∷ a) [] ta tb = ta
join_trimmed-IsTrimmed (x ∷ a) (y ∷ b) ta tb = record {
  front = unfold starts_with_slash in ta.front;
  back = rw (ends-append (x ∷ a) slash (y ∷ b)) (unfold ends_with_slash in tb.back);
}

-- A joined path neither starts nor ends with a slash.
pub join-IsTrimmed : (base name : List ℕ) → IsTrimmed (join base name)
unfolding join
join-IsTrimmed base name =
    join_trimmed-IsTrimmed (trim base) (trim name) (trim-IsTrimmed base) (trim-IsTrimmed name)

join_trimmed_assoc :
    (a b c : List ℕ) → join_trimmed (join_trimmed a b) c ≡ join_trimmed a (join_trimmed b c)
unfolding join_trimmed
join_trimmed_assoc [] b c = refl
join_trimmed_assoc (x ∷ a) [] c = refl
join_trimmed_assoc (x ∷ a) (y ∷ b) [] = refl
join_trimmed_assoc (x ∷ a) (y ∷ b) (z ∷ c) = append_assoc (x ∷ a) (slash ∷ y ∷ b) (slash ∷ z ∷ c)

-- Joining is associative, so a path does not depend on the order in which its parts are joined.
pub join_assoc : (a b c : List ℕ) → join (join a b) c ≡ join a (join b c)
unfolding join
join_assoc a b c =
    rw (trim_of_IsTrimmed _ (join-IsTrimmed a b), trim_of_IsTrimmed _ (join-IsTrimmed b c))
      (join_trimmed_assoc (trim a) (trim b) (trim c))

take-length-append :
    (p : List ℕ) (c : ℕ) (f : List ℕ) → take (suc (length p)) (p ++ c ∷ f) ≡ p ++ c ∷ []
take-length-append [] c f = refl
take-length-append (x ∷ p) c f = ap (λ t. x ∷ t) (take-length-append p c f)

drop-length-append : (p : List ℕ) (c : ℕ) (f : List ℕ) → drop (suc (length p)) (p ++ c ∷ f) ≡ f
drop-length-append [] c f = refl
drop-length-append (x ∷ p) c f = drop-length-append p c f

split_trimmed :
    (a b : List ℕ)
    → a ≢ []
    → b ≢ []
    → contains slash b ≡ false
    → split_dir_and_file (join_trimmed a b) ≡ (a ++ slash ∷ [], b)
unfolding split_dir_and_file join_trimmed
split_trimmed [] b p q h = absurd (p refl)
split_trimmed (x ∷ a) [] p q h = absurd (q refl)
split_trimmed (x ∷ a) (y ∷ b) p q h =
    rw (last_index-append slash (x ∷ a) (y ∷ b) h)
      (cc (take-length-append (x ∷ a) slash (y ∷ b), drop-length-append (x ∷ a) slash (y ∷ b)))

-- Splitting a joined path gives back its two parts, where neither is only slashes and the name has no slash inside.
pub split_dir_and_file-join :
    (base name : List ℕ)
    → trim base ≢ []
    → trim name ≢ []
    → contains slash (trim name) ≡ false
    → split_dir_and_file (join base name) ≡ (trim base ++ slash ∷ [], trim name)
unfolding join
split_dir_and_file-join base name p q h = split_trimmed (trim base) (trim name) p q h

-- The directory prefix of a path that is not empty is the path without its trailing slashes and one
-- slash, and taking the directory prefix again changes nothing.
pub dir_prefix_shape :
    (c : ℕ) (p : List ℕ)
    → (dir_prefix (c ∷ p) ≡ trim_trailing_slash (c ∷ p) ++ slash ∷ [])
      × (ends_with_slash (trim_trailing_slash (c ∷ p)) ≡ false)
      × (dir_prefix (dir_prefix (c ∷ p)) ≡ dir_prefix (c ∷ p))
unfolding dir_prefix
dir_prefix_shape c p = (
  refl,
  ends-trim_trailing_slash (c ∷ p),
  again (trim_trailing_slash (c ∷ p))
      (trim_trailing_of_trimmed _ (ends-trim_trailing_slash (c ∷ p))),
)
  where
    again :
        (q : List ℕ) → trim_trailing_slash q ≡ q → dir_prefix (q ++ slash ∷ []) ≡ q ++ slash ∷ []
    again [] e = refl
    again (x ∷ q) e = rw (trim_trailing-append_slash (x ∷ q)) (rw e)

-- A text whose last index of a slash leaves nothing behind it ends in a slash.
ends_of_nothing_after : (s : List ℕ) (i : ℕ) → drop i s ≡ slash ∷ [] → ends_with_slash s ≡ true
unfolding ends_with_slash
ends_of_nothing_after s zero e = rw e
ends_of_nothing_after [] (suc i) e = cc
ends_of_nothing_after (x ∷ []) (suc zero) e = cc
ends_of_nothing_after (x ∷ []) (suc (suc i)) e = cc
ends_of_nothing_after (x ∷ y ∷ s) (suc i) e = ends_of_nothing_after (y ∷ s) i e

-- A usable name: not empty, and with no slash in it.
abbrev pub IsPlainName : List ℕ → Type 0
IsPlainName s = (s ≢ []) × (contains slash s ≡ false)

archive_base-IsPlainName :
    (s : List ℕ)
    → s ≢ []
    → ends_with_slash s ≡ false
    → (o : Option ℕ) → last_index slash s ≡ o
    → IsPlainName (archive_base s o)
unfolding archive_base
archive_base-IsPlainName s n e none p = (n, last_index-none slash s p)
archive_base-IsPlainName s n e (some i) p = (
  λ z. cc (e, ends_of_nothing_after s i (last_index_at slash s i p ∙ ap (λ t. slash ∷ t) z)),
  last_index_after slash s i p,
)

archive_of_trimmed :
    (s : List ℕ)
    → ends_with_slash s ≡ false
    → IsPlainName (if is_empty s then bytes "files" else archive_base s (last_index slash s))
unfolding contains
archive_of_trimmed [] e = (λ z. cc, refl)
archive_of_trimmed (c ∷ s) e =
    archive_base-IsPlainName (c ∷ s) (λ z. cc) e (last_index slash (c ∷ s)) refl

-- The name of an archive is never empty and holds no slash, whatever the path.
pub archive_name-IsPlainName : (path : List ℕ) → IsPlainName (archive_name path)
unfolding archive_name
archive_name-IsPlainName path = archive_of_trimmed (trim path) (trim-IsTrimmed path).back
