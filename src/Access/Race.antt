-- ===== src/Access/Race.antt =====
-- The check and the write of internal/service/access.go are two statements: what two calls at once can do.
use pentaract.Prelude.{
  ℕ, ◌≡◌, ◌≢◌, refl, ap, sym, ◌∙◌, ◌⊎◌, inl, inr, true, false, ◌&&◌, none, some, List, [], ◌∷◌,
  ◌==◌, if◌then◌else◌, arith, Bool-cases,
}
use pentaract.Access.{
  AccessType, admin, Row, Database, is_of, has_access, has_row, delete_rows, delete_access,
  write_rows, grant, revoke, require_storage_access, Request, ask_grant, ask_revoke, handle, admit,
  carry_out, interleave,
}
use pentaract.Access.Rows.{has_access-delete_rows}

-- A call that is served alone is its check and then its write.
pub handle-carry_out :
    (r : Request) (rows : List Row)
    → handle r rows ≡ elim (admit r rows) [ some e ↦ (some e, rows) | none ↦ carry_out r rows ]
unfolding handle grant revoke admit carry_out
handle-carry_out (ask_grant db caller storage email level) rows = refl
handle-carry_out (ask_revoke db caller storage target) rows = refl

has_row-has_access :
    (u s : ℕ) (q : AccessType) (rows : List Row)
    → has_access u s q rows ≡ true
    → has_row u s rows ≡ true
unfolding has_row has_access is_of
has_row-has_access u s q [] h = h
has_row-has_access u s q (r ∷ rs) h = ground (arith, has_row-has_access u s q rs)

admitted :
    (db : Database) (u s target : ℕ) (rows : List Row)
    → db.access_failure ≡ none
    → has_access u s admin rows ≡ true
    → admit (ask_revoke db u s target) rows ≡ none
unfolding admit require_storage_access
admitted db u s target rows f h = rw (admit, require_storage_access, f, h)

both :
    (a b : Request) (rows : List Row)
    → admit a rows ≡ none
    → admit b rows ≡ none
    → interleave a b rows ≡ (carry_out b (carry_out a rows).1).1
unfolding interleave
both a b rows e f = rw (interleave, f, e)

revoked :
    (db : Database) (caller target s : ℕ) (rows : List Row)
    → db.write_failure ≡ none
    → (target == caller) ≡ false
    → has_access target s admin rows ≡ true
    → (carry_out (ask_revoke db caller s target) rows).1 ≡ delete_rows target s rows
unfolding carry_out delete_access write_rows
revoked db caller target s rows f n h =
    let found = has_row-has_access target s admin rows h in
    rw (carry_out, n, delete_access, found, write_rows, f)

-- Two administrators of a storage who are its only ones and revoke each other's access at once, both checks before
-- both writes, leave it without any administrator.
pub interleave-revokes :
    (db : Database) (a b s : ℕ) (rows : List Row)
    → db.access_failure ≡ none
    → db.write_failure ≡ none
    → a ≢ b
    → has_access a s admin rows ≡ true
    → has_access b s admin rows ≡ true
    → ((u : ℕ) → has_access u s admin rows ≡ true → (u ≡ a) ⊎ (u ≡ b))
    → (u : ℕ)
    → has_access u s admin (interleave (ask_revoke db a s b) (ask_revoke db b s a) rows) ≡ false
interleave-revokes db a b s rows f g n ha hb only u =
    let ab = differs b a (λ e. n (sym e)) in
    let ba = differs a b n in
    let kept : has_access a s admin (delete_rows b s rows) ≡ true =
      has_access-delete_rows b s a s admin rows ∙ ground arith in
    let end : interleave (ask_revoke db a s b) (ask_revoke db b s a) rows
        ≡ delete_rows a s (delete_rows b s rows) =
      both (ask_revoke db a s b) (ask_revoke db b s a) rows (admitted db a s b rows f ha)
        (admitted db b s a rows f hb)
      ∙ ap (λ l. (carry_out (ask_revoke db b s a) l).1) (revoked db a b s rows g ab hb)
      ∙ revoked db b a s (delete_rows b s rows) g ba kept in
    ap (has_access u s admin) end
    ∙ has_access-delete_rows a s u s admin (delete_rows b s rows)
    ∙ ap (λ x. if a == u && s == s then false else x) (has_access-delete_rows b s u s admin rows)
    ∙ gone
  where
    differs : (x y : ℕ) → x ≢ y → (x == y) ≡ false
    differs x y k = elim (Bool-cases (x == y)) [ inr e ↦ e | inl e ↦ absurd (k (ground arith)) ]

    gone :
        (if a == u && s == s
          then false
          else (if b == u && s == s then false else has_access u s admin rows))
        ≡ false
    gone = elim (Bool-cases (has_access u s admin rows)) [
      | inr e ↦ ground arith
      | inl e ↦ elim (only u e) [ inl p ↦ ground arith | inr p ↦ ground arith ]
    ]
