-- ===== src/Database/Accounts/Rows.antt =====
-- What a query finds, and what a row that was found and changed is found as.
use clawbake.Base.{
  String, List, [], ◌∷◌, Bool, true, false, ◌≡◌, refl, any, arith, string_eq, ◌==◌, ==_refl, subst,
  sym, ap, ◌∙◌, Bool-cases, inl, inr,
}
use clawbake.Api.{Error, ok, err}
use clawbake.Database.{User}
use clawbake.Database.Store.{first_where, conflicts, replace_row}
use clawbake.Database.Consistency.{lacks, Distinct, free, id_of, email_of, subject_of}

pub free_of_lacks :
    (key : User → String) (id k : String) (vs : List User)
    → lacks key k vs ≡ true
    → free key id k vs ≡ true
free_of_lacks key id k [] h = refl
free_of_lacks key id k (v ∷ vs) h = ground (arith, h, free_of_lacks key id k vs)

module _ (p : User → Bool) where
  ok_head : (v u : User) (vs : List User) → p v ≡ true → first_where p (v ∷ vs) ≡ ok u → v ≡ u
  ok_head v u vs h e = cc (rw h at e)

  ok_tail :
      (v u : User) (vs : List User)
      → p v ≡ false
      → first_where p (v ∷ vs) ≡ ok u
      → first_where p vs ≡ ok u
  ok_tail v u vs h e = rw h at e

  pub found_fits : (u : User) (vs : List User) → first_where p vs ≡ ok u → p u ≡ true
  found_fits u [] e = cc
  found_fits u (v ∷ vs) e = elim (Bool-cases (p v)) [
    | inl here ↦ subst (λ x. p x ≡ true) (ok_head v u vs here e) here
    | inr later ↦ found_fits u vs (ok_tail v u vs later e)
  ]

  -- A row that was found has a key that no row with another key has.
  key_of_found :
      (key : User → String) (k : String) (u : User) (vs : List User)
      → first_where p vs ≡ ok u
      → lacks key k vs ≡ true
      → (key u == k) ≡ false
  key_of_found key k u [] e h = cc
  key_of_found key k u (v ∷ vs) e h = elim (Bool-cases (p v)) [
    | inl here ↦ subst (λ x. (key x == k) ≡ false) (ok_head v u vs here e) (ground (arith, h))
    | inr later ↦ key_of_found key k u vs (ok_tail v u vs later e) (ground (arith, h))
  ]

  -- The same row is found by its id.
  pub found_by_id :
      (u : User) (vs : List User)
      → first_where p vs ≡ ok u
      → Distinct id_of vs
      → first_where (λ v. v.id == u.id) vs ≡ ok u
  found_by_id u [] e d = cc
  found_by_id u (v ∷ vs) e (d, ds) = elim (Bool-cases (p v)) [
    | inl here ↦
        subst (λ x. first_where (λ w. w.id == x.id) (v ∷ vs) ≡ ok x) (ok_head v u vs here e)
          (rw (==_refl v.id) refl)
    | inr later ↦
        let tail : first_where p vs ≡ ok u = ok_tail v u vs later e in
        let apart : (u.id == v.id) ≡ false = key_of_found id_of v.id u vs tail d in
        let apart' : (v.id == u.id) ≡ false =
          ground (arith, apart, string_eq.decides u.id v.id, string_eq.decides v.id u.id) in
        rw apart' (found_by_id u vs tail ds)
  ]

  -- The keys of a row that was found are free for its id.
  pub free_for_found :
      (key : User → String) (u : User) (vs : List User)
      → first_where p vs ≡ ok u
      → Distinct key vs
      → free key u.id (key u) vs ≡ true
  free_for_found key u [] e d = refl
  free_for_found key u (v ∷ vs) e (d, ds) = elim (Bool-cases (p v)) [
    | inl here ↦
        subst (λ x. free key x.id (key x) (v ∷ vs) ≡ true) (ok_head v u vs here e)
          (rw (==_refl v.id) (free_of_lacks key v.id (key v) vs d))
    | inr later ↦
        let tail : first_where p vs ≡ ok u = ok_tail v u vs later e in
        let apart : (key u == key v) ≡ false = key_of_found key (key v) u vs tail d in
        let rest : free key u.id (key u) vs ≡ true = free_for_found key u vs tail ds in
        ground
          (arith, rest, apart, string_eq.decides (key u) (key v), string_eq.decides (key v) (key u))
  ]

  -- What is found once the row has been written over, if the query fits the new row too.
  pub found_rewritten :
      (u row : User) (vs : List User)
      → first_where p vs ≡ ok u
      → Distinct id_of vs
      → row.id ≡ u.id
      → p row ≡ true
      → first_where p (replace_row row vs) ≡ ok row
  found_rewritten u row [] e d same fits = cc
  found_rewritten u row (v ∷ vs) e (d, ds) same fits = elim (Bool-cases (p v)) [
    | inl here ↦
        let is_u : (v.id == row.id) ≡ true =
          (string_eq.decides v.id row.id).1 (ap id_of (ok_head v u vs here e) ∙ sym same) in
        rw (is_u, fits) refl
    | inr later ↦
        let tail : first_where p vs ≡ ok u = ok_tail v u vs later e in
        let apart : (u.id == v.id) ≡ false = key_of_found id_of v.id u vs tail d in
        let apart' : (v.id == row.id) ≡ false =
          ground (arith, apart, same, string_eq.decides u.id v.id, string_eq.decides v.id row.id) in
        rw (apart', later) (found_rewritten u row vs tail ds same fits)
  ]

pub lacks_of_unfound :
    (s : String) (e : Error) (vs : List User)
    → first_where (λ u. u.oidc_subject == s) vs ≡ err e
    → lacks subject_of s vs ≡ true
lacks_of_unfound s e [] h = refl
lacks_of_unfound s e (v ∷ vs) h = ground (arith, h, lacks_of_unfound s e vs)

pub no_conflict :
    (row : User) (vs : List User)
    → free email_of row.id row.email vs ≡ true
    → free subject_of row.id row.oidc_subject vs ≡ true
    → any (conflicts row) vs ≡ false
no_conflict row [] h k = refl
no_conflict row (v ∷ vs) h k = ground (arith, h, k, no_conflict row vs)

-- A subject that no row had is found with the row that it is written to.
pub found_new_subject :
    (p : User → Bool) (u row : User) (vs : List User)
    → first_where p vs ≡ ok u
    → Distinct id_of vs
    → row.id ≡ u.id
    → lacks subject_of row.oidc_subject vs ≡ true
    → first_where (λ v. v.oidc_subject == row.oidc_subject) (replace_row row vs) ≡ ok row
found_new_subject p u row [] e d same new = cc
found_new_subject p u row (v ∷ vs) e (d, ds) same new = elim (Bool-cases (p v)) [
  | inl here ↦
      let is_u : (v.id == row.id) ≡ true =
        (string_eq.decides v.id row.id).1 (ap id_of (ok_head p v u vs here e) ∙ sym same) in
      rw (is_u, ==_refl row.oidc_subject) refl
  | inr later ↦
      let tail : first_where p vs ≡ ok u = ok_tail p v u vs later e in
      let apart : (u.id == v.id) ≡ false = key_of_found p id_of v.id u vs tail d in
      let apart' : (v.id == row.id) ≡ false =
        ground (arith, apart, same, string_eq.decides u.id v.id, string_eq.decides v.id row.id) in
      let others : (v.oidc_subject == row.oidc_subject) ≡ false = ground (arith, new) in
      rw (apart', others) (found_new_subject p u row vs tail ds same (ground (arith, new)))
]
