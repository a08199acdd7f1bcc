-- ===== src/Database/Consistency.antt =====
-- The constraints of the tables of db/migrations, along the runs of programs.
use clawbake.Base.{
  String, List, [], ◌∷◌, Bool, true, false, not, ◌&&◌, ◌||◌, ◌≡◌, refl, Option, none, some, any,
  filter, arith, string_eq, ◌==◌, if_elim, ==_sound, subst, sym,
}
use clawbake.Api.{Error, Result, ok, err}
use clawbake.Database.{User, CreateUserParams, UpdateUserParams}
use clawbake.Effects.{
  Call, Response, get_user_by_id, get_user_by_email, get_user_by_oidc_subject, list_users,
  get_defaults, create_user, update_user, update_defaults, Trace, Prog, pure, return, ask,
}
use clawbake.Database.Store.{
  Tables, conflicts, row_for, insert_user, updated_row, replace_row, write_row, change_defaults,
  write_found, change_user, remove_user, unless_down, exec, World, answer, run_on, user_by_id,
}

module _ (key : User → String) where
  -- No row has the value for its key.
  abbrev pub lacks : String → List User → Bool
  lacks k [] = true
  lacks k (v ∷ vs) = not (key v == k) && lacks k vs

  abbrev pub Distinct : List User → Type 0
  Distinct [] = Unit
  Distinct (v ∷ vs) = (lacks (key v) vs ≡ true) × Distinct vs

  -- Only a row of the id may have the value.
  abbrev pub free : String → String → List User → Bool
  free id k [] = true
  free id k (v ∷ vs) = (v.id == id || not (key v == k)) && free id k vs

  lacks-filter :
      (p : User → Bool) (k : String) (vs : List User)
      → lacks k vs ≡ true
      → lacks k (filter p vs) ≡ true
  lacks-filter p k [] h = refl
  lacks-filter p k (v ∷ vs) h = ground (arith, h, lacks-filter p k vs)

  Distinct-filter : (p : User → Bool) (vs : List User) → Distinct vs → Distinct (filter p vs)
  Distinct-filter p [] h = tt
  Distinct-filter p (v ∷ vs) (h, hs) =
      if_elim Distinct (p v) _ _ (λ _. (lacks-filter p (key v) vs h, Distinct-filter p vs hs))
        (λ _. Distinct-filter p vs hs)

  lacks-replace_row :
      (row : User) (k : String) (vs : List User)
      → (key row == k) ≡ false
      → lacks k vs ≡ true
      → lacks k (replace_row row vs) ≡ true
  lacks-replace_row row k [] h n = refl
  lacks-replace_row row k (v ∷ vs) h n = ground (arith, h, n, lacks-replace_row row k vs)

abbrev pub id_of : User → String
id_of u = u.id

abbrev pub email_of : User → String
email_of u = u.email

abbrev pub subject_of : User → String
subject_of u = u.oidc_subject

-- Writing the row of an id that no row has changes nothing.
replace_row_absent :
    (row : User) (vs : List User) → lacks id_of row.id vs ≡ true → replace_row row vs ≡ vs
replace_row_absent row [] h = refl
replace_row_absent row (v ∷ vs) h = ground (arith, h, replace_row_absent row vs)

module _ (key : User → String) where
  lacks_of_free :
      (id k : String) (vs : List User)
      → lacks id_of id vs ≡ true
      → free key id k vs ≡ true
      → lacks key k vs ≡ true
  lacks_of_free id k [] h f = refl
  lacks_of_free id k (v ∷ vs) h f = ground (arith, h, f, lacks_of_free id k vs)

  other_key :
      (row v : User) (vs : List User)
      → (v.id == row.id) ≡ false
      → free key row.id (key row) (v ∷ vs) ≡ true
      → (key row == key v) ≡ false
  other_key row v vs other f =
      ground
        (arith, other, f, string_eq.decides (key row) (key v), string_eq.decides (key v) (key row))

  Distinct-replace_row :
      (row : User) (vs : List User)
      → Distinct id_of vs
      → Distinct key vs
      → free key row.id (key row) vs ≡ true
      → Distinct key (replace_row row vs)
  Distinct-replace_row row [] i h f = tt
  Distinct-replace_row row (v ∷ vs) (i, is) (h, hs) f =
      if_elim (Distinct key) (v.id == row.id) _ _
        (λ same.
          let absent : lacks id_of row.id vs ≡ true =
            subst (λ x. lacks id_of x vs ≡ true) (==_sound v.id row.id same) i in
          subst (λ us. Distinct key (row ∷ us)) (sym (replace_row_absent row vs absent))
            (lacks_of_free row.id (key row) vs absent (ground (arith, f)), hs))
        (λ other. (
          lacks-replace_row key row (key v) vs (other_key row v vs other f) h,
          Distinct-replace_row row vs is hs (ground (arith, f)),
        ))

free_id : (id : String) (vs : List User) → free id_of id id vs ≡ true
free_id id [] = refl
free_id id (v ∷ vs) = ground (arith, free_id id vs)

free_email :
    (row : User) (vs : List User)
    → any (conflicts row) vs ≡ false
    → free email_of row.id row.email vs ≡ true
free_email row [] h = refl
free_email row (v ∷ vs) h = ground (arith, h, free_email row vs)

free_subject :
    (row : User) (vs : List User)
    → any (conflicts row) vs ≡ false
    → free subject_of row.id row.oidc_subject vs ≡ true
free_subject row [] h = refl
free_subject row (v ∷ vs) h = ground (arith, h, free_subject row vs)

lacks_id :
    (id : String) (vs : List User) → any (λ v. v.id == id) vs ≡ false → lacks id_of id vs ≡ true
lacks_id id [] h = refl
lacks_id id (v ∷ vs) h = ground (arith, h, lacks_id id vs)

-- No two users share an id, an email or a subject.
abbrev pub IsConsistent : Tables → Type 0
IsConsistent db =
    Distinct id_of db.users × Distinct email_of db.users × Distinct subject_of db.users

abbrev Keeps {ℓ} : {A : Type ℓ} → A × Tables → Type 0
Keeps done = IsConsistent done.1

insert_user-IsConsistent :
    (id : String) (p : CreateUserParams) (db : Tables)
    → IsConsistent db
    → Keeps (insert_user id p db)
unfolding insert_user
insert_user-IsConsistent id p db (i, e, s) =
    if_elim Keeps (any (λ v. v.id == id) db.users || any (conflicts (row_for id p)) db.users) _ _
      (λ _. (i, e, s))
      (λ new.
        let absent : lacks id_of id db.users ≡ true = lacks_id id db.users (ground (arith, new)) in
        let apart : any (conflicts (row_for id p)) db.users ≡ false = ground (arith, new) in
        (
          (absent, i),
          (
            lacks_of_free email_of id p.email db.users absent
                (free_email (row_for id p) db.users apart),
            e,
          ),
          (
            lacks_of_free subject_of id p.oidc_subject db.users absent
                (free_subject (row_for id p) db.users apart),
            s,
          ),
        ))

write_row-IsConsistent : (row : User) (db : Tables) → IsConsistent db → Keeps (write_row row db)
unfolding write_row
write_row-IsConsistent row db (i, e, s) =
    if_elim Keeps (any (conflicts row) db.users) _ _ (λ _. (i, e, s))
      (λ apart. (
        Distinct-replace_row id_of row db.users i i (free_id row.id db.users),
        Distinct-replace_row email_of row db.users i e (free_email row db.users apart),
        Distinct-replace_row subject_of row db.users i s (free_subject row db.users apart),
      ))

write_found-IsConsistent :
    (p : UpdateUserParams) (found : Result User) (db : Tables)
    → IsConsistent db
    → Keeps (write_found p found db)
unfolding write_found
write_found-IsConsistent p (ok u) db h = write_row-IsConsistent (updated_row p u) db h
write_found-IsConsistent p (err e) db h = h

-- Deleting a user keeps the tables consistent.
remove_user-IsConsistent :
    (id : String) (db : Tables) → IsConsistent db → IsConsistent (remove_user id db)
unfolding remove_user
remove_user-IsConsistent id db (i, e, s) = (
  Distinct-filter id_of _ db.users i,
  Distinct-filter email_of _ db.users e,
  Distinct-filter subject_of _ db.users s,
)

unless_down-Keeps {ℓ} :
    {A : Type ℓ} (down : Option Error) (db : Tables) (done : Result A × Tables)
    → IsConsistent db
    → Keeps done
    → Keeps (unless_down down db done)
unless_down-Keeps none db done h k = k
unless_down-Keeps (some e) db done h k = h

exec-IsConsistent :
    (fresh : String) (down : Option Error) (db : Tables) (c : Call) (r : Response c)
    → IsConsistent db
    → Keeps (exec fresh down db c r)
unfolding exec change_user change_defaults
exec-IsConsistent fresh down db (create_user p) r h =
    unless_down-Keeps down db (insert_user fresh p db) h (insert_user-IsConsistent fresh p db h)
exec-IsConsistent fresh down db (update_user p) r h =
    unless_down-Keeps down db (change_user p db) h
      (write_found-IsConsistent p (user_by_id p.id db) db h)
exec-IsConsistent fresh down db (get_user_by_id id) r h = unless_down-Keeps down db _ h h
exec-IsConsistent fresh down db (get_user_by_email email) r h = unless_down-Keeps down db _ h h
exec-IsConsistent fresh down db (get_user_by_oidc_subject subject) r h =
    unless_down-Keeps down db _ h h
exec-IsConsistent fresh down db list_users r h = unless_down-Keeps down db _ h h
exec-IsConsistent fresh down db get_defaults r h = unless_down-Keeps down db _ h h
exec-IsConsistent fresh down db (update_defaults p) r h =
    unless_down-Keeps down db (change_defaults p db) h h
exec-IsConsistent fresh down db c r h = h

-- Whatever a program asks, whatever ids are generated, whatever the outside answers and whenever the
-- database cannot be reached: where no two users shared an id, an email or a subject before a run, no
-- two share one after it.
pub run_on-IsConsistent :
    {R : Type 0} (w : World) (m : Prog R R) (db : Tables) (t : Trace)
    → IsConsistent db
    → IsConsistent (run_on w m db t).1
run_on-IsConsistent w (pure a) db t h = h
run_on-IsConsistent w (return r) db t h = h
run_on-IsConsistent w (ask c k) db t h =
    run_on-IsConsistent w (k (answer w db t c).0) (answer w db t c).1 _
      (exec-IsConsistent (w.fresh t) (w.down t) db c (w.others t c) h)
