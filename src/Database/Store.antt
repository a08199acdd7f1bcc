-- ===== src/Database/Store.antt =====
-- internal/database: the queries of users.sql.go and instance_defaults.sql.go on the tables that
-- db/migrations creates. A row of `users` has an id, an email and a subject that no other row has; a
-- query that would break this fails. The time stamps are left out: `users` is kept with the newest row
-- first.
use clawbake.Base.{
  String, List, [], ◌∷◌, Bool, true, not, ◌&&◌, ◌||◌, Option, none, some, any, map, filter,
  string_eq, ◌==◌, if◌then◌else◌,
}
use clawbake.Api.{Error, Kind, Result, ok, err}
use clawbake.Database.{
  User, InstanceDefault, UpdateDefaultsParams, CreateUserParams, UpdateUserParams,
}
use clawbake.Effects.{
  Call, Response, get_defaults, update_defaults, list_users, get_user_by_id, get_user_by_email,
  get_user_by_oidc_subject, create_user, update_user, Trace, Oracle, Prog, pure, return, ask,
}

pub record Tables : Type 0 where
  pub users : List User
  pub defaults : List InstanceDefault

abbrev pub no_rows_error : Error
no_rows_error = record { kind = Kind.no_rows; message = "no rows in result set" }

abbrev pub unique_violation : Error
unique_violation = record {
  kind = Kind.other;
  message = "duplicate key value violates unique constraint";
}

-- `QueryRow` and `Scan`: the first row that fits.
abbrev pub first_where {ℓ} : {A : Type ℓ} → (A → Bool) → List A → Result A
first_where p [] = err no_rows_error
first_where p (a ∷ as') = let rest = first_where p as' in if p a then ok a else rest

-- `GetUserByID`, `GetUserByEmail`, `GetUserByOIDCSubject`, `ListUsers`
unfoldable pub user_by_id : String → Tables → Result User
user_by_id id db = first_where (λ u. u.id == id) db.users

unfoldable pub user_by_email : String → Tables → Result User
user_by_email email db = first_where (λ u. u.email == email) db.users

unfoldable pub user_by_oidc_subject : String → Tables → Result User
user_by_oidc_subject subject db = first_where (λ u. u.oidc_subject == subject) db.users

unfoldable pub all_users : Tables → Result (List User)
all_users db = ok db.users

abbrev pub row_for : String → CreateUserParams → User
row_for id p = record {
  id = id;
  email = p.email;
  name = p.name;
  picture = p.picture;
  role = p.role;
  oidc_subject = p.oidc_subject;
  slack_user_id = p.slack_user_id;
}

-- Another row than the one of the id has the email or the subject.
abbrev pub conflicts : User → User → Bool
conflicts row v =
    not (v.id == row.id) && (v.email == row.email || v.oidc_subject == row.oidc_subject)

-- `CreateUser`, with the id that gen_random_uuid gives
unfoldable pub insert_user : String → CreateUserParams → Tables → Result User × Tables
insert_user id p db =
    if any (λ v. v.id == id) db.users || any (conflicts (row_for id p)) db.users
    then (err unique_violation, db)
    else (ok (row_for id p), record db { users = row_for id p ∷ db.users })

-- COALESCE
abbrev pub coalesce : Option String → String → String
coalesce (some v) old = v
coalesce none old = old

abbrev pub coalesce_null : Option String → Option String → Option String
coalesce_null (some v) old = some v
coalesce_null none old = old

abbrev pub updated_row : UpdateUserParams → User → User
updated_row p u = record {
  id = u.id;
  email = coalesce p.email u.email;
  name = coalesce p.name u.name;
  picture = coalesce_null p.picture u.picture;
  role = coalesce p.role u.role;
  oidc_subject = coalesce p.oidc_subject u.oidc_subject;
  slack_user_id = coalesce_null p.slack_user_id u.slack_user_id;
}

abbrev pub replace_row : User → List User → List User
replace_row row [] = []
replace_row row (v ∷ vs) =
    let rest = replace_row row vs in if v.id == row.id then row ∷ rest else v ∷ rest

unfoldable pub write_row : User → Tables → Result User × Tables
write_row row db =
    if any (conflicts row) db.users
    then (err unique_violation, db)
    else (ok row, record db { users = replace_row row db.users })

unfoldable pub write_found : UpdateUserParams → Result User → Tables → Result User × Tables
unfolding write_row
write_found p (err e) db = (err e, db)
write_found p (ok u) db = write_row (updated_row p u) db

-- `UpdateUser`
unfoldable pub change_user : UpdateUserParams → Tables → Result User × Tables
unfolding write_found user_by_id
change_user p db = write_found p (user_by_id p.id db) db

-- `DeleteUser`
unfoldable pub remove_user : String → Tables → Tables
remove_user id db = record db { users = filter (λ v. not (v.id == id)) db.users }

-- `GetDefaults`
unfoldable pub first_defaults : Tables → Result InstanceDefault
first_defaults db = first_where (λ _. true) db.defaults

abbrev pub updated_defaults : UpdateDefaultsParams → InstanceDefault → InstanceDefault
updated_defaults p d = record {
  id = d.id;
  image = p.image;
  cpu_request = p.cpu_request;
  memory_request = p.memory_request;
  cpu_limit = p.cpu_limit;
  memory_limit = p.memory_limit;
  storage_size = p.storage_size;
  gateway_config = p.gateway_config;
}

-- `UpdateDefaults`, of every row
unfoldable pub change_defaults : UpdateDefaultsParams → Tables → Result InstanceDefault × Tables
change_defaults p db =
    let changed = map (updated_defaults p) db.defaults in
    (first_where (λ _. true) changed, record db { defaults = changed })

-- A query that does not reach the database fails and changes nothing.
abbrev pub unless_down {ℓ} :
    {A : Type ℓ} → Option Error → Tables → Result A × Tables → Result A × Tables
unless_down none db done = done
unless_down (some e) db done = (err e, db)

-- A call and its answer from the tables; a call that is no query keeps the given answer.
unfoldable pub exec : String → Option Error → Tables → (c : Call) → Response c → Response c × Tables
unfolding user_by_id user_by_email user_by_oidc_subject all_users insert_user change_user
    first_defaults change_defaults
exec fresh down db (get_user_by_id id) r = unless_down down db (user_by_id id db, db)
exec fresh down db (get_user_by_email email) r = unless_down down db (user_by_email email db, db)
exec fresh down db (get_user_by_oidc_subject subject) r =
    unless_down down db (user_by_oidc_subject subject db, db)
exec fresh down db list_users r = unless_down down db (all_users db, db)
exec fresh down db (create_user p) r = unless_down down db (insert_user fresh p db)
exec fresh down db (update_user p) r = unless_down down db (change_user p db)
exec fresh down db get_defaults r = unless_down down db (first_defaults db, db)
exec fresh down db (update_defaults p) r = unless_down down db (change_defaults p db)
exec fresh down db c r = (r, db)

-- The outside with a database: the ids that it generates, when it cannot be reached, and the answers
-- to all other calls.
pub record World : Type 0 where
  pub fresh : Trace → String
  pub down : Trace → Option Error
  pub others : Oracle

abbrev pub answer : World → Tables → Trace → (c : Call) → Response c × Tables
answer w db t c = exec (w.fresh t) (w.down t) db c (w.others t c)

-- A run against the tables.
abbrev pub run_on : {R : Type 0} → World → Prog R R → Tables → Trace → R × Tables
run_on w (pure a) db t = (a, db)
run_on w (return r) db t = (r, db)
run_on w (ask c k) db t =
    let (r, db') = answer w db t c in run_on w (k r) db' ((record { call = c; response = r }) ∷ t)
