-- ===== src/Operator/Notifier/Reading.antt =====
-- What the server reads in a notification.
use mathlib.Core.List.{append_assoc}
use clawbake.Base.{String, Text, [], ◌∷◌, ◌++◌, codes, ◌≡◌, refl, sym, subst, ap, ◌∙◌, some}
use clawbake.Jsonutil.Json.{string, object, Fields, end, field, parse, start, skip_space, eat, find}
use clawbake.Jsonutil.Json.Grammar.{IsFields, IsDocument, full_object, more_fields, last_field}
use clawbake.Jsonutil.Json.Reading.{parse_iff}
use clawbake.Jsonutil.Merge.{marshal, quoted}
use clawbake.Jsonutil.Merge.Written.{quoted-IsValue, read_key-quoted}
use clawbake.Jsonutil.Template.{text_leb}
use clawbake.Operator.Notifier.{payload, notification_of}

-- A member of the object, in front of what follows it.
abbrev member : Text → Text → Text → Text
member key value rest = quoted key ++ (b':' ∷ (quoted value ++ rest))

abbrev two_members : String → String → Text
two_members name user =
    member (codes "instanceName") (codes name)
      (b',' ∷ member (codes "userId") (codes user) (b'}' ∷ []))

two_members-IsFields :
    (name user : String)
    → IsFields
        (two_members name user)
        (field
          (codes "instanceName")
          (string (codes name))
          (field (codes "userId") (string (codes user)) end))
        []
unfolding skip_space eat
two_members-IsFields name user =
    let rest = member (codes "userId") (codes user) (b'}' ∷ []) in
    more_fields _ (codes "instanceName") (quoted (codes name) ++ (b',' ∷ rest)) (b',' ∷ rest) rest
      [] (string (codes name)) (field (codes "userId") (string (codes user)) end)
      (read_key-quoted (codes "instanceName") _) (quoted-IsValue (codes name) (b',' ∷ rest)) refl
      (last_field _ (codes "userId") (quoted (codes user) ++ (b'}' ∷ [])) (b'}' ∷ []) []
        (string (codes user)) (read_key-quoted (codes "userId") _)
        (quoted-IsValue (codes user) (b'}' ∷ [])) refl)

body-shape :
    (server : Text) (name user : String)
    → (notification_of server name user).body ≡ b'{' ∷ two_members name user
unfolding marshal text_leb
body-shape server name user =
    let first = quoted (codes "instanceName") in
    let second = quoted (codes "userId") in
    let e = second ++ (b':' ∷ quoted (codes user)) in
    ap (λ t. b'{' ∷ t)
      (append_assoc (first ++ (b':' ∷ quoted (codes name))) (b',' ∷ e) (b'}' ∷ [])
        ∙ append_assoc first (b':' ∷ quoted (codes name)) (b',' ∷ (e ++ (b'}' ∷ [])))
        ∙ ap (λ t. first ++ (b':' ∷ (quoted (codes name) ++ (b',' ∷ t))))
            (append_assoc second (b':' ∷ quoted (codes user)) (b'}' ∷ [])))

notification-parses :
    (server : Text) (name user : String)
    → parse (notification_of server name user).body ≡ some (payload name user)
unfolding start skip_space
notification-parses server name user =
    (parse_iff (notification_of server name user).body (payload name user)).1 (
      subst (λ t. IsDocument t (payload name user)) (sym (body-shape server name user))
        (
          [],
          full_object _ (two_members name user) [] _ refl (two_members-IsFields name user),
          refl,
        ))

-- Whatever the name of the instance and its user, the body of a notification reads back as an object
-- that has the name as its "instanceName" and the user as its "userId", the fields that the server's
-- handler decodes.
pub notification_reads_back :
    (server : Text) (name user : String)
    → (fs : Fields) × (parse (notification_of server name user).body ≡ some (object fs))
      × (find (codes "instanceName") fs ≡ some (string (codes name)))
      × (find (codes "userId") fs ≡ some (string (codes user)))
notification_reads_back server name user = (_, notification-parses server name user, refl, refl)
