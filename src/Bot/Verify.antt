-- ===== src/Bot/Verify.antt =====
-- internal/bot/verify.go: the check of Slack's signatures.
pub mod Window
pub mod Admission
use clawbake.Base.{
  ℕ, ◌+◌, ◌-◌, ◌*◌, ◌^◌, ◌%◌, String, List, [], ◌∷◌, ◌++◌, Bool, ◌&&◌, ◌||◌, not, Option, none,
  some, Text, codes, is_empty, ltb, leb, nat_eq, text_eq, ◌==◌, if◌then◌else◌,
}
use clawbake.Effects.{now, Prog, pure, return, ◌>>=◌, call}
use clawbake.Http.{Reply, json_object}
use clawbake.Bot.{Libraries, Delivery}

abbrev pub is_digit : ℕ → Bool
is_digit c = leb b'0' c && leb c b'9'

-- The value of decimal digits behind those that have been read.
unfoldable pub digits_value : ℕ → Text → Option ℕ
digits_value n [] = some n
digits_value n (c ∷ t) =
    let rest = digits_value (n * 10 + (c - b'0')) t in if is_digit c then rest else none

abbrev pub magnitude : Text → Option ℕ
magnitude [] = none
magnitude (c ∷ t) = digits_value 0 (c ∷ t)

-- An int64 as its bit pattern, where it is in range.
abbrev pub int64_pos : Option ℕ → Option ℕ
int64_pos none = none
int64_pos (some n) = if ltb n (2 ^ 63) then some n else none

abbrev pub int64_neg : Option ℕ → Option ℕ
int64_neg none = none
int64_neg (some n) = if leb n (2 ^ 63) then some ((2 ^ 64 - n) % 2 ^ 64) else none

-- strconv.ParseInt(text, 10, 64)
unfoldable pub parse_int : Text → Option ℕ
unfolding digits_value
parse_int [] = none
parse_int (c ∷ t) =
    if c == b'-'
    then int64_neg (magnitude t)
    else if c == b'+'
    then int64_pos (magnitude t)
    else int64_pos (magnitude (c ∷ t))

-- `time.Now().Unix() - ts`, which wraps.
unfoldable pub age : ℕ → ℕ → ℕ
age at ts = (at + 2 ^ 64 - ts) % 2 ^ 64

-- `math.Abs(float64(age)) > 300`. The conversion rounds, but never across 300.
unfoldable pub too_old : ℕ → Bool
too_old a = if ltb a (2 ^ 63) then ltb 300 a else ltb 300 (2 ^ 64 - a)

-- `ComputeSignature`, and `expected` of `verifySignature`
unfoldable pub compute_signature : Libraries → Text → Text → Text → Text
compute_signature l secret timestamp body =
    codes "v0=" ++ l.hmac_hex secret (codes "v0:" ++ (timestamp ++ (codes ":" ++ body)))

abbrev pub error_reply : ℕ → String → Reply
error_reply code message = json_object code (("error", codes message) ∷ [])

module _ (l : Libraries) (secret : Text) (d : Delivery) (next : Text → Prog Reply Reply) where
  unfoldable pub verify_body : Option Text → Prog Reply Reply
  unfolding compute_signature
  verify_body none = return (error_reply 500 "failed to read body")
  verify_body (some body) =
      if not (compute_signature l secret d.timestamp body == d.signature)
      then return (error_reply 401 "invalid signature")
      else next body

  unfoldable pub verify_age : Option ℕ → Prog Reply Reply
  unfolding age too_old verify_body
  verify_age none = return (error_reply 401 "invalid timestamp")
  verify_age (some ts) = do
    at ← call now
    if too_old (age at ts) then return (error_reply 401 "request too old") else verify_body d.body

  -- `verifySignature`
  unfoldable pub verify_signature : Prog Reply Reply
  unfolding verify_age parse_int
  verify_signature =
      if is_empty d.timestamp || is_empty d.signature
      then return (error_reply 401 "missing signature headers")
      else verify_age (parse_int d.timestamp)
