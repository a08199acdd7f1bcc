-- ===== src/Bot/Verify/Window.antt =====
-- The arithmetic of `verifySignature`: int64 texts and the window of five minutes.
use clawbake.Base.{
  ℕ, ◌+◌, ◌-◌, ◌^◌, ◌≤◌, ◌<◌, ◌≡◌, ◌⊎◌, inl, inr, [], ◌∷◌, Bool, true, false, if◌then◌else◌, Option,
  none, some, Text, nat_eq, ◌==◌, arith,
}
use clawbake.Bot.Verify.{magnitude, int64_pos, int64_neg, parse_int, age, too_old}

abbrev pub IsInt64 : Option ℕ → Type 0
IsInt64 none = Unit
IsInt64 (some n) = n < 2 ^ 64

int64_pos-IsInt64 : (o : Option ℕ) → IsInt64 (int64_pos o)
int64_pos-IsInt64 none = tt
int64_pos-IsInt64 (some n) = ground arith

int64_neg-IsInt64 : (o : Option ℕ) → IsInt64 (int64_neg o)
int64_neg-IsInt64 none = tt
int64_neg-IsInt64 (some n) = ground arith

IsInt64-if : (b : Bool) (o p : Option ℕ) → IsInt64 o → IsInt64 p → IsInt64 (if b then o else p)
IsInt64-if true o p h k = h
IsInt64-if false o p h k = k

pub parse_int-IsInt64 : (t : Text) → IsInt64 (parse_int t)
unfolding parse_int
parse_int-IsInt64 [] = tt
parse_int-IsInt64 (c ∷ t) = IsInt64-if (c == b'-') _ _ (int64_neg-IsInt64 (magnitude t)) (
    IsInt64-if (c == b'+') _ _ (int64_pos-IsInt64 (magnitude t))
      (int64_pos-IsInt64 (magnitude (c ∷ t))))

-- At most five minutes apart, as integers: the time stamp is a bit pattern, the clock is not negative.
abbrev pub Near : ℕ → ℕ → Type 0
Near at ts =
    ((ts < 2 ^ 63) × (ts ≤ at + 300) × (at ≤ ts + 300))
    ⊎ ((2 ^ 63 ≤ ts) × (at + (2 ^ 64 - ts) ≤ 300))

pub Near-of_fresh :
    (at ts : ℕ) → at + 300 < 2 ^ 63 → ts < 2 ^ 64 → too_old (age at ts) ≡ false → Near at ts
unfolding age too_old
Near-of_fresh at ts h k fresh = ground arith

pub fresh_of_Near :
    (at ts : ℕ) → at + 300 < 2 ^ 63 → ts < 2 ^ 64 → Near at ts → too_old (age at ts) ≡ false
unfolding age too_old
fresh_of_Near at ts h k (inl n) = ground arith
fresh_of_Near at ts h k (inr n) = ground arith
