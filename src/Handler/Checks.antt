-- ===== src/Handler/Checks.antt =====
-- The paths of a handler through the checks of internal/handler.
use clawbake.Base.{◌≡◌, refl}
use clawbake.Effects.{Call, Trace, Prog, ◌>>=◌}
use clawbake.Effects.Paths.{AllPaths, Every, Ends}
use clawbake.Http.{Reply}
use clawbake.Handler.{Check, pass, fail, check}

-- What follows a check is reached only with the value that it passes.
pub check-Ends :
    (J : Call → Trace → Type 0) {A B : Type 0} (c : Check A) (f : A → Prog Reply B) (t : Trace)
    → Every J t
    → ((a : A) → c ≡ pass a → AllPaths (Ends J) (Ends J) (f a) t)
    → AllPaths (Ends J) (Ends J) (check c >>= f) t
check-Ends J (pass a) f t h k = k a refl
check-Ends J (fail reply) f t h k = h
