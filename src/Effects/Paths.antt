-- ===== src/Effects/Paths.antt =====
-- What holds at the end of every path of a program, whatever the answers.
use clawbake.Base.{[], ◌∷◌, ◌⊎◌, ap, sym, Bool, true, false, ◌≡◌, refl, if◌then◌else◌}
use clawbake.Effects.{
  Call, Response, Event, Trace, Oracle, Prog, pure, return, ask, ◌>>=◌, block, run,
}

abbrev pub event : (c : Call) → Response c → Event
event c r = record { call = c; response = r }

module _ {R A : Type 0} (P : R → Trace → Type 0) (Q : A → Trace → Type 0) where
  abbrev pub AllPaths : Prog R A → Trace → Type 0
  AllPaths (pure a) t = Q a t
  AllPaths (return r) t = P r t
  AllPaths (ask c k) t = (r : Response c) → AllPaths (k r) (event c r ∷ t)

pub AllPaths-run :
    {R : Type 0} (P : R → Trace → Type 0) (m : Prog R R) (o : Oracle) (t : Trace)
    → AllPaths P P m t
    → P (run o m t).0 (run o m t).1
AllPaths-run P (pure a) o t h = h
AllPaths-run P (return r) o t h = h
AllPaths-run P (ask c k) o t h = AllPaths-run P (k (o t c)) o (event c (o t c) ∷ t) (h (o t c))

pub AllPaths-map :
    {R A : Type 0} {P P' : R → Trace → Type 0} {Q Q' : A → Trace → Type 0}
    → ((r : R) (t : Trace) → P r t → P' r t)
    → ((a : A) (t : Trace) → Q a t → Q' a t)
    → (m : Prog R A) (t : Trace) → AllPaths P Q m t
    → AllPaths P' Q' m t
AllPaths-map f g (pure a) t h = g a t h
AllPaths-map f g (return r) t h = f r t h
AllPaths-map f g (ask c k) t h = λ r. AllPaths-map f g (k r) (event c r ∷ t) (h r)

module _ {R A B : Type 0} (P : R → Trace → Type 0) (S : A → Trace → Type 0)
    (Q : B → Trace → Type 0) where
  pub AllPaths-bind :
      (m : Prog R A) (f : A → Prog R B) (t : Trace)
      → AllPaths P S m t
      → ((a : A) (u : Trace) → S a u → AllPaths P Q (f a) u)
      → AllPaths P Q (m >>= f) t
  AllPaths-bind (pure a) f t h k = k a t h
  AllPaths-bind (return r) f t h k = h
  AllPaths-bind (ask c g) f t h k = λ r. AllPaths-bind (g r) f (event c r ∷ t) (h r) k

module _ {R A : Type 0} (P : R → Trace → Type 0) (Q : A → Trace → Type 0) where
  pub AllPaths-block : (m : Prog A A) (t : Trace) → AllPaths Q Q m t → AllPaths P Q (block m) t
  AllPaths-block (pure a) t h = h
  AllPaths-block (return a) t h = h
  AllPaths-block (ask c k) t h = λ r. AllPaths-block (k r) (event c r ∷ t) (h r)

  pub AllPaths-if :
      (b : Bool) (m n : Prog R A) (t : Trace)
      → (b ≡ true → AllPaths P Q m t)
      → (b ≡ false → AllPaths P Q n t)
      → AllPaths P Q (if b then m else n) t
  AllPaths-if true m n t h k = h refl
  AllPaths-if false m n t h k = k refl

-- A call and its answer stand in the trace.
abbrev pub Occurs : (c : Call) → Response c → Trace → Type 0
Occurs c x [] = ⊥
Occurs c x (e ∷ t) = (event c x ≡ e) ⊎ Occurs c x t

pub event-path : (c : Call) {x y : Response c} → y ≡ x → event c x ≡ event c y
event-path c e = ap (event c) (sym e)

-- Every call of the trace is justified by what happened before it.
abbrev pub Every : (Call → Trace → Type 0) → Trace → Type 0
Every J [] = Unit
Every J (e ∷ t) = J e.call t × Every J t

-- The test at the end of a run: nothing is said of the result.
abbrev pub Ends : {A : Type 0} → (Call → Trace → Type 0) → A → Trace → Type 0
Ends J _ t = Every J t
