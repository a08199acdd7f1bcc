-- ===== src/Bot/Verify/Admission.antt =====
-- Which requests `verifySignature` lets through.
use clawbake.Base.{
  ℕ, ◌+◌, ◌^◌, ◌<◌, ◌≡◌, ◌≢◌, ◌⊎◌, inl, inr, refl, ◌∷◌, String, true, false, ◌||◌, Bool-cases,
  if_elim, ne_of_test, subst, Option, none, some, Text, is_empty, text_eq, ◌==◌,
}
use clawbake.Effects.{now, Trace, Oracle, Prog, run}
use clawbake.Effects.Paths.{event}
use clawbake.Http.{Reply}
use clawbake.Bot.{Libraries, Delivery}
use clawbake.Bot.Verify.{
  parse_int, age, too_old, compute_signature, error_reply, verify_body, verify_age,
  verify_signature,
}
use clawbake.Bot.Verify.Window.{Near, IsInt64, parse_int-IsInt64, Near-of_fresh, fresh_of_Near}

-- What a request and the clock must be like: the body can be read, the headers are there, the time
-- stamp is an int64 near the clock, and the signature is that of the time stamp and the body.
abbrev pub IsSigned : Libraries → Text → Delivery → ℕ → Text → Type 0
IsSigned l secret d at body =
    (d.body ≡ some body)
    × ((is_empty d.timestamp || is_empty d.signature) ≡ false)
    × ((ts : ℕ) × (parse_int d.timestamp ≡ some ts) × Near at ts)
    × (compute_signature l secret d.timestamp body ≡ d.signature)

-- The reply of a request that is turned away.
abbrev pub IsRefusal : Delivery → Reply → Type 0
IsRefusal d reply =
    ((message : String) × (reply ≡ error_reply 401 message))
    ⊎ ((d.body ≡ none) × (reply ≡ error_reply 500 "failed to read body"))

module _ (l : Libraries) (secret : Text) (d : Delivery) (next : Text → Prog Reply Reply)
    (o : Oracle) (t : Trace) where
  abbrev pub Verdict : ℕ → Reply × Trace → Type 0
  Verdict at result =
      ((body : Text) × IsSigned l secret d at body
        × (result ≡ run o (next body) (event now at ∷ t)))
      ⊎ (IsRefusal d result.0
          × ((result.1 ≡ t) ⊎ (result.1 ≡ event now at ∷ t))
          × ((body : Text) → ¬ IsSigned l secret d at body))

  wrong_signature :
      {at : ℕ} (body : Text)
      → d.body ≡ some body
      → compute_signature l secret d.timestamp body ≢ d.signature
      → (other : Text) → ¬ IsSigned l secret d at other
  wrong_signature body e wrong other s = wrong (cc (e, s.0, s.3))

  verify_body_lem :
      (at ts : ℕ) (b : Option Text)
      → d.body ≡ b
      → (is_empty d.timestamp || is_empty d.signature) ≡ false
      → parse_int d.timestamp ≡ some ts
      → Near at ts
      → Verdict at (run o (verify_body l secret d next b) (event now at ∷ t))
  unfolding verify_body
  verify_body_lem at ts none e h p n = inr (inr (e, refl), inr refl, λ body s. cc (e, s.0))
  verify_body_lem at ts (some body) e h p n =
      elim (Bool-cases (compute_signature l secret d.timestamp body == d.signature)) [
        | inl same ↦ inl (body, (e, h, (ts, p, n), (text_eq.decides _ _).0 same), rw same refl)
        | inr other ↦ inr (
          rw other (inl ("invalid signature", refl)),
          inr (rw other refl),
          wrong_signature body e (ne_of_test _ _ other),
        )
      ]

  wrong_time :
      {at : ℕ}
      → ((ts : ℕ) → parse_int d.timestamp ≡ some ts → ¬ Near at ts)
      → (body : Text) → ¬ IsSigned l secret d at body
  wrong_time far body s = far s.2.0 s.2.1 s.2.2

  too_far :
      {ts u : ℕ}
      → too_old (age (o t now) ts) ≡ true
      → ts < 2 ^ 64
      → o t now + 300 < 2 ^ 63
      → parse_int d.timestamp ≡ some ts
      → parse_int d.timestamp ≡ some u
      → ¬ Near (o t now) u
  too_far {ts} old r k p q n =
      cc (old, fresh_of_Near (o t now) ts k r (subst (Near (o t now)) (same p q) n))
    where
      same : {a b : ℕ} → parse_int d.timestamp ≡ some a → parse_int d.timestamp ≡ some b → b ≡ a
      same h i = cc (h, i)

  verify_age_lem :
      (p : Option ℕ)
      → parse_int d.timestamp ≡ p
      → (is_empty d.timestamp || is_empty d.signature) ≡ false
      → o t now + 300 < 2 ^ 63
      → Verdict (o t now) (run o (verify_age l secret d next p) t)
  unfolding verify_age
  verify_age_lem none e h k =
      inr (inl ("invalid timestamp", refl), inl refl, wrong_time (λ ts p n. cc (e, p)))
  verify_age_lem (some ts) e h k =
      let in_range : ts < 2 ^ 64 = subst IsInt64 e (parse_int-IsInt64 d.timestamp) in
      if_elim (λ m. Verdict (o t now) (run o m (event now (o t now) ∷ t)))
        (too_old (age (o t now) ts)) _ _
        (λ old. inr (
          inl ("request too old", refl),
          inr refl,
          wrong_time (λ u p n. too_far old in_range k e p n),
        ))
        (λ young.
          verify_body_lem (o t now) ts d.body refl h e
            (Near-of_fresh (o t now) ts k in_range young))

  -- While the clock does not come within five minutes of the end of int64: a request whose body can be
  -- read, whose headers are there, whose time stamp is an int64 at most 300 seconds from the clock (the
  -- subtraction wraps, and this changes nothing) and whose signature is that of the time stamp and the
  -- body is handled with that body; every other request is refused by 401, or by 500 where the body
  -- cannot be read, with no other call than the clock's.
  pub verify_signature_admits :
      o t now + 300 < 2 ^ 63 → Verdict (o t now) (run o (verify_signature l secret d next) t)
  unfolding verify_signature
  verify_signature_admits k =
      if_elim (λ m. Verdict (o t now) (run o m t)) (is_empty d.timestamp || is_empty d.signature) _
        _
        (λ missing.
          inr (inl ("missing signature headers", refl), inl refl, λ body s. cc (missing, s.1)))
        (λ given. verify_age_lem (parse_int d.timestamp) refl given k)
