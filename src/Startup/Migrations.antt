-- ===== src/Startup/Migrations.antt =====
-- The retry loop of `runMigrations` in cmd/server/main.go.
use clawbake.Base.{
  ℕ, zero, suc, ◌+◌, ◌≤◌, ◌<◌, String, [], ◌∷◌, ◌≡◌, ◌≢◌, ◌⊎◌, inl, inr, refl, arith,
}
use native.Mathlib.Decide.{dec_lt}
use clawbake.Api.{Error, ok, err}
use clawbake.Effects.{
  pure, ◌>>=◌, ◌>>◌, call, Call, Trace, Oracle, Prog, run, open_migrations, connect_migrations,
  migrate_up, sleep, migrated, no_change, not_migrated, Migration,
}
use clawbake.Effects.Paths.{event, Occurs, AllPaths, AllPaths-run, AllPaths-bind}
use clawbake.Startup.Server.{
  Done, migration_url, connect_loop, up_result, migrate_connected, migrate_from, run_migrations,
}

abbrev count_attempt : Call → ℕ → ℕ
count_attempt (connect_migrations _) n = suc n
count_attempt _ n = n

-- The connections that have been tried.
abbrev pub attempts : Trace → ℕ
attempts [] = 0
attempts (e ∷ t) = count_attempt e.call (attempts t)

module _ (url : String) where
  abbrev connect : Call
  connect = connect_migrations (migration_url url)

  -- Where the loop has ended: connected, or out of attempts.
  abbrev Looped : ℕ → Done → Trace → Type 0
  Looped bound (ok _) t = Occurs connect (ok tt) t × (attempts t ≤ bound)
  Looped bound (err _) t = attempts t ≡ bound

  -- Where no attempt is left, the last one has failed.
  abbrev HasFailed : ℕ → Done → Type 0
  HasFailed zero (ok _) = ⊥
  HasFailed _ _ = Unit

  connect_loop-Looped :
      (P : Done → Trace → Type 0) (n bound : ℕ) (last : Done) (t : Trace)
      → HasFailed n last
      → n + attempts t ≡ bound
      → AllPaths P (Looped bound) (connect_loop n (migration_url url) last) t
  unfolding connect_loop
  connect_loop-Looped P zero bound (err e) t f h = omega arith
  connect_loop-Looped P zero bound (ok _) t f h = absurd f
  connect_loop-Looped P (suc n) bound last t f h = elim [
    | ok _ ↦ (inl refl, omega arith)
    | err e ↦ λ _ _. connect_loop-Looped P n bound (err e) _ (has_failed n e) (omega arith)
  ]
    where
      has_failed : (n : ℕ) (e : Error) → HasFailed n (err e)
      has_failed zero e = tt
      has_failed (suc n) e = tt

  -- What the result of the migrations says of its run.
  abbrev pub Migrated : Done → Trace → Type 0
  Migrated (ok _) t =
      Occurs connect (ok tt) t
      × (Occurs migrate_up migrated t ⊎ Occurs migrate_up no_change t)
      × (attempts t ≤ 30)
  Migrated (err e) t =
      (Occurs open_migrations (err e) t × (attempts t ≡ 0))
      ⊎ ((attempts t ≡ 30)
          ⊎ (Occurs connect (ok tt) t × Occurs migrate_up (not_migrated e) t × (attempts t ≤ 30)))

  migrate_connected-Migrated :
      (r : Done) (t : Trace) → Looped 30 r t → AllPaths Migrated Migrated (migrate_connected r) t
  unfolding migrate_connected
  migrate_connected-Migrated (err e) t h = inr (inl h)
  migrate_connected-Migrated (ok _) t (connected, few) = elim [
    | migrated ↦ (inr connected, inl (inl refl), few)
    | no_change ↦ (inr connected, inr (inl refl), few)
    | not_migrated e ↦ inr (inr (inr connected, inl refl, few))
  ]

  migrate_from-Migrated :
      (opened : Done)
      → AllPaths Migrated Migrated (migrate_from url opened) (event open_migrations opened ∷ [])
  unfolding migrate_from
  migrate_from-Migrated (err e) = inl (inl refl, refl)
  migrate_from-Migrated (ok x) =
      AllPaths-bind _ (Looped 30) _ (connect_loop 30 (migration_url url) (ok tt)) migrate_connected
        (event open_migrations (ok x) ∷ [])
        (connect_loop-Looped Migrated 30 30 (ok tt) (event open_migrations (ok x) ∷ []) tt refl)
        migrate_connected-Migrated

  run_migrations-Migrated : AllPaths Migrated Migrated (run_migrations url) []
  unfolding run_migrations
  run_migrations-Migrated = migrate_from-Migrated

  -- Whatever the database answers, the loop ends after at most 30 attempts to connect. The result is
  -- nil only if a connection was made and the migration was done or found nothing to change; an error
  -- is that of the embedded source, before any attempt, or comes after exactly 30 attempts, or is that
  -- of the migration on a connection that was made.
  pub run_migrations_bounded :
      (o : Oracle) → Migrated (run o (run_migrations url) []).0 (run o (run_migrations url) []).1
  run_migrations_bounded o = AllPaths-run Migrated (run_migrations url) o [] run_migrations-Migrated

up_result-ok : (m : Migration) → ((e : Error) → m ≢ not_migrated e) → up_result m ≡ ok tt
up_result-ok migrated h = refl
up_result-ok no_change h = refl
up_result-ok (not_migrated e) h = absurd (h e refl)

module _ (url : String) (o : Oracle) (k : ℕ) where
  abbrev ends : Prog Done Done → Trace → Done
  ends m t = (run o (m >>= migrate_connected) t).0

  attempt_ends :
      (n : ℕ) (t : Trace) (answer : Done)
      → ((s : Trace) (e : Error) → o s migrate_up ≢ not_migrated e)
      → ((e : Error)
          → answer ≡ err e
          → (s : Trace) → attempts s ≡ suc (attempts t)
          → ends (connect_loop n (migration_url url) (err e)) s ≡ ok tt)
      → ends
          (elim answer [
            | ok done ↦ pure (ok done)
            | err e ↦ (do
              call (sleep 2)
              call open_migrations
              connect_loop n (migration_url url) (err e))
          ])
          (event (connect_migrations (migration_url url)) answer ∷ t)
        ≡ ok tt
  unfolding migrate_connected
  attempt_ends n t (ok x) up again =
      up_result-ok _ (up (event (connect_migrations (migration_url url)) (ok x) ∷ t))
  attempt_ends n t (err e) up again = again e refl _ refl

  -- An attempt that fails is one before the database is ready.
  still_waiting :
      (t : Trace) (e : Error)
      → ((s : Trace) → k ≤ attempts s → o s (connect_migrations (migration_url url)) ≡ ok tt)
      → attempts t ≤ k
      → o t (connect_migrations (migration_url url)) ≡ err e
      → (s : Trace) → attempts s ≡ suc (attempts t)
      → attempts s ≤ k
  still_waiting t e ready h failed s count = elim (dec_lt (attempts t) k) [
    | yes early ↦ omega arith
    | no late ↦
        absurd
          (not_both (o t (connect_migrations (migration_url url))) (ready t (omega arith)) failed)
  ]
    where
      not_both : {e : Error} (a : Done) → a ≡ ok tt → a ≡ err e → ⊥
      not_both a h k = cc

  loop_ends :
      (n : ℕ) (last : Done) (t : Trace)
      → k < 30
      → ((s : Trace) → k ≤ attempts s → o s (connect_migrations (migration_url url)) ≡ ok tt)
      → ((s : Trace) (e : Error) → o s migrate_up ≢ not_migrated e)
      → attempts t ≤ k
      → n + attempts t ≡ 30
      → ends (connect_loop n (migration_url url) last) t ≡ ok tt
  unfolding connect_loop
  loop_ends zero last t few ready up h e = absurd (omega arith)
  loop_ends (suc n) last t few ready up h e =
      attempt_ends n t (o t (connect_migrations (migration_url url))) up (λ x failed s count.
        loop_ends n (err x) s few ready up (still_waiting t x ready h failed s count) (omega arith))

  -- If the source opens, the migration never fails, and some number below 30 of failed attempts is
  -- enough for the database to take every further connection, then the migrations succeed.
  pub run_migrations_succeed :
      k < 30
      → o [] open_migrations ≡ ok tt
      → ((s : Trace) → k ≤ attempts s → o s (connect_migrations (migration_url url)) ≡ ok tt)
      → ((s : Trace) (e : Error) → o s migrate_up ≢ not_migrated e)
      → (run o (run_migrations url) []).0 ≡ ok tt
  unfolding run_migrations migrate_from
  run_migrations_succeed few source ready up = opens (o [] open_migrations) source
    where
      opens :
          (opened : Done)
          → opened ≡ ok tt
          → (run o (migrate_from url opened) (event open_migrations opened ∷ [])).0 ≡ ok tt
      opens (ok x) h =
          loop_ends 30 (ok tt) (event open_migrations (ok x) ∷ []) few ready up (omega arith) refl
      opens (err e) h = cc
