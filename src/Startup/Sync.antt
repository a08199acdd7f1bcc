-- ===== src/Startup/Sync.antt =====
-- `syncInstanceDefaults` of cmd/server/main.go on the tables.
use clawbake.Base.{
  String, List, [], ◌∷◌, Bool, true, false, not, ◌≡◌, ◌≢◌, ◌⊎◌, inl, inr, refl, ap, if_elim,
  ne_of_test, ==_sound, arith, codes, string_eq, ◌==◌, if◌then◌else◌,
}
use clawbake.Api.{ok}
use clawbake.Database.{User, InstanceDefault}
use clawbake.Effects.{Trace, Oracle}
use clawbake.Database.Store.{
  Tables, exec, run_on, first_defaults, change_defaults, updated_defaults,
}
use clawbake.Database.Accounts.Resolution.{reachable}
use clawbake.Startup.Server.{Config, synced, sync_from, sync_instance_defaults}

-- What a setting of the environment makes of a stored one.
abbrev pub chosen {ℓ} : {A : Type ℓ} → Bool → A → A → A
chosen unset given stored = if not unset then given else stored

chosen_twice {ℓ} :
    {A : Type ℓ} (unset : Bool) (given stored : A)
    → chosen unset given (chosen unset given stored) ≡ chosen unset given stored
chosen_twice true given stored = refl
chosen_twice false given stored = refl

module _ (cfg : Config) where
  -- The row after a start with the configuration.
  abbrev pub deployed : InstanceDefault → InstanceDefault
  deployed d = updated_defaults (synced cfg d) d

  synced_twice : (d : InstanceDefault) → synced cfg (deployed d) ≡ synced cfg d
  unfolding synced
  synced_twice d = λ i. record {
    image = chosen_twice (cfg.instance_default_image == "") cfg.instance_default_image d.image i;
    cpu_request =
        chosen_twice (cfg.instance_default_cpu_request == "") cfg.instance_default_cpu_request
          d.cpu_request i;
    memory_request =
        chosen_twice (cfg.instance_default_memory_request == "") cfg.instance_default_memory_request
          d.memory_request i;
    cpu_limit =
        chosen_twice (cfg.instance_default_cpu_limit == "") cfg.instance_default_cpu_limit
          d.cpu_limit i;
    memory_limit =
        chosen_twice (cfg.instance_default_memory_limit == "") cfg.instance_default_memory_limit
          d.memory_limit i;
    storage_size =
        chosen_twice (cfg.instance_default_storage_size == "") cfg.instance_default_storage_size
          d.storage_size i;
    gateway_config =
        chosen_twice (cfg.instance_default_gateway_config == "")
          (codes cfg.instance_default_gateway_config) d.gateway_config i;
  }

  -- The setting counts, unless it is empty.
  abbrev pub Follows {ℓ} : {A : Type ℓ} → String → A → A → A → Type ℓ
  Follows setting given new old = ((setting ≡ "") × (new ≡ old)) ⊎ ((setting ≢ "") × (new ≡ given))

  chosen-Follows {ℓ} :
      {A : Type ℓ} (setting : String) (given old : A)
      → Follows setting given (chosen (setting == "") given old) old
  chosen-Follows setting given old =
      if_elim (λ x. Follows setting given x old) (not (setting == "")) _ _
        (λ set. inr (ne_of_test setting "" (ground (arith, set)), refl))
        (λ unset. inl (==_sound setting "" (ground (arith, unset)), refl))

  -- Every field of the row is the setting's or stays.
  abbrev pub FollowsAll : InstanceDefault → InstanceDefault → Type 0
  FollowsAll new old =
      Follows cfg.instance_default_image cfg.instance_default_image new.image old.image
      × Follows cfg.instance_default_cpu_request cfg.instance_default_cpu_request new.cpu_request
          old.cpu_request
      × Follows cfg.instance_default_memory_request cfg.instance_default_memory_request
          new.memory_request old.memory_request
      × Follows cfg.instance_default_cpu_limit cfg.instance_default_cpu_limit new.cpu_limit
          old.cpu_limit
      × Follows cfg.instance_default_memory_limit cfg.instance_default_memory_limit new.memory_limit
          old.memory_limit
      × Follows cfg.instance_default_storage_size cfg.instance_default_storage_size new.storage_size
          old.storage_size
      × Follows cfg.instance_default_gateway_config (codes cfg.instance_default_gateway_config)
          new.gateway_config old.gateway_config
      × (new.id ≡ old.id)

  deployed-FollowsAll : (d : InstanceDefault) → FollowsAll (deployed d) d
  unfolding synced
  deployed-FollowsAll d = (
    chosen-Follows cfg.instance_default_image cfg.instance_default_image d.image,
    chosen-Follows cfg.instance_default_cpu_request cfg.instance_default_cpu_request d.cpu_request,
    chosen-Follows cfg.instance_default_memory_request cfg.instance_default_memory_request
        d.memory_request,
    chosen-Follows cfg.instance_default_cpu_limit cfg.instance_default_cpu_limit d.cpu_limit,
    chosen-Follows cfg.instance_default_memory_limit cfg.instance_default_memory_limit
        d.memory_limit,
    chosen-Follows cfg.instance_default_storage_size cfg.instance_default_storage_size
        d.storage_size,
    chosen-Follows cfg.instance_default_gateway_config (codes cfg.instance_default_gateway_config)
        d.gateway_config,
    refl,
  )

  module _ (fresh : Trace → String) (others : Oracle) (users : List User) where
    abbrev pub with_defaults : InstanceDefault → Tables
    with_defaults d = record { users = users; defaults = d ∷ [] }

    -- Of a database that can be reached, with the one row of defaults that the migrations make: the start
    -- of the server succeeds and leaves one row, in which each field has the setting of the environment, if
    -- that is not empty, and otherwise its old value; the users stay; and a restart with the same
    -- settings, at any time, changes nothing.
    pub sync_instance_defaults_settles :
        (d : InstanceDefault) (t : Trace)
        → (run_on (reachable fresh others) (sync_instance_defaults cfg) (with_defaults d) t
            ≡ (ok tt, with_defaults (deployed d)))
          × FollowsAll (deployed d) d
          × ((s : Trace)
              → run_on
                  (reachable fresh others)
                  (sync_instance_defaults cfg)
                  (with_defaults (deployed d))
                  s
                ≡ (ok tt, with_defaults (deployed d)))
    unfolding sync_instance_defaults sync_from exec first_defaults change_defaults
    sync_instance_defaults_settles d t = (
      refl,
      deployed-FollowsAll d,
      λ s. ap (λ p. (ok tt, with_defaults (updated_defaults p d))) (synced_twice d),
    )
