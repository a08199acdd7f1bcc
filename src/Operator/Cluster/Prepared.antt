-- ===== src/Operator/Cluster/Prepared.antt =====
-- The instance after the first steps of `Reconcile`, and what these leave alone.
use clawbake.Base.{
  String, Bool, true, false, not, ◌≡◌, refl, sym, ap, ◌∙◌, if_elim, string_eq, ◌==◌, ==_sound,
}
use clawbake.Api.{ClawInstance, phase_pending, phase_creating, phase_running}
use clawbake.Operator.{Libraries, finalizer_name}
use clawbake.Operator.Reconcile.{set_phase}
use clawbake.Operator.Cluster.Steps.{ensured, advanced}

-- The instance when the deployment is looked at.
abbrev pub prepared : Libraries → ClawInstance → ClawInstance
prepared l i = advanced phase_pending phase_creating (advanced "" phase_pending (ensured l i))

-- What the first steps leave alone.
pub record Same (i j : ClawInstance) : Type 0 where
  pub namespace : i.namespace ≡ j.namespace
  pub name : i.name ≡ j.name
  pub spec : i.spec ≡ j.spec
  pub live : i.deletion_timestamp ≡ j.deletion_timestamp

Same-refl : (i : ClawInstance) → Same i i
Same-refl i = record { namespace = refl; name = refl; spec = refl; live = refl }

Same-advanced : (from to : String) (i j : ClawInstance) → Same i j → Same (advanced from to i) j
Same-advanced from to i j h =
    if_elim (λ k. Same k j) (i.status.phase == from) (set_phase to i) i
      (λ _. record { namespace = h.namespace; name = h.name; spec = h.spec; live = h.live })
      (λ _. h)

pub Same-prepared : (l : Libraries) (i : ClawInstance) → Same (prepared l i) i
Same-prepared l i = Same-advanced phase_pending phase_creating _ i (
    Same-advanced "" phase_pending (ensured l i) i (
      if_elim (λ k. Same k i) (not (l.contains_finalizer i.finalizers finalizer_name)) _ _
        (λ _. record { namespace = refl; name = refl; spec = refl; live = refl })
        (λ _. Same-refl i)))

-- The first steps do not lead to the phase Running, nor away from it.
running_after :
    (from to : String) (i : ClawInstance)
    → (from == phase_running) ≡ false
    → (to == phase_running) ≡ false
    → ((advanced from to i).status.phase == phase_running) ≡ (i.status.phase == phase_running)
running_after from to i hf ht =
    if_elim
      (λ (k : ClawInstance). (k.status.phase == phase_running) ≡ (i.status.phase == phase_running))
      (i.status.phase == from) (set_phase to i) i
      (λ e. ht ∙ sym hf ∙ ap (λ p. p == phase_running) (sym (==_sound i.status.phase from e)))
      (λ _. refl)

pub running_kept :
    (l : Libraries) (i : ClawInstance)
    → ((prepared l i).status.phase == phase_running) ≡ (i.status.phase == phase_running)
running_kept l i =
    running_after phase_pending phase_creating (advanced "" phase_pending (ensured l i)) refl refl
    ∙ running_after "" phase_pending (ensured l i) refl refl
    ∙ if_elim
        (λ (k : ClawInstance).
          (k.status.phase == phase_running) ≡ (i.status.phase == phase_running))
        (not (l.contains_finalizer i.finalizers finalizer_name)) _ i (λ _. refl) (λ _. refl)

pub not_both : {b : Bool} → b ≡ true → b ≡ false → ⊥
not_both h k = cc
