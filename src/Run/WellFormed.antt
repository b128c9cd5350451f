-- ===== src/Run/WellFormed.antt =====
-- A round of the main loop and of the timer keep the invariant.
use why.Base.{ℕ, ◌-◌, true, false, not, ◌==◌, IsWord, arith}
use why.Machine.Types.{Endianness}
use why.Machine.State.{modify}
use why.Machine.Ensures.{Keeps, Ensures-gets, Ensures-bind, Ensures-if, Keeps-modify}
use why.Machine.WellFormed.{WellFormed}
use why.Machine.WellFormed.Accessors.{get_word-WellFormed}
use why.Machine.WellFormed.Actions.{ask-WellFormed, translate_address-WellFormed, halt-WellFormed}
use why.Machine.WellFormed.Interrupts.{int_timer-WellFormed}
use why.Ops.WellFormed.Values.{Ensures-word, Ensures-then, Keeps-pure}
use why.Ops.WellFormed.Access.{Ensures-any}
use why.Ops.WellFormed.Dispatch.{execute-WellFormed}
use why.Run.{finish_tick, fetch_and_execute, tick, timer_step}

module _ {lowest size : ℕ} where
  finish_tick-WellFormed : Keeps (WellFormed lowest size) finish_tick
  unfolding finish_tick
  finish_tick-WellFormed = Ensures-then _ _ (Keeps-modify _ (λ vm v. assumption)) (
      Ensures-any _ _ (ask-WellFormed _) λ stops.
        Ensures-if stops _ _
          (λ _. Ensures-then _ _ (Keeps-modify _ (λ vm v. assumption)) (Keeps-pure false))
          (λ _. ask-WellFormed _))

  fetch_and_execute-WellFormed :
      (translated : ℕ) → Keeps (WellFormed lowest size) (fetch_and_execute translated)
  unfolding fetch_and_execute
  fetch_and_execute-WellFormed translated =
      Ensures-word _ _ (get_word-WellFormed translated Endianness.big)
        λ instruction _. Ensures-then _ _ (execute-WellFormed instruction) finish_tick-WellFormed

  pub tick-WellFormed : Keeps (WellFormed lowest size) tick
  unfolding tick
  tick-WellFormed = Ensures-word _ _ (Ensures-gets _ (λ vm v. v.pc_fits)) λ pc w.
      Ensures-bind _ _ (translate_address-WellFormed pc w) λ r fits.
        Ensures-if r.1 _ _ (λ _. fetch_and_execute-WellFormed r.0)
          (λ _. Ensures-then _ _ halt-WellFormed (Keeps-pure false))

  set_ticks-WellFormed :
      (ticks : ℕ)
      → IsWord ticks
      → Keeps (WellFormed lowest size) (modify (λ vm. record vm { timer_ticks = ticks }))
  set_ticks-WellFormed ticks w = Keeps-modify _ (λ vm v. assumption w)

  pub timer_step-WellFormed : Keeps (WellFormed lowest size) timer_step
  unfolding timer_step
  timer_step-WellFormed = Ensures-word _ _ (Ensures-gets _ (λ vm v. v.timer_fits)) λ ticks w.
      Ensures-any _ _ (ask-WellFormed _) λ live.
        Ensures-if (not live) _ _ (λ _. Keeps-pure false)
          λ _.
            Ensures-if (ticks == 0) _ _ (λ _. Keeps-pure true)
              λ _. Ensures-then _ _ (set_ticks-WellFormed (ticks - 1) (omega (arith, w))) (
                Ensures-if (ticks == 1) _ _
                  (λ _. Ensures-any _ _ (ask-WellFormed _) λ active.
                    Ensures-then _ _
                      (Ensures-if active _ _
                        (λ _. Ensures-any _ _ int_timer-WellFormed (λ _. Keeps-pure tt))
                        (λ _. Keeps-pure tt))
                      (Ensures-then _ _ (Keeps-modify _ (λ vm v. assumption)) (Keeps-pure false)))
                  (λ _. Keeps-pure true))
