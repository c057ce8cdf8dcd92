-- ===== src/Transaction/Submit/Checked.antt =====
-- lwis_transaction.c: the info that `check_transaction_param_locked` leaves where it returns 0.
use google_modules_lwis.Prelude.{
  ℕ, ◌≡◌, refl, sym, subst, not, ◌&&◌, ◌⊎◌, inl, inr, Bool, true, ◌==◌, Bool-cases,
}
use google_modules_lwis.Prelude.Int.{ℤ, eq_ℤ, ltb_ℤ}
use google_modules_lwis.Commands.{TransactionInfo, event_id_none}
use google_modules_lwis.Device.{Device, Client}
use google_modules_lwis.Event.States.{create_states}
use google_modules_lwis.Transaction.Submit.{
  Trigger, accepted, refused, check_trigger, current_counter, explicit_event_counter, check_answers,
  create_second, created, check_transaction_param_locked,
}

-- The event that the transaction waits for, when it is submitted at this counter: none any more if
-- its counter is just met and the caller allows that.
abbrev pub WaitsFor : TransactionInfo → Bool → ℤ → ℕ → Type 0
WaitsFor info allow_counter_eq counter event_id =
    (event_id ≡ info.trigger_event_id)
    ⊎ ((event_id ≡ event_id_none)
        × (eq_ℤ info.trigger_event_counter counter ≡ true)
        × (allow_counter_eq ≡ true))

abbrev pub IsChecked : TransactionInfo → Bool → TransactionInfo → Type 0
IsChecked info allow_counter_eq info' =
    (counter : ℤ) × (event_id : ℕ) × (info'
      ≡ record info { current_trigger_event_counter = counter; trigger_event_id = event_id })
    × WaitsFor info allow_counter_eq counter event_id

abbrev Accepts : TransactionInfo → Bool → Trigger → Type 0
Accepts info allow_counter_eq (accepted info') = IsChecked info allow_counter_eq info'
Accepts info allow_counter_eq (refused info') = Unit

check_trigger-Accepts :
    (info : TransactionInfo) (allow_counter_eq : Bool) (counter : ℤ)
    → Accepts info allow_counter_eq
        (check_trigger (record info { current_trigger_event_counter = counter }) allow_counter_eq)
unfolding check_trigger
check_trigger-Accepts info allow counter =
    let same : IsChecked info allow (record info { current_trigger_event_counter = counter }) =
      (counter, info.trigger_event_id, refl, inl refl) in
    elim (Bool-cases (
      not (info.trigger_event_id == event_id_none)
      && explicit_event_counter info.trigger_event_counter)) [
        | inr simple ↦ rw simple same
        | inl explicit ↦ elim (Bool-cases (eq_ℤ info.trigger_event_counter counter)) [
          | inr other ↦ elim (Bool-cases (ltb_ℤ info.trigger_event_counter counter)) [
            | inl passed ↦ rw (explicit, other, passed) tt
            | inr ahead ↦ rw (explicit, other, ahead) same
          ]
          | inl met ↦ elim (Bool-cases allow) [
            | inl allows ↦
                rw (explicit, met, allows) (counter, event_id_none, refl, inr (refl, met, refl))
            | inr strict ↦ rw (explicit, met, strict) tt
          ]
        ]
      ]

module _ {R : Type 0} where
  created-info :
      (info : TransactionInfo) (r : Bool × Device R × Client) → (created info r).info ≡ info
  unfolding created
  created-info info (made, d, c) = refl

  check_answers-IsChecked :
      (d : Device R) (c : Client) (info : TransactionInfo) (allow : Bool) (t : Trigger)
      → Accepts info allow t
      → ((check_answers d c t).ret == 0) ≡ true
      → IsChecked info allow (check_answers d c t).info
  unfolding check_answers
  check_answers-IsChecked d c info allow (refused info') h ok = absurd (cc ok)
  check_answers-IsChecked d c info allow (accepted info') h ok =
      subst (IsChecked info allow)
        (sym (
          created-info info' (create_second info' (create_states d c info'.emit_success_event_id))))
        h

  pub check-IsChecked :
      (d : Device R) (c : Client) (info : TransactionInfo) (allow : Bool)
      → ((check_transaction_param_locked d c info allow).ret == 0) ≡ true
      → IsChecked info allow (check_transaction_param_locked d c info allow).info
  unfolding check_transaction_param_locked
  check-IsChecked d c info allow ok =
      check_answers-IsChecked d c info allow _
        (check_trigger-Accepts info allow (current_counter d info)) ok
