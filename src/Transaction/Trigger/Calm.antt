-- ===== src/Transaction/Trigger/Calm.antt =====
-- A trigger puts off no more events than it takes transactions from the client's lists, unless a
-- repeating transaction runs in the event's context.
use google_modules_lwis.Prelude.{
  ℕ, ◌+◌, ◌≤◌, ◌≡◌, refl, subst, ◌∙◌, inl, inr, Bool, true, false, ◌&&◌, some, List, [], ◌∷◌, ◌==◌,
  arith, length, All, Bool-cases, Option-cases,
}
use google_modules_lwis.Prelude.Int.{eq_ℤ}
use google_modules_lwis.Commands.{every_time}
use google_modules_lwis.Device.{Transaction, EventList}
use google_modules_lwis.Io.{Vops}
use google_modules_lwis.Transaction.Process.{Work}
use google_modules_lwis.Transaction.Process.Frame.{
  process_transaction-lists, length-process_transaction, process_transaction-length-le,
}
use google_modules_lwis.Transaction.Submit.{event_list_find, put_event_list}
use google_modules_lwis.Transaction.Trigger.{
  trigger_one, trigger_loop, after_loop, trigger_list, is_empty, instance_of,
  new_repeating_transaction_iteration, lwis_transaction_event_trigger, defer_transaction_locked,
}

-- A transaction that each occurrence of its event runs at once, again and again.
abbrev pub is_sustained : Transaction → Bool
is_sustained t = eq_ℤ (t.info).trigger_event_counter every_time && (t.info).run_in_event_context

abbrev pub IsCalm : List Transaction → Type 0
IsCalm = All (λ t. is_sustained t ≡ false)

abbrev pub AreCalm : List EventList → Type 0
AreCalm = All (λ l. IsCalm l.list)

unfoldable pub waiting : List EventList → ℕ
waiting [] = 0
waiting (l ∷ ls) = length l.list + waiting ls

abbrev stay : Bool → ℕ
stay true = 1
stay false = 0

pub find-event_id :
    (ls : List EventList) (event_id : ℕ) (l : EventList)
    → event_list_find ls event_id ≡ some l
    → l.event_id ≡ event_id
unfolding event_list_find
find-event_id [] event_id l found = cc
find-event_id (k ∷ ks) event_id l found = ground (arith, find-event_id ks event_id l)

pub put-waiting :
    (ls : List EventList) (event_id : ℕ) (l l' : EventList)
    → event_list_find ls event_id ≡ some l
    → l'.event_id ≡ event_id
    → waiting (put_event_list ls l') + length l.list ≡ waiting ls + length l'.list
unfolding event_list_find put_event_list waiting
put-waiting [] event_id l l' found same = cc
put-waiting (k ∷ ks) event_id l l' found same = ground (arith, put-waiting ks event_id l l')

put-AreCalm :
    (ls : List EventList) (l' : EventList)
    → AreCalm ls
    → IsCalm l'.list
    → AreCalm (put_event_list ls l')
unfolding put_event_list
put-AreCalm [] l' calm calm' = tt
put-AreCalm (k ∷ ks) l' calm calm' = elim (Bool-cases (k.event_id == l'.event_id)) [
  | inl e ↦ rw e (calm', calm.1)
  | inr e ↦ rw e (calm.0, put-AreCalm ks l' calm.1 calm')
]

find-IsCalm :
    (ls : List EventList) (event_id : ℕ) (l : EventList)
    → AreCalm ls
    → event_list_find ls event_id ≡ some l
    → IsCalm l.list
unfolding event_list_find
find-IsCalm [] event_id l calm found = cc
find-IsCalm (k ∷ ks) event_id l calm found = elim (Bool-cases (k.event_id == event_id)) [
  | inl e ↦ let q : k ≡ l = ground arith in subst (λ (x : EventList). IsCalm x.list) q calm.0
  | inr e ↦ find-IsCalm ks event_id l calm.1 (ground arith)
]

module _ {R : Type 0} (vops : Vops R) (event_counter : ℕ) (in_irq : Bool) where
  defer-lists :
      (w : Work R) (t : Transaction)
      → ((defer_transaction_locked vops w t in_irq).client).transaction_list
        ≡ (w.client).transaction_list
  unfolding defer_transaction_locked
  defer-lists w t = ground (arith, process_transaction-lists vops w t in_irq false)

  length-defer :
      (w : Work R) (t : Transaction)
      → length (defer_transaction_locked vops w t in_irq).pending ≤ length w.pending + 1
  unfolding defer_transaction_locked
  length-defer w t = ground (arith, length-process_transaction vops w t in_irq false)

  defer-length-le :
      (w : Work R) (t : Transaction)
      → length w.pending ≤ length (defer_transaction_locked vops w t in_irq).pending
  unfolding defer_transaction_locked
  defer-length-le w t = ground (arith, process_transaction-length-le vops w t in_irq false)

  length-defer_quiet :
      (w : Work R) (t : Transaction)
      → (t.info).run_in_event_context ≡ false
      → length (defer_transaction_locked vops w t in_irq).pending ≡ length w.pending
  unfolding defer_transaction_locked
  length-defer_quiet w t quiet = ground arith

  abbrev fresh_work : Work R → Transaction → Work R
  fresh_work w t = record w {
    dev = record (w.dev) { mem = (new_repeating_transaction_iteration t (w.dev).mem).1 };
  }

  trigger_one-lists :
      (w : Work R) (t : Transaction)
      → ((trigger_one vops w t event_counter in_irq).0.client).transaction_list
        ≡ (w.client).transaction_list
  unfolding trigger_one
  trigger_one-lists w t =
      ground (arith, defer-lists w t, defer-lists (fresh_work w t) (instance_of t))

  length-trigger_one :
      (w : Work R) (t : Transaction)
      → is_sustained t ≡ false
      → length (trigger_one vops w t event_counter in_irq).0.pending
          + stay (trigger_one vops w t event_counter in_irq).1
        ≤ length w.pending + 1
  unfolding trigger_one
  length-trigger_one w t calm =
      ground (arith, length-defer w t, length-defer_quiet (fresh_work w t) (instance_of t))

  trigger_one-length-le :
      (w : Work R) (t : Transaction)
      → length w.pending ≤ length (trigger_one vops w t event_counter in_irq).0.pending
  unfolding trigger_one
  trigger_one-length-le w t =
      ground (arith, defer-length-le w t, defer-length-le (fresh_work w t) (instance_of t))

  trigger_loop-length-le :
      (w : Work R) (ts : List Transaction)
      → length w.pending ≤ length (trigger_loop vops w ts event_counter in_irq).0.pending
  unfolding trigger_loop
  trigger_loop-length-le w [] = omega arith
  trigger_loop-length-le w (t ∷ ts) = omega (
    arith,
    trigger_one-length-le w t,
    trigger_loop-length-le (trigger_one vops w t event_counter in_irq).0 ts,
  )

  trigger_loop-lists :
      (w : Work R) (ts : List Transaction)
      → ((trigger_loop vops w ts event_counter in_irq).0.client).transaction_list
        ≡ (w.client).transaction_list
  unfolding trigger_loop
  trigger_loop-lists w [] = refl
  trigger_loop-lists w (t ∷ ts) =
      trigger_loop-lists (trigger_one vops w t event_counter in_irq).0 ts ∙ trigger_one-lists w t

  length-trigger_loop :
      (w : Work R) (ts : List Transaction)
      → IsCalm ts
      → length (trigger_loop vops w ts event_counter in_irq).0.pending
          + length (trigger_loop vops w ts event_counter in_irq).1
        ≤ length w.pending + length ts
  unfolding trigger_loop
  length-trigger_loop w [] calm = omega arith
  length-trigger_loop w (t ∷ ts) calm = ground (
    arith,
    length-trigger_one w t calm.0,
    length-trigger_loop (trigger_one vops w t event_counter in_irq).0 ts calm.1,
  )

  trigger_loop-IsCalm :
      (w : Work R) (ts : List Transaction)
      → IsCalm ts
      → IsCalm (trigger_loop vops w ts event_counter in_irq).1
  unfolding trigger_loop
  trigger_loop-IsCalm w [] calm = tt
  trigger_loop-IsCalm w (t ∷ ts) calm =
      elim (Bool-cases (trigger_one vops w t event_counter in_irq).1) [
        | inl e ↦
            rw e
              (calm.0, trigger_loop-IsCalm (trigger_one vops w t event_counter in_irq).0 ts calm.1)
        | inr e ↦ rw e (trigger_loop-IsCalm (trigger_one vops w t event_counter in_irq).0 ts calm.1)
      ]

  -- The measure: events put off, and transactions that wait in the client's lists.
  abbrev pub measure : Work R → ℕ
  measure w = length w.pending + waiting (w.client).transaction_list

  -- The lists stay calm, and no more events are put off than transactions are taken.
  abbrev pub Kept : Work R → Work R → Type 0
  Kept w w' =
      (measure w' ≤ measure w)
      × AreCalm (w'.client).transaction_list
      × (length w.pending ≤ length w'.pending)

  after_loop-Kept :
      (w : Work R) (event_id : ℕ) (l : EventList)
      → AreCalm (w.client).transaction_list
      → event_list_find (w.client).transaction_list event_id ≡ some l
      → Kept w (after_loop vops l (trigger_loop vops w l.list event_counter in_irq))
  unfolding after_loop
  after_loop-Kept w event_id l calm found =
      let lists = (w.client).transaction_list in
      let calm_l = find-IsCalm lists event_id l calm found in
      let kept = (trigger_loop vops w l.list event_counter in_irq).1 in
      let l' : EventList = record l { list = kept } in
      rw (trigger_loop-lists w l.list) (
        omega (
          arith,
          length-trigger_loop w l.list calm_l,
          put-waiting lists event_id l l' found (find-event_id lists event_id l found),
        ),
        put-AreCalm lists l' calm (trigger_loop-IsCalm w l.list calm_l),
        trigger_loop-length-le w l.list,
      )

  trigger_list-Kept :
      (w : Work R) (event_id : ℕ) (l : EventList)
      → AreCalm (w.client).transaction_list
      → event_list_find (w.client).transaction_list event_id ≡ some l
      → Kept w (trigger_list vops w event_counter in_irq l)
  unfolding trigger_list
  trigger_list-Kept w event_id l calm found = elim (Bool-cases (is_empty l.list)) [
    | inl e ↦ rw e (omega arith, calm, omega arith)
    | inr e ↦ rw e (after_loop-Kept w event_id l calm found)
  ]

  pub trigger-Kept :
      (w : Work R) (event_id : ℕ)
      → AreCalm (w.client).transaction_list
      → Kept w (lwis_transaction_event_trigger vops w event_id event_counter in_irq)
  unfolding lwis_transaction_event_trigger
  trigger-Kept w event_id calm =
      elim (Option-cases (event_list_find (w.client).transaction_list event_id)) [
        | inl e ↦ rw (e, lwis_transaction_event_trigger) (omega arith, calm, omega arith)
        | inr (l, e) ↦
            rw (e, lwis_transaction_event_trigger) (trigger_list-Kept w event_id l calm e)
      ]
