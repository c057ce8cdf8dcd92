-- ===== src/Transaction/Submit/Lists.antt =====
-- lwis_transaction.c: the transactions that wait for an event, where its list is found or made and
-- one is put into it.
use mathlib.Core.Option.{some-injective}
use google_modules_lwis.Prelude.{
  ℕ, ◌≡◌, refl, sym, subst, ==_iff, if◌then◌else◌, ap, ◌∙◌, inl, inr, Bool, true, false, Option,
  none, some, List, [], ◌∷◌, ◌++◌, arith, ◌==◌, Bool-cases, Option-cases,
}
use google_modules_lwis.Device.{Client, EventList, Transaction, kmalloc}
use google_modules_lwis.Transaction.Submit.{
  put_event_list, create_list, event_list_find, event_list_find_or_create,
}
use google_modules_lwis.Transaction.Trigger.Calm.{waiting, find-event_id}

-- The transactions that wait for an event.
list_of : Option EventList → List Transaction
list_of none = []
list_of (some l) = l.list

unfoldable pub waiting_on : List EventList → ℕ → List Transaction
unfolding list_of
waiting_on ls event_id = list_of (event_list_find ls event_id)

-- `ts`, with the transaction at its end if `b`.
abbrev pub added : Bool → List Transaction → Transaction → List Transaction
added b ts t = if b then ts ++ t ∷ [] else ts

create_list-finds :
    (ls : List EventList) (event_id : ℕ) (l : EventList) (r : Bool × List Bool)
    → (create_list ls event_id r).0 ≡ some l
    → (event_list_find (create_list ls event_id r).1 event_id ≡ some l)
      × (waiting (create_list ls event_id r).1 ≡ waiting ls)
unfolding create_list event_list_find waiting
create_list-finds ls event_id l (false, mem) e = cc
create_list-finds ls event_id l (true, mem) e = (ground arith, omega arith)

find_or_create-finds :
    (ls : List EventList) (mem : List Bool) (event_id : ℕ) (l : EventList)
    → (event_list_find_or_create ls mem event_id).0 ≡ some l
    → (event_list_find (event_list_find_or_create ls mem event_id).1 event_id ≡ some l)
      × (waiting (event_list_find_or_create ls mem event_id).1 ≡ waiting ls)
unfolding event_list_find_or_create
find_or_create-finds ls mem event_id l e = elim (Option-cases (event_list_find ls event_id)) [
  | inl n ↦
      rw (n, event_list_find_or_create)
        (create_list-finds ls event_id l (kmalloc mem) (rw (n, event_list_find_or_create) at e))
  | inr (k, n) ↦
      rw (n, event_list_find_or_create) (n ∙ rw (n, event_list_find_or_create) at e, refl)
]

create_list-waiting_on :
    (ls : List EventList) (event_id : ℕ) (l : EventList) (r : Bool × List Bool) (e : ℕ)
    → event_list_find ls event_id ≡ none
    → (create_list ls event_id r).0 ≡ some l
    → waiting_on (create_list ls event_id r).1 e ≡ waiting_on ls e
unfolding create_list event_list_find waiting_on list_of
create_list-waiting_on ls event_id l (false, mem) e absent made = refl
create_list-waiting_on ls event_id l (true, mem) e absent made = elim (Bool-cases (event_id == e)) [
  | inl here ↦ rw here (
      sym (
        ap list_of
          (subst (λ (k : ℕ). event_list_find ls k ≡ none) ((==_iff event_id e).0 here) absent)))
  | inr elsewhere ↦ rw elsewhere refl
]

find_or_create-waiting_on :
    (ls : List EventList) (mem : List Bool) (event_id : ℕ) (l : EventList) (e : ℕ)
    → (event_list_find_or_create ls mem event_id).0 ≡ some l
    → waiting_on (event_list_find_or_create ls mem event_id).1 e ≡ waiting_on ls e
unfolding event_list_find_or_create
find_or_create-waiting_on ls mem event_id l e made =
    elim (Option-cases (event_list_find ls event_id)) [
      | inl n ↦
          rw (n, event_list_find_or_create)
            (create_list-waiting_on ls event_id l (kmalloc mem) e n
              (rw (n, event_list_find_or_create) at made))
      | inr (k, n) ↦ rw (n, event_list_find_or_create) refl
    ]

pub put-waiting_on :
    (ls : List EventList) (event_id : ℕ) (l : EventList) (t : Transaction) (e : ℕ)
    → event_list_find ls event_id ≡ some l
    → waiting_on (put_event_list ls (record l { list = l.list ++ t ∷ [] })) e
      ≡ added (event_id == e) (waiting_on ls e) t
unfolding event_list_find put_event_list waiting_on list_of
put-waiting_on [] event_id l t e found = absurd (cc found)
put-waiting_on (k ∷ ks) event_id l t e found =
    let id = find-event_id (k ∷ ks) event_id l found in
    let rest = put-waiting_on ks event_id l t e in
    elim (Bool-cases (k.event_id == event_id)) [
      | inl hit ↦
          let same : k ≡ l = some-injective _ _ (rw hit at found) in
          elim (Bool-cases (event_id == e)) [
            | inl here ↦ ground (arith, id, same, hit, here)
            | inr elsewhere ↦ ground (arith, id, same, hit, elsewhere)
          ]
      | inr miss ↦ elim (Bool-cases (k.event_id == e)) [
        | inl here ↦ ground (arith, id, miss, here)
        | inr elsewhere ↦ ground (arith, id, miss, elsewhere, rest)
      ]
    ]

abbrev pub Finds : Client → ℕ → Option EventList × List EventList × List Bool → Type 0
Finds c event_id r =
    (l : EventList)
    → r.0 ≡ some l
    → (event_list_find r.1 event_id ≡ some l)
      × (waiting r.1 ≡ waiting c.transaction_list)
      × ((e : ℕ) → waiting_on r.1 e ≡ waiting_on c.transaction_list e)

pub finds :
    (c : Client) (mem : List Bool) (event_id : ℕ)
    → Finds c event_id (event_list_find_or_create c.transaction_list mem event_id)
finds c mem event_id l made =
    let (found, same) = find_or_create-finds c.transaction_list mem event_id l made in
    (found, same, λ e. find_or_create-waiting_on c.transaction_list mem event_id l e made)
