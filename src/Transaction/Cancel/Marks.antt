-- ===== src/Transaction/Cancel/Marks.antt =====
-- lwis_transaction.c: cancelling marks one waiting transaction, or finds none.
use google_modules_lwis.Prelude.{
  ℕ, ◌≡◌, ◌≢◌, refl, sym, ap, ◌∙◌, ◌⊎◌, inl, inr, none, some, List, [], ◌∷◌, ◌++◌, arith, ◌==◌,
  ==_iff, All, All-append, Bool-cases,
}
use mathlib.Core.List.{append_assoc}
use google_modules_lwis.Errno.{enoent, ecanceled}
use google_modules_lwis.Device.{Client, EventList, Transaction}
use google_modules_lwis.Transaction.Cancel.{
  cancel_in_list, cancel_in_lists, lwis_transaction_cancel, found_or,
}

-- The transactions that wait in the lists of all events.
unfoldable pub all_waiting : List EventList → List Transaction
all_waiting [] = []
all_waiting (l ∷ ls) = l.list ++ all_waiting ls

abbrev pub cancelled : Transaction → Transaction
cancelled t = record t { resp = record (t.resp) { error_code = ecanceled } }

abbrev pub IsOther : ℕ → Transaction → Type 0
IsOther id t = (t.info).id ≢ id

-- The first transaction with the id is marked.
abbrev pub Marked : ℕ → List Transaction → List Transaction → Type 0
Marked id ts ts' =
    (before : List Transaction) × (t : Transaction) × (after : List Transaction) × (ts
      ≡ before ++ t ∷ after)
    × ((t.info).id ≡ id)
    × All (IsOther id) before
    × (ts' ≡ before ++ cancelled t ∷ after)

abbrev InList : ℕ → List Transaction → Type 0
InList id ts =
    ((ts' : List Transaction) × (cancel_in_list ts id ≡ some ts') × Marked id ts ts')
    ⊎ (cancel_in_list ts id ≡ none) × All (IsOther id) ts

cancel-InList-cases : (ts : List Transaction) (id : ℕ) → InList id ts
unfolding cancel_in_list
cancel-InList-cases [] id = inr (refl, tt)
cancel-InList-cases (t ∷ ts) id = elim (Bool-cases ((t.info).id == id)) [
  | inl same ↦
      inl (
        cancelled t ∷ ts,
        rw same refl,
        ([], t, ts, refl, (==_iff (t.info).id id).0 same, tt, refl),
      )
  | inr other ↦
      let ne : IsOther id t = ground arith in
      elim (cancel-InList-cases ts id) [
        | inl (ts', e, (before, u, after, split, hit, clear, marked)) ↦ inl (
          t ∷ ts',
          rw (other, e) refl,
          (t ∷ before, u, after, ap (◌∷◌ t) split, hit, (ne, clear), ap (◌∷◌ t) marked),
        )
        | inr (e, clear) ↦ inr (rw (other, e) refl, (ne, clear))
      ]
]

abbrev InLists : ℕ → List EventList → Type 0
InLists id ls =
    ((ls' : List EventList) × (cancel_in_lists ls id ≡ some ls')
      × Marked id (all_waiting ls) (all_waiting ls'))
    ⊎ (cancel_in_lists ls id ≡ none) × All (IsOther id) (all_waiting ls)

cancel-InLists-cases : (ls : List EventList) (id : ℕ) → InLists id ls
unfolding cancel_in_lists all_waiting
cancel-InLists-cases [] id = inr (refl, tt)
cancel-InLists-cases (l ∷ ls) id = elim (cancel-InList-cases l.list id) [
  | inl (ts', e, (before, t, after, split, hit, clear, marked)) ↦ inl (
    record l { list = ts' } ∷ ls,
    rw (e, cancel_in_lists) refl,
    (
      before,
      t,
      after ++ all_waiting ls,
      ap (λ (x : List Transaction). x ++ all_waiting ls) split
          ∙ append_assoc before (t ∷ after) (all_waiting ls),
      hit,
      clear,
      ap (λ (x : List Transaction). x ++ all_waiting ls) marked
          ∙ append_assoc before (cancelled t ∷ after) (all_waiting ls),
    ),
  )
  | inr (e, here) ↦ elim (cancel-InLists-cases ls id) [
    | inl (ls', e', (before, t, after, split, hit, clear, marked)) ↦ inl (
      l ∷ ls',
      rw (e, e', cancel_in_lists) refl,
      (
        l.list ++ before,
        t,
        after,
        ap (λ (x : List Transaction). l.list ++ x) split
            ∙ sym (append_assoc l.list before (t ∷ after)),
        hit,
        All-append (IsOther id) l.list before here clear,
        ap (λ (x : List Transaction). l.list ++ x) marked
            ∙ sym (append_assoc l.list before (cancelled t ∷ after)),
      ),
    )
    | inr (e', clear) ↦ inr (
      rw (e, e', cancel_in_lists) refl,
      All-append (IsOther id) l.list (all_waiting ls) here clear,
    )
  ]
]

-- Cancelling marks the first waiting transaction with the id as cancelled, changes no other and
-- returns 0; where no transaction with the id waits, it returns ENOENT and changes nothing.
pub lwis_transaction_cancel-cases :
    (c : Client) (id : ℕ)
    → ((lwis_transaction_cancel c id).0 ≡ 0)
        × Marked id
            (all_waiting c.transaction_list)
            (all_waiting (lwis_transaction_cancel c id).1.transaction_list)
      ⊎ (lwis_transaction_cancel c id ≡ (enoent, c))
        × All (IsOther id) (all_waiting c.transaction_list)
unfolding lwis_transaction_cancel
lwis_transaction_cancel-cases c id = elim (cancel-InLists-cases c.transaction_list id) [
  | inl (ls', e, m) ↦ inl (rw (e, found_or, lwis_transaction_cancel) (refl, m))
  | inr (e, clear) ↦ inr (rw (e, found_or, lwis_transaction_cancel) refl, clear)
]
