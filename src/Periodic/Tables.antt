-- ===== src/Periodic/Tables.antt =====
-- lwis_periodic_io.c: what searches and writes do to the timer lists of a client, seen by the number
-- of copies of each id and by predicates on the periodic I/O.
use google_modules_lwis.Prelude.{
  ℕ, ◌+◌, ◌≤◌, ◌≡◌, refl, subst, inl, inr, Option, none, some, List, [], ◌∷◌, ◌++◌, map, arith, All,
  ◌==◌, Bool-cases, if◌then◌else◌,
}
use mathlib.Core.Option.{some-injective}
use google_modules_lwis.Periodic.{
  PeriodicIo, PeriodicList, periodic_io_list_find, put_list, find_in_list, periodic_io_find_locked,
  or_else, put_in_list, put_io, stop_timer, deactivate,
}

-- How often an id stands on a timer, and on all timers.
unfoldable pub copies_in : List PeriodicIo → ℕ → ℕ
copies_in [] id = 0
copies_in (p ∷ ps) id = (if (p.info).id == id then 1 else 0) + copies_in ps id

unfoldable pub copies : List PeriodicList → ℕ → ℕ
copies [] id = 0
copies (l ∷ ls) id = copies_in l.list id + copies ls id

pub copies_in-append_one :
    (ps : List PeriodicIo) (p : PeriodicIo) (id : ℕ)
    → copies_in (ps ++ p ∷ []) id ≡ copies_in ps id + (if (p.info).id == id then 1 else 0)
unfolding copies_in
copies_in-append_one [] p id = omega arith
copies_in-append_one (q ∷ ps) p id = omega (arith, copies_in-append_one ps p id)

pub copies_in-one :
    (p : PeriodicIo) (id : ℕ) → copies_in (p ∷ []) id ≡ (if (p.info).id == id then 1 else 0)
unfolding copies_in
copies_in-one p id = omega arith

pub copies_in-le-copies :
    (ls : List PeriodicList) (k : ℕ) (l : PeriodicList) (id : ℕ)
    → periodic_io_list_find ls k ≡ some l
    → copies_in l.list id ≤ copies ls id
unfolding periodic_io_list_find copies
copies_in-le-copies [] k l id h = cc
copies_in-le-copies (m ∷ ls) k l id h = ground (arith, copies_in-le-copies ls k l id)

-- A write through a found pointer replaces the copies of that list.
pub copies-put_list :
    (ls : List PeriodicList) (l l' : PeriodicList) (id : ℕ)
    → periodic_io_list_find ls l'.period_ns ≡ some l
    → copies (put_list ls l') id + copies_in l.list id ≡ copies ls id + copies_in l'.list id
unfolding periodic_io_list_find put_list copies
copies-put_list [] l l' id h = cc
copies-put_list (m ∷ ls) l l' id h = ground (arith, copies-put_list ls l l' id)

pub find-put_list :
    (ls : List PeriodicList) (l l' : PeriodicList)
    → periodic_io_list_find ls l'.period_ns ≡ some l
    → periodic_io_list_find (put_list ls l') l'.period_ns ≡ some l'
unfolding periodic_io_list_find put_list
find-put_list [] l l' h = cc
find-put_list (m ∷ ls) l l' h = ground (arith, find-put_list ls l l')

pub list_find-period :
    (ls : List PeriodicList) (k : ℕ) (l : PeriodicList)
    → periodic_io_list_find ls k ≡ some l
    → l.period_ns ≡ k
unfolding periodic_io_list_find
list_find-period [] k l h = cc
list_find-period (m ∷ ls) k l h = ground (arith, list_find-period ls k l)

copies_in-put :
    (ps : List PeriodicIo) (q : PeriodicIo) (id : ℕ)
    → copies_in (put_in_list ps q) id ≡ copies_in ps id
unfolding copies_in put_in_list
copies_in-put [] q id = refl
copies_in-put (p ∷ ps) q id = ground (arith, copies_in-put ps q id)

pub copies-put_io :
    (ls : List PeriodicList) (q : PeriodicIo) (id : ℕ) → copies (put_io ls q) id ≡ copies ls id
unfolding copies put_io
copies-put_io [] q id = refl
copies-put_io (l ∷ ls) q id = omega (arith, copies_in-put l.list q id, copies-put_io ls q id)

copies_in-deactivate :
    (ps : List PeriodicIo) (id : ℕ) → copies_in (map deactivate ps) id ≡ copies_in ps id
unfolding copies_in deactivate
copies_in-deactivate [] id = refl
copies_in-deactivate (p ∷ ps) id = omega (arith, copies_in-deactivate ps id)

pub copies-stop_timer :
    (ls : List PeriodicList) (id : ℕ) → copies (map stop_timer ls) id ≡ copies ls id
unfolding copies stop_timer
copies-stop_timer [] id = refl
copies-stop_timer (l ∷ ls) id =
    omega (arith, copies_in-deactivate l.list id, copies-stop_timer ls id)

find_in_list-some :
    (ps : List PeriodicIo) (id : ℕ)
    → 1 ≤ copies_in ps id
    → (p : PeriodicIo) × (find_in_list ps id ≡ some p)
unfolding copies_in find_in_list
find_in_list-some [] id h = absurd (omega arith)
find_in_list-some (p ∷ ps) id h = elim (Bool-cases ((p.info).id == id)) [
  | inl here ↦ rw here (p, refl)
  | inr later ↦ rw later (find_in_list-some ps id (ground arith))
]

find_in_list-none :
    (ps : List PeriodicIo) (id : ℕ) → copies_in ps id ≡ 0 → find_in_list ps id ≡ none
unfolding copies_in find_in_list
find_in_list-none [] id h = refl
find_in_list-none (p ∷ ps) id h = ground (arith, find_in_list-none ps id)

-- An id that stands on a timer is found.
pub find_locked-some :
    (ls : List PeriodicList) (id : ℕ)
    → 1 ≤ copies ls id
    → (p : PeriodicIo) × (periodic_io_find_locked ls id ≡ some p)
unfolding copies periodic_io_find_locked
find_locked-some [] id h = absurd (omega arith)
find_locked-some (l ∷ ls) id h = elim (Bool-cases (copies_in l.list id == 0)) [
  | inl no_copy ↦
      rw (find_in_list-none l.list id (ground arith)) (find_locked-some ls id (ground arith))
  | inr copy ↦ let (p, e) = find_in_list-some l.list id (ground arith) in rw e (p, refl)
]

-- A predicate on all periodic I/O of the timers.
abbrev pub AllIo : (PeriodicIo → Type 0) → List PeriodicList → Type 0
AllIo P ls = All (λ (l : PeriodicList). All P l.list) ls

abbrev pub OptionAll : (PeriodicIo → Type 0) → Option PeriodicIo → Type 0
OptionAll P none = Unit
OptionAll P (some p) = P p

module _ (P : PeriodicIo → Type 0) where
  find_in_list-All : (ps : List PeriodicIo) (id : ℕ) → All P ps → OptionAll P (find_in_list ps id)
  unfolding find_in_list
  find_in_list-All [] id h = tt
  find_in_list-All (p ∷ ps) id h = elim (Bool-cases ((p.info).id == id)) [
    | inl here ↦ rw here (h.0)
    | inr later ↦ rw later (find_in_list-All ps id h.1)
  ]

  or_else-All :
      (a b : Option PeriodicIo) → OptionAll P a → OptionAll P b → OptionAll P (or_else a b)
  unfolding or_else
  or_else-All none b ha hb = hb
  or_else-All (some p) b ha hb = ha

  pub find_locked-All :
      (ls : List PeriodicList) (id : ℕ) → AllIo P ls → OptionAll P (periodic_io_find_locked ls id)
  unfolding periodic_io_find_locked
  find_locked-All [] id h = tt
  find_locked-All (l ∷ ls) id h =
      or_else-All (find_in_list l.list id) (periodic_io_find_locked ls id)
        (find_in_list-All l.list id h.0) (find_locked-All ls id h.1)

  put_in_list-All :
      (ps : List PeriodicIo) (q : PeriodicIo) → All P ps → P q → All P (put_in_list ps q)
  unfolding put_in_list
  put_in_list-All [] q h hq = tt
  put_in_list-All (p ∷ ps) q h hq = elim (Bool-cases ((p.info).id == (q.info).id)) [
    | inl here ↦ rw here (hq, put_in_list-All ps q h.1 hq)
    | inr other ↦ rw other (h.0, put_in_list-All ps q h.1 hq)
  ]

  pub put_io-All :
      (ls : List PeriodicList) (q : PeriodicIo) → AllIo P ls → P q → AllIo P (put_io ls q)
  unfolding put_io
  put_io-All [] q h hq = tt
  put_io-All (l ∷ ls) q h hq = (put_in_list-All l.list q h.0 hq, put_io-All ls q h.1 hq)

  pub put_list-All :
      (ls : List PeriodicList) (l : PeriodicList)
      → AllIo P ls
      → All P l.list
      → AllIo P (put_list ls l)
  unfolding put_list
  put_list-All [] l h hl = tt
  put_list-All (m ∷ ls) l h hl = elim (Bool-cases (m.period_ns == l.period_ns)) [
    | inl here ↦ rw here (hl, h.1)
    | inr other ↦ rw other (h.0, put_list-All ls l h.1 hl)
  ]

  pub list_find-All :
      (ls : List PeriodicList) (k : ℕ) (l : PeriodicList)
      → AllIo P ls
      → periodic_io_list_find ls k ≡ some l
      → All P l.list
  unfolding periodic_io_list_find
  list_find-All [] k l h e = cc
  list_find-All (m ∷ ls) k l h e = elim (Bool-cases (m.period_ns == k)) [
    | inl here ↦ subst (λ (o : PeriodicList). All P o.list) (some-injective _ _ (rw here at e)) h.0
    | inr other ↦ list_find-All ls k l h.1 (rw other at e)
  ]
