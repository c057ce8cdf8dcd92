-- ===== src/Periodic/Process/Whole.antt =====
-- lwis_periodic_io.c: a run with several writes that has begun is not cut short by a cancellation.
use google_modules_lwis.Prelude.{
  ℕ, ◌+◌, ◌≤◌, ◌<◌, ◌≡◌, refl, ◌∙◌, inl, inr, Bool, true, false, List, [], ◌∷◌, arith, ◌==◌,
  Bool-cases, if◌then◌else◌,
}
use google_modules_lwis.Errno.{ecanceled}
use google_modules_lwis.Commands.{IoEntry}
use google_modules_lwis.Device.{Device}
use google_modules_lwis.Io.{Vops}
use google_modules_lwis.Periodic.{PeriodicIo}
use google_modules_lwis.Periodic.Process.{
  Progress, Ended, all_done, failed, run_entry, process_loop, process_round, observe, aborts,
  advanced, stopped, run_entries, start,
}
use google_modules_lwis.Periodic.Submit.{is_write, multiple_writes}

-- Two runs did the same to the registers and wrote the same results.
abbrev SameIo : {R : Type 0} → Progress R → Progress R → Type 0
SameIo p q =
    (p.regs ≡ q.regs) × (p.results ≡ q.results) × (p.read_buf ≡ q.read_buf) × (p.ret ≡ q.ret)

-- They also ended alike, at the same entry.
abbrev pub SameEnd : {R : Type 0} → Ended R → Ended R → Type 0
SameEnd (all_done p) (all_done q) = SameIo p q
SameEnd (failed p) (failed q) = SameIo p q
SameEnd (all_done p) (failed q) = ⊥
SameEnd (failed p) (all_done q) = ⊥

abbrev pub never : ℕ → Bool
never i = false

module _ {R : Type 0} (vops : Vops R) (width now : ℕ) (cancel_at : ℕ → Bool) where
  -- The progress of a run that was cancelled, or not.
  abbrev marked : Progress R → ℕ → Bool → Progress R
  marked p code live = record p { error_code = code; active = live }

  -- A round that does not abort.
  round-SameEnd :
      (i : ℕ) (e : IoEntry) (next next' : Progress R → Ended R) (p : Progress R) (code : ℕ)
      (live : Bool)
      → aborts vops width now cancel_at true i (marked p code live) ≡ false
      → aborts vops width now never true i p ≡ false
      → ((q : Progress R) → SameEnd (next (marked q code live)) (next' q))
      → SameEnd
          (process_round vops width now cancel_at true i e next (marked p code live))
          (process_round vops width now never true i e next' p)
  unfolding process_round advanced stopped
  round-SameEnd i e next next' p code live on on' same =
      let o = run_entry vops width now p.read_buf p.ret p.regs e in
      rw (on, on')
        (elim (Bool-cases (o.code == 0)) [
          | inl good ↦ rw good (same (advanced vops width now p o))
          | inr bad ↦ rw bad (refl, refl, refl, refl)
        ])

  goes_on :
      (c : ℕ → Bool) (i : ℕ) (p : Progress R) → 0 < i → aborts vops width now c true i p ≡ false
  unfolding aborts
  goes_on c i p h = elim (Bool-cases p.active) [
    | inl live ↦ rw live refl
    | inr dead ↦ rw dead (ground arith)
  ]

  starts :
      (c : ℕ → Bool) (p : Progress R) → p.active ≡ true → aborts vops width now c true 0 p ≡ false
  unfolding aborts
  starts c p live = rw live refl

  abbrev rest : (ℕ → Bool) → ℕ → List IoEntry → Progress R → Ended R
  rest c i es q = process_loop vops width now c true i es q

  -- Behind the first entry.
  later-SameEnd :
      (i : ℕ) (es : List IoEntry) (p : Progress R) (code : ℕ) (live : Bool)
      → 0 < i
      → SameEnd
          (process_loop vops width now cancel_at true i es (marked p code live))
          (process_loop vops width now never true i es p)
  unfolding process_loop observe
  later-SameEnd i [] p code live h = elim (Bool-cases (cancel_at i)) [
    | inl seen ↦ rw seen (refl, refl, refl, refl)
    | inr calm ↦ rw calm (refl, refl, refl, refl)
  ]
  later-SameEnd i (e ∷ es) p code live h =
      let next =
        λ (c : ℕ) (l : Bool) (q : Progress R). later-SameEnd (i + 1) es q c l (omega arith) in
      elim (Bool-cases (cancel_at i)) [
        | inl seen ↦ rw seen (
            round-SameEnd i e (rest cancel_at (i + 1) es) (rest never (i + 1) es) p ecanceled false
              (goes_on cancel_at i (marked p ecanceled false) h) (goes_on never i p h)
              (next ecanceled false))
        | inr calm ↦ rw calm (
            round-SameEnd i e (rest cancel_at (i + 1) es) (rest never (i + 1) es) p code live
              (goes_on cancel_at i (marked p code live) h) (goes_on never i p h) (next code live))
      ]

  first-SameEnd :
      (es : List IoEntry) (p : Progress R)
      → p.active ≡ true
      → cancel_at 0 ≡ false
      → SameEnd
          (process_loop vops width now cancel_at true 0 es p)
          (process_loop vops width now never true 0 es p)
  unfolding process_loop observe
  first-SameEnd [] p live calm = rw calm (refl, refl, refl, refl)
  first-SameEnd (e ∷ es) p live calm = rw calm (
      round-SameEnd 0 e (rest cancel_at 1 es) (rest never 1 es) p p.error_code p.active
        (starts cancel_at p live) (starts never p live)
        (λ q. later-SameEnd 1 es q p.error_code p.active (omega arith)))

-- The number of entries that write.
unfoldable pub writes : List IoEntry → ℕ
writes [] = 0
writes (e ∷ es) = (if is_write e then 1 else 0) + writes es

multiple_writes-second : (es : List IoEntry) → 1 ≤ writes es → multiple_writes true es ≡ true
unfolding multiple_writes writes
multiple_writes-second [] h = absurd (omega arith)
multiple_writes-second (e ∷ es) h = elim (Bool-cases (is_write e)) [
  | inl w ↦ rw (w, multiple_writes) refl
  | inr r ↦ rw (r, multiple_writes) (multiple_writes-second es (ground arith))
]

multiple_writes-two : (es : List IoEntry) → 2 ≤ writes es → multiple_writes false es ≡ true
unfolding multiple_writes writes
multiple_writes-two [] h = absurd (omega arith)
multiple_writes-two (e ∷ es) h = elim (Bool-cases (is_write e)) [
  | inl w ↦ rw (w, multiple_writes) (multiple_writes-second es (ground arith))
  | inr r ↦ rw (r, multiple_writes) (multiple_writes-two es (ground arith))
]

-- A periodic I/O with several writes whose run is under way does all of it: a cancellation that comes
-- behind the check of the first entry does not change what the run does to the registers, what
-- results it writes and at which entry it ends.
pub run_entries-SameEnd :
    {R : Type 0} (vops : Vops R) (d : Device R) (p : PeriodicIo) (cancel_at : ℕ → Bool)
    → p.active ≡ true
    → p.contains_multiple_writes ≡ multiple_writes false (p.info).io_entries
    → 2 ≤ writes (p.info).io_entries
    → cancel_at 0 ≡ false
    → SameEnd (run_entries vops d p cancel_at) (run_entries vops d p never)
unfolding run_entries start
run_entries-SameEnd vops d p cancel_at live multiple two calm =
    rw (multiple ∙ multiple_writes-two (p.info).io_entries two)
      (first-SameEnd vops d.native_value_bitwidth d.now cancel_at (p.info).io_entries _ live calm)
