-- ===== src/Clock/Balanced.antt =====
-- lwis_clock.c: enabling all clocks of a list and disabling them.
use google_modules_lwis.Prelude.{
  ℕ, ◌+◌, ◌≡◌, refl, ap, ap₂, ◌∙◌, ==_iff, inl, inr, Bool, false, Option, none, some, List, [], ◌∷◌,
  ◌++◌, arith, ◌==◌, ltb, Bool-cases, if◌then◌else◌,
}
use google_modules_lwis.Clock.{
  Clock, ClkCall, clk_prepare_enable, clk_disable_unprepare, devm_clk_put, clk_set_rate, Clocks,
  enable_clock, lwis_clock_enable_all, lwis_clock_disable_all,
}

abbrev is_handle : ℕ → Option ℕ → Bool
is_handle h none = false
is_handle h (some k) = k == h

-- How often a clock is enabled and disabled by calls.
unfoldable pub enables : ℕ → List ClkCall → ℕ
enables h [] = 0
enables h (clk_prepare_enable c ∷ calls) = (if is_handle h c then 1 else 0) + enables h calls
enables h (_ ∷ calls) = enables h calls

unfoldable pub disables : ℕ → List ClkCall → ℕ
disables h [] = 0
disables h (clk_disable_unprepare c ∷ calls) = (if is_handle h c then 1 else 0) + disables h calls
disables h (_ ∷ calls) = disables h calls

-- In how many slots a clock stands.
unfoldable pub slots : ℕ → List Clock → ℕ
slots h [] = 0
slots h (c ∷ cs) = (if is_handle h c.clk then 1 else 0) + slots h cs

enables-append : (h : ℕ) (xs ys : List ClkCall) → enables h (xs ++ ys) ≡ enables h xs + enables h ys
unfolding enables
enables-append h [] ys = omega arith
enables-append h (clk_prepare_enable c ∷ xs) ys = omega (arith, enables-append h xs ys)
enables-append h (clk_disable_unprepare c ∷ xs) ys = enables-append h xs ys
enables-append h (devm_clk_put c ∷ xs) ys = enables-append h xs ys
enables-append h (clk_set_rate c rate ∷ xs) ys = enables-append h xs ys

enable_clock-once :
    (clocks : Clocks) (h : ℕ) (c : Clock)
    → (enable_clock clocks c).0 ≡ 0
    → enables h (enable_clock clocks c).1 ≡ (if is_handle h c.clk then 1 else 0)
unfolding enables enable_clock
enable_clock-once clocks h c ok = elim (Bool-cases (clocks.prepare_enable c.clk == 0)) [
  | inr bad ↦ absurd (ground (arith, bad, ok))
  | inl prepared ↦ elim (Bool-cases (ltb 0 c.rate)) [
    | inr no_rate ↦ rw (prepared, enable_clock) (rw (no_rate, enables) (omega arith))
    | inl rated ↦ elim (Bool-cases (clocks.set_rate c.clk c.rate == 0)) [
      | inl set_ok ↦
          rw (prepared, enable_clock) (rw (rated, enables) (rw (set_ok, enables) (omega arith)))
      | inr set_bad ↦
          rw (prepared, enable_clock) (rw (rated, enables) (rw (set_bad, enables) (omega arith)))
    ]
  ]
]

enable_all-slots :
    (clocks : Clocks) (h : ℕ) (cs : List Clock)
    → (lwis_clock_enable_all clocks cs).0 ≡ 0
    → enables h (lwis_clock_enable_all clocks cs).1 ≡ slots h cs
unfolding lwis_clock_enable_all enables slots
enable_all-slots clocks h [] ok = refl
enable_all-slots clocks h (c ∷ cs) ok = elim (Bool-cases ((enable_clock clocks c).0 == 0)) [
  | inr bad ↦ absurd (ground (arith, bad, ok))
  | inl fine ↦
      rw (fine, enables)
        (enables-append h (enable_clock clocks c).1 (lwis_clock_enable_all clocks cs).1
          ∙ ap₂ (λ (m n : ℕ). m + n) (enable_clock-once clocks h c ((==_iff _ 0).0 fine))
              (enable_all-slots clocks h cs (rw (fine, lwis_clock_enable_all) at ok)))
]

disable_all-slots : (h : ℕ) (cs : List Clock) → disables h (lwis_clock_disable_all cs) ≡ slots h cs
unfolding lwis_clock_disable_all disables slots
disable_all-slots h [] = refl
disable_all-slots h (c ∷ cs) =
    ap (λ (n : ℕ). (if is_handle h c.clk then 1 else 0) + n) (disable_all-slots h cs)

-- If all clocks of a list are enabled with success, disabling them disables each clock as often as
-- it was enabled, once for each slot of the list that it is in.
pub lwis_clock_disable_all-enable_all :
    (clocks : Clocks) (cs : List Clock)
    → (lwis_clock_enable_all clocks cs).0 ≡ 0
    → (h : ℕ)
    → (enables h (lwis_clock_enable_all clocks cs).1 ≡ slots h cs)
      × (disables h (lwis_clock_disable_all cs) ≡ slots h cs)
lwis_clock_disable_all-enable_all clocks cs ok h =
    (enable_all-slots clocks h cs ok, disable_all-slots h cs)
