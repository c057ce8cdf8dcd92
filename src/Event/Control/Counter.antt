-- ===== src/Event/Control/Counter.antt =====
-- lwis_event.c: the enable counter of an event counts the clients that have it enabled.
use google_modules_lwis.Prelude.{
  ℕ, zero, suc, ◌+◌, ◌≡◌, ◌≢◌, refl, ap, Bool, true, false, some, get_elem?, set, ◌||◌, List, [],
  ◌∷◌, arith, ◌==◌,
}
use mathlib.Core.Option.{some-injective}
use google_modules_lwis.Prelude.Int.{pos}
use google_modules_lwis.Commands.{has_irq_enable, has_irq_enable_once}
use google_modules_lwis.Event.Control.{Toggle, toggle, toggle_flags}

-- Whether the flags enable the event's interrupt at all.
abbrev pub enables : ℕ → Bool
enables flags = has_irq_enable flags || has_irq_enable_once flags

-- The counter `m` after a change, the direction of the change, and whether the device is told.
abbrev Counted : ℕ → ℕ → Bool → Toggle → Type 0
Counted n m on t =
    (t.enable_counter ≡ pos m) × (t.event_enabled ≡ on) × (t.call_enable_cb ≡ (n == 0 || m == 0))

abbrev one : Bool → ℕ
one true = 1
one false = 0

toggle-on :
    (n : ℕ) (new_irq new_once : Bool)
    → new_irq || new_once ≡ true
    → Counted n (suc n) true (toggle (pos n) false false new_irq new_once)
unfolding toggle
toggle-on n new_irq new_once h = (ground arith, ground arith, ground arith)

toggle-off :
    (m : ℕ) (old_irq old_once : Bool)
    → old_irq || old_once ≡ true
    → Counted (suc m) m false (toggle (pos (suc m)) old_irq old_once false false)
unfolding toggle
toggle-off m old_irq old_once h = (ground arith, ground arith, ground arith)

toggle-Counted :
    (n m : ℕ) (old_irq old_once new_irq new_once : Bool)
    → old_irq || old_once ≢ new_irq || new_once
    → m + one (old_irq || old_once) ≡ n + one (new_irq || new_once)
    → Counted n m (new_irq || new_once) (toggle (pos n) old_irq old_once new_irq new_once)
toggle-Counted n m false false new_irq new_once changed e =
    let on : new_irq || new_once ≡ true = ground arith in
    let e' : suc n ≡ m = ground arith in rw (on, ← e') (toggle-on n new_irq new_once on)
toggle-Counted n m old_irq old_once false false changed e =
    let on : old_irq || old_once ≡ true = ground arith in
    let e' : suc m ≡ n = ground arith in rw (← e') (toggle-off m old_irq old_once on)
toggle-Counted n m true old_once true new_once changed e = absurd (changed refl)
toggle-Counted n m true old_once false true changed e = absurd (changed refl)
toggle-Counted n m false true true new_once changed e = absurd (changed refl)
toggle-Counted n m false true false true changed e = absurd (changed refl)

-- How many clients have the event enabled, by the flags of each.
pub enabled_count : List ℕ → ℕ
enabled_count [] = 0
enabled_count (flags ∷ fs) = one (enables flags) + enabled_count fs

count-set :
    (fs : List ℕ) (i old new : ℕ)
    → get_elem? fs i ≡ some old
    → enabled_count (set fs i new) + one (enables old) ≡ enabled_count fs + one (enables new)
unfolding enabled_count
count-set [] i old new found = cc
count-set (f ∷ fs) zero old new found =
    omega (arith, ap (λ (flags : ℕ). one (enables flags)) (some-injective f old found))
count-set (f ∷ fs) (suc i) old new found = omega (arith, count-set fs i old new found)

-- The counter counts the clients that enable the event by one of the two flags or by both, if
-- each change of a client's flags either enables the event or disables it. The device is told
-- exactly when the first client enables the event and when the last one disables it.
pub toggle_flags-counts :
    (fs : List ℕ) (i old new : ℕ)
    → get_elem? fs i ≡ some old
    → enables old ≢ enables new
    → (toggle_flags (pos (enabled_count fs)) old new).enable_counter
        ≡ pos (enabled_count (set fs i new))
      × ((toggle_flags (pos (enabled_count fs)) old new).event_enabled ≡ enables new)
      × ((toggle_flags (pos (enabled_count fs)) old new).call_enable_cb
          ≡ (enabled_count fs == 0 || enabled_count (set fs i new) == 0))
unfolding toggle_flags
toggle_flags-counts fs i old new found changed =
    toggle-Counted _ _ (has_irq_enable old) (has_irq_enable_once old) (has_irq_enable new)
      (has_irq_enable_once new) changed (count-set fs i old new found)
