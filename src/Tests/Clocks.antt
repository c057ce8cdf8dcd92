-- ===== src/Tests/Clocks.antt =====
-- Two clocks, of which one stands in two slots.
use google_modules_lwis.Prelude.{ℕ, ◌≡◌, refl, some, List, [], ◌∷◌}
use google_modules_lwis.Clock.{Clock, handle, Clocks, lwis_clock_enable_all, lwis_clock_disable_all}
use google_modules_lwis.Clock.Balanced.{enables, disables, slots, lwis_clock_disable_all-enable_all}

abbrev clocks : Clocks
clocks = record {
  prepare_enable = λ clk. 0;
  set_rate = λ clk rate. 0;
  devm_clk_get = λ name. handle name;
}

abbrev clock : ℕ → ℕ → Clock
clock clk rate = record { clk = some clk; name = some clk; rate = rate }

abbrev list : List Clock
list = clock 1 0 ∷ clock 2 400 ∷ clock 1 0 ∷ []

enables_all : (lwis_clock_enable_all clocks list).0 ≡ 0
unfolding lwis_clock_enable_all
enables_all = refl

lwis_clock_disable_all-enable_all_example :
    (enables 1 (lwis_clock_enable_all clocks list).1 ≡ slots 1 list)
    × (disables 1 (lwis_clock_disable_all list) ≡ slots 1 list)
lwis_clock_disable_all-enable_all_example =
    lwis_clock_disable_all-enable_all clocks list enables_all 1
