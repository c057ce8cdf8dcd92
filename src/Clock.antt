-- ===== src/Clock.antt =====
-- lwis_clock.c, lwis_clock.h: the clocks of a device. The kernel's clocks are parameters: their answers,
-- and a log of the calls that change them. A name is a number, and a pointer of NULL is `none`.
pub mod Balanced
use google_modules_lwis.Prelude.{
  ℕ, zero, suc, ◌+◌, Bool, true, false, not, Option, none, some, List, [], ◌∷◌, ◌++◌, ◌==◌, ltb,
  get_elem?, set, if◌then◌else◌,
}
use google_modules_lwis.Errno.{enoent, enomem, einval}

-- struct lwis_clock; an empty slot has neither clock nor name.
pub record Clock : Type 0 where
  pub clk : Option ℕ
  pub name : Option ℕ
  pub rate : ℕ

abbrev pub empty_slot : Clock
empty_slot = record { clk = none; name = none; rate = 0 }

-- A clock that was prepared and enabled, one that was disabled, one that was given back.
pub data ClkCall : Type 0 where
  clk_prepare_enable clk_disable_unprepare devm_clk_put : Option ℕ → ClkCall
  clk_set_rate : Option ℕ → ℕ → ClkCall

-- A handle, or the error of a clock that is not there.
pub data ClkAnswer : Type 0 where
  handle : ℕ → ClkAnswer
  clk_error : ℕ → ClkAnswer

-- The answers of the kernel.
pub record Clocks : Type 0 where
  pub prepare_enable : Option ℕ → ℕ
  pub set_rate : Option ℕ → ℕ → ℕ
  pub devm_clk_get : ℕ → ClkAnswer

-- lwis_clock_list_alloc, with the answers of its two allocations.
empty_slots : ℕ → List Clock
empty_slots zero = []
empty_slots (suc n) = empty_slot ∷ empty_slots n

pub lwis_clock_list_alloc : ℕ → Bool → Bool → ℕ × Option (List Clock)
unfolding empty_slots
lwis_clock_list_alloc num_clks list_given clk_given =
    if num_clks == 0
    then (einval, none)
    else if not list_given
    then (enomem, none)
    else if not clk_given
    then (enomem, none)
    else (0, some (empty_slots num_clks))

-- The name of a slot is compared. `strcmp` cannot take the name of an empty slot: `none`.
abbrev has_name : ℕ → Clock → Option Bool
has_name name c = elim c.name [ none ↦ none | some n ↦ some (n == name) ]

-- The index of a clock or an error, and the list.
pub data Got : Type 0 where
  index : ℕ → Got
  got_error : ℕ → Got

-- The first slot that is empty or has the name, from index `i`: whether it is empty.
unfoldable pub slot_for : ℕ → ℕ → List Clock → Option (ℕ × Bool)
slot_for name i [] = none
slot_for name i (c ∷ cs) = elim c.clk [
  | none ↦ some (i, true)
  | some h ↦ elim (has_name name c) [
    | none ↦ slot_for name (i + 1) cs
    | some b ↦ if b then some (i, false) else slot_for name (i + 1) cs
  ]
]

filled : List Clock → ℕ → ℕ → ℕ → ClkAnswer → Got × List Clock
filled cs i name rate (clk_error e) = (got_error e, cs)
filled cs i name rate (handle h) =
    (index i, set cs i (record { clk = some h; name = some name; rate = rate }))

get_in : Clocks → List Clock → ℕ → ℕ → Option (ℕ × Bool) → Got × List Clock
unfolding filled
get_in clocks cs name rate none = (got_error enomem, cs)
get_in clocks cs name rate (some (i, false)) = (index i, cs)
get_in clocks cs name rate (some (i, true)) = filled cs i name rate (clocks.devm_clk_get name)

pub lwis_clock_get : Clocks → List Clock → ℕ → ℕ → Got × List Clock
unfolding get_in slot_for
lwis_clock_get clocks cs name rate = get_in clocks cs name rate (slot_for name 0 cs)

-- The return code, the list, and the calls.
pub record Put : Type 0 where
  pub ret : ℕ
  pub list : List Clock
  pub calls : List ClkCall

put_slot : List Clock → ℕ → Option ℕ → Put
put_slot cs i none = record { ret = einval; list = cs; calls = [] }
put_slot cs i (some h) = record {
  ret = 0;
  list = set cs i empty_slot;
  calls = devm_clk_put (some h) ∷ [];
}

pub lwis_clock_put_by_idx : List Clock → ℕ → Put
unfolding put_slot
lwis_clock_put_by_idx cs i = elim (get_elem? cs i) [
  | none ↦ record { ret = einval; list = cs; calls = [] }
  | some c ↦ put_slot cs i c.clk
]

-- A search by name: `none` if it comes to an empty slot first.
unfoldable pub find_name : ℕ → ℕ → List Clock → Option (Option (ℕ × Clock))
find_name name i [] = some none
find_name name i (c ∷ cs) = elim (has_name name c) [
  | none ↦ none
  | some b ↦ if b then some (some (i, c)) else find_name name (i + 1) cs
]

put_found : List Clock → Option (ℕ × Clock) → Put
unfolding put_slot
put_found cs none = record { ret = einval; list = cs; calls = [] }
put_found cs (some (i, c)) = put_slot cs i c.clk

pub lwis_clock_put_by_name : List Clock → ℕ → Option Put
unfolding put_found find_name
lwis_clock_put_by_name cs name = elim (find_name name 0 cs) [
  | none ↦ none
  | some found ↦ some (put_found cs found)
]

module _ (clocks : Clocks) where
  -- Enabling the clock of a slot, and the calls that succeeded.
  unfoldable pub enable_clock : Clock → ℕ × List ClkCall
  enable_clock c =
      let ret : ℕ = clocks.prepare_enable c.clk in
      let rated : ℕ = clocks.set_rate c.clk c.rate in
      if not (ret == 0)
      then (ret, [])
      else if ltb 0 c.rate
      then (
        rated,
        clk_prepare_enable c.clk ∷ (if rated == 0 then clk_set_rate c.clk c.rate ∷ [] else []),
      )
      else (0, clk_prepare_enable c.clk ∷ [])

  pub lwis_clock_enable_by_idx : List Clock → ℕ → ℕ × List ClkCall
  unfolding enable_clock
  lwis_clock_enable_by_idx cs i = elim (get_elem? cs i) [
    | none ↦ (einval, [])
    | some c ↦ enable_clock c
  ]

  enable_found : Option (ℕ × Clock) → ℕ × List ClkCall
  unfolding enable_clock
  enable_found none = (enoent, [])
  enable_found (some (i, c)) = enable_clock c

  pub lwis_clock_enable_by_name : List Clock → ℕ → Option (ℕ × List ClkCall)
  unfolding enable_found find_name
  lwis_clock_enable_by_name cs name = elim (find_name name 0 cs) [
    | none ↦ none
    | some found ↦ some (enable_found found)
  ]

  -- The loop ends at the first error.
  unfoldable pub lwis_clock_enable_all : List Clock → ℕ × List ClkCall
  unfolding enable_clock
  lwis_clock_enable_all [] = (0, [])
  lwis_clock_enable_all (c ∷ cs) =
      let (ret, calls) = enable_clock c in
      let rest : ℕ × List ClkCall = lwis_clock_enable_all cs in
      if ret == 0 then (rest.0, calls ++ rest.1) else (ret, calls)

abbrev disable_clock : Clock → List ClkCall
disable_clock c = clk_disable_unprepare c.clk ∷ []

pub lwis_clock_disable_by_idx : List Clock → ℕ → List ClkCall
lwis_clock_disable_by_idx cs i = elim (get_elem? cs i) [ none ↦ [] | some c ↦ disable_clock c ]

disable_found : Option (ℕ × Clock) → List ClkCall
disable_found none = []
disable_found (some (i, c)) = disable_clock c

pub lwis_clock_disable_by_name : List Clock → ℕ → Option (List ClkCall)
unfolding disable_found find_name
lwis_clock_disable_by_name cs name = elim (find_name name 0 cs) [
  | none ↦ none
  | some found ↦ some (disable_found found)
]

unfoldable pub lwis_clock_disable_all : List Clock → List ClkCall
lwis_clock_disable_all [] = []
lwis_clock_disable_all (c ∷ cs) = disable_clock c ++ lwis_clock_disable_all cs
