-- ===== src/Core/Enabled.antt =====
-- lwis_ioctl.c, lwis_device.c: the enable counter of a device counts the clients that enabled it.
use mathlib.Core.Option.{some-injective}
use google_modules_lwis.Prelude.{
  ℕ, ◌+◌, ◌-◌, ◌≡◌, refl, sym, ap, subst, ◌∙◌, inl, inr, Bool, true, false, not, Option, none, some,
  List, [], ◌∷◌, arith, ◌==◌, ◌&&◌, ltb, Bool-cases, Option-cases, if◌then◌else◌,
}
use google_modules_lwis.Core.{
  Opened, Parts, Core, find_client, put_enabled, list_del, lwis_open, powered_up, enable_client,
  ioctl_device_enable, powered_down, flushed, disable_client, ioctl_device_disable, uncounted,
  last_closed, release_client, lwis_release, int_max,
}

abbrev weight : Bool → ℕ
weight b = if b then 1 else 0

-- The clients that have the device enabled.
unfoldable pub enabled_clients : List Opened → ℕ
enabled_clients [] = 0
enabled_clients (c ∷ cs) = weight c.is_enabled + enabled_clients cs

count-put :
    (cs : List Opened) (id : ℕ) (b : Bool) (c : Opened)
    → find_client cs id ≡ some c
    → enabled_clients (put_enabled cs id b) + weight c.is_enabled ≡ enabled_clients cs + weight b
unfolding find_client put_enabled enabled_clients
count-put [] id b c h = absurd (cc h)
count-put (k ∷ cs) id b c h = elim (Bool-cases (k.id == id)) [
  | inl here ↦
      let same : weight k.is_enabled ≡ weight c.is_enabled =
        ap (λ (x : Opened). weight x.is_enabled) (some-injective _ _ (rw here at h)) in
      rw (here, enabled_clients) (omega (arith, same))
  | inr past ↦ rw (past, enabled_clients) (omega (arith, count-put cs id b c (rw past at h)))
]

count-del :
    (cs : List Opened) (id : ℕ) (c : Opened)
    → find_client cs id ≡ some c
    → enabled_clients (list_del cs id) + weight c.is_enabled ≡ enabled_clients cs
unfolding find_client list_del enabled_clients
count-del [] id c h = absurd (cc h)
count-del (k ∷ cs) id c h = elim (Bool-cases (k.id == id)) [
  | inl here ↦
      let same : weight k.is_enabled ≡ weight c.is_enabled =
        ap (λ (x : Opened). weight x.is_enabled) (some-injective _ _ (rw here at h)) in
      rw (here, enabled_clients) (omega (arith, same))
  | inr past ↦ rw (past, enabled_clients) (omega (arith, count-del cs id c (rw past at h)))
]

find-id : (cs : List Opened) (id : ℕ) (c : Opened) → find_client cs id ≡ some c → c.id ≡ id
unfolding find_client
find-id [] id c h = absurd (cc h)
find-id (k ∷ cs) id c h = ground (arith, find-id cs id c)

-- The counter and the clients agree.
abbrev pub IsCounted : {S : Type 0} → Core S → Type 0
IsCounted d = d.enabled ≡ enabled_clients d.clients

module _ {S : Type 0} (parts : Parts S) where
  powered_up-IsCounted :
      (d : Core S) (id : ℕ) (r : ℕ × S) (c : Opened)
      → find_client d.clients id ≡ some c
      → weight c.is_enabled ≡ 0
      → IsCounted d
      → IsCounted (powered_up parts d id r).1
  unfolding powered_up
  powered_up-IsCounted d id (ret, s) c here off h = elim (Bool-cases (ret == 0)) [
    | inr bad ↦ rw (bad, powered_up) h
    | inl good ↦ rw (good, powered_up) (omega (arith, count-put d.clients id true c here, off, h))
  ]

  -- Either branch of a test.
  either :
      (b : Bool) (x y : ℕ × Core S)
      → IsCounted x.1
      → IsCounted y.1
      → IsCounted (if b then x else y).1
  either true x y h k = h
  either false x y h k = k

  first :
      (b : Bool) (x y : ℕ × Core S) → b ≡ true → IsCounted x.1 → IsCounted (if b then x else y).1
  first true x y e h = h
  first false x y e h = absurd (cc e)

  enable_client-IsCounted :
      (d : Core S) (c : Opened)
      → find_client d.clients c.id ≡ some c
      → IsCounted d
      → IsCounted (enable_client parts d c).1
  unfolding enable_client
  enable_client-IsCounted d c here h = elim (Bool-cases c.is_enabled) [
    | inl on ↦ first c.is_enabled _ _ on h
    | inr off ↦ either c.is_enabled _ _ h (
        either (ltb 0 d.enabled && ltb d.enabled int_max) _ _
          (omega (arith, count-put d.clients c.id true c here, ap weight off, h))
          (either (d.enabled == int_max) _ _ h
            (powered_up-IsCounted d c.id _ c here (ap weight off) h)))
  ]

  powered_down-IsCounted :
      (d : Core S) (id : ℕ) (r : ℕ × S) (c : Opened)
      → find_client d.clients id ≡ some c
      → weight c.is_enabled ≡ 1
      → IsCounted d
      → IsCounted (powered_down parts d id r).1
  unfolding powered_down
  powered_down-IsCounted d id (ret, s) c here on h = elim (Bool-cases (ret == 0)) [
    | inr bad ↦ rw (bad, powered_down) h
    | inl good ↦ rw (good, powered_down) (omega (arith, count-put d.clients id false c here, on, h))
  ]

  disable_client-IsCounted :
      (d : Core S) (c : Opened)
      → find_client d.clients c.id ≡ some c
      → IsCounted d
      → IsCounted (disable_client parts d c).1
  unfolding disable_client
  disable_client-IsCounted d c here h = elim (Bool-cases c.is_enabled) [
    | inr off ↦ first (not c.is_enabled) _ _ (ap not off) h
    | inl on ↦ either (not c.is_enabled) _ _ h (
        either (ltb 1 d.enabled) _ _
          (omega (arith, count-put d.clients c.id false c here, ap weight on, h))
          (either (d.enabled == 0) _ _ h (
            powered_down-IsCounted (record d { rest = flushed parts d.rest c.id }) c.id _ c here
              (ap weight on) h)))
  ]

  uncounted-IsCounted :
      (d : Core S) (b : Bool)
      → d.enabled ≡ enabled_clients d.clients + weight b
      → IsCounted (uncounted parts d b).1
  unfolding uncounted
  uncounted-IsCounted d false h = omega (arith, h)
  uncounted-IsCounted d true h = elim (Bool-cases (ltb 0 d.enabled)) [
    | inr none_left ↦ absurd (ground (arith, none_left, h))
    | inl some_left ↦
        rw some_left (either (d.enabled - 1 == 0) _ _ (omega (arith, h)) (omega (arith, h)))
  ]

  release_client-IsCounted :
      (d : Core S) (c : Opened)
      → find_client d.clients c.id ≡ some c
      → IsCounted d
      → IsCounted (release_client parts d c).1
  unfolding release_client last_closed
  release_client-IsCounted d c here h =
      let k =
        uncounted-IsCounted
          (record d {
            clients = list_del d.clients c.id;
            rest = parts.allocator_release (parts.cleanup_client d.rest c.id);
          })
          c.is_enabled (h ∙ sym (count-del d.clients c.id c here)) in
      either _ _ _ k k

  find_self :
      (cs : List Opened) (id : ℕ) (c : Opened)
      → find_client cs id ≡ some c
      → find_client cs c.id ≡ some c
  find_self cs id c h = subst (λ (n : ℕ). find_client cs n ≡ some c) (sym (find-id cs id c h)) h

  -- The devices that the calls of clients lead to from one that no client has open.
  pub data Reach : Core S → Type 0 where
    start : (s : S) → Reach (record { enabled = 0; clients = []; rest = s })
    opened : (d : Core S) (place : Option ℕ) → Reach d → Reach (lwis_open parts d place).1
    enable : (d : Core S) (id : ℕ) → Reach d → Reach (ioctl_device_enable parts d id).1
    disable : (d : Core S) (id : ℕ) → Reach d → Reach (ioctl_device_disable parts d id).1
    release : (d : Core S) (id : ℕ) → Reach d → Reach (lwis_release parts d id).1
    rest : (d : Core S) (s : S) → Reach d → Reach (record d { rest = s })

  open-IsCounted :
      (d : Core S) (place : Option ℕ) → IsCounted d → IsCounted (lwis_open parts d place).1
  unfolding lwis_open enabled_clients
  open-IsCounted d none h = h
  open-IsCounted d (some id) h = h ∙ omega arith

  enable-IsCounted :
      (d : Core S) (id : ℕ) → IsCounted d → IsCounted (ioctl_device_enable parts d id).1
  unfolding ioctl_device_enable
  enable-IsCounted d id h = elim (Option-cases (find_client d.clients id)) [
    | inl n ↦ rw (n, ioctl_device_enable) h
    | inr (c, e) ↦
        rw (e, ioctl_device_enable) (enable_client-IsCounted d c (find_self d.clients id c e) h)
  ]

  disable-IsCounted :
      (d : Core S) (id : ℕ) → IsCounted d → IsCounted (ioctl_device_disable parts d id).1
  unfolding ioctl_device_disable
  disable-IsCounted d id h = elim (Option-cases (find_client d.clients id)) [
    | inl n ↦ rw (n, ioctl_device_disable) h
    | inr (c, e) ↦
        rw (e, ioctl_device_disable) (disable_client-IsCounted d c (find_self d.clients id c e) h)
  ]

  release-IsCounted : (d : Core S) (id : ℕ) → IsCounted d → IsCounted (lwis_release parts d id).1
  unfolding lwis_release
  release-IsCounted d id h = elim (Option-cases (find_client d.clients id)) [
    | inl n ↦ rw (n, lwis_release) h
    | inr (c, e) ↦
        rw (e, lwis_release) (release_client-IsCounted d c (find_self d.clients id c e) h)
  ]

  -- However clients open, enable, disable and close a device, and whether or not powering it up and
  -- down succeeds, its enable counter is the number of its clients that have it enabled.
  pub Reach-IsCounted : (d : Core S) → Reach d → d.enabled ≡ enabled_clients d.clients
  unfolding enabled_clients
  Reach-IsCounted _ (start s) = refl
  Reach-IsCounted _ (opened d place h) = open-IsCounted d place (Reach-IsCounted d h)
  Reach-IsCounted _ (enable d id h) = enable-IsCounted d id (Reach-IsCounted d h)
  Reach-IsCounted _ (disable d id h) = disable-IsCounted d id (Reach-IsCounted d h)
  Reach-IsCounted _ (release d id h) = release-IsCounted d id (Reach-IsCounted d h)
  Reach-IsCounted _ (rest d s h) = Reach-IsCounted d h
