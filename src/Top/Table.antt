-- ===== src/Top/Table.antt =====
-- lwis_device_top.c: what searches and writes do to the subscription table, seen by the number of
-- subscriptions of a device to an event.
use google_modules_lwis.Prelude.{
  ℕ, ◌+◌, ◌≤◌, ◌≡◌, refl, ap, subst, ◌∙◌, inl, inr, Bool, true, false, Option, none, some, List, [],
  ◌∷◌, ◌++◌, arith, ◌==◌, ==_iff, Bool-cases, Option-cases, if◌then◌else◌,
}
use google_modules_lwis.Device.{Device, kmalloc}
use google_modules_lwis.Top.{
  SubscribeInfo, SubscriberList, World, event_subscriber_list_find, put_subscribers,
  remove_subscribers, event_subscriber_list_create, found_or_created,
  event_subscriber_list_find_or_create, has_subscriber_dev, update_subscriber,
}
use google_modules_lwis.Event.States.{lwis_device_event_update_subscriber}

-- How often a device stands in a list of subscribers.
unfoldable pub dev_count : List SubscribeInfo → ℕ → ℕ
dev_count [] id = 0
dev_count (s ∷ ss) id = (if s.subscriber_dev == id then 1 else 0) + dev_count ss id

unfoldable pub subscribers_of : Option SubscriberList → List SubscribeInfo
subscribers_of none = []
subscribers_of (some l) = l.list

-- The subscriptions of the device `id` to an event.
unfoldable pub subscriptions : List SubscriberList → ℕ → ℕ → ℕ
subscriptions ls event_id id =
    dev_count (subscribers_of (event_subscriber_list_find ls event_id)) id

-- The lists of an event.
unfoldable pub lists_of : List SubscriberList → ℕ → ℕ
lists_of [] event_id = 0
lists_of (l ∷ ls) event_id =
    (if l.trigger_event_id == event_id then 1 else 0) + lists_of ls event_id

-- One list for an event, one subscription of a device to it.
pub record IsTable (ls : List SubscriberList) : Type 0 where
  pub one_list : (event_id : ℕ) → lists_of ls event_id ≤ 1
  pub once : (event_id id : ℕ) → subscriptions ls event_id id ≤ 1

pub dev_count-append_one :
    (ss : List SubscribeInfo) (s : SubscribeInfo) (id : ℕ)
    → dev_count (ss ++ s ∷ []) id ≡ dev_count ss id + (if s.subscriber_dev == id then 1 else 0)
unfolding dev_count
dev_count-append_one [] s id = omega arith
dev_count-append_one (t ∷ ss) s id = omega (arith, dev_count-append_one ss s id)

pub has_subscriber_dev-count :
    (ss : List SubscribeInfo) (id : ℕ)
    → has_subscriber_dev ss id ≡ (if dev_count ss id == 0 then false else true)
unfolding has_subscriber_dev dev_count
has_subscriber_dev-count [] id = refl
has_subscriber_dev-count (s ∷ ss) id = ground (arith, has_subscriber_dev-count ss id)

pub list_find-event_id :
    (ls : List SubscriberList) (event_id : ℕ) (l : SubscriberList)
    → event_subscriber_list_find ls event_id ≡ some l
    → l.trigger_event_id ≡ event_id
unfolding event_subscriber_list_find
list_find-event_id [] event_id l h = cc
list_find-event_id (k ∷ ls) event_id l h = ground (arith, list_find-event_id ls event_id l)

lists_of-none :
    (ls : List SubscriberList) (event_id : ℕ)
    → event_subscriber_list_find ls event_id ≡ none
    → lists_of ls event_id ≡ 0
unfolding event_subscriber_list_find lists_of
lists_of-none [] event_id h = refl
lists_of-none (k ∷ ls) event_id h = ground (arith, lists_of-none ls event_id)

none-lists_of :
    (ls : List SubscriberList) (event_id : ℕ)
    → lists_of ls event_id ≡ 0
    → event_subscriber_list_find ls event_id ≡ none
unfolding event_subscriber_list_find lists_of
none-lists_of [] event_id h = refl
none-lists_of (k ∷ ls) event_id h = ground (arith, none-lists_of ls event_id)

find-put :
    (ls : List SubscriberList) (l l' : SubscriberList) (event_id : ℕ)
    → event_subscriber_list_find ls l'.trigger_event_id ≡ some l
    → event_subscriber_list_find (put_subscribers ls l') event_id ≡ (
        if l'.trigger_event_id == event_id then some l' else event_subscriber_list_find ls event_id)
unfolding event_subscriber_list_find put_subscribers
find-put [] l l' event_id h = cc
find-put (k ∷ ls) l l' event_id h = ground (arith, find-put ls l l' event_id)

lists_of-put :
    (ls : List SubscriberList) (l' : SubscriberList) (event_id : ℕ)
    → lists_of (put_subscribers ls l') event_id ≡ lists_of ls event_id
unfolding lists_of put_subscribers
lists_of-put [] l' event_id = refl
lists_of-put (k ∷ ls) l' event_id = ground (arith, lists_of-put ls l' event_id)

lists_of-remove :
    (ls : List SubscriberList) (e event_id : ℕ)
    → lists_of (remove_subscribers ls e) event_id ≤ lists_of ls event_id
unfolding lists_of remove_subscribers
lists_of-remove [] e event_id = omega arith
lists_of-remove (k ∷ ls) e event_id = ground (arith, lists_of-remove ls e event_id)

find-remove :
    (ls : List SubscriberList) (e event_id : ℕ)
    → lists_of ls e ≤ 1
    → event_subscriber_list_find (remove_subscribers ls e) event_id
      ≡ (if e == event_id then none else event_subscriber_list_find ls event_id)
unfolding event_subscriber_list_find remove_subscribers lists_of
find-remove [] e event_id h = ground arith
find-remove (k ∷ ls) e event_id h = elim (Bool-cases (k.trigger_event_id == e)) [
  | inl here ↦ ground (arith, none-lists_of ls e)
  | inr other ↦ ground (arith, find-remove ls e event_id)
]

-- The write of other subscribers to a list that was found.
pub subscriptions-put :
    (ls : List SubscriberList) (l l' : SubscriberList) (event_id id : ℕ)
    → event_subscriber_list_find ls l'.trigger_event_id ≡ some l
    → subscriptions (put_subscribers ls l') event_id id ≡ (
        if l'.trigger_event_id == event_id
        then dev_count l'.list id
        else subscriptions ls event_id id)
unfolding subscriptions subscribers_of
subscriptions-put ls l l' event_id id h = elim (Bool-cases (l'.trigger_event_id == event_id)) [
  | inl here ↦
      ap (λ (o : Option SubscriberList). dev_count (subscribers_of o) id)
        (find-put ls l l' event_id h)
      ∙ rw here refl
  | inr other ↦
      ap (λ (o : Option SubscriberList). dev_count (subscribers_of o) id)
        (find-put ls l l' event_id h)
      ∙ rw other refl
]

pub subscriptions-remove :
    (ls : List SubscriberList) (e event_id id : ℕ)
    → lists_of ls e ≤ 1
    → subscriptions (remove_subscribers ls e) event_id id
      ≡ (if e == event_id then 0 else subscriptions ls event_id id)
unfolding subscriptions subscribers_of dev_count
subscriptions-remove ls e event_id id h = elim (Bool-cases (e == event_id)) [
  | inl here ↦
      ap (λ (o : Option SubscriberList). dev_count (subscribers_of o) id)
        (find-remove ls e event_id h)
      ∙ rw here refl
  | inr other ↦
      ap (λ (o : Option SubscriberList). dev_count (subscribers_of o) id)
        (find-remove ls e event_id h)
      ∙ rw other refl
]

pub subscriptions-found :
    (ls : List SubscriberList) (l : SubscriberList) (event_id id : ℕ)
    → event_subscriber_list_find ls event_id ≡ some l
    → subscriptions ls event_id id ≡ dev_count l.list id
unfolding subscriptions subscribers_of
subscriptions-found ls l event_id id h = rw h refl

-- The list that a subscription finds or makes, and the table that has it.
pub record IsTaken (ls : List SubscriberList) (event_id : ℕ) (l : SubscriberList)
    (ls' : List SubscriberList) : Type 0 where
  pub found : event_subscriber_list_find ls' event_id ≡ some l
  pub same : (e id : ℕ) → subscriptions ls' e id ≡ subscriptions ls e id
  pub one_list : (e : ℕ) → lists_of ls e ≤ 1 → lists_of ls' e ≤ 1

abbrev pub TakenOrNone :
    List SubscriberList → ℕ → Option SubscriberList × List SubscriberList × List Bool → Type 0
TakenOrNone ls event_id (none, ls', mem) = ls' ≡ ls
TakenOrNone ls event_id (some l, ls', mem) = IsTaken ls event_id l ls'

created-Taken :
    (ls : List SubscriberList) (event_id : ℕ) (m : Bool × List Bool)
    → event_subscriber_list_find ls event_id ≡ none
    → TakenOrNone ls event_id (event_subscriber_list_create ls event_id m)
unfolding event_subscriber_list_create event_subscriber_list_find subscriptions subscribers_of
    dev_count lists_of
created-Taken ls event_id (false, mem) h = refl
created-Taken ls event_id (true, mem) h = record {
  found = ground arith;
  same = λ e id. elim (Bool-cases (event_id == e)) [
    | inl here ↦
        let none_here : event_subscriber_list_find ls e ≡ none =
          subst (λ (k : ℕ). event_subscriber_list_find ls k ≡ none) ((==_iff event_id e).0 here)
            h in
        rw (here, none_here) refl
    | inr other ↦ rw other refl
  ];
  one_list = λ e le. ground (arith, lists_of-none ls event_id h);
}

taken-Taken :
    (ls : List SubscriberList) (mem : List Bool) (event_id : ℕ) (o : Option SubscriberList)
    → event_subscriber_list_find ls event_id ≡ o
    → TakenOrNone ls event_id (found_or_created ls mem event_id o)
unfolding found_or_created
taken-Taken ls mem event_id none h = created-Taken ls event_id (kmalloc mem) h
taken-Taken ls mem event_id (some l) h = record {
  found = h;
  same = λ e id. refl;
  one_list = λ e le. le;
}

pub find_or_create-Taken :
    (ls : List SubscriberList) (mem : List Bool) (event_id : ℕ)
    → TakenOrNone ls event_id (event_subscriber_list_find_or_create ls mem event_id)
unfolding event_subscriber_list_find_or_create
find_or_create-Taken ls mem event_id = taken-Taken ls mem event_id _ refl

pub lists_of-put_le :
    (ls : List SubscriberList) (l : SubscriberList) (e : ℕ)
    → lists_of ls e ≤ 1
    → lists_of (put_subscribers ls l) e ≤ 1
lists_of-put_le ls l e h = omega (arith, lists_of-put ls l e)

pub lists_of-remove_le :
    (ls : List SubscriberList) (k e : ℕ)
    → lists_of ls e ≤ 1
    → lists_of (remove_subscribers ls k) e ≤ 1
lists_of-remove_le ls k e h = omega (arith, lists_of-remove ls k e)

-- A change of the trigger device's state leaves the top device alone.
pub update_subscriber-top :
    {R : Type 0} (w : World R) (event_id : ℕ) (b : Bool) (o : Option (Device R))
    → ((update_subscriber w event_id b o).1).top ≡ w.top
unfolding update_subscriber
update_subscriber-top w event_id b none = refl
update_subscriber-top w event_id b (some d) =
    elim (Option-cases (lwis_device_event_update_subscriber d event_id b)) [
      | inl n ↦ rw (n, update_subscriber) refl
      | inr (d', n) ↦ rw (n, update_subscriber) refl
    ]
