-- ===== src/Top/Subscribed.antt =====
-- lwis_device_top.c: subscribing adds one device to the subscribers of one event, and unsubscribing
-- takes it away.
use google_modules_lwis.Prelude.{
  ℕ, ◌+◌, ◌≤◌, ◌≡◌, refl, sym, ap, subst, ◌∙◌, inl, inr, Bool, true, false, Option, none, some,
  List, [], ◌∷◌, ◌++◌, arith, ◌==◌, ==_iff, ◌&&◌, Bool-cases, if◌then◌else◌,
}
use google_modules_lwis.Device.{Device, kmalloc}
use google_modules_lwis.Top.{
  SubscribeInfo, SubscriberList, TopDevice, World, event_subscriber_list_find, put_subscribers,
  has_subscriber_dev, update_subscriber, with_table, add_subscription, subscribe_in,
  lwis_top_event_subscribe, lwis_find_dev_by_id, is_some,
}
use google_modules_lwis.Top.Table.{
  dev_count, dev_count-append_one, subscriptions, subscriptions-put, subscriptions-found, lists_of,
  lists_of-put_le, IsTable, IsTaken, TakenOrNone, find_or_create-Taken, list_find-event_id,
  has_subscriber_dev-count, update_subscriber-top,
}

abbrev pub table_of : {R : Type 0} → World R → List SubscriberList
table_of w = (w.top).event_subscribers

-- Of the table `ls` only the subscription of one device to one event may have changed.
pub record Changed (ls ls' : List SubscriberList) (event_id id : ℕ) : Type 0 where
  pub is_table : IsTable ls'
  pub others :
      (e i : ℕ) → (e == event_id && i == id) ≡ false → subscriptions ls' e i ≡ subscriptions ls e i

same-Changed :
    (ls ls' : List SubscriberList) (event_id id : ℕ)
    → IsTable ls
    → ((e : ℕ) → lists_of ls e ≤ 1 → lists_of ls' e ≤ 1)
    → ((e i : ℕ) → subscriptions ls' e i ≡ subscriptions ls e i)
    → Changed ls ls' event_id id
same-Changed ls ls' event_id id v one same = record {
  is_table = record {
    one_list = λ e. one e (v.one_list e);
    once = λ e i. omega (arith, same e i, v.once e i);
  };
  others = λ e i other. same e i;
}

-- The table after one more subscriber was put behind a list.
module _ (ls ls' : List SubscriberList) (event_id : ℕ) (l : SubscriberList) (s : SubscribeInfo)
    (v : IsTable ls) (t : IsTaken ls event_id l ls')
    (new : has_subscriber_dev l.list s.subscriber_dev ≡ false) where
  abbrev grown : List SubscriberList
  grown = put_subscribers ls' (record l { list = l.list ++ s ∷ [] })

  grown-subscriptions :
      (e i : ℕ)
      → subscriptions grown e i ≡ (
          if l.trigger_event_id == e then dev_count (l.list ++ s ∷ []) i else subscriptions ls' e i)
  grown-subscriptions e i = subscriptions-put ls' l _ e i (
      subst (λ (k : ℕ). event_subscriber_list_find ls' k ≡ some l)
        (sym (list_find-event_id ls' event_id l t.found)) t.found)

  grown_here :
      (i : ℕ)
      → subscriptions grown event_id i
        ≡ subscriptions ls event_id i + (if s.subscriber_dev == i then 1 else 0)
  grown_here i = ground (
    arith,
    grown-subscriptions event_id i,
    list_find-event_id ls' event_id l t.found,
    dev_count-append_one l.list s i,
    subscriptions-found ls' l event_id i t.found,
    t.same event_id i,
  )

  grown_elsewhere :
      (e i : ℕ) → (e == event_id) ≡ false → subscriptions grown e i ≡ subscriptions ls e i
  grown_elsewhere e i other =
      ground (arith, grown-subscriptions e i, list_find-event_id ls' event_id l t.found, t.same e i)

  absent : subscriptions ls event_id s.subscriber_dev ≡ 0
  absent = ground (
    arith,
    has_subscriber_dev-count l.list s.subscriber_dev,
    subscriptions-found ls' l event_id s.subscriber_dev t.found,
    t.same event_id s.subscriber_dev,
  )

  grown-at :
      (e i : ℕ)
      → subscriptions grown e i
        ≡ subscriptions ls e i + (if e == event_id && i == s.subscriber_dev then 1 else 0)
  grown-at e i = elim (Bool-cases (e == event_id)) [
    | inr other ↦ rw other (omega (arith, grown_elsewhere e i other))
    | inl here ↦
        let same : event_id ≡ e = sym ((==_iff e event_id).0 here) in
        rw here (
          subst
            (λ (k : ℕ).
              subscriptions grown k i
              ≡ subscriptions ls k i + (if i == s.subscriber_dev then 1 else 0))
            same (ground (arith, grown_here i)))
  ]

  once_here : (i : ℕ) → subscriptions grown event_id i ≤ 1
  once_here i = elim (Bool-cases (s.subscriber_dev == i)) [
    | inr other ↦ let at = grown_here i in omega (arith, rw other at at, v.once event_id i)
    | inl same ↦
        let at = grown_here i in
        omega (
          arith,
          rw same at at,
          subst (λ (k : ℕ). subscriptions ls event_id k ≡ 0) ((==_iff s.subscriber_dev i).0 same)
              absent,
        )
  ]

  once_there : (e i : ℕ) → subscriptions grown e i ≤ 1
  once_there e i = elim (Bool-cases (e == event_id)) [
    | inr other ↦ omega (arith, grown_elsewhere e i other, v.once e i)
    | inl here ↦
        subst (λ (k : ℕ). subscriptions grown k i ≤ 1) (sym ((==_iff e event_id).0 here))
          (once_here i)
  ]

  grown-Changed :
      Changed ls grown event_id s.subscriber_dev
      × (subscriptions grown event_id s.subscriber_dev ≡ 1)
  grown-Changed = (
    record {
      is_table = record {
        one_list = λ e. lists_of-put_le ls' _ e (t.one_list e (v.one_list e));
        once = once_there;
      };
      others = λ e i other. grown-at e i ∙ rw other (omega arith);
    },
    ground (arith, grown_here s.subscriber_dev, absent),
  )

module _ {R : Type 0} where
  -- What a subscription leaves: the subscription is there if it returns 0.
  abbrev pub Subscribes : World R → ℕ → ℕ → ℕ × World R → Type 0
  Subscribes w event_id id (ret, w') =
      Changed (table_of w) (table_of w') event_id id
      × (ret ≡ 0 → subscriptions (table_of w') event_id id ≡ 1)

  updated-Subscribes :
      (w v : World R) (event_id id : ℕ) (b : Bool) (o : Option (Device R))
      → Changed (table_of w) (table_of v) event_id id
      → subscriptions (table_of v) event_id id ≡ 1
      → Subscribes w event_id id (update_subscriber v event_id b o)
  updated-Subscribes w v event_id id b o h one =
      let e =
        ap (λ (t : TopDevice). t.event_subscribers) (sym (update_subscriber-top v event_id b o)) in
      (
        subst (λ (ls : List SubscriberList). Changed (table_of w) ls event_id id) e h,
        λ ok. subst (λ (ls : List SubscriberList). subscriptions ls event_id id ≡ 1) e one,
      )

  add_subscription-Subscribes :
      (w : World R) (event_id trigger id : ℕ) (l : SubscriberList) (ls : List SubscriberList)
      (m : Bool × List Bool)
      → IsTable (table_of w)
      → IsTaken (table_of w) event_id l ls
      → has_subscriber_dev l.list id ≡ false
      → Subscribes w event_id id (add_subscription w event_id trigger id l ls m)
  unfolding add_subscription
  add_subscription-Subscribes w event_id trigger id l ls (false, mem) v t new =
      (same-Changed (table_of w) ls event_id id v t.one_list t.same, λ h. absurd (omega (arith, h)))
  add_subscription-Subscribes w event_id trigger id l ls (true, mem) v t new =
      let s : SubscribeInfo = record {
        event_id = event_id;
        subscriber_dev = id;
        trigger_dev = trigger;
      } in
      let (changed, one) = grown-Changed (table_of w) ls event_id l s v t new in
      updated-Subscribes w
        (with_table w (put_subscribers ls (record l { list = l.list ++ s ∷ [] })) mem) event_id id
        true (lwis_find_dev_by_id w.devices trigger) changed one

  subscribe_in-Subscribes :
      (w : World R) (event_id trigger id : ℕ)
      (t : Option SubscriberList × List SubscriberList × List Bool)
      → IsTable (table_of w)
      → TakenOrNone (table_of w) event_id t
      → Subscribes w event_id id (subscribe_in w event_id trigger id t)
  unfolding subscribe_in
  subscribe_in-Subscribes w event_id trigger id (none, ls, mem) v t = (
    subst (λ (ks : List SubscriberList). Changed (table_of w) ks event_id id) (sym t)
        (same-Changed (table_of w) (table_of w) event_id id v (λ e le. le) (λ e i. refl)),
    λ h. absurd (omega (arith, h)),
  )
  subscribe_in-Subscribes w event_id trigger id (some l, ls, mem) v t =
      elim (Bool-cases (has_subscriber_dev l.list id)) [
        | inr new ↦
            rw new (add_subscription-Subscribes w event_id trigger id l ls (kmalloc mem) v t new)
        | inl old ↦ rw old (
          same-Changed (table_of w) ls event_id id v t.one_list t.same,
          λ h. ground (
            arith,
            has_subscriber_dev-count l.list id,
            subscriptions-found ls l event_id id t.found,
            t.same event_id id,
            v.once event_id id,
          ),
        )
      ]

  -- Subscribing a device to an event keeps one list for each event and one subscription of each
  -- device in it, and changes no subscription but that one, which is there if 0 is returned.
  pub lwis_top_event_subscribe-Subscribes :
      (w : World R) (event_id trigger id : ℕ)
      → IsTable (table_of w)
      → Subscribes w event_id id (lwis_top_event_subscribe w event_id trigger id)
  unfolding lwis_top_event_subscribe
  lwis_top_event_subscribe-Subscribes w event_id trigger id v =
      elim (Bool-cases (
        is_some (lwis_find_dev_by_id w.devices trigger)
        && is_some (lwis_find_dev_by_id w.devices id))) [
          | inl both ↦ rw both (
              subscribe_in-Subscribes w event_id trigger id _ v
                (find_or_create-Taken (table_of w) w.mem event_id))
          | inr missing ↦ rw missing (
            same-Changed (table_of w) (table_of w) event_id id v (λ e le. le) (λ e i. refl),
            λ h. absurd (omega (arith, h)),
          )
        ]
