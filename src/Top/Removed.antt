-- ===== src/Top/Removed.antt =====
-- lwis_device_top.c: unsubscribing takes one device from the subscribers of one event; with the last
-- one the pending events go.
use google_modules_lwis.Prelude.{ℕ, ◌+◌, ◌≤◌, ◌≡◌, ◌≢◌, ◌⊎◌, false, List, ◌==◌}
use google_modules_lwis.Top.{
  SubscribeInfo, SubscriberList, TopDevice, World, Unsubscribed, left, emptied, put_subscribers,
  without_event,
}
use google_modules_lwis.Top.Table.{dev_count, subscriptions}
use google_modules_lwis.Top.Subscribed.{Changed, table_of}

-- Of `kept` and `ss` all subscribers but `id` stay, and some do; or no other was there.
abbrev Both : ℕ → List SubscribeInfo → List SubscribeInfo → Unsubscribed → Type 0
Both id kept ss (left ks) =
    (dev_count ks id ≡ 0)
    × ((i : ℕ) → (i == id) ≡ false → dev_count ks i ≡ dev_count kept i + dev_count ss i)
    × ((i : ℕ) × (1 ≤ dev_count ks i))
Both id kept ss (emptied trigger) =
    (i : ℕ) → (i == id) ≡ false → dev_count kept i + dev_count ss i ≡ 0

-- The table with the subscribers of one event changed.
abbrev kept_table : List SubscriberList → SubscriberList → List SubscribeInfo → List SubscriberList
kept_table ls l ks = put_subscribers ls (record l { list = ks })

-- The device `id` was taken from the subscribers of the event. The pending events of the event are
-- gone exactly if no one is subscribed to it any more.
abbrev pub Removal : TopDevice → TopDevice → ℕ → ℕ → Type 0
Removal t t' event_id id =
    Changed t.event_subscribers t'.event_subscribers event_id id
    × (subscriptions t'.event_subscribers event_id id ≡ 0)
    × ((((i : ℕ) → subscriptions t'.event_subscribers event_id i ≡ 0)
          × (t'.emitted_event_list_tasklet ≡ without_event event_id t.emitted_event_list_tasklet))
        ⊎ (((i : ℕ) × (1 ≤ subscriptions t'.event_subscribers event_id i))
            × (t'.emitted_event_list_tasklet ≡ t.emitted_event_list_tasklet)))

module _ {R : Type 0} where
  -- What an unsubscription leaves, by its return code.
  abbrev pub Unsubscribes : World R → ℕ → ℕ → ℕ × World R → Type 0
  Unsubscribes w event_id id (ret, w') =
      ((ret ≡ 0) × Removal w.top w'.top event_id id)
      ⊎ ((ret ≢ 0) × (w' ≡ w) × ((i : ℕ) → subscriptions (table_of w) event_id i ≡ 0))
