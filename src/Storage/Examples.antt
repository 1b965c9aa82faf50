-- ===== src/Storage/Examples.antt =====
-- Tests of collection names, and their theorem at a concrete name.
use letopis.Prelude.{◌≡◌, refl, codes, true, false}
use letopis.Storage.Names.{
  validate_logical, events_collection, logical_from_events, is_user_event_collection,
}
use letopis.Storage.Names.Injective.{logical_from_events-events_collection}

logical_from_events-events_collection_example :
    (logical_from_events (events_collection (codes "crm.deals")) ≡ codes "crm.deals")
    × (is_user_event_collection (events_collection (codes "crm.deals")) ≡ true)
unfolding validate_logical
logical_from_events-events_collection_example =
    logical_from_events-events_collection (codes "crm.deals") refl

underscore_refused : validate_logical (codes "crm_deals") ≡ false
unfolding validate_logical
underscore_refused = refl

empty_segment_refused : validate_logical (codes "crm..deals") ≡ false
unfolding validate_logical
empty_segment_refused = refl

system_collection : is_user_event_collection (codes "ev__flow") ≡ false
unfolding is_user_event_collection
system_collection = refl
