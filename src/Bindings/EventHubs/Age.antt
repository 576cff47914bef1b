-- ===== src/Bindings/EventHubs/Age.antt =====
-- Which events bindings/eventhubs/eventhubs.go drops for their age.
use components_contrib.Base.{
  ℕ, ◌+◌, ◌^◌, ◌<◌, String, ◌≡◌, refl, ◌≢◌, false, some, arith, eq_iff, ltb, ◌==◌, if◌then◌else◌,
  Result, ok,
}
use components_contrib.Base.Effect.{Eff, ignore}
use components_contrib.Base.Signed.{Duration}
use components_contrib.Bindings.Messages.{ReadResponse, response}
use components_contrib.Base.Signed.{of_bits}
use components_contrib.Bindings.EventHubs.{
  Event, AzureEventHubs, elapsed, exceeds, callback, deliver_unless_old,
}

elapsed-add :
    (t age limit : ℕ)
    → age < 2 ^ 63
    → limit < 2 ^ 63
    → exceeds (elapsed (t + age) t) (of_bits 64 limit) ≡ ltb limit age
unfolding elapsed of_bits
elapsed-add t age limit b b' = ground arith

module _ {W : Type 0} (parse_duration : String → Result Duration) (now : W → ℕ)
    (a : AzureEventHubs W) (handler : ReadResponse → Eff W (Unit {0})) where
  -- With an age allowed that is `limit` nanoseconds, below 2^63, an event that was enqueued `age`
  -- nanoseconds ago, below 2^63 too, is dropped without an error if `age` is above `limit`, and else
  -- given to the handler, whose error is dropped.
  pub callback_by_age :
      (event : Event) (t age limit : ℕ) (w : W)
      → a.metadata.message_age ≢ ""
      → parse_duration a.metadata.message_age ≡ ok limit
      → limit < 2 ^ 63
      → age < 2 ^ 63
      → event.system_properties ≡ some (record { enqueued_time = some t })
      → now w ≡ t + age
      → callback parse_duration now a handler (some event) w
        ≡ (if ltb limit age then (ok tt, w) else ignore (handler (response event.payload)) w)
  unfolding callback
  callback_by_age event t age limit w ne parsed b b' at clock =
      let differs : (a.metadata.message_age == "") ≡ false =
        ground (arith, eq_iff a.metadata.message_age "", ne) in
      rw (at, differs, deliver_unless_old, parsed, clock, elapsed-add t age limit b' b) refl
