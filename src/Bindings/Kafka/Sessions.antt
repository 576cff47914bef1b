-- ===== src/Bindings/Kafka/Sessions.antt =====
-- Read of bindings/kafka/kafka.go: the sessions of its consumer group, and the channel `ready`, which
-- Setup closes and which Read waits for. The goroutine is modelled as the loop that it runs.
pub mod Readiness
use components_contrib.Base.{
  ℕ, zero, suc, ◌+◌, ◌-◌, ◌*◌, ◌/◌, ◌%◌, ◌^◌, ◌≤◌, ◌<◌, String, ◌≡◌, refl, sym, ap, ◌∙◌, ◌≢◌, ◌↔◌,
  ◌⊎◌, inl, inr, Bool, true, false, not, ◌&&◌, ◌||◌, Option, none, some, List, [], ◌∷◌, ◌++◌, map,
  arith, eq_iff, eq_refl, ltb, leb, nat_eq, ◌==◌, ◌!=◌, if◌then◌else◌, Bool-cases, Option-cases,
  length, All, Error, created, formatted, wrapped, external, joined, appended, Panic,
  nil_dereference, index_out_of_range, failed_type_assertion, Result, ok, err, panic, then_result,
  map_error, Succeeds, Panics, Result-cases,
}
use components_contrib.Base.{closed_channel}
use components_contrib.Base.Effect.{Eff, continue, ◌>>=◌, ◌>>◌, pure, for_each}
use components_contrib.Bindings.Messages.{ReadResponse}
use components_contrib.Bindings.Kafka.{Kafka, Config, Message, consume_claim, group_config}

-- What a call of Consume does with the consumer: whether it gets as far as Setup, the claims that it
-- then hands over, and the error that it ends with, if any.
pub record Session : Type 0 where
  pub sets_up : Bool
  pub claims : List (List Message)
  pub failure : Option Error

pub record Group (W : Type 0) : Type 0 where
  pub consume : List String → W → Session × W
  pub mark_message : Message → W → W
  pub is_cancelled : W → Bool
  pub cancel : W → W
  pub close : Eff W (Unit {0})

-- The channels are numbered as they are made; the consumer's is the last one. `closed` are those that
-- Setup has closed.
pub record Channels (W : Type 0) : Type 0 where
  pub ready : ℕ
  pub closed : List ℕ
  pub world : W

abbrev pub is_member : ℕ → List ℕ → Bool
is_member n [] = false
is_member n (m ∷ ms) = let rest = is_member n ms in if nat_eq n m then true else rest

-- `close(consumer.ready)`
pub setup : {W : Type 0} → Eff (Channels W) (Unit {0})
setup s =
    if is_member s.ready s.closed
    then (panic closed_channel, s)
    else (ok tt, record { ready = s.ready; closed = s.ready ∷ s.closed; world = s.world })

-- A method of the client in the middle of the loop.
abbrev pub on_world : {W A : Type 0} → Eff W A → Eff (Channels W) A
on_world m s =
    let (r, w) = m s.world in (r, record { ready = s.ready; closed = s.closed; world = w })

module _ {W : Type 0} (group : Group W) (callback : ReadResponse → Eff W (Unit {0})) where
  pub run_session : Session → Eff (Channels W) (Unit {0})
  unfolding setup
  run_session session =
      if session.sets_up
      then (setup
          >> on_world (for_each (consume_claim group.mark_message (some callback)) session.claims))
      else pure tt

  -- The loop of the goroutine for `fuel` calls of Consume, whose errors are logged; `none` is that it
  -- goes on.
  pub consume_sessions : List String → ℕ → Eff (Channels W) (Option (Unit {0}))
  unfolding run_session
  consume_sessions topics zero s = (ok none, s)
  consume_sessions topics (suc fuel) s =
      let (session, w) = group.consume topics s.world in
      (run_session session >> λ s'.
      if group.is_cancelled s'.world
      then (ok (some tt), s')
      else consume_sessions topics fuel
          (record { ready = s'.ready + 1; closed = s'.closed; world = s'.world }))
        (record { ready = s.ready; closed = s.closed; world = w })

-- The channels before the goroutine starts.
abbrev pub first_channel : {W : Type 0} → W → Channels W
first_channel w = record { ready = 0; closed = []; world = w }

-- `<-c.ready` reads the field while the goroutine replaces the channel in it: Read waits for the channel
-- that is there when it looks, behind `seen` replacements, or for the last one if there are fewer.
abbrev pub looked_at : {W : Type 0} → ℕ → Channels W → ℕ
looked_at seen s = if leb seen s.ready then seen else s.ready

-- Behind the signal: Read gets there only past its channel.
abbrev pub finish : {W : Type 0} → Group W → ℕ → Channels W → Eff W (Option (Unit {0}))
finish group seen s w =
    if is_member (looked_at seen s) s.closed
    then (group.close >> pure (some tt)) (group.cancel w)
    else (ok none, w)

-- `new_group` is NewConsumerGroup. The signal comes after `fuel` calls of Consume, and Read looks for
-- its channel when `seen` channels have been replaced; `none` is that Read still waits then. The
-- goroutine ends with the cancellation.
module _ {W : Type 0} (new_group : List String → String → Config → Eff W (Group W)) where
  pub read : Kafka W → ℕ → ℕ → (ReadResponse → Eff W (Unit {0})) → Eff W (Option (Unit {0}))
  unfolding group_config consume_sessions
  read k fuel seen handler = do
    group ← new_group k.brokers k.consumer_group (group_config k)
    λ w.
        let (r, s) = consume_sessions group handler k.topics fuel (first_channel w) in
        continue r (λ ended. finish group seen s) s.world
