-- ===== src/Bindings/Kafka/Sessions/Readiness.antt =====
-- When Read of bindings/kafka/kafka.go gets past the channel that it waits for.
use components_contrib.Base.{
  ℕ, zero, suc, ◌+◌, ◌≤◌, ◌<◌, String, ◌≡◌, refl, ap, ◌∙◌, ◌⊎◌, inl, inr, Bool, true, false, Option,
  none, some, List, [], ◌∷◌, arith, leb, if◌then◌else◌, Bool-cases, All, Error, Result, ok, err,
}
use components_contrib.Base.Effect.{settle, Eff, continue, for_each}
use components_contrib.Bindings.Messages.{ReadResponse, response}
use components_contrib.Bindings.Kafka.{
  Kafka, Config, Message, consume_message, consume_claim, group_config,
}
use components_contrib.Bindings.Kafka.Sessions.{
  Session, Group, Channels, is_member, setup, run_session, consume_sessions, first_channel, finish,
  read,
}

-- The channels that are closed are older than the consumer's.
AreOlder : List ℕ → ℕ → Type 0
AreOlder closed ready = All (λ n. n < ready) closed

not_member : (n : ℕ) (closed : List ℕ) → AreOlder closed n → is_member n closed ≡ false
unfolding AreOlder
not_member n [] h = refl
not_member n (m ∷ ms) (b, h) = rw (not_member n ms h) (ground arith)

AreOlder-suc : (n m : ℕ) (closed : List ℕ) → n ≤ m → AreOlder closed n → AreOlder closed m
unfolding AreOlder
AreOlder-suc n m [] b h = tt
AreOlder-suc n m (k ∷ ks) b (c, h) = (omega arith, AreOlder-suc n m ks b h)

for_each-done :
    {W A : Type 0} (body : A → Eff W (Unit {0}))
    → ((x : A) (w : W) → (body x w).0 ≡ ok tt)
    → (xs : List A) (w : W) → (for_each body xs w).0 ≡ ok tt
unfolding for_each
for_each-done body h [] w = refl
for_each-done body h (x ∷ xs) w = rw (h x w) (for_each-done body h xs (body x w).1)

module _ {W : Type 0} (group : Group W) (callback : ReadResponse → Eff W (Unit {0}))
    (answers : (r : ReadResponse) (w : W)
      → ((callback r w).0 ≡ ok tt) ⊎ ((e : Error) × ((callback r w).0 ≡ err e))) where
  consume_message-done :
      (m : Message) (w : W) → (consume_message group.mark_message (some callback) m w).0 ≡ ok tt
  unfolding consume_message
  consume_message-done m w = elim (answers (response m.value) w) [
    | inl e ↦ rw (consume_message, settle, e) refl
    | inr (x, e) ↦ rw (consume_message, settle, e) refl
  ]

  claims-done :
      (claims : List (List Message)) (w : W)
      → (for_each (consume_claim group.mark_message (some callback)) claims w).0 ≡ ok tt
  unfolding consume_claim
  claims-done =
      for_each-done (consume_claim group.mark_message (some callback))
        (for_each-done (consume_message group.mark_message (some callback)) consume_message-done)

  -- A session closes the consumer's channel if it gets as far as Setup, and no other.
  run_session-closes :
      (session : Session) (s : Channels W)
      → AreOlder s.closed s.ready
      → ((run_session group callback session s).0 ≡ ok tt)
        × ((run_session group callback session s).1.ready ≡ s.ready)
        × ((run_session group callback session s).1.closed
            ≡ (if session.sets_up then s.ready ∷ s.closed else s.closed))
  unfolding run_session setup
  run_session-closes session s h = elim (Bool-cases session.sets_up) [
    | inl e ↦ rw (e, not_member s.ready s.closed h) (claims-done session.claims s.world, refl, refl)
    | inr e ↦ rw e (refl, refl, refl)
  ]

  AreOlder-next :
      (session : Session) (s : Channels W)
      → AreOlder s.closed s.ready
      → AreOlder (if session.sets_up then s.ready ∷ s.closed else s.closed) (s.ready + 1)
  unfolding AreOlder
  AreOlder-next session s h = elim (Bool-cases session.sets_up) [
    | inl e ↦ rw e (omega arith, AreOlder-suc s.ready (s.ready + 1) s.closed (omega arith) h)
    | inr e ↦ rw e (AreOlder-suc s.ready (s.ready + 1) s.closed (omega arith) h)
  ]

  -- What the loop gives, from a later channel on: it does not panic, and leaves the first one alone.
  abbrev LeavesFirst : Bool → Result (Option (Unit {0})) × Channels W → Type 0
  LeavesFirst closed (r, s) =
      ((o : Option (Unit {0})) × (r ≡ ok o)) × (is_member 0 s.closed ≡ closed)

  one_session :
      (topics : List String) (n : ℕ) (s : Channels W) (closed : Bool)
      → AreOlder s.closed s.ready
      → let session = (group.consume topics s.world).0 in
        is_member 0 (if session.sets_up then s.ready ∷ s.closed else s.closed) ≡ closed
        → ((s' : Channels W)
            → 1 ≤ s'.ready
            → AreOlder s'.closed s'.ready
            → is_member 0 s'.closed ≡ closed
            → LeavesFirst closed (consume_sessions group callback topics n s'))
        → LeavesFirst closed (consume_sessions group callback topics (suc n) s)
  unfolding consume_sessions
  one_session topics n s closed h first rest =
      let (session, w) = group.consume topics s.world in
      let s1 : Channels W = record { ready = s.ready; closed = s.closed; world = w } in
      let s2 = (run_session group callback session s1).1 in
      let (finished, same, closes) = run_session-closes session s1 h in
      let kept : is_member 0 s2.closed ≡ closed = ap (is_member 0) closes ∙ first in
      elim (Bool-cases (group.is_cancelled s2.world)) [
        | inl e ↦ rw (finished, e) ((some tt, refl), kept)
        | inr e ↦
            rw (finished, e)
              (rest (record { ready = s2.ready + 1; closed = s2.closed; world = s2.world })
                (omega arith) (rw (closes, same) (AreOlder-next session s1 h)) kept)
      ]

  later_member :
      (sets_up : Bool) (ready : ℕ) (closed : List ℕ) (b : Bool)
      → 1 ≤ ready
      → is_member 0 closed ≡ b
      → is_member 0 (if sets_up then ready ∷ closed else closed) ≡ b
  later_member true ready closed b one e = ground arith
  later_member false ready closed b one e = e

  later_sessions :
      (topics : List String) (n : ℕ) (s : Channels W) (closed : Bool)
      → 1 ≤ s.ready
      → AreOlder s.closed s.ready
      → is_member 0 s.closed ≡ closed
      → LeavesFirst closed (consume_sessions group callback topics n s)
  unfolding consume_sessions
  later_sessions topics zero s closed one h e = ((none, refl), e)
  later_sessions topics (suc n) s closed one h e =
      one_session topics n s closed h
        (later_member (group.consume topics s.world).0.sets_up s.ready s.closed closed one e)
        (λ s' one' h' e'. later_sessions topics n s' closed one' h' e')

  first_member : (b : Bool) → is_member 0 (if b then 0 ∷ [] else []) ≡ b
  first_member true = refl
  first_member false = refl

  first_sessions :
      (topics : List String) (n : ℕ) (w : W)
      → LeavesFirst
          (group.consume topics w).0.sets_up
          (consume_sessions group callback topics (suc n) (first_channel w))
  unfolding AreOlder
  first_sessions topics n w =
      one_session topics n (first_channel w) (group.consume topics w).0.sets_up tt
        (first_member (group.consume topics w).0.sets_up)
        (λ s' one h e. later_sessions topics n s' (group.consume topics w).0.sets_up one h e)

  finish_after :
      (r : Result (Option (Unit {0}))) (s : Channels W) (b : Bool)
      → LeavesFirst b (r, s)
      → ((u : W) → (group.close u).0 ≡ ok tt)
      → (continue r (λ ended. finish group 0 s) s.world).0 ≡ ok (if b then some tt else none)
  finish_after r s true ((ended, finished), first) closing =
      let from_first : leb 0 s.ready ≡ true = ground arith in
      rw (finished, from_first, first, closing (group.cancel s.world)) refl
  finish_after r s false ((ended, finished), first) closing =
      let from_first : leb 0 s.ready ≡ true = ground arith in rw (finished, from_first, first) refl

  -- With a callback that never panics, a consumer group that is made and closes without an error, a
  -- signal after one call of Consume or more, and a Read that looks for its channel before the
  -- goroutine has replaced the first one: the loop never closes a channel twice, and Read ends without
  -- an error if the first call gets as far as Setup; if it does not, Read goes on waiting, whatever
  -- the later calls do, since Setup then closes another channel.
  pub read_ends :
      (new_group : List String → String → Config → Eff W (Group W)) (k : Kafka W) (n : ℕ) (w v : W)
      → new_group k.brokers k.consumer_group (group_config k) w ≡ (ok group, v)
      → ((u : W) → (group.close u).0 ≡ ok tt)
      → (read new_group k (suc n) 0 callback w).0
        ≡ ok (if (group.consume k.topics v).0.sets_up then some tt else none)
  unfolding read
  read_ends new_group k n w v made closing = rw made (
      finish_after (consume_sessions group callback k.topics (suc n) (first_channel v)).0
        (consume_sessions group callback k.topics (suc n) (first_channel v)).1
        (group.consume k.topics v).0.sets_up (first_sessions k.topics n v) closing)
