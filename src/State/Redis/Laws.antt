-- ===== src/State/Redis/Laws.antt =====
-- What the store relies on of Redis (the command reference), as hypotheses on a `Server`: HGET, HSET,
-- HINCRBY, DEL and HGETALL on hashes, SET and GET of texts, transactions, and what a connected client
-- does with a command.
use components_contrib.Base.{
  ℕ, ◌+◌, ◌^◌, ◌<◌, String, ◌≡◌, ◌≢◌, ◌⊎◌, true, false, Option, none, some, List, [], ◌∷◌, ◌==◌,
  if◌then◌else◌, ok,
}
use components_contrib.Base.Text.Decimal.{print_nat}
use components_contrib.State.Redis.{Reply, nil, bulk, integer, array, is_failure, Server}

-- The value that a reply of HGETALL lists for a field; no field is listed twice.
unfoldable pub listed : String → List String → Option String
listed f [] = none
listed f (g ∷ []) = none
listed f (g ∷ v ∷ rest) =
    let later = listed f rest in
    elim later [ some u ↦ some u | none ↦ if g == f then some v else none ]

-- A list of fields and values in turn.
abbrev pub IsPaired : List String → Type 0
IsPaired [] = Unit
IsPaired (f ∷ []) = ⊥
IsPaired (f ∷ v ∷ rest) = IsPaired rest

abbrev pub IsListed : Reply → String → List String → Type 0
IsListed nil f fs = listed f fs ≡ none
IsListed (bulk v) f fs = listed f fs ≡ some v
IsListed _ f fs = ⊥

-- The commands of a transaction, one after the other; an error reply does not stop it.
unfoldable pub run_all : {W : Type 0} → List (W → Reply × W) → W → W
run_all [] w = w
run_all (command ∷ rest) w = run_all rest (command w).1

module _ {W : Type 0} (s : Server W) where
  pub record Documented : Type 0 where
    -- HGET fails on a key exactly if the key holds another type, whatever the field.
    pub hget_type : (k f g : String) (w : W) → is_failure (s.hget k f w) ≡ is_failure (s.hget k g w)
    pub hset_reply :
        (k f v : String) (w : W)
        → is_failure (s.hget k f w) ≡ false
        → is_failure (s.hset k f v w).0 ≡ false
    pub hget-hset_self :
        (k f v : String) (w : W)
        → is_failure (s.hget k f w) ≡ false
        → s.hget k f (s.hset k f v w).1 ≡ bulk v
    pub hget-hset_ne :
        (k f v j g : String) (w : W)
        → (k ≢ j) ⊎ (f ≢ g)
        → s.hget j g (s.hset k f v w).1 ≡ s.hget j g w
    -- HINCRBY counts on from the decimal number in the field, and from 0 if the field is missing.
    pub hincrby_reply :
        (k f : String) (n d : ℕ) (w : W)
        → s.hget k f w ≡ bulk (print_nat n)
        → n + d < 2 ^ 63
        → (s.hincrby k f d w).0 ≡ integer (n + d)
    pub hget-hincrby_self :
        (k f : String) (n d : ℕ) (w : W)
        → s.hget k f w ≡ bulk (print_nat n)
        → n + d < 2 ^ 63
        → s.hget k f (s.hincrby k f d w).1 ≡ bulk (print_nat (n + d))
    pub hincrby_missing :
        (k f : String) (d : ℕ) (w : W) → s.hget k f w ≡ nil → (s.hincrby k f d w).0 ≡ integer d
    pub hget-hincrby_missing :
        (k f : String) (d : ℕ) (w : W)
        → s.hget k f w ≡ nil
        → s.hget k f (s.hincrby k f d w).1 ≡ bulk (print_nat d)
    pub hget-hincrby_ne :
        (k f j g : String) (d : ℕ) (w : W)
        → (k ≢ j) ⊎ (f ≢ g)
        → s.hget j g (s.hincrby k f d w).1 ≡ s.hget j g w
    pub del_reply : (k : String) (w : W) → is_failure (s.del k w).0 ≡ false
    pub hget-del_self : (k f : String) (w : W) → s.hget k f (s.del k w).1 ≡ nil
    pub hget-del_ne : (k j g : String) (w : W) → k ≢ j → s.hget j g (s.del k w).1 ≡ s.hget j g w
    -- HGETALL replies with the fields and values of a hash, and fails on another type.
    pub hgetall_reply :
        (k : String) (w : W)
        → is_failure (s.hget k "version" w) ≡ false
        → (fs : List String) × (s.hgetall k w ≡ array fs)
          × IsPaired fs
          × ((f : String) → IsListed (s.hget k f w) f fs)

  -- MULTI and EXEC, and SET and GET beside hashes: a connected client has the server run the commands
  -- in their order, and a key that SET wrote holds a text, on which the commands for hashes fail.
  pub record Transacts : Type 0 where
    pub transaction_runs :
        (commands : List (W → Reply × W)) (w : W)
        → s.transaction commands w ≡ (ok tt, run_all commands w)
    pub hget-set_self :
        (k v f : String) (w : W) → is_failure (s.hget k f (s.plain_set k v w).1) ≡ true
    pub hget-set_ne :
        (k v j g : String) (w : W) → k ≢ j → s.hget j g (s.plain_set k v w).1 ≡ s.hget j g w
    pub hgetall-set_self :
        (k v : String) (w : W) → is_failure (s.hgetall k (s.plain_set k v w).1) ≡ true
    pub hgetall-set_ne :
        (k v j : String) (w : W) → k ≢ j → s.hgetall j (s.plain_set k v w).1 ≡ s.hgetall j w
    pub hgetall-del_self : (k : String) (w : W) → s.hgetall k (s.del k w).1 ≡ array []
    pub hgetall-del_ne : (k j : String) (w : W) → k ≢ j → s.hgetall j (s.del k w).1 ≡ s.hgetall j w
    pub get-set_self : (k v : String) (w : W) → s.plain_get k (s.plain_set k v w).1 ≡ bulk v
    pub get-set_ne :
        (k v j : String) (w : W) → k ≢ j → s.plain_get j (s.plain_set k v w).1 ≡ s.plain_get j w
    pub get-del_ne : (k j : String) (w : W) → k ≢ j → s.plain_get j (s.del k w).1 ≡ s.plain_get j w

  -- A client whose connection is up has the server run each command once, and hands its reply on.
  abbrev pub IsConnected : Type 0
  IsConnected = (command : W → Reply × W) (w : W) → s.send command w ≡ command w
