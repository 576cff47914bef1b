-- ===== src/State/Contents/Replay.antt =====
-- Clients of a state store (state/store.go) that is a map: the answers to any calls, one after the other,
-- are those of the map.
use components_contrib.Base.{
  String, ◌≡◌, refl, sym, ap, ◌∙◌, inl, inr, Option, none, some, List, [], ◌∷◌, Option-cases, All,
  Result, ok,
}
use components_contrib.Base.Effect.{Eff, for_each}
use components_contrib.State.Requests.{Bytes, GetRequest, DeleteRequest, SetRequest, GetResponse}
use components_contrib.State.Contents.{
  Contents, put, put_all, for_each-put_all, remove, payload_of, Implements,
}
use mathlib.Core.Path.{subst}

-- A call of a client.
pub data Call (V : Type 0) : Type 0 where
  set_call : SetRequest V → Call V
  bulk_call : List (SetRequest V) → Call V
  remove_call : DeleteRequest → Call V
  get_call : GetRequest → Call V

-- What a client sees of a call: that a write was done or not, and the data that it got.
pub data Sight : Type 0 where
  done failed : Sight
  got : Option Bytes → Sight

abbrev pub sight_of : Result (Unit {0}) → Sight
sight_of (ok u) = done
sight_of _ = failed

module _ {W V : Type 0} (set : SetRequest V → Eff W (Unit {0}))
    (bulk : List (SetRequest V) → Eff W (Unit {0})) (remove_item : DeleteRequest → Eff W (Unit {0}))
    (get : GetRequest → Eff W (Option GetResponse)) where
  abbrev pub call : Call V → W → Sight × W
  call (set_call req) w = let (r, w') = set req w in (sight_of r, w')
  call (bulk_call reqs) w = let (r, w') = bulk reqs w in (sight_of r, w')
  call (remove_call req) w = let (r, w') = remove_item req w in (sight_of r, w')
  call (get_call req) w = let (r, w') = get req w in (got (payload_of r), w')

  -- The calls one after the other, and what they show.
  unfoldable pub calls : List (Call V) → W → List Sight × W
  calls [] w = ([], w)
  calls (c ∷ cs) w = let rest = calls cs (call c w).1 in ((call c w).0 ∷ rest.0, rest.1)

module _ {V : Type 0} (written : SetRequest V → Bytes) (missing : Option Bytes) where
  -- The same on a map.
  abbrev pub replay_one : Call V → Contents → Sight × Contents
  replay_one (set_call req) c = (done, put req.key (written req) c)
  replay_one (bulk_call reqs) c = (done, put_all written reqs c)
  replay_one (remove_call req) c = (done, remove req.key c)
  replay_one (get_call req) c = (got (elim (c req.key) [ some b ↦ some b | none ↦ missing ]), c)

  unfoldable pub replay : List (Call V) → Contents → List Sight × Contents
  replay [] c = ([], c)
  replay (x ∷ xs) c =
      let rest = replay xs (replay_one x c).1 in ((replay_one x c).0 ∷ rest.0, rest.1)

  -- The calls that a store takes: requests that it accepts, deletions of keys that are there, and Gets of
  -- keys that its client takes.
  abbrev pub Takes :
      (SetRequest V → Type 0)
      → (DeleteRequest → Type 0)
      → (String → Type 0)
      → List (Call V)
      → Contents
      → Type 0
  Takes Accepts AcceptsRemoval IsKey [] c = Unit
  Takes Accepts AcceptsRemoval IsKey (set_call req ∷ cs) c =
      Accepts req × Takes Accepts AcceptsRemoval IsKey cs (put req.key (written req) c)
  Takes Accepts AcceptsRemoval IsKey (bulk_call reqs ∷ cs) c =
      All Accepts reqs × Takes Accepts AcceptsRemoval IsKey cs (put_all written reqs c)
  Takes Accepts AcceptsRemoval IsKey (remove_call req ∷ cs) c =
      (AcceptsRemoval req × ((b : Bytes) × (c req.key ≡ some b)))
      × Takes Accepts AcceptsRemoval IsKey cs (remove req.key c)
  Takes Accepts AcceptsRemoval IsKey (get_call req ∷ cs) c =
      IsKey req.key × Takes Accepts AcceptsRemoval IsKey cs c

module _ {W V : Type 0} {contents : W → Contents} {written : SetRequest V → Bytes}
    {Accepts : SetRequest V → Type 0} {AcceptsRemoval : DeleteRequest → Type 0}
    {IsKey : String → Type 0} {missing : Result (Option GetResponse)}
    {set : SetRequest V → Eff W (Unit {0})} {remove_item : DeleteRequest → Eff W (Unit {0})}
    {get : GetRequest → Eff W (Option GetResponse)}
    (store : Implements contents written Accepts AcceptsRemoval IsKey missing set remove_item get)
    (bulk : List (SetRequest V) → Eff W (Unit {0}))
    (bulk_sets : (reqs : List (SetRequest V)) (w : W) → bulk reqs w ≡ for_each set reqs w) where
  get-payload :
      (req : GetRequest) (w : W)
      → IsKey req.key
      → payload_of (get req w).0
        ≡ elim (contents w req.key) [ some b ↦ some b | none ↦ payload_of missing ]
  get-payload req w is = elim (Option-cases (contents w req.key)) [
    | inl e ↦ ap payload_of (store.get_miss req w is e) ∙ rw e refl
    | inr (b, e) ↦ store.get_hit req w b is e ∙ rw e refl
  ]

  abbrev After : List (Call V) → W → Contents → Type 0
  After cs w c =
      ((calls set bulk remove_item get cs w).0 ≡ (replay written (payload_of missing) cs c).0)
      × (contents (calls set bulk remove_item get cs w).1
          ≡ (replay written (payload_of missing) cs c).1)

  -- A call that shows and leaves what it should, before others that do.
  After-next :
      (x : Call V) (cs : List (Call V)) (w : W)
      → (call set bulk remove_item get x w).0
        ≡ (replay_one written (payload_of missing) x (contents w)).0
      → contents (call set bulk remove_item get x w).1
        ≡ (replay_one written (payload_of missing) x (contents w)).1
      → After cs
          (call set bulk remove_item get x w).1
          (contents (call set bulk remove_item get x w).1)
      → After (x ∷ cs) w (contents w)
  unfolding calls replay
  After-next x cs w sight left rest =
      let moved : After cs (call set bulk remove_item get x w).1
          (replay_one written (payload_of missing) x (contents w)).1 =
        subst (After cs (call set bulk remove_item get x w).1) left rest in
      (
        ap (λ a. a ∷ (calls set bulk remove_item get cs (call set bulk remove_item get x w).1).0)
              sight
            ∙ ap (λ l. (replay_one written (payload_of missing) x (contents w)).0 ∷ l) moved.0,
        moved.1,
      )

  -- Any calls that the store takes, one after the other, show what they show of the map, and leave what
  -- they leave of it.
  pub calls-replay :
      (cs : List (Call V)) (w : W)
      → Takes written (payload_of missing) Accepts AcceptsRemoval IsKey cs (contents w)
      → ((calls set bulk remove_item get cs w).0
          ≡ (replay written (payload_of missing) cs (contents w)).0)
        × (contents (calls set bulk remove_item get cs w).1
            ≡ (replay written (payload_of missing) cs (contents w)).1)
  unfolding calls replay
  calls-replay [] w h = (refl, refl)
  calls-replay (set_call req ∷ cs) w (a, hs) =
      let e = store.set_writes req w a in
      After-next (set_call req) cs w (ap sight_of (store.set_succeeds req w a)) e (
        calls-replay cs (set req w).1
          (subst (Takes written (payload_of missing) Accepts AcceptsRemoval IsKey cs) (sym e) hs))
  calls-replay (bulk_call reqs ∷ cs) w (a, hs) =
      let (done', e) = for_each-put_all store reqs w a in
      let e' = ap (λ r. contents r.1) (bulk_sets reqs w) ∙ e in
      After-next (bulk_call reqs) cs w
        (ap (λ r. sight_of r.0) (bulk_sets reqs w) ∙ ap sight_of done') e'
        (calls-replay cs (bulk reqs w).1
          (subst (Takes written (payload_of missing) Accepts AcceptsRemoval IsKey cs) (sym e') hs))
  calls-replay (remove_call req ∷ cs) w ((a, (b, there)), hs) =
      let (removed, e) = store.remove_writes req w b a there in
      After-next (remove_call req) cs w (ap sight_of removed) e (
        calls-replay cs (remove_item req w).1
          (subst (Takes written (payload_of missing) Accepts AcceptsRemoval IsKey cs) (sym e) hs))
  calls-replay (get_call req ∷ cs) w (is, hs) =
      let e = store.get_keeps req w is in
      After-next (get_call req) cs w (ap got (get-payload req w is)) e (
        calls-replay cs (get req w).1
          (subst (Takes written (payload_of missing) Accepts AcceptsRemoval IsKey cs) (sym e) hs))
