-- ===== src/State/Cassandra/Sessions.antt =====
-- What the Cassandra driver documents, and what becomes of the statements of
-- state/cassandra/cassandra.go, through whichever session a request goes.
use components_contrib.Base.Text.{contains}
use components_contrib.Base.{
  String, ◌≡◌, refl, ◌∙◌, inl, inr, Bool, true, ◌||◌, List, [], ◌∷◌, ◌==◌, Bool-cases, Error,
  Result, ok, err,
}
use components_contrib.Base.Effect.{Eff, ◌>>=◌, lift}
use components_contrib.State.Requests.{
  Bytes, GetRequest, DeleteRequest, Value, SetRequest, strong, eventual, encode,
}
use components_contrib.State.Cassandra.{
  Bound, text, blob, Session, Driver, Cassandra, Consistency, all, one, quorum, any, create_session,
  with_session, get_answer, get_item, set_item, delete_item,
}

-- The statement has the marker of a bound value where the name of its table stands.
abbrev pub binds_table : String → Bool
binds_table statement = contains statement "INTO ?" || contains statement "FROM ?"

-- A session on a cluster whose rows are `stored`. In CQL a bound value stands for a term, never for the
-- name of a table: such a statement is not prepared.
pub record IsSession {W R : Type 0} (stored : W → R) (s : Session W) : Type 0 where
  pub exec_refused :
      (statement : String) (values : List Bound) (w : W)
      → binds_table statement ≡ true
      → ((e : Error) × ((s.exec statement values w).0 ≡ err e))
        × (stored (s.exec statement values w).1 ≡ stored w)
  pub slice_map_refused :
      (statement : String) (values : List Bound) (w : W)
      → binds_table statement ≡ true
      → ((e : Error) × ((s.slice_map statement values w).0 ≡ err e))
        × (stored (s.slice_map statement values w).1 ≡ stored w)

-- A driver that makes sessions on the cluster of the store; to open, to set up and to close one does
-- not change the rows.
pub record Documented {W R : Type 0} (driver : Driver W) (c : Cassandra W) (own : Session W)
    (stored : W → R) : Type 0 where
  pub store_session : IsSession stored c.session
  pub own_session : IsSession stored own
  pub create_reply : (w : W) → (driver.create_session c.cluster w).0 ≡ ok own
  pub create_keeps : (w : W) → stored (driver.create_session c.cluster w).1 ≡ stored w
  pub consistency_keeps : (k : Consistency) (w : W) → stored (own.set_consistency k w) ≡ stored w
  pub close_keeps : (w : W) → stored (own.close w) ≡ stored w

-- An error, and rows that are as they were.
abbrev pub IsRefused : {W R A : Type 0} → (W → R) → W → Result A × W → Type 0
IsRefused stored w (r, w') = ((e : Error) × (r ≡ err e)) × (stored w' ≡ stored w)

module _ {W R V : Type 0} (driver : Driver W) (c : Cassandra W) (own : Session W)
    (marshal : Value V → Result Bytes) (stored : W → R)
    (laws : Documented driver c own stored) where
  -- What holds of a body in either session, on rows like those of `w`, holds of it within its session.
  in_own_session :
      {A : Type 0} (Q : Result A → R → Type 0) (k : Consistency) (body : Session W → Eff W A)
      (w : W)
      → ((v : W) → stored v ≡ stored w → Q (body own v).0 (stored (body own v).1))
      → Q
          ((create_session driver c k >>= λ sess v. ((body sess v).0, sess.close (body sess v).1))
            w).0
          (stored
            ((create_session driver c k >>= λ sess v. ((body sess v).0, sess.close (body sess v).1))
              w).1)
  unfolding create_session
  in_own_session Q k body w h =
      let v = own.set_consistency k (driver.create_session c.cluster w).1 in
      let kept : stored v ≡ stored w =
        laws.consistency_keeps k (driver.create_session c.cluster w).1 ∙ laws.create_keeps w in
      rw (laws.create_reply w, laws.close_keeps (body own v).1) (h v kept)

  with_session-either :
      {A : Type 0} (Q : Result A → R → Type 0) (consistency : String) (j k : Consistency)
      (body : Session W → Eff W A) (w : W)
      → ((v : W) → stored v ≡ stored w → Q (body own v).0 (stored (body own v).1))
      → ((v : W) → stored v ≡ stored w → Q (body c.session v).0 (stored (body c.session v).1))
      → Q
          (with_session driver c consistency j k body w).0
          (stored (with_session driver c consistency j k body w).1)
  unfolding with_session
  with_session-either Q consistency j k body w h h' = elim (Bool-cases (consistency == strong)) [
    | inl e ↦ rw e (in_own_session Q j body w h)
    | inr e ↦ elim (Bool-cases (consistency == eventual)) [
      | inl e' ↦ rw (e, e') (in_own_session Q k body w h)
      | inr e' ↦ rw (e, e') (h' w refl)
    ]
  ]

  set_item-IsRefused :
      (req : SetRequest V) (w : W) → IsRefused stored w (set_item driver c marshal req w)
  unfolding set_item contains
  set_item-IsRefused req w =
      with_session-either (λ r d. ((e : Error) × (r ≡ err e)) × (d ≡ stored w))
        req.options.consistency quorum any
        (λ s.
          s.exec "INSERT INTO ? (key, value) VALUES (?, ?)"
            (text c.table ∷ text req.key ∷ blob (encode marshal req.value) ∷ []))
        w
        (λ v e.
          let (refused, kept) = laws.own_session.exec_refused _ _ v refl in (refused, kept ∙ e))
        (λ v e.
          let (refused, kept) = laws.store_session.exec_refused _ _ v refl in (refused, kept ∙ e))

  select-IsRefused :
      (s : Session W)
      → IsSession stored s
      → (k : String) (v : W)
      → IsRefused stored v (
          (s.slice_map "SELECT value FROM ? WHERE key = ?" (text c.table ∷ text k ∷ [])
              >>= λ results. lift (get_answer driver c results))
            v)
  unfolding contains
  select-IsRefused s is k v =
      let ((e, q), kept) =
        is.slice_map_refused "SELECT value FROM ? WHERE key = ?" (text c.table ∷ text k ∷ []) v
          refl in
      rw q ((e, refl), kept)

  get_item-IsRefused : (req : GetRequest) (w : W) → IsRefused stored w (get_item driver c req w)
  unfolding get_item
  get_item-IsRefused req w =
      with_session-either (λ r d. ((e : Error) × (r ≡ err e)) × (d ≡ stored w))
        req.options.consistency all one
        (λ s.
          s.slice_map "SELECT value FROM ? WHERE key = ?" (text c.table ∷ text req.key ∷ [])
          >>= λ results. lift (get_answer driver c results))
        w (λ v e. let (r, kept) = select-IsRefused own laws.own_session req.key v in (r, kept ∙ e))
        (λ v e.
          let (r, kept) = select-IsRefused c.session laws.store_session req.key v in (r, kept ∙ e))

  -- With sessions that refuse a statement in which the name of the table is a bound value, every set,
  -- every Get and every deletion, whatever its key, its value and its consistency, ends in an error
  -- and leaves the rows as they are.
  pub requests-IsRefused :
      (req : SetRequest V) (got : GetRequest) (gone : DeleteRequest) (w : W)
      → IsRefused stored w (set_item driver c marshal req w)
        × IsRefused stored w (get_item driver c got w)
        × IsRefused stored w (delete_item driver c gone w)
  unfolding delete_item contains
  requests-IsRefused req got gone w = (
    set_item-IsRefused req w,
    get_item-IsRefused got w,
    laws.store_session.exec_refused _ _ w refl,
  )
