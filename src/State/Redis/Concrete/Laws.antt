-- ===== src/State/Redis/Concrete/Laws.antt =====
-- That the server in memory does what `Laws` asks of Redis.
use components_contrib.Base.{
  ℕ, ◌+◌, ◌^◌, ◌<◌, String, ◌≡◌, refl, sym, ap, ◌∙◌, ◌≢◌, ◌⊎◌, inl, inr, false, Option, none, some,
  List, [], ◌∷◌, ◌++◌, arith, eq_iff, eq_refl, ◌==◌, if◌then◌else◌, Bool-cases, Option-cases,
}
use components_contrib.Base.Text.Decimal.{print_nat, atoi-print_nat}
use components_contrib.State.Redis.{Reply, bulk, integer, array, is_failure}
use components_contrib.State.Redis.Laws.{listed, IsPaired, IsListed, Documented, Transacts}
use components_contrib.State.Redis.Concrete.{
  Slot, hash, text, Memory, flat, of_option, update, extend, counted, field, hget, on_hash, hset,
  value_in, hincrby, del, plain_set, fields_of, text_in, server,
}

listed-snoc :
    (f g v : String) (l : List (String × String))
    → listed f (flat (l ++ (g, v) ∷ [])) ≡ (if g == f then some v else listed f (flat l))
unfolding flat listed
listed-snoc f g v [] = ground arith
listed-snoc f g v ((h, u) ∷ l) = ground (arith, listed-snoc f g v l)

-- HGET after a key got something else to hold.
hget-update :
    (k j g : String) (x : Slot) (w : Memory)
    → hget j g (update w k x) ≡ (if k == j then field g x else hget j g w)
unfolding hget
hget-update k j g x w = elim (Bool-cases (k == j)) [ inl e ↦ rw e | inr e ↦ rw e ]

field-extend :
    (f v g : String) (x : Slot)
    → is_failure (field f x) ≡ false
    → field g (extend f v x) ≡ (if f == g then bulk v else field g x)
unfolding field
field-extend f v g (hash l) h = rw (listed-snoc g f v l) (ground arith)
field-extend f v g (text t) h = cc

field-extend_ne : (f v g : String) (x : Slot) → f ≢ g → field g (extend f v x) ≡ field g x
unfolding field
field-extend_ne f v g (hash l) h = rw (listed-snoc g f v l) (ground (arith, eq_iff f g, h))
field-extend_ne f v g (text t) h = refl

field_type : (f g : String) (x : Slot) → is_failure (field f x) ≡ is_failure (field g x)
unfolding field
field_type f g (hash l) = succeeds (listed f (flat l)) ∙ sym (succeeds (listed g (flat l)))
  where
    succeeds : (o : Option String) → is_failure (of_option o) ≡ false
    succeeds none = refl
    succeeds (some v) = refl
field_type f g (text t) = refl

on_hash-done :
    (f : String) (x : Slot) (r : Reply) → is_failure (field f x) ≡ false → on_hash x r ≡ r
unfolding field
on_hash-done f (hash l) r h = refl
on_hash-done f (text t) r h = cc

hget-extend_self :
    (k f v : String) (w : Memory)
    → is_failure (hget k f w) ≡ false
    → hget k f (update w k (extend f v (w k))) ≡ bulk v
unfolding hget
hget-extend_self k f v w h =
    hget-update k k f (extend f v (w k)) w ∙ simp (eq_refl, field-extend f v f (w k) h)

hget-extend_ne :
    (k f v j g : String) (w : Memory)
    → (k ≢ j) ⊎ (f ≢ g)
    → hget j g (update w k (extend f v (w k))) ≡ hget j g w
unfolding hget
hget-extend_ne k f v j g w h = elim (Bool-cases (k == j)) [
  | inr e ↦ hget-update k j g (extend f v (w k)) w ∙ rw e
  | inl e ↦
      let p : k ≡ j = (eq_iff k j).0 e in
      hget-update k j g (extend f v (w k)) w
      ∙ rw e (field-extend_ne f v g (w k) (ground (arith, h, p)) ∙ ap (λ i. field g (w i)) p)
]

hincrby-eq :
    (k f : String) (n d : ℕ) (w : Memory)
    → value_in (hget k f w) ≡ n
    → is_failure (hget k f w) ≡ false
    → hincrby k f d w ≡ (integer (n + d), update w k (extend f (print_nat (n + d)) (w k)))
unfolding hincrby hget
hincrby-eq k f n d w e h = rw e (
    ap (λ r. (r, update w k (extend f (print_nat (n + d)) (w k))))
      (on_hash-done f (w k) (integer (n + d)) h))

hget-hincrby :
    (k f : String) (n d : ℕ) (w : Memory)
    → value_in (hget k f w) ≡ n
    → is_failure (hget k f w) ≡ false
    → hget k f (hincrby k f d w).1 ≡ bulk (print_nat (n + d))
hget-hincrby k f n d w e h =
    rw (hincrby-eq k f n d w e h) (hget-extend_self k f (print_nat (n + d)) w h)

value_in-print_nat :
    (k f : String) (n d : ℕ) (w : Memory)
    → hget k f w ≡ bulk (print_nat n)
    → n + d < 2 ^ 63
    → value_in (hget k f w) ≡ n
value_in-print_nat k f n d w h b = ap value_in h ∙ ap counted (atoi-print_nat n (omega arith))

abbrev zero_add : (d : ℕ) → 0 + d ≡ d
zero_add d = omega arith

flat-IsPaired : (l : List (String × String)) → IsPaired (flat l)
unfolding flat
flat-IsPaired [] = tt
flat-IsPaired ((f, v) ∷ l) = flat-IsPaired l

fields_of-IsListed :
    (k : String) (x : Slot)
    → is_failure (field k x) ≡ false
    → (fs : List String) × (fields_of x ≡ array fs)
      × IsPaired fs
      × ((f : String) → IsListed (field f x) f fs)
unfolding field
fields_of-IsListed k (text t) h = cc
fields_of-IsListed k (hash l) h = (flat l, refl, flat-IsPaired l, shown)
  where
    shown : (f : String) → IsListed (of_option (listed f (flat l))) f (flat l)
    shown f = elim (Option-cases (listed f (flat l))) [ inl e ↦ rw e e | inr (t, e) ↦ rw e e ]

update_self : (k : String) (x : Slot) (w : Memory) → update w k x k ≡ x
update_self k x w = simp eq_refl

update_ne : (k j : String) (x : Slot) (w : Memory) → k ≢ j → update w k x j ≡ w j
update_ne k j x w h = ground (arith, eq_iff k j, h)

-- The server in memory has the documented behaviour.
pub server-Documented : Documented server
unfolding hset hincrby del hget field flat listed
server-Documented = record {
  hget_type = λ k f g w. field_type f g (w k);
  hset_reply = λ k f v w h. ap is_failure (on_hash-done f (w k) (integer 0) h);
  hget-hset_self = hget-extend_self;
  hget-hset_ne = hget-extend_ne;
  hincrby_reply = λ k f n d w h b.
      ap (λ r. r.0) (hincrby-eq k f n d w (value_in-print_nat k f n d w h b) (ap is_failure h));
  hget-hincrby_self =
      λ k f n d w h b. hget-hincrby k f n d w (value_in-print_nat k f n d w h b) (ap is_failure h);
  hincrby_missing = λ k f d w h.
      ap (λ r. r.0) (hincrby-eq k f 0 d w (ap value_in h) (ap is_failure h))
      ∙ ap integer (zero_add d);
  hget-hincrby_missing = λ k f d w h.
      hget-hincrby k f 0 d w (ap value_in h) (ap is_failure h)
      ∙ ap (λ m. bulk (print_nat m)) (zero_add d);
  hget-hincrby_ne = hincrby_ne;
  del_reply = λ k w. refl;
  hget-del_self = λ k f w. ap (field f) (update_self k (hash []) w);
  hget-del_ne = λ k j g w h. ap (field g) (update_ne k j (hash []) w h);
  hgetall_reply = λ k w h. fields_of-IsListed "version" (w k) h;
}
  where
    hincrby_ne :
        (k f j g : String) (d : ℕ) (w : Memory)
        → (k ≢ j) ⊎ (f ≢ g)
        → hget j g (hincrby k f d w).1 ≡ hget j g w
    hincrby_ne k f j g d w h = hget-extend_ne k f _ j g w h

-- It runs the commands of a transaction, and keeps texts beside hashes.
pub server-Transacts : Transacts server
unfolding plain_set del hget field flat
server-Transacts = record {
  transaction_runs = λ commands w. refl;
  hget-set_self = λ k v f w. ap (λ x. is_failure (field f x)) (update_self k (text v) w) ∙ refl;
  hget-set_ne = λ k v j g w h. ap (field g) (update_ne k j (text v) w h);
  hgetall-set_self = λ k v w. ap (λ x. is_failure (fields_of x)) (update_self k (text v) w);
  hgetall-set_ne = λ k v j w h. ap fields_of (update_ne k j (text v) w h);
  hgetall-del_self = λ k w. ap fields_of (update_self k (hash []) w);
  hgetall-del_ne = λ k j w h. ap fields_of (update_ne k j (hash []) w h);
  get-set_self = λ k v w. ap text_in (update_self k (text v) w);
  get-set_ne = λ k v j w h. ap text_in (update_ne k j (text v) w h);
  get-del_ne = λ k j w h. ap text_in (update_ne k j (hash []) w h);
}
