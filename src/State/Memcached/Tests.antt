-- ===== src/State/Memcached/Tests.antt =====
-- The theorem about the Memcached store at a concrete input, on a table in memory.
use components_contrib.Base.{
  ℕ, String, ◌≡◌, refl, Bool, not, ◌&&◌, none, some, List, [], ◌∷◌, leb, external, Result, ok, err,
}
use Prim.Native.String.{len}
use components_contrib.Base.Effect.{pure}
use components_contrib.Base.Signed.{pos, to_int64, Duration}
use components_contrib.Base.Text.{split, contains}
use components_contrib.Base.Text.Decimal.{atoi, print_nat}
use components_contrib.State.Requests.{Bytes, Value, bytes, other}
use components_contrib.State.Memory.{
  find, insert, erase, find-insert_self, find-insert_ne, find-erase_self, find-erase_ne,
}
use components_contrib.State.Memcached.{Client, get_memcached_metadata}
use components_contrib.State.Memcached.Laws.{Documented, looked_up}

abbrev json : Value ℕ → Result Bytes
json (bytes b) = ok b
json (other n) = ok (print_nat n)

abbrev Table : Type 0
Table = List (String × Bytes)

abbrev memory : Client Table
memory = record {
  ping = pure tt;
  get = λ k t. (looked_up (find t k), t);
  set = λ k b t. (ok tt, insert k b t);
  remove =
      λ k t. (elim (find t k) [ none ↦ err (external "cache miss") | some b ↦ ok tt ], erase k t);
}

abbrev short : String → Bool
short k = leb (len k) 250 && not (contains k " ")

abbrev memory-Documented : Documented memory
memory-Documented = record {
  stored = find;
  may_name = short;
  may_put = λ k b. leb (len b) 1000000;
  get_reply = λ k w h. refl;
  set_reply = λ k b w h h'. refl;
  set_self = λ k b w h h'. find-insert_self w k b;
  set_ne = λ k j b w ne. find-insert_ne w k j b ne;
  remove_reply = λ k b w is h. rw (memory, h) refl;
  remove_self = λ k w h. find-erase_self w k;
  remove_ne = λ k j w ne. find-erase_ne w k j ne;
}

abbrev no_sleep : Duration → Table → Table
no_sleep t w = w

timeout_in_milliseconds :
    get_memcached_metadata (record { properties = ("hosts", "a:1,b:2") ∷ ("timeout", "20") ∷ [] })
    ≡ ok (record {
      hosts = "a:1" ∷ "b:2" ∷ [];
      max_idle_connections = pos 2;
      timeout = pos 20000000;
    })
unfolding get_memcached_metadata atoi split to_int64
timeout_in_milliseconds = refl
