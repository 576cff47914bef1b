-- ===== src/State/Firestore/Tests.antt =====
-- The theorem about the Firestore store at a concrete input, on a table in memory.
use components_contrib.Base.{
  ℕ, String, refl, Bool, ◌&&◌, List, [], ◌∷◌, leb, ◌!=◌, Result, ok, Succeeds,
}
use Prim.Native.String.{len}
use components_contrib.State.Requests.{Bytes, Properties, Metadata, Value, bytes, other}
use components_contrib.Base.Signed.{Duration}
use components_contrib.Base.Text.Decimal.{print_nat}
use components_contrib.State.Memory.{
  find, insert, erase, find-insert_self, find-insert_ne, find-erase_self, find-erase_ne,
}
use components_contrib.State.Firestore.{Client, Firestore, required, get_firestore_metadata}
use components_contrib.State.Firestore.Laws.{Documented, found}

abbrev with_all : List String → Properties
with_all [] = []
with_all (k ∷ ks) = (k, "x") ∷ with_all ks

abbrev account : Metadata
account = record { properties = with_all required }

is_accepted : Succeeds (get_firestore_metadata account)
unfolding get_firestore_metadata
is_accepted = tt

abbrev Table : Type 0
Table = List (String × Bytes)

abbrev memory : Client Table
memory = record {
  get = λ kind k t. (found (find t k), t);
  put = λ kind k b t. (ok tt, insert k b t);
  remove = λ kind k t. (ok tt, erase k t);
}

abbrev store : Firestore Table
store = record { client = memory; entity_kind = "DaprState" }

abbrev small : String → Bytes → Bool
small k b = k != "" && leb (len b) 1500

abbrev documented : Documented memory "DaprState"
documented = record {
  stored = find;
  may_put = small;
  get_reply = λ k w ne. refl;
  put_reply = λ k b w h. refl;
  put_self = λ k b w h. find-insert_self w k b;
  put_ne = λ k j b w ne. find-insert_ne w k j b ne;
  remove_reply = λ k w ne. refl;
  remove_self = λ k w h. find-erase_self w k;
  remove_ne = λ k j w ne. find-erase_ne w k j ne;
}

abbrev json : Value ℕ → Result Bytes
json (bytes b) = ok b
json (other n) = ok (print_nat n)

abbrev no_sleep : Duration → Table → Table
no_sleep d t = t
