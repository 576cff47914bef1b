-- ===== src/State/Redis/Response/Views.antt =====
-- What Get of state/redis/redis.go sees of the server: the replies to HGETALL and to GET.
use components_contrib.Base.{String, ◌≡◌, refl, sym, ap, ◌∙◌, true, some, [], ◌∷◌, ok}
use components_contrib.State.Requests.{GetRequest, empty_response}
use components_contrib.State.Redis.{Reply, nil, bulk, integer, array, failure, is_failure, Server}
use components_contrib.State.Redis.Laws.{Transacts, IsConnected}
use components_contrib.State.Redis.Response.{direct_answer, direct_get, hash_answer, get_item}

module _ {W : Type 0} (s : Server W) (connected : IsConnected s) (transacts : Transacts s) where
  direct_get-connected :
      (req : GetRequest) (w : W) → direct_get s req w ≡ (direct_answer s (s.plain_get req.key w), w)
  unfolding direct_get
  direct_get-connected req w = ap (λ r. (direct_answer s r.0, r.1)) (connected _ w)

  hash_answer_same :
      (req : GetRequest) (r : Reply) (w w' : W)
      → s.plain_get req.key w' ≡ s.plain_get req.key w
      → (hash_answer s req r w').0 ≡ (hash_answer s req r w).0
  unfolding hash_answer
  hash_answer_same req (failure m) w w' h =
      ap (λ r. r.0) (direct_get-connected req w')
      ∙ ap (direct_answer s) h
      ∙ sym (ap (λ r. r.0) (direct_get-connected req w))
  hash_answer_same req nil w w' h = refl
  hash_answer_same req (array []) w w' h = refl
  hash_answer_same req (array (f ∷ fs)) w w' h = refl
  hash_answer_same req (bulk v) w w' h = refl
  hash_answer_same req (integer n) w w' h = refl

  get_item-hgetall :
      (req : GetRequest) (w : W) → get_item s req w ≡ hash_answer s req (s.hgetall req.key w) w
  unfolding get_item
  get_item-hgetall req w = ap (λ r. hash_answer s req r.0 r.1) (connected _ w)

  -- Get sees of a world what HGETALL and GET show of the key.
  pub get_item_same :
      (req : GetRequest) (w w' : W)
      → s.hgetall req.key w' ≡ s.hgetall req.key w
      → s.plain_get req.key w' ≡ s.plain_get req.key w
      → (get_item s req w').0 ≡ (get_item s req w).0
  get_item_same req w w' h g =
      ap (λ r. r.0) (get_item-hgetall req w')
      ∙ ap (λ r. (hash_answer s req r w').0) h
      ∙ hash_answer_same req (s.hgetall req.key w) w w' g
      ∙ sym (ap (λ r. r.0) (get_item-hgetall req w))

  hash_answer-failure :
      (req : GetRequest) (r : Reply) (w : W)
      → is_failure r ≡ true
      → hash_answer s req r w ≡ direct_get s req w
  unfolding hash_answer
  hash_answer-failure req (failure m) w h = refl
  hash_answer-failure req nil w h = cc
  hash_answer-failure req (array fs) w h = cc
  hash_answer-failure req (bulk v) w h = cc
  hash_answer-failure req (integer n) w h = cc

  pub get_item-plain_set :
      (req : GetRequest) (t : String) (w : W)
      → (get_item s req (s.plain_set req.key t w).1).0
        ≡ ok (some (record empty_response { payload = t }))
  unfolding direct_answer
  get_item-plain_set req t w =
      let w' = (s.plain_set req.key t w).1 in
      ap (λ r. r.0)
        (get_item-hgetall req w'
          ∙ hash_answer-failure req (s.hgetall req.key w') w'
              (transacts.hgetall-set_self req.key t w)
          ∙ direct_get-connected req w')
      ∙ ap (direct_answer s) (transacts.get-set_self req.key t w)

  pub get_item-del :
      (req : GetRequest) (w : W) → (get_item s req (s.del req.key w).1).0 ≡ ok (some empty_response)
  unfolding hash_answer
  get_item-del req w =
      ap (λ r. r.0) (get_item-hgetall req (s.del req.key w).1)
      ∙ ap (λ r. (hash_answer s req r (s.del req.key w).1).0) (transacts.hgetall-del_self req.key w)
