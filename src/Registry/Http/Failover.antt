-- ===== src/Registry/Http/Failover.antt =====
-- Which endpoint's answer `postAny` returns.
use pg_shard_router.Base.{
  ℕ, suc, Bool, true, Option, none, some, List, [], ◌∷◌, ◌++◌, ◌≡◌, ◌≢◌, ap, ◌∙◌, arith,
}
use pg_shard_router.Base.Bytes.{Bytes, bytes_eq, bytes_beq_iff}
use pg_shard_router.Base.Result.{ok, err}
use pg_shard_router.Registry.Http.{
  Client, Request, failed, answered, HttpError, no_endpoints, Session, Network, auth_path,
  post_loop, unreachable, wants_auth, authenticate, auth_ok, post_any,
}

-- The number of requests after one to each endpoint of a list.
abbrev pub after : List Bytes → ℕ → ℕ
after [] n = n
after (ep ∷ eps) n = after eps (suc n)

module _ (net : Network) (path body : Bytes) where
  abbrev request : Client → Bytes → Request
  request c ep = record { endpoint = ep; path = path; body = body; token = c.token }

  -- Endpoint by endpoint, from the n-th request on, the network does not answer.
  abbrev pub AllFail : Client → List Bytes → ℕ → Type 0
  AllFail c [] n = Unit {0}
  AllFail c (ep ∷ eps) n = (net.answer n (request c ep) ≡ failed) × AllFail c eps (suc n)

  post_loop-failed :
      (auth : Session → Session × Bool) (c : Client) (down : List Bytes) (ep : Bytes)
      (rest : List Bytes) (last : Option HttpError) (n : ℕ) (resp : Bytes)
      → AllFail c down n
      → net.answer (after down n) (request c ep) ≡ answered 200 resp
      → post_loop net auth path body (down ++ ep ∷ rest) last (c, n)
        ≡ ((c, suc (after down n)), ok resp)
  unfolding post_loop
  post_loop-failed auth c [] ep rest last n resp h a = rw (a, wants_auth)
  post_loop-failed auth c (d ∷ down) ep rest last n resp h a =
      rw h.0 (post_loop-failed auth c down ep rest (some unreachable) (suc n) resp h.1 a)

  -- If the first endpoints cannot be reached and the next one answers 200, that answer is the
  -- result, after one request to each and with the token unchanged.
  pub post_any-failover :
      (c : Client) (down : List Bytes) (ep : Bytes) (rest : List Bytes) (n : ℕ) (resp : Bytes)
      → c.endpoints ≡ down ++ ep ∷ rest
      → AllFail c down n
      → net.answer (after down n) (request c ep) ≡ answered 200 resp
      → post_any net path body (c, n) ≡ ((c, suc (after down n)), ok resp)
  unfolding post_any
  post_any-failover c down ep rest n resp e h a =
      ap (λ eps. post_loop net (auth_ok net) path body eps none (c, n)) e
      ∙ post_loop-failed (auth_ok net) c down ep rest none n resp h a

  wants_auth-denied :
      (c : Client) → c.username ≢ [] → path ≢ auth_path → wants_auth net c path 401 ≡ true
  unfolding wants_auth
  wants_auth-denied c named other =
      ground (arith, bytes_beq_iff c.username [], bytes_beq_iff path auth_path)

  auth_ok-renewed : (s s' : Session) → authenticate net s ≡ (s', ok tt) → auth_ok net s ≡ (s', true)
  unfolding auth_ok
  auth_ok-renewed s s' fresh = rw fresh

  post_loop-denied :
      (c : Client) (s' : Session) (ep : Bytes) (n : ℕ) (resp : Bytes)
      → wants_auth net c path 401 ≡ true
      → net.answer n (request c ep) ≡ answered 401 resp
      → auth_ok net (c, suc n) ≡ (s', true)
      → post_loop net (auth_ok net) path body (ep ∷ []) none (c, n) ≡ (s', err no_endpoints)
  unfolding post_loop
  post_loop-denied c s' ep n resp wants denied renewed = ground (arith, denied, wants, renewed)

  -- With one endpoint, an expired token is fatal for the request: the endpoint answers 401, the authentication
  -- succeeds, and the request is not sent again: the result is the error for a client that has no endpoints.
  pub post_any_expired_token :
      (c c' : Client) (ep : Bytes) (n n' : ℕ) (resp : Bytes)
      → c.endpoints ≡ ep ∷ []
      → c.username ≢ []
      → path ≢ auth_path
      → net.answer n (request c ep) ≡ answered 401 resp
      → authenticate net (c, suc n) ≡ ((c', n'), ok tt)
      → post_any net path body (c, n) ≡ ((c', n'), err no_endpoints)
  unfolding post_any
  post_any_expired_token c c' ep n n' resp e named other denied fresh =
      ap (λ eps. post_loop net (auth_ok net) path body eps none (c, n)) e
      ∙ post_loop-denied c (c', n') ep n resp (wants_auth-denied c named other) denied
          (auth_ok-renewed (c, suc n) (c', n') fresh)
