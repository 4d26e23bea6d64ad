-- ===== src/Registry/Http.antt =====
-- The requests of internal/registry/etcdhttp.go: `postAny` and `authenticate`. The network is an
-- argument: what the n-th request is answered, which may differ from what an equal one was answered
-- before.
pub mod Failover
pub mod Bounds
use pg_shard_router.Base.{
  ℕ, suc, ◌+◌, Bool, true, false, Option, none, some, List, [], ◌∷◌, ◌==◌, ◌&&◌, not, nat_beq,
  if◌then◌else◌,
}
use pg_shard_router.Base.Bytes.{Bytes, codes, bytes_eq}
use pg_shard_router.Base.Result.{Result, ok, err}

abbrev pub auth_path : Bytes
auth_path = codes "/v3/auth/authenticate"

pub record Client : Type 0 where
  pub endpoints : List Bytes
  pub username : Bytes
  pub password : Bytes
  pub token : Bytes

pub record Request : Type 0 where
  pub endpoint : Bytes
  pub path : Bytes
  pub body : Bytes
  pub token : Bytes

-- `failed`: the request could not be built or sent, or its answer not read.
pub data Response : Type 0 where
  failed : Response
  answered : ℕ → Bytes → Response

pub data HttpError : Type 0 where
  unreachable : HttpError
  bad_status : ℕ → HttpError
  no_endpoints : HttpError
  bad_token : HttpError

-- The client, and the number of requests sent so far.
abbrev pub Session : Type 0
Session = Client × ℕ

-- What lies outside: the answers, the body of an authentication request (name and password), and
-- the token in its answer.
pub record Network : Type 0 where
  pub answer : ℕ → Request → Response
  pub auth_body : Bytes → Bytes → Bytes
  pub token_of : Bytes → Option Bytes

abbrev or_no_endpoints : Option HttpError → HttpError
or_no_endpoints none = no_endpoints
or_no_endpoints (some e) = e

module _ (net : Network) where
  -- `resp.StatusCode == http.StatusUnauthorized && c.username != "" && path != authPath`
  wants_auth : Client → Bytes → ℕ → Bool
  wants_auth c path status = nat_beq status 401 && not (c.username == []) && not (path == auth_path)

  -- The loop of `postAny`, over the endpoints left, with the last error. `auth` is what it calls on
  -- a 401; `continue` goes on with the next endpoint.
  unfoldable pub post_loop :
      (Session → Session × Bool)
      → Bytes
      → Bytes
      → List Bytes
      → Option HttpError
      → Session
      → Session × Result HttpError Bytes
  unfolding wants_auth
  post_loop auth path body [] last s = (s, err (or_no_endpoints last))
  post_loop auth path body (ep ∷ eps) last (c, n) =
      elim (net.answer n (record { endpoint = ep; path = path; body = body; token = c.token })) [
        | failed ↦ post_loop auth path body eps (some unreachable) (c, suc n)
        | answered status resp_body ↦
            let (s, fresh) =
              if wants_auth c path status then auth (c, suc n) else ((c, suc n), false) in
            if fresh
            then post_loop auth path body eps last s
            else if nat_beq status 200
            then (s, ok resp_body)
            else post_loop auth path body eps (some (bad_status status)) s
      ]

  -- `postAny` with the path of an authentication, on which a 401 is an error as any other.
  post_auth : Bytes → Session → Session × Result HttpError Bytes
  unfolding post_loop
  post_auth body (c, n) = post_loop (λ s. (s, false)) auth_path body c.endpoints none (c, n)

  set_token : Session × Result HttpError Bytes → Session × Result HttpError (Unit {0})
  set_token (s, err e) = (s, err e)
  set_token ((c, n), ok resp) = elim (net.token_of resp) [
    | none ↦ ((c, n), err bad_token)
    | some t ↦ ((record c { token = t }, n), ok tt)
  ]

  unfoldable pub authenticate : Session → Session × Result HttpError (Unit {0})
  unfolding post_auth set_token
  authenticate (c, n) =
      if c.username == []
      then ((c, n), ok tt)
      else set_token (post_auth (net.auth_body c.username c.password) (c, n))

  -- `authErr == nil`
  auth_ok : Session → Session × Bool
  unfolding authenticate
  auth_ok s = let (s', r) = authenticate s in (s', elim r [ ok _ ↦ true | err _ ↦ false ])

  unfoldable pub post_any : Bytes → Bytes → Session → Session × Result HttpError Bytes
  unfolding post_loop auth_ok
  post_any path body (c, n) = post_loop auth_ok path body c.endpoints none (c, n)

-- `pickEndpoint`
unfoldable pub pick_endpoint : Client → Result HttpError Bytes
pick_endpoint c = elim c.endpoints [ [] ↦ err no_endpoints | ep ∷ _ ↦ ok ep ]
