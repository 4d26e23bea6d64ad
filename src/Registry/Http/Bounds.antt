-- ===== src/Registry/Http/Bounds.antt =====
-- How many requests a call of `postAny` makes.
use pg_shard_router.Base.{
  ℕ, suc, ◌+◌, ◌*◌, ◌≤◌, Bool, false, Option, none, some, List, [], ◌∷◌, ◌≡◌, ◌⊎◌, refl, ap, subst,
  ◌∙◌, arith, inl, inr, length, nat_beq, Bool-cases, Option-cases, ◌==◌, if◌then◌else◌,
}
use pg_shard_router.Base.Bytes.{Bytes, bytes_eq}
use pg_shard_router.Base.Result.{Result, ok, err}
use pg_shard_router.Registry.Http.{
  Client, Request, Response, failed, answered, HttpError, unreachable, bad_status, Session, Network,
  post_loop, post_auth, set_token, authenticate, auth_ok, post_any, wants_auth, auth_path,
}

Response-cases :
    (a : Response) → (a ≡ failed) ⊎ ((status : ℕ) × (body : Bytes) × (a ≡ answered status body))
Response-cases failed = inl refl
Response-cases (answered status body) = inr (status, body, refl)

-- At most `k` requests were made, and of the client nothing but the token has changed.
pub record Spends (k : ℕ) (s s' : Session) : Type 0 where
  pub more : s.1 ≤ s'.1
  pub few : s'.1 ≤ s.1 + k
  pub same : s'.0 ≡ record s.0 { token = s'.0.token }

Spends-none : (k : ℕ) (s : Session) → Spends k s s
Spends-none k s = record { more = omega arith; few = omega arith; same = refl }

-- What a round spends, and then the rounds that are left.
Spends-carry :
    (k left : ℕ) (s t u : Session)
    → Spends (suc k) s t
    → Spends (left * suc k) t u
    → Spends (suc left * suc k) s u
Spends-carry k left s t u p q = record {
  more = omega (arith, p.more, q.more);
  few = grind (arith, p.few, q.few);
  same = q.same ∙ ap (λ (c : Client). record c { token = u.0.token }) p.same;
}

-- The request of the round, and those of an authentication.
Spends-first :
    (k : ℕ) (c : Client) (n : ℕ) (t : Session) → Spends k (c, suc n) t → Spends (suc k) (c, n) t
Spends-first k c n t p = record {
  more = omega (arith, p.more);
  few = omega (arith, p.few);
  same = p.same;
}

module _ (net : Network) (eps0 : List Bytes) where
  -- What is called on a 401 makes at most `k` requests.
  abbrev Costs : (Session → Session × Bool) → ℕ → Type 0
  Costs auth k = (s : Session) → s.0.endpoints ≡ eps0 → Spends k s (auth s).0

  module _ (auth : Session → Session × Bool) (k : ℕ) (path body : Bytes) (h : Costs auth k) where
    -- The rest of the loop after a round that has come to the session `t`.
    abbrev Continues : List Bytes → Type 0
    Continues eps =
        (last : Option HttpError) (t : Session)
        → t.0.endpoints ≡ eps0
        → Spends (length eps * suc k) t (post_loop net auth path body eps last t).0

    kept_endpoints :
        (c : Client) (n : ℕ) (t : Session)
        → c.endpoints ≡ eps0
        → Spends (suc k) (c, n) t
        → t.0.endpoints ≡ eps0
    kept_endpoints c n t e p = ap (λ (x : Client). x.endpoints) p.same ∙ e

    goes_on :
        (eps : List Bytes) (last : Option HttpError) (c : Client) (n : ℕ) (t : Session)
        → Continues eps
        → c.endpoints ≡ eps0
        → Spends (suc k) (c, n) t
        → Spends (suc (length eps) * suc k) (c, n) (post_loop net auth path body eps last t).0
    goes_on eps last c n t ih e p =
        Spends-carry k (length eps) (c, n) t _ p (ih last t (kept_endpoints c n t e p))

    -- The end of a round that did not renew the token.
    decides :
        (eps : List Bytes) (status : ℕ) (resp : Bytes) (c : Client) (n : ℕ) (t : Session)
        → Continues eps
        → c.endpoints ≡ eps0
        → Spends (suc k) (c, n) t
        → Spends
            (suc (length eps) * suc k)
            (c, n)
            (if nat_beq status 200
              then (t, ok resp)
              else post_loop net auth path body eps (some (bad_status status)) t).0
    decides eps status resp c n t ih e p = elim (Bool-cases (nat_beq status 200)) [
      | inl good ↦ rw good (Spends-carry k (length eps) (c, n) t t p (Spends-none _ t))
      | inr bad ↦ rw bad (goes_on eps (some (bad_status status)) c n t ih e p)
    ]

    post_loop-Spends : (eps : List Bytes) → Continues eps
    unfolding post_loop
    post_loop-Spends [] last t e = Spends-none _ t
    post_loop-Spends (ep ∷ eps) last (c, n) e =
        let req : Request = record { endpoint = ep; path = path; body = body; token = c.token } in
        let ih = post_loop-Spends eps in
        let one = Spends-first k c n (c, suc n) (Spends-none k (c, suc n)) in
        let asked = Spends-first k c n (auth (c, suc n)).0 (h (c, suc n) e) in
        elim (Response-cases (net.answer n req)) [
          | inl lost ↦ rw (lost, post_loop) (goes_on eps (some unreachable) c n (c, suc n) ih e one)
          | inr (status, resp, got) ↦ elim (Bool-cases (wants_auth net c path status)) [
            | inl wants ↦ elim (Bool-cases (auth (c, suc n)).1) [
              | inl fresh ↦
                  rw (got, wants, fresh, post_loop)
                    (goes_on eps last c n (auth (c, suc n)).0 ih e asked)
              | inr stale ↦
                  rw (got, wants, stale, post_loop)
                    (decides eps status resp c n (auth (c, suc n)).0 ih e asked)
            ]
            | inr plain ↦
                rw (got, plain, post_loop) (decides eps status resp c n (c, suc n) ih e one)
          ]
        ]

module _ (net : Network) where
  set_token-Spends :
      (k : ℕ) (s : Session) (r : Session × Result HttpError Bytes)
      → Spends k s r.0
      → Spends k s (set_token net r).0
  unfolding set_token
  set_token-Spends k s (t, err e) p = p
  set_token-Spends k s ((c, n), ok resp) p = elim (Option-cases (net.token_of resp)) [
    | inl none_sent ↦ rw (none_sent, set_token) p
    | inr (token, sent) ↦
        rw (sent, set_token)
          (record {
            more = p.more;
            few = p.few;
            same = ap (λ (x : Client). record x { token = token }) p.same;
          })
  ]

  post_auth-Spends :
      (body : Bytes) (s : Session) → Spends (length s.0.endpoints) s (post_auth net body s).0
  unfolding post_auth
  post_auth-Spends body (c, n) =
      let all =
        post_loop-Spends net c.endpoints (λ s. (s, false)) 0 auth_path body (λ s e. Spends-none 0 s)
          c.endpoints none (c, n) refl in
      record { more = all.more; few = omega (arith, all.few); same = all.same }

  -- An authentication asks each endpoint once.
  pub authenticate-Spends : (s : Session) → Spends (length s.0.endpoints) s (authenticate net s).0
  unfolding authenticate
  authenticate-Spends (c, n) = elim (Bool-cases (c.username == [])) [
    | inl nobody ↦ rw (nobody, authenticate) (Spends-none _ (c, n))
    | inr somebody ↦
        rw (somebody, authenticate)
          (set_token-Spends (length c.endpoints) (c, n)
            (post_auth net (net.auth_body c.username c.password) (c, n))
            (post_auth-Spends (net.auth_body c.username c.password) (c, n)))
  ]

  auth_ok-Spends : (s : Session) → Spends (length s.0.endpoints) s (auth_ok net s).0
  unfolding auth_ok
  auth_ok-Spends s = authenticate-Spends s

  -- Whatever the network answers, `postAny` returns after at most one request to each endpoint and,
  -- for each of those, one authentication, which asks each endpoint at most once; and of the client it changes the
  -- token alone.
  pub post_any-Spends :
      (path body : Bytes) (s : Session)
      → let n = length s.0.endpoints in Spends (n * suc n) s (post_any net path body s).0
  unfolding post_any
  post_any-Spends path body (c, n) =
      post_loop-Spends net c.endpoints (auth_ok net) (length c.endpoints) path body costs
        c.endpoints none (c, n) refl
    where
      costs :
          (s : Session)
          → s.0.endpoints ≡ c.endpoints
          → Spends (length c.endpoints) s (auth_ok net s).0
      costs s e = subst (λ eps. Spends (length eps) s (auth_ok net s).0) e (auth_ok-Spends s)
