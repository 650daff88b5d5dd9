-- ===== src/Api/Access.antt =====
-- Who gets through the routes of reference/bass/api.py, and what a tenant sees of another's runs.
use mathlib.Core.List.{Memᴰ}
use mathlib.Core.Path.{sym}
use bass_platform.Base.{
  String, ◌==◌, ◌≡◌, ◌≢◌, refl, Bool, true, Option, none, some, List, [], ◌∷◌, ◌⊎◌, inl, inr,
  find_by, contains, All, nat_eq, eq_iff, arith, Bool-cases, Option-cases,
}
use bass_platform.Errors.{Result, ok, err, Result-cases}
use bass_platform.Store.{RunRow, is_run, is_run_of, assert_owns}
use bass_platform.Store.Runs.{load_run, cancel_run, row_to_run}
use bass_platform.Engine.{Config, Sys, M, in_store}
use bass_platform.Text.{Codes, split_by}
use bass_platform.Auth.{Principal, Crypto, has_any, decode_token, dot, joined}
use bass_platform.Auth.Tokens.{Says, decode_token_lem}
use bass_platform.Api.{ApiService, loaded}
use bass_platform.Api
use bass_platform.Api.Routes.{
  Request, Answer, required, is_allowed, bearer, authorized, route, handle,
}

-- The routes that take a token, with the roles that each asks for, of which one is enough; `[]` asks
-- for none.
abbrev pub Asks : Request → List String → Type 0
Asks Request.console roles = ⊥
Asks Request.health roles = ⊥
Asks Request.ready roles = ⊥
Asks Request.metrics roles = roles ≡ []
Asks (Request.list_runs _ _) roles = roles ≡ []
Asks (Request.get_run _) roles = roles ≡ []
Asks (Request.get_trace _) roles = roles ≡ []
Asks (Request.fire _ _) roles = roles ≡ "owner" ∷ "admin" ∷ "builder" ∷ []
Asks (Request.cancel _) roles = roles ≡ "owner" ∷ "admin" ∷ "builder" ∷ []
Asks (Request.resolve _ _ _ _) roles = roles ≡ "owner" ∷ "admin" ∷ "approver" ∷ []

-- Where roles are asked for, the principal has one of them.
abbrev pub HasRole : List String → Principal → Type 0
HasRole [] p = Unit
HasRole (r ∷ rest) p = (q : String) × Memᴰ q (r ∷ rest) × Memᴰ q p.roles

-- The answer is that of a caller who was turned away, or an error.
abbrev pub TurnedAway : Result Answer → Type 0
TurnedAway (ok (Answer.refused status _)) = (status ≡ 401) ⊎ (status ≡ 403)
TurnedAway (ok _) = ⊥
TurnedAway (err _) = Unit

mem_of_contains : (q : String) (xs : List String) → contains q xs ≡ true → Memᴰ q xs
mem_of_contains q [] h = cc
mem_of_contains q (x ∷ xs) h = elim (Bool-cases (x == q)) [
  | inl same ↦ Memᴰ.head (sym ((eq_iff x q).0 same))
  | inr differs ↦ Memᴰ.tail (mem_of_contains q xs (ground (arith, h, differs)))
]

has_any_role :
    (roles : List String) (p : Principal)
    → has_any roles p ≡ true
    → (q : String) × Memᴰ q roles × Memᴰ q p.roles
unfolding has_any
has_any_role [] p h = cc
has_any_role (r ∷ rest) p h = elim (Bool-cases (contains r p.roles)) [
  | inl has ↦ (r, Memᴰ.head refl, mem_of_contains r p.roles has)
  | inr lacks ↦
      (let (q, listed, has) = has_any_role rest p (ground (arith, h, lacks)) in
        (q, Memᴰ.tail listed, has))
]

is_allowed_role :
    (roles : List String) (p : Principal) → is_allowed roles p ≡ true → HasRole roles p
is_allowed_role [] p h = tt
is_allowed_role (r ∷ rest) p h = has_any_role (r ∷ rest) p h

required_roles : (req : Request) (roles : List String) → Asks req roles → required req ≡ some roles
required_roles Request.console roles h = absurd h
required_roles Request.health roles h = absurd h
required_roles Request.ready roles h = absurd h
required_roles Request.metrics roles h = cc
required_roles (Request.list_runs _ _) roles h = cc
required_roles (Request.get_run _) roles h = cc
required_roles (Request.get_trace _) roles h = cc
required_roles (Request.fire _ _) roles h = cc
required_roles (Request.cancel _) roles h = cc
required_roles (Request.resolve _ _ _ _) roles h = cc

first_foreign :
    (t id : String) (rows : List RunRow) (r : RunRow)
    → All (λ (r : RunRow). r.run.id ≡ id → r.run.tenant_id ≢ t) rows
    → find_by (is_run id) rows ≡ some r
    → r.run.tenant_id ≢ t
first_foreign t id [] r h e = cc
first_foreign t id (q ∷ rows) r (foreign, h) e =
    ground (arith, eq_iff q.run.id id, first_foreign t id rows r h)

no_own :
    (t id : String) (rows : List RunRow)
    → All (λ (r : RunRow). r.run.id ≡ id → r.run.tenant_id ≢ t) rows
    → find_by (is_run_of t id) rows ≡ none
no_own t id [] h = refl
no_own t id (q ∷ rows) (foreign, h) =
    ground (arith, eq_iff q.run.id id, eq_iff q.run.tenant_id t, no_own t id rows h)

module _ {W : Type 0} (c : Config W) (api : ApiService W) (crypto : Crypto) (secret : String)
    (ping : W → Bool × W) (before : RunRow → RunRow → Bool) where
  -- The caller's header holds a token that is signed under the service's secret and is not expired, and
  -- whose claims name a tenant, a subject and roles, of which one is asked for.
  abbrev pub Granted : List String → Codes → Sys W → Type 0
  Granted roles header s =
      (p : Principal) × (token head payload : Codes) × (bearer header ≡ some token)
      × (split_by (λ k. nat_eq k dot) token
          ≡ head ∷ payload ∷ crypto.mac secret (joined head payload) ∷ [])
      × Says crypto (crypto.decode payload) (c.host.clock s.world 0) p
      × HasRole roles p

  authorized_lem :
      (roles : List String) (header : Codes) (o : Option Codes) (body : Principal → M W Answer)
      (s : Sys W)
      → bearer header ≡ o
      → Granted roles header s
        ⊎ ((w : W) × TurnedAway (authorized c api crypto secret ping before roles o body s).0
            × ((authorized c api crypto secret ping before roles o body s).1
                ≡ record s { world = w }))
  authorized_lem roles header none body s e = inr (s.world, inl refl, refl)
  authorized_lem roles header (some token) body s e =
      elim (Result-cases (decode_token crypto secret token (c.host.clock s.world 0))) [
        | inr (x, bad) ↦ inr (c.host.tick s.world, ground (arith, bad), ground (arith, bad))
        | inl (p, good) ↦ elim (Bool-cases (is_allowed roles p)) [
          | inl allowed ↦
              (let (head, payload, segments, says) =
                  decode_token_lem crypto secret token (c.host.clock s.world 0) p good in
                inl (p, token, head, payload, e, segments, says, is_allowed_role roles p allowed))
          | inr denied ↦
              inr (c.host.tick s.world, rw good (rw denied (inr refl)), rw good (rw denied refl))
        ]
      ]

  -- On every route that takes a token, either the caller's header holds a token that is signed under the
  -- service's secret, is not expired, and claims one of the roles that the route asks for, if it asks
  -- for any, or the route answers 401 or 403 or raises, and leaves the database, the counters, the breakers and the engine as they were.
  pub handle_is_guarded :
      (req : Request) (roles : List String) (header : Codes) (s : Sys W)
      → Asks req roles
      → Granted roles header s
        ⊎ ((w : W) × TurnedAway (handle c api crypto secret ping before req header s).0
            × ((handle c api crypto secret ping before req header s).1 ≡ record s { world = w }))
  unfolding handle
  handle_is_guarded req roles header s e = rw (required_roles req roles e) (
      authorized_lem roles header (bearer header) (route c api crypto secret ping before req) s
        refl)

  -- A run that is not of the caller's tenant is answered like one that does not exist: reading and
  -- canceling it give 404, and the cancellation leaves the database as it was.
  pub foreign_not_found :
      (id : String) (p : Principal) (s : Sys W)
      → All (λ (r : RunRow). r.run.id ≡ id → r.run.tenant_id ≢ p.tenant_id) s.db.runs
      → (route c api crypto secret ping before (Request.get_run id) p s
          ≡ (ok (Answer.refused 404 "not found"), s))
        × ((route c api crypto secret ping before (Request.cancel id) p s).0
            ≡ ok (Answer.refused 404 "not found"))
        × ((route c api crypto secret ping before (Request.cancel id) p s).1.db ≡ s.db)
  unfolding route Api.get_run Api.cancel load_run cancel_run row_to_run assert_owns in_store
  foreign_not_found id p s h = elim (Option-cases (find_by (is_run id) s.db.runs)) [
    | inl missing ↦ ground (arith, missing, no_own p.tenant_id id s.db.runs h)
    | inr (r, found) ↦ ground (
      arith,
      found,
      no_own p.tenant_id id s.db.runs h,
      eq_iff r.run.tenant_id p.tenant_id,
      first_foreign p.tenant_id id s.db.runs r h found,
    )
  ]
