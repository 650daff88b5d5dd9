-- ===== src/Auth.antt =====
-- reference/bass/auth.py: bearer tokens (HS256) and the principal they carry. The keyed hash, base64
-- and JSON are the standard library's, so what the code makes of them is a record of parameters. A
-- text is the list of its code points; times are in millionths of a second.
pub mod Claims
pub mod Tokens
use bass_platform.Base.{
  ℕ, ◌+◌, ◌*◌, ◌/◌, String, Bool, true, false, not, ◌&&◌, ◌||◌, Option, none, some, List, [], ◌∷◌,
  ◌++◌, map, nat_eq, ltb, contains, ◌==◌, if◌then◌else◌,
}
use bass_platform.Errors.{Kind, Raised, Result, ok, err, raised}
use bass_platform.Value.{
  ℤ, pos, negsuc, Value, Items, Fields, dict, get, texts, one_unit, int_value,
}
use bass_platform.Host.{Float}
use bass_platform.Text.{Codes, split_by}

pub record Principal : Type 0 where
  pub tenant_id : String
  pub subject : String
  pub roles : List String

-- `Principal.has_any`
unfoldable pub has_any : List String → Principal → Bool
has_any [] p = false
has_any (r ∷ rest) p = contains r p.roles || has_any rest p

pub record Crypto : Type 0 where
  -- `_b64url` of the HMAC of a text under a secret
  pub mac : String → Codes → Codes
  -- `_b64url(json.dumps(d))`
  pub encode : Fields → Codes
  -- `json.loads(_b64url_decode(seg))`; what it raises is a `ValueError`
  pub decode : Codes → Option Value
  -- `float(v)`
  pub to_float : Value → Result Float

abbrev pub dot : ℕ
dot = b'.'

-- `f"{header}.{payload}"`
abbrev pub joined : Codes → Codes → Codes
joined header payload = header ++ dot ∷ payload

abbrev pub claims_of : String → String → List String → ℕ → ℕ → Fields
claims_of tenant subject roles ttl_s now = dict (
    ("sub", Value.str subject)
    ∷ ("tenant_id", Value.str tenant)
    ∷ ("roles", Value.arr (texts roles))
    ∷ ("iat", int_value (now / one_unit))
    ∷ ("exp", int_value (now / one_unit + ttl_s))
    ∷ [])

-- `hmac.compare_digest` of two texts is this comparison, once both are ASCII; otherwise it raises.
abbrev pub same_codes : Codes → Codes → Bool
same_codes [] [] = true
same_codes [] (_ ∷ _) = false
same_codes (_ ∷ _) [] = false
same_codes (x ∷ xs) (y ∷ ys) = if nat_eq x y then same_codes xs ys else false

abbrev pub is_ascii : Codes → Bool
is_ascii [] = true
is_ascii (k ∷ rest) = ltb k 128 && is_ascii rest

-- A float below a time that is not negative; a comparison with NaN is false.
abbrev pub before : Float → ℕ → Bool
before (Float.finite (pos n)) now = ltb n now
before (Float.finite (negsuc n)) now = true
before Float.infinity now = false
before Float.minus_infinity now = true
before Float.nan now = false

abbrev pub or_zero : Option Value → Value
or_zero none = Value.num (pos 0)
or_zero (some v) = v

-- `not v`, of a claim that is a text or missing; a claim of another type is not in a minted token,
-- and is taken as an error.
abbrev pub text_claim : Option Value → Result String
text_claim (some (Value.str s)) = ok s
text_claim none = ok ""
text_claim (some Value.null) = ok ""
text_claim (some _) = raised Kind.other "claim is no text"

abbrev pub role_texts : Items → Result (List String)
role_texts Items.nil = ok []
role_texts (Items.item (Value.str r) rest) = elim (role_texts rest) [
  | ok rs ↦ ok (r ∷ rs)
  | err e ↦ err e
]
role_texts (Items.item _ rest) = raised Kind.other "role is no text"

abbrev pub role_claim : Option Value → Result (List String)
role_claim none = ok []
role_claim (some (Value.arr xs)) = role_texts xs
role_claim (some _) = raised Kind.other "roles is no list"

-- The test on both claims, and the principal
abbrev pub principal_with : Result String → Result String → Result (List String) → Result Principal
principal_with (err e) subject roles = err e
principal_with (ok tenant) (err e) roles = err e
principal_with (ok tenant) (ok subject) (err e) = err e
principal_with (ok tenant) (ok subject) (ok roles) =
    if tenant == "" || subject == ""
    then raised Kind.auth_error "token missing tenant_id/sub"
    else ok (record { tenant_id = tenant; subject = subject; roles = roles })

abbrev pub unexpired : Result Float → ℕ → Result Principal → Result Principal
unexpired (err e) now rest = err e
unexpired (ok exp) now rest =
    if before exp now then raised Kind.auth_error "token expired" else rest

module _ (c : Crypto) where
  -- `_sign`
  abbrev pub sign : String → Codes → Codes
  sign secret signing_input = c.mac secret signing_input

  unfoldable pub mint_token : String → String → String → List String → ℕ → ℕ → Codes
  mint_token secret tenant subject roles ttl_s now =
      let header = c.encode (dict (("alg", Value.str "HS256") ∷ ("typ", Value.str "JWT") ∷ [])) in
      let payload = c.encode (claims_of tenant subject roles ttl_s now) in
      joined (joined header payload) (sign secret (joined header payload))

  -- From the payload on
  unfoldable pub read_claims : Option Value → ℕ → Result Principal
  read_claims (some (Value.obj claims)) now =
      unexpired (c.to_float (or_zero (get "exp" claims))) now (
        principal_with (text_claim (get "tenant_id" claims)) (text_claim (get "sub" claims))
          (role_claim (get "roles" claims)))
  read_claims (some _) now = raised Kind.other "claims is no dict"
  read_claims none now = raised Kind.auth_error "unreadable token payload"

  -- From the three segments on
  unfoldable pub read_segments : String → List Codes → ℕ → Result Principal
  unfolding read_claims
  read_segments secret (header ∷ payload ∷ sig ∷ []) now =
      let expected = sign secret (joined header payload) in
      if not (is_ascii expected && is_ascii sig)
      then raised Kind.other "comparing strings with non-ASCII characters is not supported"
      else if same_codes expected sig
      then read_claims (c.decode payload) now
      else raised Kind.auth_error "bad signature"
  read_segments secret _ now = raised Kind.auth_error "malformed token"

  unfoldable pub decode_token : String → Codes → ℕ → Result Principal
  unfolding read_segments
  decode_token secret token now = read_segments secret (split_by (λ k. nat_eq k dot) token) now
