-- ===== src/Auth/Tokens.antt =====
-- What a bearer token of reference/bass/auth.py proves: minted tokens are read back, and nothing else
-- than a signed, unexpired token is accepted.
use mathlib.Core.List.{append_assoc}
use bass_platform.Base.{
  ℕ, ◌+◌, ◌*◌, ◌/◌, ◌≤◌, String, ◌≡◌, ◌≢◌, refl, true, false, Option, none, some, List, [], ◌∷◌,
  ◌++◌, nat_eq, ltb, eq_iff, All, ◌&&◌, arith, inl, inr, Bool-cases,
}
use bass_platform.Errors.{Result, ok, err}
use bass_platform.Value.{ℤ, pos, Value, Fields, dict, get, texts, one_unit}
use bass_platform.Host.{Float}
use bass_platform.Text.{Codes, split_by}
use bass_platform.Auth.Claims.{
  IsCurrent, before-IsCurrent, text_claim_lem, NamesRoles, role_claim-NamesRoles,
}
use bass_platform.Auth.{
  Principal, Crypto, dot, joined, claims_of, mint_token, same_codes, before, or_zero, role_texts,
  is_ascii, principal_with, unexpired, read_claims, read_segments, decode_token,
}

abbrev pub NoDot : Codes → Type 0
NoDot = All (λ k. nat_eq k dot ≡ false)

split-NoDot : (s : Codes) → NoDot s → split_by (λ k. nat_eq k dot) s ≡ s ∷ []
split-NoDot [] h = refl
split-NoDot (k ∷ s) (e, h) = rw e (rw (split-NoDot s h) refl)

split_at_dot :
    (s rest : Codes)
    → NoDot s
    → split_by (λ k. nat_eq k dot) (s ++ dot ∷ rest) ≡ s ∷ split_by (λ k. nat_eq k dot) rest
split_at_dot [] rest h = refl
split_at_dot (k ∷ s) rest (e, h) = rw e (rw (split_at_dot s rest h) refl)

split_joined :
    (header payload sig : Codes)
    → NoDot header
    → NoDot payload
    → NoDot sig
    → split_by (λ k. nat_eq k dot) (joined (joined header payload) sig)
      ≡ header ∷ payload ∷ sig ∷ []
split_joined header payload sig h p s = rw (append_assoc header (dot ∷ payload) (dot ∷ sig)) (
    rw (split_at_dot header (payload ++ dot ∷ sig) h)
      (rw (split_at_dot payload sig p) (rw (split-NoDot sig s) refl)))

same_codes_refl : (s : Codes) → same_codes s s ≡ true
same_codes_refl [] = refl
same_codes_refl (k ∷ s) = ground (arith, same_codes_refl s)

same_codes_eq : (s t : Codes) → same_codes s t ≡ true → s ≡ t
same_codes_eq [] [] h = refl
same_codes_eq [] (_ ∷ _) h = cc
same_codes_eq (_ ∷ _) [] h = cc
same_codes_eq (x ∷ s) (y ∷ t) h = ground (arith, same_codes_eq s t)

role_texts-texts : (roles : List String) → role_texts (texts roles) ≡ ok roles
role_texts-texts [] = refl
role_texts-texts (r ∷ roles) = rw (role_texts-texts roles) refl

module _ (c : Crypto) (number : (z : ℤ) → c.to_float (Value.num z) ≡ ok (Float.finite z))
    (plain : (d : Fields) → NoDot (c.encode d))
    (plain_mac : (secret : String) (s : Codes) → NoDot (c.mac secret s))
    (ascii_mac : (secret : String) (s : Codes) → is_ascii (c.mac secret s) ≡ true) where
  read_claims-claims_of :
      (tenant subject : String) (roles : List String) (ttl_s now later : ℕ)
      → tenant ≢ ""
      → subject ≢ ""
      → later ≤ (now / one_unit + ttl_s) * one_unit
      → read_claims c (some (Value.obj (claims_of tenant subject roles ttl_s now))) later
        ≡ ok (record { tenant_id = tenant; subject = subject; roles = roles })
  unfolding read_claims
  read_claims-claims_of tenant subject roles ttl_s now later t s time =
      let in_time : ltb ((now / one_unit + ttl_s) * one_unit) later ≡ false = ground arith in
      rw (number (pos ((now / one_unit + ttl_s) * one_unit))) (
        rw in_time
          (rw (role_texts-texts roles) (ground (arith, eq_iff tenant "", eq_iff subject ""))))

  -- If base64 and JSON read back the claims that they wrote, neither they nor the hash write a dot,
  -- the hash is written in ASCII, and `float` of a number is the number, then a
  -- minted token is read back under the same secret as the principal it was minted for, up to the
  -- second in which it expires.
  pub decode_token-mint_token :
      (secret tenant subject : String) (roles : List String) (ttl_s now later : ℕ)
      → tenant ≢ ""
      → subject ≢ ""
      → later ≤ (now / one_unit + ttl_s) * one_unit
      → (let claims = claims_of tenant subject roles ttl_s now in
          c.decode (c.encode claims) ≡ some (Value.obj claims))
      → decode_token c secret (mint_token c secret tenant subject roles ttl_s now) later
        ≡ ok (record { tenant_id = tenant; subject = subject; roles = roles })
  unfolding decode_token mint_token read_segments
  decode_token-mint_token secret tenant subject roles ttl_s now later t s time decoded =
      let header = c.encode (dict (("alg", Value.str "HS256") ∷ ("typ", Value.str "JWT") ∷ [])) in
      let payload = c.encode (claims_of tenant subject roles ttl_s now) in
      rw
        (split_joined header payload (c.mac secret (joined header payload)) (plain _) (plain _)
          (plain_mac secret _))
        (rw
          (
            ascii_mac secret (joined header payload),
            same_codes_refl (c.mac secret (joined header payload)),
          )
          (rw decoded (read_claims-claims_of tenant subject roles ttl_s now later t s time)))

principal_with_ok :
    (a b : Result String) (r : Result (List String)) (p : Principal)
    → principal_with a b r ≡ ok p
    → (a ≡ ok p.tenant_id)
      × (b ≡ ok p.subject)
      × (r ≡ ok p.roles)
      × (p.tenant_id ≢ "")
      × (p.subject ≢ "")
principal_with_ok (err e) b r p h = cc
principal_with_ok (ok t) (err e) r p h = cc
principal_with_ok (ok t) (ok u) (err e) p h = cc
principal_with_ok (ok t) (ok u) (ok roles) p h = ground (arith, eq_iff t "", eq_iff u "")

unexpired_ok :
    (x : Result Float) (now : ℕ) (rest : Result Principal) (p : Principal)
    → unexpired x now rest ≡ ok p
    → (exp : Float) × (x ≡ ok exp) × IsCurrent exp now × (rest ≡ ok p)
unexpired_ok (err e) now rest p h = cc
unexpired_ok (ok exp) now rest p h = elim (Bool-cases (before exp now)) [
  | inl late ↦ (let h' = rw late at h in cc)
  | inr in_time ↦ (exp, refl, before-IsCurrent exp now in_time, rw in_time at h)
]

module _ (c : Crypto) where
  -- What the claims of an accepted token say.
  abbrev pub Says : Option Value → ℕ → Principal → Type 0
  Says v now p =
      (claims : Fields) × (exp : Float) × (v ≡ some (Value.obj claims))
      × (c.to_float (or_zero (get "exp" claims)) ≡ ok exp)
      × IsCurrent exp now
      × (get "tenant_id" claims ≡ some (Value.str p.tenant_id))
      × (get "sub" claims ≡ some (Value.str p.subject))
      × NamesRoles (get "roles" claims) p.roles
      × (p.tenant_id ≢ "")
      × (p.subject ≢ "")

  read_claims_ok :
      (v : Option Value) (now : ℕ) (p : Principal) → read_claims c v now ≡ ok p → Says v now p
  unfolding read_claims
  read_claims_ok none now p h = cc
  read_claims_ok (some Value.null) now p h = cc
  read_claims_ok (some (Value.bool b)) now p h = cc
  read_claims_ok (some (Value.num z)) now p h = cc
  read_claims_ok (some (Value.str t)) now p h = cc
  read_claims_ok (some (Value.arr xs)) now p h = cc
  read_claims_ok (some (Value.obj claims)) now p h =
      let (exp, has_exp, in_time, rest) = unexpired_ok _ now _ p h in
      let (t, u, r, t_ne, u_ne) = principal_with_ok _ _ _ p rest in
      (
        claims,
        exp,
        refl,
        has_exp,
        in_time,
        text_claim_lem (get "tenant_id" claims) p.tenant_id t t_ne,
        text_claim_lem (get "sub" claims) p.subject u u_ne,
        role_claim-NamesRoles (get "roles" claims) p.roles r,
        t_ne,
        u_ne,
      )

  read_segments_ok :
      (secret : String) (segments : List Codes) (now : ℕ) (p : Principal)
      → read_segments c secret segments now ≡ ok p
      → (header payload : Codes) × (segments
          ≡ header ∷ payload ∷ c.mac secret (joined header payload) ∷ [])
        × Says (c.decode payload) now p
  unfolding read_segments
  read_segments_ok secret [] now p h = cc
  read_segments_ok secret (a ∷ []) now p h = cc
  read_segments_ok secret (a ∷ b ∷ []) now p h = cc
  read_segments_ok secret (a ∷ b ∷ d ∷ e ∷ rest) now p h = cc
  read_segments_ok secret (header ∷ payload ∷ sig ∷ []) now p h =
      let expected = c.mac secret (joined header payload) in
      elim (Bool-cases (is_ascii expected && is_ascii sig)) [
        | inr other ↦ (let h' = rw other at h in cc)
        | inl ascii ↦ elim (Bool-cases (same_codes expected sig)) [
          | inl same ↦ (
            header,
            payload,
            rw (same_codes_eq expected sig same) refl,
            read_claims_ok (c.decode payload) now p (rw (ascii, same) at h),
          )
          | inr differs ↦ (let h' = rw (ascii, differs) at h in cc)
        ]
      ]

  pub decode_token_lem :
      (secret : String) (token : Codes) (now : ℕ) (p : Principal)
      → decode_token c secret token now ≡ ok p
      → (header payload : Codes) × (split_by (λ k. nat_eq k dot) token
          ≡ header ∷ payload ∷ c.mac secret (joined header payload) ∷ [])
        × Says (c.decode payload) now p
  unfolding decode_token
  decode_token_lem secret token now p h =
      read_segments_ok secret (split_by (λ k. nat_eq k dot) token) now p h
