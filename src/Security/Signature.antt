-- ===== src/Security/Signature.antt =====
-- backend/src/infrastructure/security/signature.py. The parameters are Python's and the HMAC's:
-- `split` at a comma, `split_once` at the first `=`, `strip`, `int` of a text that is a number,
-- `decode` of a body that is UTF-8, `is_ascii`, and `hmac` of the secret and the signed text.
use superion.Prelude.{
  ℕ, ◌-◌, ◌≤◌, String, ◌≡◌, ◌≢◌, ◌↔◌, ◌∙◌, sym, refl, inl, inr, Option-cases, Bool, true, Option,
  none, some, List, [], ◌∷◌, arith, string_eq, ◌==◌, ltb, ◌||◌, if◌then◌else◌,
}
use superion.Effect.{unauthorized, value_error, type_error, Error, domain_error, Result, ok, err}
use superion.Dict.{Dict, get, put, get-put}
use text.Mathlib.TextEquality.{eq_iff}
use Prim.Native.String.{◌++◌ as ◌<>◌}

abbrev pub invalid_signature : Error
invalid_signature = domain_error unauthorized "INVALID_SIGNATURE"

-- `not x`, for the result of `parts.get(...)`
abbrev missing : Option String → Bool
missing none = true
missing (some s) = s == ""

-- `abs(now_ts - ts_int)`
abbrev pub distance : ℕ → ℕ → ℕ
distance a b = if ltb a b then b - a else a - b

module _ (split : String → List String) (split_once : String → Option (String × String))
    (strip : String → String) (int : String → Option ℕ) (decode : List ℕ → Option String)
    (is_ascii : String → Bool) (hmac : String → String → String) (secret : String)
    (window : ℕ) where
  -- The loop over the segments
  unfoldable pub parts_of : Dict String String → List String → Dict String String
  parts_of parts [] = parts
  parts_of parts (s ∷ segments) = elim (split_once s) [
    | none ↦ parts_of parts segments
    | some (key, value) ↦ parts_of (put parts (strip key) (strip value)) segments
  ]

  -- The comparison of the signatures: `compare_digest` raises `TypeError` on a text that is not ASCII,
  -- and the decoding of the body `UnicodeDecodeError`, which is a `ValueError`.
  unfoldable pub compare : String → String → Option String → Result (Unit {0})
  compare timestamp signature none = err value_error
  compare timestamp signature (some text) =
      if is_ascii signature
      then (if hmac secret (timestamp <> ("." <> text)) == signature
          then ok tt
          else err invalid_signature)
      else err type_error

  -- The checks behind the parsing of the header
  unfoldable pub check_parts : ℕ → List ℕ → Option String → Option String → Result (Unit {0})
  unfolding compare
  check_parts now_ts payload none signature = err invalid_signature
  check_parts now_ts payload (some timestamp) none = err invalid_signature
  check_parts now_ts payload (some timestamp) (some signature) =
      if timestamp == "" || signature == "" then err invalid_signature else elim (int timestamp) [
        | none ↦ err invalid_signature
        | some ts_int ↦
            if ltb window (distance now_ts ts_int)
            then err invalid_signature
            else compare timestamp signature (decode payload)
      ]

  -- `HmacSignatureValidator.validate`, at the time `now_ts`
  unfoldable pub validate : ℕ → List ℕ → Option String → Result (Unit {0})
  validate now_ts payload none = err invalid_signature
  validate now_ts payload (some header) =
      if header == ""
      then err invalid_signature
      else let parts = parts_of [] (split header) in
        check_parts now_ts payload (get parts "t") (get parts "v1")

  -- The value that the last segment with a key gives to it
  abbrev pub last_value : String → List String → Option String
  last_value k [] = none
  last_value k (s ∷ segments) = elim (last_value k segments) [
    | some v ↦ some v
    | none ↦ elim (split_once s) [
      | none ↦ none
      | some (key, value) ↦ if strip key == k then some (strip value) else none
    ]
  ]

  -- The header names a time and a signature, and they are right for the body.
  pub record IsSigned (now_ts : ℕ) (payload : List ℕ) (segments : List String) : Type 0 where
    pub timestamp : String
    pub signature : String
    pub ts_int : ℕ
    pub body : String
    pub timed : last_value "t" segments ≡ some timestamp
    pub signed : last_value "v1" segments ≡ some signature
    pub given : (timestamp ≢ "") × (signature ≢ "")
    pub number : int timestamp ≡ some ts_int
    pub recent : distance now_ts ts_int ≤ window
    pub decoded : decode payload ≡ some body
    pub ascii : is_ascii signature ≡ true
    pub authentic : hmac secret (timestamp <> ("." <> body)) ≡ signature

  -- What is looked up in the parts is what the last segment with that key says.
  get-parts_of :
      (k : String) (segments : List String) (parts : Dict String String)
      → get (parts_of parts segments) k
        ≡ elim (last_value k segments) [ some v ↦ some v | none ↦ get parts k ]
  unfolding parts_of
  get-parts_of k [] parts = refl
  get-parts_of k (s ∷ segments) parts = elim (Option-cases (split_once s)) [
    | inl e ↦ ground (arith, e, get-parts_of k segments parts)
    | inr ((key, value), e) ↦ ground (
      arith,
      e,
      get-parts_of k segments (put parts (strip key) (strip value)),
      get-put parts (strip key) k (strip value),
    )
  ]

  same_option : (o : Option String) → elim o [ some v ↦ some v | none ↦ none ] ≡ o
  same_option none = refl
  same_option (some v) = refl

  get-eq-last_value :
      (k : String) (segments : List String) → get (parts_of [] segments) k ≡ last_value k segments
  unfolding get
  get-eq-last_value k segments = get-parts_of k segments [] ∙ same_option (last_value k segments)

  module _ (now_ts : ℕ) (payload : List ℕ) (segments : List String) where
    check-IsSigned :
        (t v : Option String) (n : Option ℕ) (d : Option String)
        → last_value "t" segments ≡ t
        → last_value "v1" segments ≡ v
        → elim t [ none ↦ none | some timestamp ↦ int timestamp ] ≡ n
        → decode payload ≡ d
        → check_parts now_ts payload t v ≡ ok tt
        → IsSigned now_ts payload segments
    unfolding check_parts compare
    check-IsSigned none v n d p q i b h = cc
    check-IsSigned (some timestamp) none n d p q i b h = cc
    check-IsSigned (some timestamp) (some signature) none d p q i b h =
        absurd (ground (arith, eq_iff timestamp "", eq_iff signature ""))
    check-IsSigned (some timestamp) (some signature) (some ts_int) none p q i b h =
        absurd (ground (arith, eq_iff timestamp "", eq_iff signature ""))
    check-IsSigned (some timestamp) (some signature) (some ts_int) (some body) p q i b h = record {
      timestamp = timestamp;
      signature = signature;
      ts_int = ts_int;
      body = body;
      timed = p;
      signed = q;
      given = (
        λ e. ground (arith, eq_iff timestamp ""),
        λ e. ground (arith, eq_iff timestamp "", eq_iff signature ""),
      );
      number = i;
      recent = ground (arith, eq_iff timestamp "", eq_iff signature "");
      decoded = b;
      ascii = ground (arith, eq_iff timestamp "", eq_iff signature "");
      authentic = ground (
        arith,
        eq_iff timestamp "",
        eq_iff signature "",
        eq_iff (hmac secret (timestamp <> ("." <> body))) signature,
      );
    }

    IsSigned-check :
        (s : IsSigned now_ts payload segments)
        → check_parts now_ts payload (some s.timestamp) (some s.signature) ≡ ok tt
    unfolding check_parts compare
    IsSigned-check s = ground (
      arith,
      s.given,
      s.number,
      s.recent,
      s.decoded,
      s.ascii,
      s.authentic,
      eq_iff s.timestamp "",
      eq_iff s.signature "",
      eq_iff (hmac secret (s.timestamp <> ("." <> s.body))) s.signature,
    )

  -- A webhook with a header is let through exactly if the header is not empty and the last segments
  -- with the keys `t` and `v1` name a time and a signature, neither of them empty: the time a number
  -- no further from now than the window, the body UTF-8, and the signature an ASCII text that is the
  -- HMAC of the secret over the time and the body.
  pub validate_lem :
      (now_ts : ℕ) (payload : List ℕ) (header : String)
      → (validate now_ts payload (some header) ≡ ok tt)
        ↔ ((header ≢ "") × IsSigned now_ts payload (split header))
  unfolding validate
  validate_lem now_ts payload header =
      let parts = parts_of [] (split header) in
      let t = get-eq-last_value "t" (split header) in
      let v = get-eq-last_value "v1" (split header) in
      (
        λ h. (
          (λ e. ground (arith, eq_iff header "")),
          check-IsSigned now_ts payload (split header) (get parts "t") (get parts "v1") _ _ (sym t)
              (sym v) refl refl (ground (arith, eq_iff header "")),
        ),
        λ s. ground (
          arith,
          eq_iff header "",
          t ∙ s.1.timed,
          v ∙ s.1.signed,
          IsSigned-check now_ts payload (split header) s.1,
        ),
      )
