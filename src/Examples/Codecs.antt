-- ===== src/Examples/Codecs.antt =====
-- An encoding, a supply of ids and a provider that keep the promises which the theorems ask for.
use Prim.Native.Char.{code}
use cli.Base.{
  inr, inl, sym, Bool-cases, ℕ, zero, suc, String, ◌≡◌, refl, ap, ◌≢◌, Option, none, some, List, [],
  ◌∷◌, arith, ◌==◌, eq_iff, if◌then◌else◌,
}
use cli.Base.Results.{Result, ok, err}
use cli.Proto.Records.{Record, Connection}
use cli.Api.Persist.{Codec, CodecLaws}

abbrev pub admin : String → Record
admin k = record { id = some k; tags = "admin" ∷ []; conn = none; source = none }

abbrev pub unnamed : Record
unnamed = record { id = none; tags = "admin" ∷ []; conn = none; source = none }

-- It can write one record with the tag `admin` and no connection, and nothing else.
unfoldable pub encode :
    Option String → List String → Option Connection → Option String → Result String String
encode (some k) (t ∷ []) none none =
    if t == "admin" then ok (String.◌∷◌ "r" (String.◌∷◌ "r" k)) else err "other tag"
encode none (t ∷ []) none none = if t == "admin" then ok "n" else err "other tag"
encode _ _ _ _ = err "other record"

unfoldable pub decode : String → Result String (List Record)
decode String.[] = err "empty"
decode (String.◌∷◌ c String.[]) = ok (unnamed ∷ [])
decode (String.◌∷◌ c (String.◌∷◌ d k)) = ok (admin k ∷ [])

unfoldable pub encode_list : List Record → Result String String
encode_list (r ∷ []) = encode r.id r.tags r.conn r.source
encode_list _ = err "other list"

abbrev pub one_record : Codec
one_record = record {
  Any = List Record;
  unmarshal = λ discard bytes. decode bytes;
  unmarshal_to = λ a. ok a;
  new_any = λ records. records;
  marshal = λ layout a. encode_list a;
}

decode-written :
    (k bytes : String)
    → String.◌∷◌ "r" (String.◌∷◌ "r" k) ≡ bytes
    → (decode bytes ≡ ok (admin k ∷ [])) × (bytes ≢ "")
unfolding decode
decode-written k bytes e = (rw (← e), λ n. cc)

decode-unnamed : (bytes : String) → "n" ≡ bytes → (decode bytes ≡ ok (unnamed ∷ [])) × (bytes ≢ "")
unfolding decode
decode-unnamed bytes e = (rw (← e), λ n. cc)

decode-encode :
    (i : Option String) (ts : List String) (c : Option Connection) (s : Option String)
    (bytes : String)
    → encode i ts c s ≡ ok bytes
    → (decode bytes ≡ ok (record { id = i; tags = ts; conn = c; source = s } ∷ [])) × (bytes ≢ "")
unfolding encode
decode-encode (some k) (t ∷ []) none none bytes e = elim (Bool-cases (t == "admin")) [
  | inl b ↦
      let same : t ≡ "admin" = (eq_iff t "admin").0 b in
      rw same (decode-written k bytes (ground (arith, b, e)))
  | inr b ↦ absurd (ground (arith, b, e))
]
decode-encode none (t ∷ []) none none bytes e = elim (Bool-cases (t == "admin")) [
  | inl b ↦
      let same : t ≡ "admin" = (eq_iff t "admin").0 b in
      rw same (decode-unnamed bytes (ground (arith, b, e)))
  | inr b ↦ absurd (ground (arith, b, e))
]
decode-encode _ _ _ _ bytes e = absurd (cc)

decode-encode_list :
    (a : List Record) (bytes : String)
    → encode_list a ≡ ok bytes
    → (decode bytes ≡ ok a) × (bytes ≢ "")
unfolding encode_list
decode-encode_list [] bytes e = absurd (cc)
decode-encode_list (r ∷ []) bytes e = decode-encode r.id r.tags r.conn r.source bytes e
decode-encode_list (r ∷ s ∷ rest) bytes e = absurd (cc)

pub one_record_laws : CodecLaws one_record
one_record_laws = record {
  reads_back = λ layout discard a bytes e. (decode-encode_list a bytes e).0;
  not_empty = λ layout a bytes e. (decode-encode_list a bytes e).1;
  unpacks = λ records. refl;
}

-- Ids of different lengths.
unfoldable pub unary : ℕ → String
unary zero = "u"
unary (suc n) = String.◌∷◌ "u" (unary n)

unary-ne : (n : ℕ) → String.◌∷◌ "u" (unary n) ≢ "u"
unfolding unary
unary-ne zero e = cc
unary-ne (suc n) e = cc

pub unary-injective : (i j : ℕ) → unary i ≡ unary j → i ≡ j
unfolding unary
unary-injective zero zero e = refl
unary-injective zero (suc j) e = absurd (unary-ne j (sym e))
unary-injective (suc i) zero e = absurd (unary-ne i e)
unary-injective (suc i) (suc j) e = ap suc (unary-injective i j (cc))

abbrev first : String → ℕ
first String.[] = 0
first (String.◌∷◌ c s) = code c

pub unary-ne_a : (n : ℕ) → unary n ≢ "a"
unfolding unary
unary-ne_a zero e = omega (arith, ap first e)
unary-ne_a (suc n) e = omega (arith, ap first e)
