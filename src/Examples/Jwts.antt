-- ===== src/Examples/Jwts.antt =====
-- The caches of tokens, with a decoder that takes a token for its own payload.
use Prim.Native.Char.{Char}
use Prim.Native.String.append
use cli.Net.{◌<>◌}
use cli.Base.{
  ℕ, suc, ◌+◌, ap, sym, ◌∙◌, ◌≡◌, refl, String, Option, none, some, ◌==◌, if◌then◌else◌, arith,
  eq_iff, eq_refl,
}
use cli.Base.Results.{Result, ok, err}
use cli.Base.Maps.{Map, lookup, insert, delete, lookup-insert, lookup-delete}
use cli.Jwt.{pos, expired, Decoder, CacheLaws, check_expiry}
use cli.Jwt.Local.{OsError, not_exist, Os, OsLaws, Naming, local_cache, local_cache-CacheLaws}

abbrev pub decoder : Decoder
decoder = record {
  parse_signed = λ s. some s;
  expiry = λ p. if p == "old" then some (some (pos 1)) else some none;
}

old_token : check_expiry decoder 2000000000 "old" ≡ some expired
unfolding check_expiry
old_token = refl

-- A file system is a map from paths to contents, whose calls do not fail.
abbrev file : Option String → Result OsError String
file none = err not_exist
file (some bytes) = ok bytes

abbrev pub os : Os
os = record {
  Fs = Map String;
  read_file = λ p fs. file (lookup p fs);
  write_file = λ p bytes fs. (insert p bytes fs, none);
  remove = λ p fs. (delete p fs, none);
  mkdir_all = λ dir fs. (fs, none);
}

pub os-OsLaws : OsLaws os
os-OsLaws = record {
  read-write = λ p bytes fs e. ground (arith, lookup-insert p p bytes fs, eq_refl p);
  read-write_other = λ p q bytes fs n. ground (arith, lookup-insert p q bytes fs, eq_iff p q, n);
  read-remove = λ p fs e. ground (arith, lookup-delete p p fs, eq_refl p);
  read-remove_other = λ p q fs n. ground (arith, lookup-delete p q fs, eq_iff p q, n);
  read-mkdir = λ dir q fs. refl;
}

-- A hash that is the key itself, in a directory that is not written before the name.
abbrev naming : Naming
naming = record { hash = λ k. k; join = λ dir f. f }

abbrev size : String → ℕ
size String.[] = 0
size (String.◌∷◌ c s) = suc (size s)

cons-append : (c : Char) (s : String) → String.◌∷◌ c s <> ".jwt" ≡ String.◌∷◌ c (s <> ".jwt")
cons-append c s = append.cons c s ".jwt"

nil-append : "" <> ".jwt" ≡ ".jwt"
nil-append = append.nil ".jwt"

size-append : (s : String) → size (s <> ".jwt") ≡ size s + 4
size-append String.[] = ap size nil-append
size-append (String.◌∷◌ c s) = omega (arith, ap size (cons-append c s), size-append s)

abbrev tail : String → String
tail String.[] = ""
tail (String.◌∷◌ c s) = s

abbrev head : String → Option Char
head String.[] = none
head (String.◌∷◌ c s) = some c

suffix_cancel : (k j : String) → k <> ".jwt" ≡ j <> ".jwt" → k ≡ j
suffix_cancel String.[] String.[] e = refl
suffix_cancel String.[] (String.◌∷◌ d j) e =
    absurd (omega (arith, ap size e, ap size nil-append, ap size (cons-append d j), size-append j))
suffix_cancel (String.◌∷◌ c k) String.[] e =
    absurd (omega (arith, ap size e, ap size nil-append, ap size (cons-append c k), size-append k))
suffix_cancel (String.◌∷◌ c k) (String.◌∷◌ d j) e =
    let e' : String.◌∷◌ c (k <> ".jwt") ≡ String.◌∷◌ d (j <> ".jwt") =
      sym (cons-append c k) ∙ e ∙ cons-append d j in
    let tails : k ≡ j = suffix_cancel k j (ap tail e') in
    let heads : some c ≡ some d = ap head e' in cc

local_cache-CacheLaws_example :
    CacheLaws decoder 2000000000 (local_cache os decoder 2000000000 naming "jwts")
local_cache-CacheLaws_example =
    local_cache-CacheLaws os os-OsLaws decoder 2000000000 naming "jwts" suffix_cancel
