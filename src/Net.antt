-- ===== src/Net.antt =====
-- What the program uses of Go's `strings`, `net` and `net/url`, over texts as lists of characters.
-- A `Char` of the model is a byte of the source: the tests look for ASCII characters only.
pub mod Split
use Prim.Native.Char.{Char, code}
use Prim.Native.String.{◌++◌ as str_append}
use cli.Base.{
  ℕ, String, Bool, true, false, not, ◌&&◌, ◌||◌, Option, none, some, List, [], ◌∷◌, nat_eq, leb,
  if◌then◌else◌, is_some, bind, ◌==◌,
}

infixr 67 ◌<>◌
abbrev pub ◌<>◌ : String → String → String
s <> t = str_append s t

-- `strings.IndexByte(s, c) >= 0`
unfoldable pub has : ℕ → String → Bool
has c String.[] = false
has c (String.◌∷◌ d s) = nat_eq (code d) c || has c s

-- What follows the prefix, if the text begins with it.
unfoldable pub after : String → String → Option String
after String.[] s = some s
after (String.◌∷◌ c p) String.[] = none
after (String.◌∷◌ c p) (String.◌∷◌ d s) =
    let rest = after p s in if nat_eq (code c) (code d) then rest else none

unfoldable pub trim_prefix : String → String → String
unfolding after
trim_prefix p s = elim (after p s) [ none ↦ s | some rest ↦ rest ]

-- `strings.Contains(s, sub)`
unfoldable pub contains_text : String → String → Bool
unfolding after
contains_text sub String.[] = is_some (after sub "")
contains_text sub (String.◌∷◌ c s) = is_some (after sub (String.◌∷◌ c s)) || contains_text sub s

-- The text before the first `c` and the text behind it.
unfoldable pub cut : ℕ → String → Option (String × String)
cut c String.[] = none
cut c (String.◌∷◌ d s) =
    let rest = cut c s in
    if nat_eq (code d) c
    then some ("", s)
    else elim rest [ none ↦ none | some (a, b) ↦ some (String.◌∷◌ d a, b) ]

-- The text before the last `c` and the text behind it.
unfoldable pub cut_last : ℕ → String → Option (String × String)
cut_last c String.[] = none
cut_last c (String.◌∷◌ d s) = elim (cut_last c s) [
  | some (a, b) ↦ some (String.◌∷◌ d a, b)
  | none ↦ if nat_eq (code d) c then some ("", s) else none
]

abbrev add_char : Char → List String → List String
add_char d [] = String.◌∷◌ d "" ∷ []
add_char d (p ∷ ps) = String.◌∷◌ d p ∷ ps

-- `strings.Split(s, string(c))`
unfoldable pub split : ℕ → String → List String
split c String.[] = "" ∷ []
split c (String.◌∷◌ d s) =
    let rest = split c s in if nat_eq (code d) c then "" ∷ rest else add_char d rest

-- `net.JoinHostPort`
unfoldable pub join_host_port : String → String → String
unfolding has
join_host_port host port =
    if has b':' host then "[" <> host <> "]:" <> port else host <> ":" <> port

-- The bracketed form of `net.SplitHostPort`: `s` is the text behind the first bracket. The last
-- colon of the whole text must stand right behind the closing bracket.
abbrev bracketed : String → Option (String × String)
bracketed s = bind (cut b']' s) λ (host, rest). bind (after ":" rest) λ port.
    if has b':' port || has b'[' host || has b'[' port || has b']' port
    then none
    else some (host, port)

abbrev plain : String → Option (String × String)
plain s =
    bind (cut_last b':' s)
      λ (host, port). if has b':' host || has b'[' s || has b']' s then none else some (host, port)

-- `net.SplitHostPort`; every error is `none`.
unfoldable pub split_host_port : String → Option (String × String)
unfolding has after cut cut_last
split_host_port s = elim (after "[" s) [ some rest ↦ bracketed rest | none ↦ plain s ]

unfoldable pub digits : String → Bool
digits String.[] = true
digits (String.◌∷◌ c s) = leb b'0' (code c) && leb (code c) b'9' && digits s

-- `strings.TrimSuffix(s, "]")`, for a text that ends with it.
abbrev unbracket : String → String
unbracket host = elim (after "[" host) [
  | none ↦ host
  | some inner ↦ elim (cut_last b']' inner) [
    | none ↦ host
    | some (a, b) ↦ if b == "" then a else host
  ]
]

-- `URL.Hostname`, of the host and the optional port.
unfoldable pub hostname : String → String
unfolding has after cut_last digits
hostname host = elim (cut_last b':' host) [
  | none ↦ unbracket host
  | some (a, port) ↦ if digits port then unbracket a else unbracket host
]

-- The fields of `url.URL` that the program reads or writes.
pub record Url : Type 0 where
  pub scheme : String
  pub host : String
  pub path : String
  pub raw_query : String
