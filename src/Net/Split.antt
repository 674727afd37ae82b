-- ===== src/Net/Split.antt =====
-- Laws of `JoinHostPort` and `SplitHostPort`, and of the searches in a text.
use Prim.Native.Char.{Char, code}
use Prim.Native.String.append
use cli.Base.{
  subst, ℕ, String, ◌≡◌, refl, sym, ◌∙◌, ap, true, false, ◌||◌, none, some, arith, nat_eq,
  Bool-cases, inl, inr,
}
use cli.Net.{◌<>◌, has, after, cut, cut_last, join_host_port, split_host_port}

pub cons-append : {c : Char} (s t : String) → String.◌∷◌ c s <> t ≡ String.◌∷◌ c (s <> t)
cons-append {c} s t = append.cons c s t

pub nil-append : (t : String) → "" <> t ≡ t
nil-append t = append.nil t

pub has-append : (c : ℕ) (s t : String) → has c (s <> t) ≡ has c s || has c t
unfolding has
has-append c String.[] t = rw (nil-append t) refl
has-append c (String.◌∷◌ d s) t = rw (cons-append s t) (ground (arith, has-append c s t))

-- A text that holds no `c` is cut at the first `c` behind it, and at the last one if none follows.
cut-append :
    (c : ℕ) (d : Char) (s t : String)
    → has c s ≡ false
    → nat_eq (code d) c ≡ true
    → cut c (s <> String.◌∷◌ d t) ≡ some (s, t)
unfolding cut has
cut-append c d String.[] t h e = rw (nil-append (String.◌∷◌ d t)) (ground (arith, e))
cut-append c d (String.◌∷◌ b s) t h e =
    rw (cons-append s (String.◌∷◌ d t)) (ground (arith, h, cut-append c d s t))

cut_last-none : (c : ℕ) (s : String) → has c s ≡ false → cut_last c s ≡ none
unfolding cut_last has
cut_last-none c String.[] h = refl
cut_last-none c (String.◌∷◌ d s) h = ground (arith, h, cut_last-none c s)

cut_last-append :
    (c : ℕ) (d : Char) (s t : String)
    → has c t ≡ false
    → nat_eq (code d) c ≡ true
    → cut_last c (s <> String.◌∷◌ d t) ≡ some (s, t)
unfolding cut_last
cut_last-append c d String.[] t h e =
    rw (nil-append (String.◌∷◌ d t)) (ground (arith, e, cut_last-none c t))
cut_last-append c d (String.◌∷◌ b s) t h e =
    rw (cons-append s (String.◌∷◌ d t)) (ground (arith, cut_last-append c d s t))

after-none : (s : String) → has b'[' s ≡ false → after "[" s ≡ none
unfolding after has
after-none String.[] h = refl
after-none (String.◌∷◌ c s) h = ground (arith, h)

colon_text : (p : String) → ":" <> p ≡ String.◌∷◌ ":" p
colon_text p = cons-append "" p ∙ ap (λ t. String.◌∷◌ ":" t) (nil-append p)

bracket_text :
    (h p : String) → "[" <> h <> "]:" <> p ≡ String.◌∷◌ "[" (h <> String.◌∷◌ "]" (String.◌∷◌ ":" p))
bracket_text h p =
    cons-append "" (h <> "]:" <> p)
    ∙ ap (λ t. String.◌∷◌ "[" t)
        (nil-append (h <> "]:" <> p)
          ∙ ap (λ t. h <> t) (cons-append ":" p ∙ ap (λ t. String.◌∷◌ "]" t) (colon_text p)))

module _ (h p : String) (opening : has b'[' h ≡ false) (closing : has b']' h ≡ false)
    (colon : has b':' p ≡ false) (opening' : has b'[' p ≡ false)
    (closing' : has b']' p ≡ false) where
  split-bracketed :
      split_host_port (String.◌∷◌ "[" (h <> String.◌∷◌ "]" (String.◌∷◌ ":" p))) ≡ some (h, p)
  unfolding split_host_port after
  split-bracketed =
      rw (cut-append b']' "]" h (String.◌∷◌ ":" p) closing refl)
        (ground (arith, colon, opening, opening', closing'))

  whole :
      (c : ℕ)
      → has c h ≡ false
      → has c p ≡ false
      → nat_eq 58 c ≡ false
      → has c (h <> String.◌∷◌ ":" p) ≡ false
  whole c e f n = has-append c h (String.◌∷◌ ":" p) ∙ (unfold has in ground (arith, e, f, n))

  split-plain : has b':' h ≡ false → split_host_port (h <> String.◌∷◌ ":" p) ≡ some (h, p)
  unfolding split_host_port
  split-plain e =
      rw (split_host_port, after-none (h <> String.◌∷◌ ":" p) (whole b'[' opening opening' refl))
        (rw (cut_last-append b':' ":" h p colon refl)
          (ground (arith, e, whole b'[' opening opening' refl, whole b']' closing closing' refl)))

  -- A host without brackets and a port without brackets or colons come back from their joined form.
  pub split-join : split_host_port (join_host_port h p) ≡ some (h, p)
  split-join = elim (Bool-cases (has b':' h)) [
    | inl e ↦ subst (λ t. split_host_port t ≡ some (h, p)) (sym (joined e)) split-bracketed
    | inr e ↦ subst (λ t. split_host_port t ≡ some (h, p)) (sym (joined_plain e)) (split-plain e)
  ]
    where
      joined :
          has b':' h ≡ true
          → join_host_port h p ≡ String.◌∷◌ "[" (h <> String.◌∷◌ "]" (String.◌∷◌ ":" p))
      joined e = unfold join_host_port in rw e (bracket_text h p)

      joined_plain : has b':' h ≡ false → join_host_port h p ≡ h <> String.◌∷◌ ":" p
      joined_plain e = unfold join_host_port in rw e (rw (colon_text p))
