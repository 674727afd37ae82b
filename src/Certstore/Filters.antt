-- ===== src/Certstore/Filters.antt =====
-- What a filter accepts.
use cli.Base.{
  ℕ, ap, subst, String, ◌≡◌, refl, ◌≢◌, ◌↔◌, Bool, true, false, none, some, List, arith, ◌==◌,
  eq_iff, Bool-cases, Option-cases, inl, inr, ◌⊎◌,
}
use cli.Base.Lists.{contains}
use cli.Base.Results.{Result, ok, err, Result-cases}
use cli.Net.{cut}
use cli.Proto.Certs.{Name}
use cli.Certstore.{
  FilterError, Names, no_name, attribute_lookup, parse_filter_condition, passes, filter_callback,
}

empty_attr : (name : Name) (values : List String) → attribute_lookup name "" ≢ ok values
unfolding attribute_lookup
empty_attr name values e = cc

cut-empty : (c : ℕ) → cut c "" ≡ none
unfolding cut
cut-empty c = refl

module _ (to_lower : String → String) where
  -- What a filter says of a name: nothing if it is empty, and else that the value behind the first
  -- "=" is among the values of the attribute before it, in lower case.
  pub data Matches (f : String) (name : Name) : Type 0 where
    no_filter : f ≡ "" → Matches f name
    attribute :
        (attr value : String) (values : List String)
        → cut b'=' f ≡ some (attr, value)
        → attribute_lookup name (to_lower attr) ≡ ok values
        → contains value values ≡ true
        → Matches f name

  -- A condition that was parsed, and where it comes from.
  record Parsed (f : String) (cond : String × String) : Type 0 where
    attr : String
    at : cut b'=' f ≡ some (attr, cond.1)
    lower : cond.0 ≡ to_lower attr
    supported : (cond.0 == "") ≡ false

  parsed :
      (f : String) (cond : String × String)
      → parse_filter_condition to_lower f ≡ ok cond
      → ((f ≡ "") × (cond ≡ ("", ""))) ⊎ Parsed f cond
  unfolding parse_filter_condition
  parsed f cond e = elim (Bool-cases (f == "")) [
    | inl none_given ↦ inl ((eq_iff f "").0 none_given, ground (arith, none_given, e))
    | inr given ↦ elim (Option-cases (cut b'=' f)) [
      | inl no_sign ↦ absurd (ground (arith, given, no_sign, e))
      | inr ((attr, value), at) ↦ elim (Result-cases (attribute_lookup no_name (to_lower attr))) [
        | inr (x, bad) ↦ absurd (ground (arith, given, at, bad, e))
        | inl (values, fine) ↦ inr (record {
          attr = attr;
          at = ground (arith, given, at, fine, e);
          lower = ground (arith, given, at, fine, e);
          supported = elim (Bool-cases (to_lower attr == "")) [
            | inl empty ↦ absurd (
                empty_attr no_name values (
                  subst (λ a. attribute_lookup no_name a ≡ ok values)
                    ((eq_iff (to_lower attr) "").0 empty) fine))
            | inr full ↦ ground (arith, given, at, fine, e, full)
          ];
        })
      ]
    ]
  ]

  passed :
      (f : String) (cond : String × String) (name : Name)
      → Parsed f cond
      → passes cond name ≡ true
      → Matches f name
  unfolding passes
  passed f cond name p q = elim (Result-cases (attribute_lookup name cond.0)) [
    | inl (values, fine) ↦
        Matches.attribute p.attr cond.1 values p.at
          (subst (λ a. attribute_lookup name a ≡ ok values) p.lower fine)
          (ground (arith, q, fine, p.supported))
    | inr (x, bad) ↦ absurd (ground (arith, q, bad, p.supported))
  ]

  matched :
      (f : String) (cond : String × String) (name : Name)
      → Parsed f cond
      → Matches f name
      → passes cond name ≡ true
  unfolding passes
  matched f cond name p (Matches.no_filter none_given) =
      absurd (cc (ap (cut b'=') none_given, p.at, cut-empty b'='))
  matched f cond name p (Matches.attribute attr value values at fine there) =
      let same : attr ≡ p.attr = ground (arith, at, p.at) in
      ground (
        arith,
        p.supported,
        there,
        at,
        p.at,
        fine,
        ap (attribute_lookup name) p.lower,
        ap (attribute_lookup name) (ap to_lower same),
      )

  passes-empty : (name : Name) → passes ("", "") name ≡ true
  unfolding passes
  passes-empty name = refl

  -- The test on one name says what the filter says.
  passes-Matches :
      (f : String) (cond : String × String) (name : Name)
      → parse_filter_condition to_lower f ≡ ok cond
      → (passes cond name ≡ true) ↔ Matches f name
  passes-Matches f cond name e = elim (parsed f cond e) [
    | inl (none_given, empty) ↦
        (λ _. Matches.no_filter none_given, λ _. rw empty (passes-empty name))
    | inr p ↦ (passed f cond name p, matched f cond name p)
  ]

  abbrev test : Names → Result FilterError (Names → Bool) → Bool
  test cert (ok f) = f cert
  test cert (err e) = false

  -- A certificate passes the callback exactly when its issuer matches the filter for the issuer and
  -- its subject matches the filter for the subject.
  pub filter_callback-Matches :
      (issuer_filter subject_filter : String) (f : Names → Bool) (cert : Names)
      → filter_callback to_lower issuer_filter subject_filter ≡ ok f
      → (f cert ≡ true) ↔ (Matches issuer_filter cert.issuer × Matches subject_filter cert.subject)
  unfolding filter_callback
  filter_callback-Matches issuer_filter subject_filter f cert e =
      elim (Result-cases (parse_filter_condition to_lower issuer_filter)) [
        | inr (x, bad) ↦ absurd (ground (arith, bad, e))
        | inl (i, fine) ↦ elim (Result-cases (parse_filter_condition to_lower subject_filter)) [
          | inr (x, bad) ↦ absurd (ground (arith, fine, bad, e))
          | inl (s, good) ↦
              let issuer = passes-Matches issuer_filter i cert.issuer fine in
              let subject = passes-Matches subject_filter s cert.subject good in
              let result = ap (test cert) e in
              (
                (λ q. (
                  issuer.0 (ground (arith, fine, good, result, q)),
                  subject.0 (ground (arith, fine, good, result, q)),
                )),
                (λ m. ground (arith, fine, good, result, issuer.1 m.0, subject.1 m.1)),
              )
        ]
      ]
