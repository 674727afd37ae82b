-- ===== src/Api/Config/Queries.antt =====
-- What the listings return on an indexed configuration.
use cli.Base.{
  subst, String, ◌≡◌, refl, sym, ap, ◌↔◌, inl, inr, true, none, some, List, [], ◌∷◌, ◌++◌, arith,
  ◌==◌, eq_iff, eq_refl, Option-cases, Bool-cases, is_some, map,
}
use cli.Base.Maps.{is_empty-lookup, Map, lookup, values, Unique}
use cli.Base.Maps.Values.{some_entry, values-lookup}
use cli.Base.Lists.{contains, In, In-append}
use cli.Base.Results.{Result, ok, err}
use cli.Proto.Records.{Record}
use cli.Api.Config.{Config, list_all, list_by_ids, list_by_tags, tags_of, get_tags}
use cli.Api.Config.Tags.{Index, prune}
use cli.Api.Config.Index.{IsIndexed}

-- `listAll` returns exactly the stored records.
pub list_all-In :
    (cfg : Config) (r : Record)
    → IsIndexed cfg
    → In r (list_all cfg) ↔ ((id : String) × (lookup id cfg.by_id ≡ some r))
unfolding list_all
list_all-In cfg r h = values-lookup cfg.by_id r h.unique_ids

-- The reference definition: every id is stored, and the records are those of the ids in order.
abbrev pub AreThe : Config → List String → Result String (List Record) → Type 0
AreThe cfg ids (ok records) = map (λ id. lookup id cfg.by_id) ids ≡ map some records
AreThe cfg ids (err id) = (contains id ids ≡ true) × (lookup id cfg.by_id ≡ none)

AreThe-cons :
    (cfg : Config) (id : String) (ids : List String) (r : Record)
    (rest : Result String (List Record))
    → lookup id cfg.by_id ≡ some r
    → AreThe cfg ids rest
    → AreThe cfg (id ∷ ids) (elim rest [ ok records ↦ ok (r ∷ records) | err e ↦ err e ])
AreThe-cons cfg id ids r (ok records) e h = cc
AreThe-cons cfg id ids r (err j) e h = (unfold contains in ground (arith, h.0), h.1)

-- `listByIDs` returns the records of the ids, in their order and with repetitions, or an error
-- that names one of the ids, which is not stored.
pub list_by_ids-AreThe : (cfg : Config) (ids : List String) → AreThe cfg ids (list_by_ids cfg ids)
unfolding list_by_ids
list_by_ids-AreThe cfg [] = refl
list_by_ids-AreThe cfg (id ∷ ids) = elim (Option-cases (lookup id cfg.by_id)) [
  | inl e ↦ rw (e, list_by_ids) (unfold contains in rw eq_refl, e)
  | inr (r, e) ↦
      rw (e, list_by_ids)
        (AreThe-cons cfg id ids r (list_by_ids cfg ids) e (list_by_ids-AreThe cfg ids))
]

-- A stored record with the tag.
abbrev pub HasTag : Config → String → Record → Type 0
HasTag cfg t r = (id : String) × (lookup id cfg.by_id ≡ some r) × (contains t r.tags ≡ true)

In-tag :
    (cfg : Config) (t : String) (m : Map Record) (r : Record)
    → IsIndexed cfg
    → lookup t cfg.by_tag ≡ some m
    → In r (values m) ↔ HasTag cfg t r
In-tag cfg t m r h e = (
  (λ i.
      let (id, f) = (values-lookup m r (h.unique_tags.inner t m e)).0 i in
      (id, ground (arith, h.index t id, e, f), ground (arith, h.index t id, e, f))),
  (λ (id, f, c).
      (values-lookup m r (h.unique_tags.inner t m e)).1
        (id, ground (arith, h.index t id, e, f, c))),
)

abbrev pub AreTagged : Config → List String → Result String (List Record) → Type 0
AreTagged cfg tags (ok records) =
    (r : Record) → In r records ↔ ((t : String) × (contains t tags ≡ true) × HasTag cfg t r)
AreTagged cfg tags (err t) = (contains t tags ≡ true) × ((r : Record) → ¬ HasTag cfg t r)

no_tag :
    (cfg : Config) (t : String)
    → IsIndexed cfg
    → lookup t cfg.by_tag ≡ none
    → (r : Record) → ¬ HasTag cfg t r
no_tag cfg t h e r (id, f, c) = ground (arith, h.index t id, e, f, c)

AreTagged-cons :
    (cfg : Config) (t : String) (tags : List String) (m : Map Record)
    (rest : Result String (List Record))
    → IsIndexed cfg
    → lookup t cfg.by_tag ≡ some m
    → AreTagged cfg tags rest
    → AreTagged cfg (t ∷ tags) (elim rest [ ok records ↦ ok (values m ++ records) | err e ↦ err e ])
unfolding contains
AreTagged-cons cfg t tags m (ok records) h e a = λ r. (
  (λ i. elim ((In-append r (values m) records).0 i) [
    | inl here ↦ (t, rw eq_refl, (In-tag cfg t m r h e).0 here)
    | inr later ↦ let (u, c, held) = (a r).0 later in (u, ground (arith, c), held)
  ]),
  (λ (u, c, held). (In-append r (values m) records).1 (elim (Bool-cases (t == u)) [
    | inl same ↦
        inl
          ((In-tag cfg t m r h e).1 (subst (λ v. HasTag cfg v r) (sym ((eq_iff t u).0 same)) held))
    | inr other ↦ inr ((a r).1 (u, ground (arith, c, other), held))
  ])),
)
AreTagged-cons cfg t tags m (err u) h e a = (ground (arith, a.0), a.1)

-- `listByTags` returns exactly the stored records that have one of the tags, or an error that
-- names one of the tags, which no stored record has.
pub list_by_tags-AreTagged :
    (cfg : Config) (tags : List String) → IsIndexed cfg → AreTagged cfg tags (list_by_tags cfg tags)
unfolding list_by_tags
list_by_tags-AreTagged cfg [] h = λ r. (absurd, λ (t, c, held). unfold contains in cc)
list_by_tags-AreTagged cfg (t ∷ tags) h = elim (Option-cases (lookup t cfg.by_tag)) [
  | inl e ↦ rw (e, list_by_tags) (unfold contains in rw eq_refl, no_tag cfg t h e)
  | inr (m, e) ↦
      rw (e, list_by_tags)
        (AreTagged-cons cfg t tags m (list_by_tags cfg tags) h e
          (list_by_tags-AreTagged cfg tags h))
]

tags_of-contains :
    (by_tag : Index) (t : String)
    → Unique by_tag
    → contains t (tags_of by_tag) ≡ is_some (prune (lookup t by_tag))
unfolding tags_of contains lookup
tags_of-contains [] t h = refl
tags_of-contains ((u, m) ∷ by_tag) t h =
    ground (arith, eq_iff u t, h.0, tags_of-contains by_tag t h.1)

-- `getTags` returns exactly the tags that some stored record has.
pub get_tags-contains :
    (cfg : Config) (t : String)
    → IsIndexed cfg
    → (contains t (get_tags cfg) ≡ true) ↔ ((r : Record) × HasTag cfg t r)
unfolding get_tags
get_tags-contains cfg t h =
    let at = tags_of-contains cfg.by_tag t h.unique_tags.outer in
    elim (Option-cases (lookup t cfg.by_tag)) [
      | inl e ↦ (
        (λ c. absurd (cc (at, c, ap (λ o. is_some (prune o)) e))),
        (λ (r, held). absurd (no_tag cfg t h e r held)),
      )
      | inr (m, e) ↦ (
        (λ c.
            let (id, r, f) = some_entry m (ground (arith, at, c, e)) in
            (r, (id, ground (arith, h.index t id, e, f), ground (arith, h.index t id, e, f)))),
        (λ (r, (id, f, c)). ground (arith, at, e, h.index t id, f, c, is_empty-lookup m id)),
      )
    ]
