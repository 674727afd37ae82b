-- ===== src/Api/Config/Clear.antt =====
-- `clearTags`, the step before an update, and what a record with a repeated tag does to it.
use cli.Base.{
  subst, String, ◌≡◌, refl, sym, ap, ◌≢◌, ◌↔◌, inl, inr, true, ◌&&◌, Option, none, some, List, [],
  ◌∷◌, arith, ◌==◌, eq_iff, eq_refl, if◌then◌else◌, Option-cases, Bool-cases,
}
use cli.Base.Maps.{
  Map, lookup, insert, delete as delete_key, lookup-insert, lookup-delete, delete-Unique,
}
use cli.Base.Lists.{contains, Distinct}
use cli.Proto.Records.{Record}
use cli.Api.Errors.{expect_tag, expect_entry}
use cli.Api.Config.{or_new, expect_by_id, Config, clear_tags_loop, clear_tags}
use cli.Api.Config.Tags.{Index, entry, IsUnique, insert-IsUnique}
use cli.Api.Config.Index.{IsIndexed-IsIndexedBut, IsIndexed, IsIndexedBut}

-- One round of the loop, at a tag whose map is `m`.
abbrev cleared : String → String → Map Record → Index → Index
cleared id t m by_tag = insert t (delete_key id m) by_tag

clear-no_tag :
    (id t : String) (tags : List String) (by_tag : Index)
    → lookup t by_tag ≡ none
    → clear_tags_loop id (t ∷ tags) by_tag ≡ (by_tag, some (expect_tag id t))
unfolding clear_tags_loop
clear-no_tag id t tags by_tag e = rw (e, clear_tags_loop)

clear-no_entry :
    (id t : String) (tags : List String) (m : Map Record) (by_tag : Index)
    → lookup t by_tag ≡ some m
    → lookup id m ≡ none
    → clear_tags_loop id (t ∷ tags) by_tag ≡ (by_tag, some (expect_entry id t))
unfolding clear_tags_loop
clear-no_entry id t tags m by_tag e n = rw (e, n, clear_tags_loop)

clear-there :
    (id t : String) (tags : List String) (m : Map Record) (r : Record) (by_tag : Index)
    → lookup t by_tag ≡ some m
    → lookup id m ≡ some r
    → clear_tags_loop id (t ∷ tags) by_tag ≡ clear_tags_loop id tags (cleared id t m by_tag)
unfolding clear_tags_loop
clear-there id t tags m r by_tag e n = rw (e, n, clear_tags_loop)

entry-cleared :
    (id t : String) (m : Map Record) (by_tag : Index) (u j : String)
    → lookup t by_tag ≡ some m
    → entry u j (cleared id t m by_tag) ≡ (if t == u && id == j then none else entry u j by_tag)
entry-cleared id t m by_tag u j e =
    ground (arith, eq_iff t u, lookup-insert t u (delete_key id m) by_tag, lookup-delete id j m)

-- What a run of the loop that meets no error shows and leaves.
record Cleared (id : String) (tags : List String) (before after : Index) : Type 0 where
  distinct : Distinct tags
  present : (u : String) → contains u tags ≡ true → entry u id before ≢ none
  entries :
      (u j : String)
      → entry u j after ≡ (if contains u tags && id == j then none else entry u j before)
  unique : IsUnique after

Cleared-cons :
    (id t : String) (tags : List String) (m : Map Record) (r : Record) (by_tag after : Index)
    → lookup t by_tag ≡ some m
    → lookup id m ≡ some r
    → Cleared id tags (cleared id t m by_tag) after
    → Cleared id (t ∷ tags) by_tag after
unfolding contains
Cleared-cons id t tags m r by_tag after e n d = record {
  distinct = (
    elim (Bool-cases (contains t tags)) [
      | inl c ↦ absurd (
          d.present t c (ground (arith, eq_refl t, eq_refl id, entry-cleared id t m by_tag t id e)))
      | inr c ↦ c
    ],
    d.distinct,
  );
  present = λ u c q. elim (Bool-cases (t == u)) [
    | inl same ↦ ground (arith, eq_iff t u, e, n)
    | inr other ↦
        d.present u (ground (arith, c, other))
          (ground (arith, other, q, entry-cleared id t m by_tag u id e))
  ];
  entries = λ u j. ground (arith, d.entries u j, entry-cleared id t m by_tag u j e);
  unique = d.unique;
}

clear_tags_loop-Cleared :
    (id : String) (tags : List String) (by_tag : Index)
    → IsUnique by_tag
    → (clear_tags_loop id tags by_tag).1 ≡ none
    → Cleared id tags by_tag (clear_tags_loop id tags by_tag).0
clear_tags_loop-Cleared id [] by_tag h e = record {
  distinct = tt;
  present = λ u c. unfold contains in absurd (cc);
  entries = λ u j. unfold contains clear_tags_loop in refl;
  unique = unfold clear_tags_loop in h;
}
clear_tags_loop-Cleared id (t ∷ tags) by_tag h e = elim (Option-cases (lookup t by_tag)) [
  | inl gone ↦ cc (ap (λ p. p.1) (clear-no_tag id t tags by_tag gone))
  | inr (m, there) ↦ elim (Option-cases (lookup id m)) [
    | inl gone ↦ cc (ap (λ p. p.1) (clear-no_entry id t tags m by_tag there gone))
    | inr (r, held) ↦
        let at = clear-there id t tags m r by_tag there held in
        rw at (
          Cleared-cons id t tags m r by_tag (clear_tags_loop id tags (cleared id t m by_tag)).0
            there held
            (clear_tags_loop-Cleared id tags (cleared id t m by_tag)
              (insert-IsUnique t (delete_key id m) by_tag (delete-Unique id m (h.inner t m there))
                h)
              (rw at at e)))
  ]
]

clear_tags_loop-total :
    (id : String) (tags : List String) (by_tag : Index)
    → Distinct tags
    → ((u : String) → contains u tags ≡ true → entry u id by_tag ≢ none)
    → (clear_tags_loop id tags by_tag).1 ≡ none
clear_tags_loop-total id [] by_tag d h = unfold clear_tags_loop in refl
clear_tags_loop-total id (t ∷ tags) by_tag d h = elim (Option-cases (lookup t by_tag)) [
  | inl gone ↦ absurd (h t (unfold contains in rw eq_refl) (rw gone))
  | inr (m, there) ↦ elim (Option-cases (lookup id m)) [
    | inl gone ↦ absurd (h t (unfold contains in rw eq_refl) (rw there gone))
    | inr (r, held) ↦ rw (clear-there id t tags m r by_tag there held) (
        clear_tags_loop-total id tags (cleared id t m by_tag) d.1 λ u c q.
          h u (unfold contains in ground (arith, c))
            (ground (arith, eq_iff t u, d.0, c, q, entry-cleared id t m by_tag u id there)))
  ]
]

module _ (cfg : Config) (r : Record) (id : String) (current : Record) where
  clear_tags-stored :
      r.id ≡ some id
      → lookup id cfg.by_id ≡ some current
      → clear_tags cfg r ≡ (
        record { by_id = cfg.by_id; by_tag = (clear_tags_loop id current.tags cfg.by_tag).0 },
        (clear_tags_loop id current.tags cfg.by_tag).1,
      )
  unfolding clear_tags
  clear_tags-stored e there = rw e (rw there)

  -- Before the update of a stored record, `clearTags` meets no error exactly when the tags that
  -- the record is stored with are distinct.
  pub clear_tags-ok_iff :
      IsIndexed cfg
      → r.id ≡ some id
      → lookup id cfg.by_id ≡ some current
      → ((clear_tags cfg r).1 ≡ none) ↔ Distinct current.tags
  clear_tags-ok_iff h e there = rw (clear_tags-stored e there) (
    (λ q. (clear_tags_loop-Cleared id current.tags cfg.by_tag h.unique_tags q).distinct),
    (λ d.
        clear_tags_loop-total id current.tags cfg.by_tag d
          λ u c q. ground (arith, h.index u id, there, c, q)),
  )

  clear_tags-IsIndexedBut_stored :
      IsIndexed cfg
      → r.id ≡ some id
      → lookup id cfg.by_id ≡ some current
      → (clear_tags cfg r).1 ≡ none
      → IsIndexedBut id (clear_tags cfg r).0
  clear_tags-IsIndexedBut_stored h e there q =
      let at = clear_tags-stored e there in
      let c = clear_tags_loop-Cleared id current.tags cfg.by_tag h.unique_tags (rw at at q) in
      rw at (record {
        ids = h.ids;
        index = λ t j n. ground (arith, c.entries t j, n, h.index t j);
        missing = λ t n. absurd (cc (there, n));
        within = λ t s k n. ground (arith, c.entries t id, eq_refl id, h.index t id, there, k, n);
        unique_ids = h.unique_ids;
        unique_tags = c.unique;
      })

clear_tags-new : (cfg : Config) (r : Record) → r.id ≡ none → clear_tags cfg r ≡ (cfg, none)
unfolding clear_tags
clear_tags-new cfg r e = rw e

clear_tags-unknown :
    (cfg : Config) (r : Record) (id : String)
    → r.id ≡ some id
    → lookup id cfg.by_id ≡ none
    → clear_tags cfg r ≡ (cfg, some (expect_by_id id))
unfolding clear_tags
clear_tags-unknown cfg r id e gone = rw e (rw gone)

-- After `clearTags` with no error, only the entries of the record's own id can be out of place.
pub clear_tags-IsIndexedBut :
    (new_id : String) (cfg : Config) (r : Record)
    → IsIndexed cfg
    → (clear_tags cfg r).1 ≡ none
    → IsIndexedBut (or_new new_id r.id) (clear_tags cfg r).0
clear_tags-IsIndexedBut new_id cfg r h q = elim (Option-cases r.id) [
  | inl e ↦ rw (clear_tags-new cfg r e) (IsIndexed-IsIndexedBut (or_new new_id r.id) h)
  | inr (id, e) ↦ elim (Option-cases (lookup id cfg.by_id)) [
    | inl gone ↦ absurd (cc (ap (λ p. p.1) (clear_tags-unknown cfg r id e gone)))
    | inr (current, there) ↦
        subst (λ (o : Option String). IsIndexedBut (or_new new_id o) (clear_tags cfg r).0) (sym e)
          (clear_tags-IsIndexedBut_stored cfg r id current h e there q)
  ]
]

-- `clearTags` never changes the records themselves.
pub clear_tags-by_id : (cfg : Config) (r : Record) → (clear_tags cfg r).0.by_id ≡ cfg.by_id
clear_tags-by_id cfg r = elim (Option-cases r.id) [
  | inl e ↦ rw (clear_tags-new cfg r e)
  | inr (id, e) ↦ elim (Option-cases (lookup id cfg.by_id)) [
    | inl gone ↦ rw (clear_tags-unknown cfg r id e gone)
    | inr (current, there) ↦ rw (clear_tags-stored cfg r id current e there)
  ]
]
