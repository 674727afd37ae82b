-- ===== src/Api/Config/Delete.antt =====
-- `delete` on an indexed configuration, and `clearTags` before an update.
use cli.Base.{
  String, ◌≡◌, refl, ap, ◌≢◌, inl, inr, true, ◌&&◌, none, some, List, [], ◌∷◌, arith, ◌==◌, eq_iff,
  eq_refl, if◌then◌else◌, Option-cases, Bool-cases,
}
use cli.Base.Maps.{
  Map, lookup, insert, delete as delete_key, is_empty, lookup-insert, lookup-delete,
  is_empty-lookup, delete-Unique,
}
use cli.Base.Lists.{contains, Distinct}
use cli.Proto.Records.{Record}
use cli.Api.Errors.{not_found, tag_index_inconsistent}
use cli.Api.Config.{Config, delete_tags, delete}
use cli.Api.Config.Tags.{Index, entry, IsUnique, insert-IsUnique}
use cli.Api.Config.Index.{IsIndexed}

-- One round of the loop, at a tag whose map is `m`.
abbrev removed : String → String → Map Record → Index → Index
removed id t m by_tag =
    let m' = delete_key id m in if is_empty m' then delete_key t by_tag else insert t m' by_tag

entry-removed :
    (id t : String) (m : Map Record) (by_tag : Index) (u j : String)
    → lookup t by_tag ≡ some m
    → entry u j (removed id t m by_tag) ≡ (if t == u && id == j then none else entry u j by_tag)
entry-removed id t m by_tag u j e = ground (
  arith,
  eq_iff t u,
  lookup-insert t u (delete_key id m) by_tag,
  lookup-delete t u by_tag,
  lookup-delete id j m,
  is_empty-lookup (delete_key id m) j,
)

delete_key-IsUnique :
    (t : String) (by_tag : Index) → IsUnique by_tag → IsUnique (delete_key t by_tag)
delete_key-IsUnique t by_tag h = record {
  outer = delete-Unique t by_tag h.outer;
  inner = λ u m e. ground (arith, lookup-delete t u by_tag, h.inner u m);
}

removed-IsUnique :
    (id t : String) (m : Map Record) (by_tag : Index)
    → lookup t by_tag ≡ some m
    → IsUnique by_tag
    → IsUnique (removed id t m by_tag)
removed-IsUnique id t m by_tag e h = elim (Bool-cases (is_empty (delete_key id m))) [
  | inl b ↦ rw b (delete_key-IsUnique t by_tag h)
  | inr b ↦ rw b (insert-IsUnique t (delete_key id m) by_tag (delete-Unique id m (h.inner t m e)) h)
]

abbrev NoEmpty : Index → Type 0
NoEmpty by_tag = (u : String) → lookup u by_tag ≢ some []

removed-NoEmpty :
    (id t : String) (m : Map Record) (by_tag : Index)
    → NoEmpty by_tag
    → NoEmpty (removed id t m by_tag)
removed-NoEmpty id t m by_tag h u e =
    ground (arith, h u, lookup-insert t u (delete_key id m) by_tag, lookup-delete t u by_tag)

-- What a run of the loop that meets no error leaves.
record Deleted (id : String) (tags : List String) (before after : Index) : Type 0 where
  entries :
      (u j : String)
      → entry u j after ≡ (if contains u tags && id == j then none else entry u j before)
  unique : IsUnique after
  no_empty : NoEmpty after

delete_tags-missing :
    (id t : String) (tags : List String) (by_tag : Index)
    → lookup t by_tag ≡ none
    → delete_tags id (t ∷ tags) by_tag ≡ (by_tag, some tag_index_inconsistent)
unfolding delete_tags
delete_tags-missing id t tags by_tag e = rw (e, delete_tags)

delete_tags-there :
    (id t : String) (tags : List String) (m : Map Record) (by_tag : Index)
    → lookup t by_tag ≡ some m
    → delete_tags id (t ∷ tags) by_tag ≡ delete_tags id tags (removed id t m by_tag)
unfolding delete_tags
delete_tags-there id t tags m by_tag e = rw (e, delete_tags)

Deleted-cons :
    (id t : String) (tags : List String) (m : Map Record) (by_tag after : Index)
    → lookup t by_tag ≡ some m
    → Deleted id tags (removed id t m by_tag) after
    → Deleted id (t ∷ tags) by_tag after
unfolding contains
Deleted-cons id t tags m by_tag after e d = record {
  entries = λ u j. ground (arith, d.entries u j, entry-removed id t m by_tag u j e);
  unique = d.unique;
  no_empty = d.no_empty;
}

delete_tags-Deleted :
    (id : String) (tags : List String) (by_tag : Index)
    → IsUnique by_tag
    → NoEmpty by_tag
    → (delete_tags id tags by_tag).1 ≡ none
    → Deleted id tags by_tag (delete_tags id tags by_tag).0
unfolding contains
delete_tags-Deleted id [] by_tag h n e = record {
  entries = λ u j. unfold delete_tags in refl;
  unique = unfold delete_tags in h;
  no_empty = unfold delete_tags in n;
}
delete_tags-Deleted id (t ∷ tags) by_tag h n e = elim (Option-cases (lookup t by_tag)) [
  | inl gone ↦ cc (ap (λ p. p.1) (delete_tags-missing id t tags by_tag gone))
  | inr (m, there) ↦ rw (delete_tags-there id t tags m by_tag there) (
      Deleted-cons id t tags m by_tag (delete_tags id tags (removed id t m by_tag)).0 there (
        delete_tags-Deleted id tags (removed id t m by_tag) (removed-IsUnique id t m by_tag there h)
          (removed-NoEmpty id t m by_tag n) (rw (delete_tags-there id t tags m by_tag there) at e)))
]

-- With distinct tags that are all in the index the loop meets no error.
delete_tags-total :
    (id : String) (tags : List String) (by_tag : Index)
    → Distinct tags
    → ((t : String) → contains t tags ≡ true → entry t id by_tag ≢ none)
    → (delete_tags id tags by_tag).1 ≡ none
unfolding contains
delete_tags-total id [] by_tag d h = unfold delete_tags in refl
delete_tags-total id (t ∷ tags) by_tag d h = elim (Option-cases (lookup t by_tag)) [
  | inl gone ↦ absurd (h t (rw eq_refl) (rw gone))
  | inr (m, there) ↦ rw (delete_tags-there id t tags m by_tag there) (
      delete_tags-total id tags (removed id t m by_tag) d.1 λ u c e.
        h u (ground (arith, c))
          (ground (arith, eq_iff t u, d.0, c, e, entry-removed id t m by_tag u id there)))
]

delete-missing :
    (cfg : Config) (id : String)
    → lookup id cfg.by_id ≡ none
    → delete cfg id ≡ (cfg, some not_found)
unfolding delete
delete-missing cfg id e = rw e

delete-there :
    (cfg : Config) (id : String) (r : Record)
    → lookup id cfg.by_id ≡ some r
    → delete cfg id ≡ (
      record { by_id = delete_key id cfg.by_id; by_tag = (delete_tags id r.tags cfg.by_tag).0 },
      (delete_tags id r.tags cfg.by_tag).1,
    )
unfolding delete
delete-there cfg id r e = rw e

-- A deletion that reports no error removes the record from both maps and keeps the invariant.
pub delete-IsIndexed :
    (cfg : Config) (id : String)
    → IsIndexed cfg
    → (delete cfg id).1 ≡ none
    → IsIndexed (delete cfg id).0
      × ((j : String)
          → lookup j (delete cfg id).0.by_id ≡ (if id == j then none else lookup j cfg.by_id))
delete-IsIndexed cfg id h e = elim (Option-cases (lookup id cfg.by_id)) [
  | inl gone ↦ cc (ap (λ p. p.1) (delete-missing cfg id gone))
  | inr (r, there) ↦
      let at = delete-there cfg id r there in
      let d = delete_tags-Deleted id r.tags cfg.by_tag h.unique_tags h.no_empty (rw at at e) in
      rw at (
        record {
          ids = λ j s q. ground (arith, lookup-delete id j cfg.by_id, h.ids j s);
          index = λ t j.
              ground (
                arith,
                eq_iff id j,
                d.entries t j,
                h.index t j,
                lookup-delete id j cfg.by_id,
                there,
              );
          no_empty = d.no_empty;
          unique_ids = delete-Unique id cfg.by_id h.unique_ids;
          unique_tags = d.unique;
        },
        λ j. lookup-delete id j cfg.by_id,
      )
]

-- On an indexed configuration, `delete` of a stored record with distinct tags meets no error, and
-- `delete` of an id that is not stored changes nothing and reports it.
pub delete-total :
    (cfg : Config) (id : String)
    → IsIndexed cfg
    → (r : Record) → lookup id cfg.by_id ≡ some r
    → Distinct r.tags
    → (delete cfg id).1 ≡ none
delete-total cfg id h r e d =
    rw (delete-there cfg id r e)
      (delete_tags-total id r.tags cfg.by_tag d λ t c n. ground (arith, h.index t id, e, c, n))
