-- ===== src/Api/Config/Index.antt =====
-- The invariant of the configuration of api/config.go, and `upsert`.
use cli.Base.{
  String, ◌≡◌, refl, ◌∙◌, ap, ◌≢◌, inl, inr, false, ◌&&◌, Option, none, some, [], arith, ◌==◌,
  eq_iff, if◌then◌else◌, Option-cases,
}
use cli.Base.Maps.{Map, lookup, Unique, lookup-nil, lookup-insert, insert-Unique}
use cli.Base.Lists.{contains}
use cli.Proto.Records.{Record}
use cli.Api.Config.{Config, new_config, or_new, stored, upsert, tag, untag_current}
use cli.Api.Config.Tags.{
  Index, entry, IsUnique, entry-untag, entry-tag, entry-drop_empty, untag-IsUnique, tag-IsUnique,
  drop_empty-IsUnique, drop_empty-ne_empty,
}

-- The record, if it has the tag.
abbrev pub tagged : String → Option Record → Option Record
tagged t none = none
tagged t (some r) = if contains t r.tags then some r else none

pub record IsIndexed (cfg : Config) : Type 0 where
  -- A record is filed under its own id.
  pub ids : (id : String) (r : Record) → lookup id cfg.by_id ≡ some r → r.id ≡ some id
  -- `byTag[t][id]` is the record of `byID[id]` if that has the tag, and is missing otherwise.
  pub index : (t id : String) → entry t id cfg.by_tag ≡ tagged t (lookup id cfg.by_id)
  -- No tag is kept without a record.
  pub no_empty : (t : String) → lookup t cfg.by_tag ≢ some []
  pub unique_ids : Unique cfg.by_id
  pub unique_tags : IsUnique cfg.by_tag

pub new_config-IsIndexed : IsIndexed new_config
new_config-IsIndexed = record {
  ids = λ id r e. cc (lookup-nil {V = Record} id);
  index = λ t id. cc (lookup-nil {V = Map Record} t, lookup-nil {V = Record} id);
  no_empty = λ t e. cc (lookup-nil {V = Map Record} t);
  unique_ids = tt;
  unique_tags = record { outer = tt; inner = λ t m e. absurd (cc (lookup-nil {V = Map Record} t)) };
}

untag_current-IsUnique :
    (id : String) (o : Option Record) (by_tag : Index)
    → IsUnique by_tag
    → IsUnique (untag_current id o by_tag)
untag_current-IsUnique id none by_tag h = h
untag_current-IsUnique id (some r) by_tag h = untag-IsUnique id r.tags by_tag h

-- The invariant but for the entries of one id in the index, as it holds between `clearTags` and
-- `upsert`.
pub record IsIndexedBut (x : String) (cfg : Config) : Type 0 where
  pub ids : (id : String) (r : Record) → lookup id cfg.by_id ≡ some r → r.id ≡ some id
  pub index :
      (t id : String) → (x == id) ≡ false → entry t id cfg.by_tag ≡ tagged t (lookup id cfg.by_id)
  pub missing : (t : String) → lookup x cfg.by_id ≡ none → entry t x cfg.by_tag ≡ none
  pub within :
      (t : String) (c : Record)
      → lookup x cfg.by_id ≡ some c
      → contains t c.tags ≡ false
      → entry t x cfg.by_tag ≡ none
  pub unique_ids : Unique cfg.by_id
  pub unique_tags : IsUnique cfg.by_tag

pub IsIndexed-IsIndexedBut : (x : String) {cfg : Config} → IsIndexed cfg → IsIndexedBut x cfg
IsIndexed-IsIndexedBut x h = record {
  ids = h.ids;
  index = λ t id _. h.index t id;
  missing = λ t e. ground (arith, h.index t x, e);
  within = λ t c e n. ground (arith, h.index t x, e, n);
  unique_ids = h.unique_ids;
  unique_tags = h.unique_tags;
}

module _ (new_id : String) (cfg : Config) (r : Record)
    (h : IsIndexedBut (or_new new_id r.id) cfg) where
  abbrev id : String
  id = or_new new_id r.id

  abbrev r' : Record
  r' = stored new_id cfg r

  abbrev untagged : Index
  untagged = untag_current id (lookup id cfg.by_id) cfg.by_tag

  abbrev retagged : Index
  retagged = tag id r' r'.tags untagged

  untagged-IsUnique : IsUnique untagged
  untagged-IsUnique = untag_current-IsUnique id (lookup id cfg.by_id) cfg.by_tag h.unique_tags

  retagged-IsUnique : IsUnique retagged
  retagged-IsUnique = tag-IsUnique id r' r'.tags untagged untagged-IsUnique

  -- No tag holds the id once its current tags are removed.
  entry-untagged :
      (t j : String) → entry t j untagged ≡ (if id == j then none else entry t j cfg.by_tag)
  entry-untagged t j = elim (Option-cases (lookup id cfg.by_id)) [
    | inl e ↦ rw e (ground (arith, eq_iff id j, h.missing t e))
    | inr (c, e) ↦ rw e (
        ground (
          arith,
          eq_iff id j,
          entry-untag id c.tags cfg.by_tag t j,
          h.index t j,
          e,
          h.within t c e,
        ))
  ]

  stored-id : r'.id ≡ some id
  unfolding stored
  stored-id = refl

  pub upsert-by_id :
      (j : String)
      → lookup j (upsert new_id cfg r).by_id ≡ (if id == j then some r' else lookup j cfg.by_id)
  unfolding upsert
  upsert-by_id j = lookup-insert id j r' cfg.by_id

  pub upsert-by_tag :
      (t j : String)
      → entry t j (upsert new_id cfg r).by_tag ≡ (
          if contains t r'.tags && id == j
          then some r'
          else if id == j
          then none
          else entry t j cfg.by_tag)
  unfolding upsert
  upsert-by_tag t j =
      entry-drop_empty retagged t j retagged-IsUnique.outer
      ∙ entry-tag id r' r'.tags untagged t j
      ∙ ap (λ o. if contains t r'.tags && id == j then some r' else o) (entry-untagged t j)

  upsert-index :
      (t j : String)
      → entry t j (upsert new_id cfg r).by_tag ≡ tagged t (lookup j (upsert new_id cfg r).by_id)
  upsert-index t j = rw (upsert-by_tag, upsert-by_id) (ground (arith, h.index t j))

  pub upsert-IsIndexed : IsIndexed (upsert new_id cfg r)
  upsert-IsIndexed = record {
    ids = λ j s e. ground (arith, eq_iff id j, upsert-by_id j, h.ids j s, stored-id);
    index = upsert-index;
    no_empty = unfold upsert in λ t. drop_empty-ne_empty retagged t retagged-IsUnique.outer;
    unique_ids = unfold upsert in insert-Unique id r' cfg.by_id h.unique_ids;
    unique_tags = unfold upsert in drop_empty-IsUnique retagged retagged-IsUnique;
  }
