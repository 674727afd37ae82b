-- ===== src/Api/Config/Tags.antt =====
-- What the loops over the tag index do to one entry of it.
use cli.Base.{
  ◌≢◌, String, ◌≡◌, refl, inl, inr, ◌&&◌, Option, none, some, List, [], ◌∷◌, arith, ◌==◌, eq_iff,
  if◌then◌else◌, bind, Option-cases,
}
use cli.Base.Maps.{
  is_empty-lookup, is_empty, insert-Unique, delete-Unique, Map, lookup, insert,
  delete as delete_key, Unique, lookup-nil, lookup-insert, lookup-delete,
}
use cli.Base.Lists.{contains}
use cli.Proto.Records.{Record}
use cli.Api.Config.{drop_empty, untag_in, untag, map_or_new, tag}

abbrev pub Index : Type 0
Index = Map (Map Record)

-- `byTag[t][id]`
abbrev pub entry : String → String → Index → Option Record
entry t id by_tag = bind (lookup t by_tag) (lookup id)

-- Both levels of the index have each key once.
pub record IsUnique (by_tag : Index) : Type 0 where
  pub outer : Unique by_tag
  pub inner : (t : String) (m : Map Record) → lookup t by_tag ≡ some m → Unique m

entry-untag_in :
    (id t : String) (by_tag : Index) (u j : String)
    → entry u j (untag_in id t by_tag (lookup t by_tag))
      ≡ (if t == u && id == j then none else entry u j by_tag)
entry-untag_in id t by_tag u j = elim (Option-cases (lookup t by_tag)) [
  | inl e ↦ ground (arith, e, eq_iff t u)
  | inr (m, e) ↦ rw e (
      ground
        (arith, eq_iff t u, e, lookup-insert t u (delete_key id m) by_tag, lookup-delete id j m))
]

pub entry-untag :
    (id : String) (tags : List String) (by_tag : Index) (u j : String)
    → entry u j (untag id tags by_tag)
      ≡ (if contains u tags && id == j then none else entry u j by_tag)
unfolding untag contains
entry-untag id [] by_tag u j = refl
entry-untag id (t ∷ tags) by_tag u j = ground (
  arith,
  entry-untag id tags (untag_in id t by_tag (lookup t by_tag)) u j,
  entry-untag_in id t by_tag u j,
)

entry-map_or_new :
    (t j : String) (by_tag : Index) → lookup j (map_or_new (lookup t by_tag)) ≡ entry t j by_tag
entry-map_or_new t j by_tag = ground (arith, lookup-nil {V = Record} j)

entry-tag_one :
    (id : String) (r : Record) (t : String) (by_tag : Index) (u j : String)
    → entry u j (insert t (insert id r (map_or_new (lookup t by_tag))) by_tag)
      ≡ (if t == u && id == j then some r else entry u j by_tag)
entry-tag_one id r t by_tag u j = ground (
  arith,
  eq_iff t u,
  lookup-insert t u (insert id r (map_or_new (lookup t by_tag))) by_tag,
  lookup-insert id j r (map_or_new (lookup t by_tag)),
  entry-map_or_new t j by_tag,
)

pub entry-tag :
    (id : String) (r : Record) (tags : List String) (by_tag : Index) (u j : String)
    → entry u j (tag id r tags by_tag)
      ≡ (if contains u tags && id == j then some r else entry u j by_tag)
unfolding tag contains
entry-tag id r [] by_tag u j = refl
entry-tag id r (t ∷ tags) by_tag u j = ground (
  arith,
  entry-tag id r tags (insert t (insert id r (map_or_new (lookup t by_tag))) by_tag) u j,
  entry-tag_one id r t by_tag u j,
)

abbrev pub prune : Option (Map Record) → Option (Map Record)
prune none = none
prune (some m) = if is_empty m then none else some m

pub lookup-drop_empty :
    (t : String) (by_tag : Index)
    → Unique by_tag
    → lookup t (drop_empty by_tag) ≡ prune (lookup t by_tag)
unfolding drop_empty lookup
lookup-drop_empty t [] h = refl
lookup-drop_empty t ((u, m) ∷ by_tag) h =
    ground (arith, eq_iff u t, lookup-drop_empty t by_tag h.1, h.0)

drop_empty-Unique : (by_tag : Index) → Unique by_tag → Unique (drop_empty by_tag)
unfolding drop_empty
drop_empty-Unique [] h = tt
drop_empty-Unique ((u, m) ∷ by_tag) h =
    ground (arith, drop_empty-Unique by_tag h.1, lookup-drop_empty u by_tag h.1, h.0)

pub entry-drop_empty :
    (by_tag : Index) (u j : String)
    → Unique by_tag
    → entry u j (drop_empty by_tag) ≡ entry u j by_tag
entry-drop_empty by_tag u j h = elim (Option-cases (lookup u by_tag)) [
  | inl e ↦ ground (arith, lookup-drop_empty u by_tag h, e)
  | inr (m, e) ↦ ground (arith, lookup-drop_empty u by_tag h, e, is_empty-lookup m j)
]

pub insert-IsUnique :
    (t : String) (m : Map Record) (by_tag : Index)
    → Unique m
    → IsUnique by_tag
    → IsUnique (insert t m by_tag)
insert-IsUnique t m by_tag hm h = record {
  outer = insert-Unique t m by_tag h.outer;
  inner = λ u m' e. ground (arith, lookup-insert t u m by_tag, h.inner u m');
}

untag_in-IsUnique :
    (id t : String) (by_tag : Index)
    → IsUnique by_tag
    → IsUnique (untag_in id t by_tag (lookup t by_tag))
untag_in-IsUnique id t by_tag h = elim (Option-cases (lookup t by_tag)) [
  | inl e ↦ rw e h
  | inr (m, e) ↦
      rw e (insert-IsUnique t (delete_key id m) by_tag (delete-Unique id m (h.inner t m e)) h)
]

pub untag-IsUnique :
    (id : String) (tags : List String) (by_tag : Index)
    → IsUnique by_tag
    → IsUnique (untag id tags by_tag)
unfolding untag
untag-IsUnique id [] by_tag h = h
untag-IsUnique id (t ∷ tags) by_tag h =
    untag-IsUnique id tags (untag_in id t by_tag (lookup t by_tag))
      (untag_in-IsUnique id t by_tag h)

map_or_new-Unique :
    (t : String) (by_tag : Index) → IsUnique by_tag → Unique (map_or_new (lookup t by_tag))
map_or_new-Unique t by_tag h = elim (Option-cases (lookup t by_tag)) [
  | inl e ↦ rw e tt
  | inr (m, e) ↦ rw e (h.inner t m e)
]

pub tag-IsUnique :
    (id : String) (r : Record) (tags : List String) (by_tag : Index)
    → IsUnique by_tag
    → IsUnique (tag id r tags by_tag)
unfolding tag
tag-IsUnique id r [] by_tag h = h
tag-IsUnique id r (t ∷ tags) by_tag h =
    tag-IsUnique id r tags (insert t (insert id r (map_or_new (lookup t by_tag))) by_tag) (
      insert-IsUnique t (insert id r (map_or_new (lookup t by_tag))) by_tag
        (insert-Unique id r (map_or_new (lookup t by_tag)) (map_or_new-Unique t by_tag h)) h)

pub drop_empty-IsUnique : (by_tag : Index) → IsUnique by_tag → IsUnique (drop_empty by_tag)
drop_empty-IsUnique by_tag h = record {
  outer = drop_empty-Unique by_tag h.outer;
  inner = λ u m e. elim (Option-cases (lookup u by_tag)) [
    | inl n ↦ ground (arith, lookup-drop_empty u by_tag h.outer, n)
    | inr (m', s) ↦ ground (arith, lookup-drop_empty u by_tag h.outer, s, h.inner u m')
  ];
}

pub drop_empty-ne_empty :
    (by_tag : Index) (t : String) → Unique by_tag → lookup t (drop_empty by_tag) ≢ some []
drop_empty-ne_empty by_tag t h e = elim (Option-cases (lookup t by_tag)) [
  | inl n ↦ ground (arith, lookup-drop_empty t by_tag h, n)
  | inr (m, s) ↦ ground (arith, lookup-drop_empty t by_tag h, s)
]
