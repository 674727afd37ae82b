-- ===== src/Api/Config.antt =====
-- api/config.go: the records by id, with an index of them by tag.
--
-- A `*pb.Record` is its value: `byID` and `byTag` are written together, and what they share is an
-- invariant of the index (Config/Index). `uuid.NewString()` is the argument `new_id`.
pub mod Tags
pub mod Index
pub mod Delete
pub mod Clear
pub mod Queries
use cli.Base.{String, Option, none, some, List, [], ◌∷◌, ◌++◌, if◌then◌else◌}
use cli.Base.Maps.{Map, lookup, insert, delete as delete_key, values, is_empty}
use cli.Base.Results.{Result, ok, err}
use cli.Api.Errors.{
  ConfigError, not_found, tag_index_inconsistent, expect_by_id, expect_tag, expect_entry,
}
use cli.Proto.Records.{Record, Connection}

pub record Config : Type 0 where
  pub by_id : Map Record
  pub by_tag : Map (Map Record)

abbrev pub new_config : Config
new_config = record { by_id = []; by_tag = [] }

-- The loop of `clearTags`. What it deleted before an error stays deleted.
unfoldable pub clear_tags_loop :
    String → List String → Map (Map Record) → Map (Map Record) × Option ConfigError
clear_tags_loop id [] by_tag = (by_tag, none)
clear_tags_loop id (t ∷ tags) by_tag = elim (lookup t by_tag) [
  | none ↦ (by_tag, some (expect_tag id t))
  | some m ↦ elim (lookup id m) [
    | none ↦ (by_tag, some (expect_entry id t))
    | some _ ↦ clear_tags_loop id tags (insert t (delete_key id m) by_tag)
  ]
]

abbrev clear_tags_of : Config → String → Option Record → Config × Option ConfigError
clear_tags_of cfg id none = (cfg, some (expect_by_id id))
clear_tags_of cfg id (some current) =
    let (by_tag, e) = clear_tags_loop id current.tags cfg.by_tag in
    (record cfg { by_tag = by_tag }, e)

abbrev clear_tags_id : Config → Option String → Config × Option ConfigError
clear_tags_id cfg none = (cfg, none)
clear_tags_id cfg (some id) = clear_tags_of cfg id (lookup id cfg.by_id)

unfoldable pub clear_tags : Config → Record → Config × Option ConfigError
clear_tags cfg r = clear_tags_id cfg r.id

-- `delete(cfg.byTag[t], id)`: a tag without a map has nothing deleted, and gets no map.
abbrev untag_in : String → String → Map (Map Record) → Option (Map Record) → Map (Map Record)
untag_in id t by_tag none = by_tag
untag_in id t by_tag (some m) = insert t (delete_key id m) by_tag

unfoldable pub untag : String → List String → Map (Map Record) → Map (Map Record)
untag id [] by_tag = by_tag
untag id (t ∷ tags) by_tag = untag id tags (untag_in id t by_tag (lookup t by_tag))

abbrev pub map_or_new : Option (Map Record) → Map Record
map_or_new none = []
map_or_new (some m) = m

unfoldable pub tag : String → Record → List String → Map (Map Record) → Map (Map Record)
tag id r [] by_tag = by_tag
tag id r (t ∷ tags) by_tag =
    tag id r tags (insert t (insert id r (map_or_new (lookup t by_tag))) by_tag)

-- The loop that removes the tags with no record.
unfoldable pub drop_empty : Map (Map Record) → Map (Map Record)
drop_empty [] = []
drop_empty ((t, m) ∷ by_tag) =
    let rest = drop_empty by_tag in if is_empty m then rest else (t, m) ∷ rest

abbrev pub or_new : String → Option String → String
or_new new_id none = new_id
or_new new_id (some id) = id

-- The connection of the record is kept if the request leaves it out.
abbrev pub keep_conn : Option Record → Option Connection → Option Connection
keep_conn none conn = conn
keep_conn (some current) none = current.conn
keep_conn (some current) (some conn) = some conn

abbrev untag_current : String → Option Record → Map (Map Record) → Map (Map Record)
untag_current id none by_tag = by_tag
untag_current id (some current) by_tag = untag id current.tags by_tag

-- The record as it is stored: `r` with its id and its connection filled in.
unfoldable pub stored : String → Config → Record → Record
stored new_id cfg r =
    let id = or_new new_id r.id in
    record r { id = some id; conn = keep_conn (lookup id cfg.by_id) r.conn }

unfoldable pub upsert : String → Config → Record → Config
unfolding stored
upsert new_id cfg r =
    let id = or_new new_id r.id in
    let current = lookup id cfg.by_id in
    let r' = stored new_id cfg r in
    record {
      by_id = insert id r' cfg.by_id;
      by_tag = drop_empty (tag id r' r'.tags (untag_current id current cfg.by_tag));
    }

-- The loop of `delete`.
unfoldable pub delete_tags :
    String → List String → Map (Map Record) → Map (Map Record) × Option ConfigError
delete_tags id [] by_tag = (by_tag, none)
delete_tags id (t ∷ tags) by_tag = elim (lookup t by_tag) [
  | none ↦ (by_tag, some tag_index_inconsistent)
  | some m ↦
      let m' = delete_key id m in
      delete_tags id tags (if is_empty m' then delete_key t by_tag else insert t m' by_tag)
]

abbrev delete_found : Config → String → Option Record → Config × Option ConfigError
delete_found cfg id none = (cfg, some not_found)
delete_found cfg id (some rec) =
    let (by_tag, e) = delete_tags id rec.tags cfg.by_tag in
    (record { by_id = delete_key id cfg.by_id; by_tag = by_tag }, e)

unfoldable pub delete : Config → String → Config × Option ConfigError
delete cfg id = delete_found cfg id (lookup id cfg.by_id)

unfoldable pub list_all : Config → List Record
list_all cfg = values cfg.by_id

-- An id or a tag that is not there is `status.Error(codes.NotFound, id)`: the error is the text.
unfoldable pub list_by_ids : Config → List String → Result String (List Record)
list_by_ids cfg [] = ok []
list_by_ids cfg (id ∷ ids) = elim (lookup id cfg.by_id) [
  | none ↦ err id
  | some r ↦ elim (list_by_ids cfg ids) [ ok records ↦ ok (r ∷ records) | err e ↦ err e ]
]

unfoldable pub list_by_tags : Config → List String → Result String (List Record)
list_by_tags cfg [] = ok []
list_by_tags cfg (t ∷ tags) = elim (lookup t cfg.by_tag) [
  | none ↦ err t
  | some m ↦ elim (list_by_tags cfg tags) [ ok records ↦ ok (values m ++ records) | err e ↦ err e ]
]

unfoldable pub tags_of : Map (Map Record) → List String
tags_of [] = []
tags_of ((t, m) ∷ by_tag) = let rest = tags_of by_tag in if is_empty m then rest else t ∷ rest

unfoldable pub get_tags : Config → List String
unfolding tags_of
get_tags cfg = tags_of cfg.by_tag
