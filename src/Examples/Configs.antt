-- ===== src/Examples/Configs.antt =====
-- The configuration: two records that share a tag, updates of them, and records with a repeated
-- tag.
use cli.Base.{String, ◌≡◌, refl, ◌↔◌, none, some, [], ◌∷◌, ◌==◌, if◌then◌else◌}
use cli.Base.Maps.{lookup, insert, delete as delete_key}
use cli.Base.Lists.{contains, Distinct}
use cli.Proto.Records.{Record}
use cli.Api.Config.{
  drop_empty, tag, untag, delete_tags, Config, new_config, upsert, delete, clear_tags, list_by_tags,
  get_tags,
}
use cli.Api.Config.Index.{IsIndexed, new_config-IsIndexed, IsIndexed-IsIndexedBut, upsert-IsIndexed}
use cli.Api.Config.Delete.{delete-IsIndexed}
use cli.Api.Config.Clear.{clear_tags-ok_iff}
use cli.Api.Config.Queries.{AreTagged, list_by_tags-AreTagged}

abbrev pub rec_a : Record
rec_a = record { id = some "a"; tags = "alpha" ∷ "bravo" ∷ []; conn = none; source = none }

abbrev pub rec_b : Record
rec_b = record { id = some "b"; tags = "go" ∷ "bravo" ∷ []; conn = none; source = none }

abbrev pub one : Config
one = upsert "new" new_config rec_a

abbrev pub two : Config
two = upsert "new" one rec_b

pub one-IsIndexed : IsIndexed one
one-IsIndexed =
    upsert-IsIndexed "new" new_config rec_a (IsIndexed-IsIndexedBut "a" new_config-IsIndexed)

pub two-IsIndexed : IsIndexed two
two-IsIndexed = upsert-IsIndexed "new" one rec_b (IsIndexed-IsIndexedBut "b" one-IsIndexed)

two_tags : get_tags two ≡ "alpha" ∷ "bravo" ∷ "go" ∷ []
unfolding get_tags upsert untag tag drop_empty lookup insert
two_tags = refl

delete_a : (delete two "a").1 ≡ none
unfolding delete delete_tags upsert untag tag drop_empty lookup insert delete_key
delete_a = refl

delete-IsIndexed_example :
    IsIndexed (delete two "a").0
    × ((j : String)
        → lookup j (delete two "a").0.by_id ≡ (if "a" == j then none else lookup j two.by_id))
delete-IsIndexed_example = delete-IsIndexed two "a" two-IsIndexed delete_a

stored_a : lookup "a" two.by_id ≡ some rec_a
unfolding upsert lookup insert
stored_a = refl

tags_a-Distinct : Distinct rec_a.tags
unfolding contains
tags_a-Distinct = (refl, (refl, tt))

clear_tags-ok_iff_example : ((clear_tags two rec_a).1 ≡ none) ↔ Distinct rec_a.tags
clear_tags-ok_iff_example = clear_tags-ok_iff two rec_a "a" rec_a two-IsIndexed refl stored_a

-- A record whose tag is written twice.
abbrev rec_twice : Record
rec_twice = record { id = some "c"; tags = "red" ∷ "red" ∷ []; conn = none; source = none }

abbrev repeated : Config
repeated = upsert "new" new_config rec_twice

list_by_tags-AreTagged_example :
    AreTagged two ("bravo" ∷ "go" ∷ []) (list_by_tags two ("bravo" ∷ "go" ∷ []))
list_by_tags-AreTagged_example = list_by_tags-AreTagged two ("bravo" ∷ "go" ∷ []) two-IsIndexed
