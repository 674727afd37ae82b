-- ===== src/Examples/Persists.antt =====
-- Saving and loading, and importing what was exported.
use cli.Base.{sym, ℕ, ◌+◌, String, ◌≡◌, refl, false, none, some, [], ◌∷◌, eq-false}
use cli.Base.Maps.{lookup, insert, values}
use cli.Base.Lists.{length}
use cli.Base.Results.{ok}
use cli.Proto.Records.{Record}
use cli.Api.Config.{Config, new_config, upsert, list_all}
use cli.Api.Config.Index.{IsIndexed, new_config-IsIndexed, IsIndexed-IsIndexedBut, upsert-IsIndexed}
use cli.Api.Persist.{Layout, mem_provider, load_config, save, import_records, export_records}
use cli.Api.Persist.RoundTrip.{SameRecords, save-load}
use cli.Api.Persist.Transfer.{Supply, import-adds}
use cli.Examples.Codecs.{
  one_record, one_record_laws, encode, encode_list, admin, unary, unary-injective, unary-ne_a,
}

abbrev only_a : Config
only_a = upsert "new" new_config (admin "a")

only_a-IsIndexed : IsIndexed only_a
only_a-IsIndexed =
    upsert-IsIndexed "new" new_config (admin "a") (IsIndexed-IsIndexedBut "a" new_config-IsIndexed)

saved_a : (save one_record mem_provider only_a "").1 ≡ none
unfolding save list_all values upsert lookup insert encode encode_list
saved_a = refl

save-load_example :
    (loaded : Config × ℕ) × (load_config one_record mem_provider
        (save one_record mem_provider only_a "").0
        unary
        0
      ≡ ok loaded)
    × IsIndexed loaded.0
    × SameRecords loaded.0 only_a
save-load_example =
    save-load one_record one_record_laws mem_provider (λ bytes storage e. refl) unary 0 only_a ""
      only_a-IsIndexed saved_a

unary-Supply : Supply unary 0 only_a
unary-Supply = record {
  unused = λ k le.
      unfold upsert lookup insert in rw (eq-false "a" (unary k) (λ e. unary-ne_a k (sym e)));
  distinct = unary-injective;
}

exported : export_records one_record (admin "a" ∷ []) false Layout.pretty ≡ ok "n"
unfolding export_records encode encode_list
exported = refl

-- The record that was exported is stored already, and is stored once more.
import-adds_example :
    (after : Config × ℕ) × (import_records one_record unary 0 only_a
        (record { override_tag = none; contents = "n" })
      ≡ ok after)
    × IsIndexed after.0
    × (length (list_all after.0) ≡ length (list_all only_a) + 1)
    × ((id : String) (r : Record)
        → lookup id only_a.by_id ≡ some r
        → lookup id after.0.by_id ≡ some r)
import-adds_example =
    import-adds one_record one_record_laws unary 0 only_a none (admin "a" ∷ []) false Layout.pretty
      "n" only_a-IsIndexed unary-Supply exported
