-- ===== src/Api/Service/Upserts.antt =====
-- The handler `Upsert` of api/config_server.go.
use cli.Base.{ℕ, String, ◌≡◌, refl, sym, ◌∙◌, ap, Option, none, some, arith, eq_refl, subst}
use cli.Base.Maps.{lookup, lookup-insert}
use cli.Base.Results.{Result, ok, err}
use cli.Proto.Records.{Record, get_string}
use cli.Api.Errors.{ConfigError}
use cli.Api.Config.{Config, or_new, clear_tags, upsert, stored}
use cli.Api.Config.Index.{IsIndexedBut, IsIndexed, upsert-IsIndexed}
use cli.Api.Config.Clear.{clear_tags-IsIndexedBut}
use cli.Api.Persist.{taken, PersistError, CodecLaws, ProviderLaws, load_config, save}
use cli.Api.Persist.RoundTrip.{save-load}
use cli.Api.Service.{
  Service, RpcError, Parts, stored_as, answer_saved, after_clear, of_check, check_request,
  save_config, upsert_record,
}

abbrev or_else : Record → Result RpcError Record → Record
or_else q (ok r) = r
or_else q (err e) = q

abbrev answer : Record → Result RpcError Record
answer r = ok r

ok_inj : {r q : Record} → answer r ≡ answer q → r ≡ q
ok_inj {r} e = ap (or_else r) e

upsert-stored :
    (new_id : String) (cfg : Config) (r : Record)
    → lookup (get_string (stored new_id cfg r).id) (upsert new_id cfg r).by_id
      ≡ some (stored new_id cfg r)
unfolding upsert stored
upsert-stored new_id cfg r = ground (
  arith,
  lookup-insert (or_new new_id r.id) (or_new new_id r.id) (stored new_id cfg r) cfg.by_id,
  eq_refl (or_new new_id r.id),
)

module _ {L S : Type 0} (x : Parts L S) (laws : CodecLaws x.codec)
    (keeps : ProviderLaws x.provider) where
  -- The configuration holds the record under its id, and so does what the storage loads as.
  abbrev pub Holds : Record → Service L S → Type 0
  Holds r t =
      IsIndexed t.config
      × (lookup (get_string r.id) t.config.by_id ≡ some r)
      × ((loaded : Config × ℕ) × (load_config x.codec x.provider t.storage x.uuid t.ids ≡ ok loaded)
          × (lookup (get_string r.id) loaded.0.by_id ≡ some r))

  saved-Holds :
      (s t : Service L S) (r q : Record) (p : S × Option PersistError)
      → save x.codec x.provider s.config s.storage ≡ p
      → IsIndexed s.config
      → lookup (get_string r.id) s.config.by_id ≡ some r
      → answer_saved x r (stored_as x s p) ≡ (t, ok q)
      → Holds q t
  saved-Holds s t r q (storage, some f) e h there done = absurd (ground (arith, done))
  saved-Holds s t r q (storage, none) e h there done =
      let (loaded, loads, is, records) =
        save-load x.codec laws x.provider keeps x.uuid s.ids s.config s.storage h
          (ap (λ p. p.1) e) in
      let held : Holds r (record s { storage = storage }) = (
        h,
        there,
        (
          loaded,
          ap (λ st. load_config x.codec x.provider st x.uuid s.ids) (sym (ap (λ p. p.0) e)) ∙ loads,
          records.same_ids (get_string r.id) ∙ there,
        ),
      ) in
      let state : record s { storage = storage } ≡ t = ap (λ p. p.0) done in
      let same : r ≡ q = ok_inj (ap (λ p. p.1) done) in
      subst (λ u. Holds q u) state (subst (λ v. Holds v (record s { storage = storage })) same held)

  after_clear-Holds :
      (s t : Service L S) (r q : Record) (p : Config × Option ConfigError)
      → clear_tags s.config r ≡ p
      → IsIndexed s.config
      → after_clear x r s p ≡ (t, ok q)
      → Holds q t
  unfolding save_config
  after_clear-Holds s t r q (cfg, some f) e h done = absurd (ground (arith, done))
  after_clear-Holds s t r q (cfg, none) e h done =
      let new_id = x.uuid s.ids in
      let but = clear_tags-IsIndexedBut new_id s.config r h (ap (λ p. p.1) e) in
      let indexed : IsIndexed (upsert new_id cfg r) =
        upsert-IsIndexed new_id cfg r
          (subst (λ c. IsIndexedBut (or_new new_id r.id) c) (ap (λ p. p.0) e) but) in
      saved-Holds (record s { config = upsert new_id cfg r; ids = taken s.ids r.id }) t
        (stored new_id cfg r) q _ refl indexed (upsert-stored new_id cfg r) done

  of_check-Holds :
      (s t : Service L S) (q : Record) (p : L × Result RpcError Record)
      → IsIndexed s.config
      → of_check x s p ≡ (t, ok q)
      → Holds q t
  of_check-Holds s t q (l, err e) h done = absurd (ground (arith, done))
  of_check-Holds s t q (l, ok r) h done =
      after_clear-Holds (record s { cert_info = l }) t r q (clear_tags s.config r) refl h done

  -- With an encoding that reads back what it writes and a provider that loads what it saved, on an
  -- indexed configuration: when `Upsert` answers with a record, the configuration is indexed and
  -- holds that record under its id, and the storage loads as a configuration that holds it, too.
  pub upsert_record-Holds :
      (r q : Record) (s t : Service L S)
      → IsIndexed s.config
      → upsert_record x r s ≡ (t, ok q)
      → Holds q t
  unfolding upsert_record
  upsert_record-Holds r q s t h done = of_check-Holds s t q (check_request x r s.cert_info) h done
