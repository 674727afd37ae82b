-- ===== src/Api/Service.antt =====
-- api/config_server.go, and `GetStatus` of api/listener_server.go: the handlers on the records.
--
-- `withCertInfo` writes into the records that the configuration holds, too, by their pointers:
-- `write_back` is what that does to the two maps.
pub mod Written
pub mod Deletes
pub mod Upserts
use cli.Base.{
  ℕ, String, ◌≡◌, Bool, true, false, not, Option, none, some, List, [], ◌∷◌, map, ◌==◌,
  if◌then◌else◌, is_some,
}
use cli.Base.Maps.{Map, lookup, insert, map_values}
use cli.Base.Results.{Result, ok, err, map_err, ◌>>=◌}
use cli.Net.{◌<>◌}
use cli.Proto.Certs.{CertificateInfo, X509, X509Certificate}
use cli.Proto.Records.{
  Certificate, Connection, Record, Selector, ImportRequest, ListenerStatus, get_string,
}
use cli.Api.Errors.{ConfigError, text, Code, not_found_code, invalid_argument, internal}
use cli.Api.Config.{
  Config, clear_tags, upsert, stored, delete, list_all, list_by_ids, list_by_tags, get_tags,
}
use cli.Api.Persist.{
  Codec, Provider, Layout, PersistError, taken, save, import_records, export_records, persist_text,
}
use cli.Api.CertInfo.{Lru, get_cert_info, with_cert_info, set_info, set_conn}
use cli.Api.Listener.{Listeners, get_listener_status}
use cli.Api.Connect.{disconnect_loop}

-- The state that the handlers work on: of the server, its configuration, its listeners and its
-- cache of certificates; the storage of the provider; and the number of ids taken.
pub record Service (L S : Type 0) : Type 0 where
  pub config : Config
  pub listeners : Listeners
  pub cert_info : L
  pub storage : S
  pub ids : ℕ

-- `status.Error(code, message)`
pub data RpcError : Type 0 where
  status : Code → String → RpcError

abbrev nonempty {ℓ} : {A : Type ℓ} → List A → Bool
nonempty [] = false
nonempty (x ∷ xs) = true

-- The record of a list that has the id.
unfoldable pub find_id : String → List Record → Option Record
find_id id [] = none
find_id id (r ∷ records) = if get_string r.id == id then some r else find_id id records

abbrev pub conn_of : Option Record → Record → Record
conn_of none r = r
conn_of (some shown) r = record r { conn = shown.conn }

-- A stored record after the connections of the listed records were written.
unfoldable pub rewritten : List Record → Record → Record
unfolding find_id
rewritten records r = conn_of (find_id (get_string r.id) records) r

unfoldable pub write_back : List Record → Config → Config
unfolding rewritten map_values
write_back records cfg = record {
  by_id = map_values (rewritten records) cfg.by_id;
  by_tag = map_values (map_values (rewritten records)) cfg.by_tag;
}

-- What the server is made with, and the libraries that the handlers call.
pub record Parts (L S : Type 0) : Type 1 where
  pub codec : Codec
  pub provider : Provider S
  pub lru : Lru L
  pub x509 : X509
  pub parse_pem : String → Result String (X509Certificate x509)
  -- The error of `tls.X509KeyPair`.
  pub x509_key_pair : String → String → Option String
  pub uuid : ℕ → String

-- Over the fields of a selector.
unfoldable pub select : Selector → Config → Result RpcError (List Record)
select sel cfg =
    if sel.all
    then ok (list_all cfg)
    else if nonempty sel.ids
    then map_err (status not_found_code) (list_by_ids cfg sel.ids)
    else if nonempty sel.tags
    then map_err (status not_found_code) (list_by_tags cfg sel.tags)
    else err (status invalid_argument "either all, ids or tags filter must be specified")

module _ {L S : Type 0} (x : Parts L S) where
  abbrev listed : Service L S → L × List Record → Service L S × Result RpcError (List Record)
  listed s (l, records) =
      (record s { config = write_back records s.config; cert_info = l }, ok records)

  abbrev pub of_select :
      Service L S → Result RpcError (List Record) → Service L S × Result RpcError (List Record)
  of_select s (err e) = (s, err e)
  of_select s (ok records) = listed s (with_cert_info x.lru x.x509 x.parse_pem records s.cert_info)

  unfoldable pub list_locked : Selector → Service L S → Service L S × Result RpcError (List Record)
  unfolding select write_back
  list_locked sel s = of_select s (select sel s.config)

  -- The loop over the ids: what it deleted before an error stays deleted.
  abbrev pub and_then :
      (Config → Config × Option ConfigError)
      → Config × Option ConfigError
      → Config × Option ConfigError
  and_then f (cfg, none) = f cfg
  and_then f (cfg, some e) = (cfg, some e)

  unfoldable pub delete_loop : List String → Config → Config × Option ConfigError
  delete_loop [] cfg = (cfg, none)
  delete_loop (id ∷ ids) cfg = and_then (delete_loop ids) (delete cfg id)

  abbrev pub stored_as : Service L S → S × Option PersistError → Service L S × Option RpcError
  stored_as s (storage, none) = (record s { storage = storage }, none)
  stored_as s (storage, some e) =
      (record s { storage = storage }, some (status internal (persist_text e)))

  -- `s.config.save(s.ConfigProvider)`
  unfoldable pub save_config : Service L S → Service L S × Option RpcError
  save_config s = stored_as s (save x.codec x.provider s.config s.storage)

  abbrev pub after_deletes :
      Service L S → Config × Option ConfigError → Service L S × Option RpcError
  after_deletes s (cfg, some e) = (record s { config = cfg }, some (status internal (text e)))
  after_deletes s (cfg, none) = save_config (record s { config = cfg })

  -- `disconnectLocked` returns no error.
  unfoldable pub delete_ids : List String → Service L S → Service L S × Option RpcError
  unfolding delete_loop save_config
  delete_ids ids s =
      let (l, answers) = disconnect_loop ids [] s.listeners in
      after_deletes (record s { listeners = l }) (delete_loop ids s.config)

  abbrev of_list : Service L S × Result RpcError (List Record) → Service L S × Option RpcError
  of_list (s, err e) = (s, some e)
  of_list (s, ok records) = delete_ids (map (λ (r : Record). get_string r.id) records) s

  -- The handler `Delete`.
  unfoldable pub delete_records : Selector → Service L S → Service L S × Option RpcError
  unfolding list_locked delete_ids
  delete_records sel s = of_list (list_locked sel s)

  -- The request's record with the information on its client certificate, and the cache.
  abbrev with_cert :
      Record
      → Connection
      → Certificate
      → L × Result String CertificateInfo
      → L × Result RpcError Record
  with_cert r conn cert (l, err e) = (l, err (status invalid_argument ("client cert info: " <> e)))
  with_cert r conn cert (l, ok info) = (l, ok (set_conn r conn (set_info cert info)))

  abbrev of_pair :
      Record → Connection → Certificate → L → Option String → L × Result RpcError Record
  of_pair r conn cert l (some e) = (l, err (status invalid_argument ("client cert: " <> e)))
  of_pair r conn cert l none =
      with_cert r conn cert (get_cert_info x.lru x.x509 x.parse_pem cert.cert l)

  abbrev check_cert : Record → Connection → L → Option Certificate → L × Result RpcError Record
  check_cert r conn l none = (l, ok r)
  check_cert r conn l (some cert) =
      of_pair r conn cert l (x.x509_key_pair cert.cert (get_string cert.key))

  abbrev check_conn : Record → L → Option Connection → L × Result RpcError Record
  check_conn r l none = (l, ok r)
  check_conn r l (some conn) = check_cert r conn l conn.client_cert

  unfoldable pub check_request : Record → L → L × Result RpcError Record
  check_request r l = check_conn r l r.conn

  abbrev pub answer_saved :
      Record → Service L S × Option RpcError → Service L S × Result RpcError Record
  answer_saved r (s, none) = (s, ok r)
  answer_saved r (s, some e) = (s, err e)

  abbrev pub after_clear :
      Record → Service L S → Config × Option ConfigError → Service L S × Result RpcError Record
  after_clear r s (cfg, some e) = (record s { config = cfg }, err (status internal (text e)))
  after_clear r s (cfg, none) =
      answer_saved (stored (x.uuid s.ids) cfg r)
        (save_config (record s { config = upsert (x.uuid s.ids) cfg r; ids = taken s.ids r.id }))

  abbrev pub of_check :
      Service L S → L × Result RpcError Record → Service L S × Result RpcError Record
  of_check s (l, err e) = (record s { cert_info = l }, err e)
  of_check s (l, ok r) = after_clear r (record s { cert_info = l }) (clear_tags s.config r)

  -- The handler `Upsert`.
  unfoldable pub upsert_record : Record → Service L S → Service L S × Result RpcError Record
  unfolding check_request save_config
  upsert_record r s = of_check s (check_request r s.cert_info)

  abbrev of_import : Service L S → Result PersistError (Config × ℕ) → Service L S × Option RpcError
  of_import s (err e) = (s, some (status invalid_argument (persist_text e)))
  of_import s (ok (cfg, n)) = save_config (record s { config = cfg; ids = n })

  -- The handler `Import`.
  unfoldable pub import : ImportRequest → Service L S → Service L S × Option RpcError
  unfolding save_config
  import req s = of_import s (import_records x.codec x.uuid s.ids s.config req)

  abbrev of_export :
      Bool
      → Layout
      → Service L S × Result RpcError (List Record)
      → Service L S × Result RpcError String
  of_export remove_tags layout (s, err e) = (s, err e)
  of_export remove_tags layout (s, ok records) =
      (s, map_err (status internal) (export_records x.codec records remove_tags layout))

  -- The handler `Export`, over the fields of the request.
  unfoldable pub export :
      Selector → Bool → Layout → Service L S → Service L S × Result RpcError String
  unfolding list_locked
  export sel remove_tags layout s = of_export remove_tags layout (list_locked sel s)

  unfoldable pub statuses : Listeners → List Record → Map ListenerStatus → Map ListenerStatus
  statuses l [] answers = answers
  statuses l (r ∷ records) answers =
      let id = get_string r.id in statuses l records (insert id (get_listener_status id l) answers)

  abbrev of_status :
      Service L S × Result RpcError (List Record)
      → Service L S × Result RpcError (Map ListenerStatus)
  of_status (s, err e) = (s, err e)
  of_status (s, ok records) = (s, ok (statuses s.listeners records []))

  -- The handler `GetStatus`.
  unfoldable pub get_status :
      Selector → Service L S → Service L S × Result RpcError (Map ListenerStatus)
  unfolding list_locked statuses
  get_status sel s = of_status (list_locked sel s)
