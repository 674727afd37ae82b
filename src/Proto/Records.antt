-- ===== src/Proto/Records.antt =====
-- The records of the configuration and the requests on them (proto/api.proto). A `bytes` field is
-- a string, and a field that proto marks `optional`, or that holds a message, is an `Option`.
use cli.Base.{String, Bool, Option, List, none, some}
use cli.Proto.Certs.{CertificateInfo}

pub data Protocol : Type 0 where
  unknown tcp udp : Protocol

pub record Certificate : Type 0 where
  pub cert : String
  pub key : Option String
  pub info : Option CertificateInfo

pub record ClientCertFromStore : Type 0 where
  pub issuer_filter : Option String
  pub subject_filter : Option String

-- The `oneof tls_options`.
pub data TlsOptions : Type 0 where
  disable_tls_verification : Bool → TlsOptions
  ca_cert : String → TlsOptions

pub record Connection : Type 0 where
  pub name : Option String
  pub protocol : Option Protocol
  pub remote_addr : String
  pub listen_addr : Option String
  pub pomerium_url : Option String
  pub tls_options : Option TlsOptions
  pub client_cert : Option Certificate
  pub client_cert_from_store : Option ClientCertFromStore

pub record Record : Type 0 where
  pub id : Option String
  pub tags : List String
  pub conn : Option Connection
  pub source : Option String

-- `GetId` and the other generated getters of an optional string: the empty string for nil.
abbrev pub get_string : Option String → String
get_string none = ""
get_string (some s) = s

pub record Selector : Type 0 where
  pub all : Bool
  pub ids : List String
  pub tags : List String

pub record ListenerStatus : Type 0 where
  pub listening : Bool
  pub listen_addr : Option String
  pub last_error : Option String

pub record ImportRequest : Type 0 where
  pub override_tag : Option String
  pub contents : String

pub record ListenerUpdateRequest : Type 0 where
  pub connection_ids : List String
  pub connected : Bool

pub data ConnectionStatus : Type 0 where
  undefined connecting auth_required connected disconnected listening closed : ConnectionStatus

-- Without its timestamp.
pub record ConnectionStatusUpdate : Type 0 where
  pub id : String
  pub peer_addr : Option String
  pub status : ConnectionStatus
  pub last_error : Option String
  pub auth_url : Option String
