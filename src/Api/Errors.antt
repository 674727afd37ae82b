-- ===== src/Api/Errors.antt =====
-- The errors of api/ and their texts.
use cli.Base.{String}
use cli.Net.{◌<>◌}

-- `errors.New` and `fmt.Errorf` values of config.go, server.go and listener.go.
pub data ConfigError : Type 0 where
  not_found tag_index_inconsistent already_listening not_listening invalid_state : ConfigError
  expect_by_id : String → ConfigError
  expect_tag expect_entry : String → String → ConfigError

-- `err.Error()`
abbrev pub text : ConfigError → String
text not_found = "not found"
text tag_index_inconsistent = "tag index inconsistent. this is a bug"
text already_listening = "already listening"
text not_listening = "not listening"
text invalid_state = "invalid state"
text (expect_by_id id) = "expect record id=" <> id <> " be in byID"
text (expect_tag id t) = "expect record id=" <> id <> " with tag=" <> t <> " be in byTag"
text (expect_entry id t) = "expect record id=" <> id <> " with tag=" <> t <> " be in byTag[]byID"

-- gRPC status codes that the handlers return.
pub data Code : Type 0 where
  not_found_code invalid_argument internal : Code
