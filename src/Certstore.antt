-- ===== src/Certstore.antt =====
-- certstore/certstore.go: the filters by which a client certificate is chosen in the store of the
-- operating system. `strings.ToLower` is a parameter.
pub mod Filters
use cli.Base.{
  String, ◌≡◌, Bool, true, false, not, ◌||◌, ◌&&◌, Option, none, some, List, [], ◌∷◌, ◌==◌,
  if◌then◌else◌,
}
use cli.Base.Lists.{contains}
use cli.Base.Results.{Result, ok, err, ◌>>=◌, map_err}
use cli.Net.{cut}
use cli.Proto.Certs.{Name}

pub data FilterError : Type 0 where
  not_supported : FilterError
  bad_format unsupported_attribute : String → FilterError

-- The two names of an `x509.Certificate`.
pub record Names : Type 0 where
  pub issuer : Name
  pub subject : Name

abbrev pub no_name : Name
no_name = record {
  country = [];
  organization = [];
  organizational_unit = [];
  locality = [];
  province = [];
  street_address = [];
  postal_code = [];
  serial_number = "";
  common_name = "";
}

unfoldable pub attribute_lookup : Name → String → Result FilterError (List String)
attribute_lookup name attr =
    if attr == "commonname" || attr == "cn"
    then ok (name.common_name ∷ [])
    else if attr == "countryname" || attr == "c"
    then ok name.country
    else if attr == "localityname" || attr == "l"
    then ok name.locality
    else if attr == "organizationalunitname" || attr == "ou"
    then ok name.organizational_unit
    else if attr == "organizationname" || attr == "o"
    then ok name.organization
    else if attr == "postalcode"
    then ok name.postal_code
    else if attr == "serialnumber"
    then ok (name.serial_number ∷ [])
    else if attr == "stateorprovincename" || attr == "st"
    then ok name.province
    else if attr == "streetaddress" || attr == "street"
    then ok name.street_address
    else err (unsupported_attribute attr)

abbrev checked :
    String → String → Result FilterError (List String) → Result FilterError (String × String)
checked attr value (ok values) = ok (attr, value)
checked attr value (err e) = err e

abbrev of_cut :
    (String → String) → String → Option (String × String) → Result FilterError (String × String)
of_cut to_lower f none = err (bad_format f)
of_cut to_lower f (some (attr, value)) =
    checked (to_lower attr) value (attribute_lookup no_name (to_lower attr))

module _ (to_lower : String → String) where
  -- `parseFilterCondition`: the attribute and the value, both empty for no filter.
  unfoldable pub parse_filter_condition : String → Result FilterError (String × String)
  parse_filter_condition f = if f == "" then ok ("", "") else of_cut to_lower f (cut b'=' f)

abbrev holds : String → Result FilterError (List String) → Bool
holds value (ok values) = contains value values
holds value (err e) = false

-- One of the two tests of the callback.
unfoldable pub passes : String × String → Name → Bool
passes (attr, value) name =
    if not (attr == "") then holds value (attribute_lookup name attr) else true

module _ (to_lower : String → String) where
  -- The callback that `filterCallback` returns is a test on the names of a certificate.
  unfoldable pub filter_callback : String → String → Result FilterError (Names → Bool)
  unfolding passes
  filter_callback issuer_filter subject_filter = do
    issuer ← parse_filter_condition to_lower issuer_filter
    subject ← parse_filter_condition to_lower subject_filter
    ok (λ cert. if passes issuer cert.issuer then passes subject cert.subject else false)

  -- The flag is `IsCertstoreSupported`.
  unfoldable pub get_client_certificate_func :
      Bool → String → String → Result FilterError (Names → Bool)
  get_client_certificate_func supported issuer_filter subject_filter =
      if supported then filter_callback issuer_filter subject_filter else err not_supported
