-- ===== src/Api/CertInfo/Cached.antt =====
-- api/cert_info.go beside the parser alone.
use cli.Base.{
  String, ◌≡◌, refl, sym, ◌∙◌, ap, Option, none, some, List, [], ◌∷◌, ◌==◌, if◌then◌else◌, map,
  Bool-cases, inl, inr,
}
use cli.Base.Results.{Result, ok, err}
use cli.Net.{◌<>◌}
use cli.Proto.Certs.{CertificateInfo, X509, X509Certificate, new_cert_info}
use cli.Proto.Records.{Certificate, Connection, Record}
use cli.Api.CertInfo.{
  Lru, LruLaws, shown_info, set_info, set_conn, get_cert_info, with_info, with_cert_info,
  add_parsed, of_get,
}
use cli.Api.CertInfo as C

module _ (x : X509) (parse_pem : String → Result String (X509Certificate x)) where
  -- Without a cache.
  abbrev of_parsed : Result String (X509Certificate x) → Result String CertificateInfo
  of_parsed (ok cert) = ok (new_cert_info x cert)
  of_parsed (err e) = err ("parsing cert: " <> e)

  abbrev pub info_of : String → Result String CertificateInfo
  info_of raw = if raw == "" then err "missing cert data" else of_parsed (parse_pem raw)

  abbrev of_cert : Record → Connection → Option Certificate → Record
  of_cert r conn none = r
  of_cert r conn (some cert) = set_conn r conn (set_info cert (shown_info (info_of cert.cert)))

  abbrev of_conn : Record → Option Connection → Record
  of_conn r none = r
  of_conn r (some conn) = of_cert r conn conn.client_cert

  abbrev pub informed : Record → Record
  informed r = of_conn r r.conn

  module _ {L : Type 0} (c : Lru L) (laws : LruLaws c) where
    -- The cache holds nothing but what was parsed.
    abbrev pub Sound : L → Type 0
    Sound l =
        (raw : String) (info : CertificateInfo)
        → (c.get raw l).1 ≡ some info
        → of_parsed (parse_pem raw) ≡ ok info

    add_parsed-Sound :
        (raw : String) (l : L) (r : Result String (X509Certificate x))
        → parse_pem raw ≡ r
        → Sound l
        → ((add_parsed c x parse_pem raw l r).1 ≡ of_parsed r)
          × Sound (add_parsed c x parse_pem raw l r).0
    add_parsed-Sound raw l (err e) p h = (refl, h)
    add_parsed-Sound raw l (ok cert) p h = (
      refl,
      λ j info e. elim (laws.add-keeps raw j (new_cert_info x cert) info l e) [
        | inl (at, same) ↦ ap (λ k. of_parsed (parse_pem k)) at ∙ ap of_parsed p ∙ ap ok (sym same)
        | inr older ↦ h j info older
      ],
    )

    of_get-Sound :
        (raw : String) (p : L × Option CertificateInfo)
        → ((info : CertificateInfo) → p.1 ≡ some info → of_parsed (parse_pem raw) ≡ ok info)
        → Sound p.0
        → ((of_get c x parse_pem raw p).1 ≡ of_parsed (parse_pem raw))
          × Sound (of_get c x parse_pem raw p).0
    of_get-Sound raw (l, some info) hit h = (sym (hit info refl), h)
    of_get-Sound raw (l, none) hit h = add_parsed-Sound raw l (parse_pem raw) refl h

    get_cert_info-info_of :
        (raw : String) (l : L)
        → Sound l
        → ((get_cert_info c x parse_pem raw l).1 ≡ info_of raw)
          × Sound (get_cert_info c x parse_pem raw l).0
    unfolding get_cert_info
    get_cert_info-info_of raw l h = elim (Bool-cases (raw == "")) [
      | inl empty ↦ rw empty (refl, h)
      | inr full ↦ rw full (
          of_get-Sound raw (c.get raw l) (h raw)
            λ j info e. h j info (laws.get-keeps raw j l info e))
    ]

    of_cert-informed :
        (r : Record) (conn : Connection) (l : L) (o : Option Certificate)
        → Sound l
        → ((C.of_cert c x parse_pem r conn l o).1 ≡ of_cert r conn o)
          × Sound (C.of_cert c x parse_pem r conn l o).0
    of_cert-informed r conn l none h = (refl, h)
    of_cert-informed r conn l (some cert) h =
        let (same, sound) = get_cert_info-info_of cert.cert l h in
        (ap (λ info. set_conn r conn (set_info cert (shown_info info))) same, sound)

    of_conn-informed :
        (r : Record) (l : L) (o : Option Connection)
        → Sound l
        → ((C.of_conn c x parse_pem r l o).1 ≡ of_conn r o)
          × Sound (C.of_conn c x parse_pem r l o).0
    of_conn-informed r l none h = (refl, h)
    of_conn-informed r l (some conn) h = of_cert-informed r conn l conn.client_cert h

    -- Over a cache that keeps its promises and holds nothing but what was parsed: `withCertInfo` gives
    -- each record the information on its certificate that the parser gives without a cache, errors
    -- included, and the cache still holds nothing but what was parsed.
    pub with_cert_info-informed :
        (records : List Record) (l : L)
        → Sound l
        → ((with_cert_info c x parse_pem records l).1 ≡ map informed records)
          × Sound (with_cert_info c x parse_pem records l).0
    unfolding with_cert_info with_info
    with_cert_info-informed [] l h = (refl, h)
    with_cert_info-informed (r ∷ records) l h =
        let (same, sound) = of_conn-informed r l r.conn h in
        let (rest, still) = with_cert_info-informed records (with_info c x parse_pem r l).0 sound in
        (cc, still)
