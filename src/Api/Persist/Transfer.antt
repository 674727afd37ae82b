-- ===== src/Api/Persist/Transfer.antt =====
-- `Import` of what `Export` wrote.
use cli.Base.{
  ℕ, suc, ◌+◌, ◌≤◌, String, ◌≡◌, refl, ap, Bool, true, false, Option, none, some, List, [], ◌∷◌,
  arith, ◌==◌, eq_iff, if◌then◌else◌, map,
}
use cli.Base.Lists.{length}
use cli.Base.Maps.{Map, lookup, values, insert}
use cli.Base.Results.{ok}
use cli.Proto.Records.{Record}
use cli.Api.Config.{Config, or_new, stored, upsert, list_all}
use cli.Api.Config.Index.{IsIndexed, IsIndexed-IsIndexedBut, upsert-IsIndexed, upsert-by_id}
use cli.Api.Persist.{
  taken, Codec, CodecLaws, Layout, override, strip, upsert_all, import_records, export_records,
}
use cli.Api.Persist.RoundTrip.{upsert_all-IsIndexed}

-- The ids that are still to be drawn are not in use, and none is drawn twice.
pub record Supply (uuid : ℕ → String) (n : ℕ) (cfg : Config) : Type 0 where
  pub unused : (k : ℕ) → n ≤ k → lookup (uuid k) cfg.by_id ≡ none
  pub distinct : (i j : ℕ) → uuid i ≡ uuid j → i ≡ j

length-insert_new {ℓ} :
    {V : Type ℓ} (k : String) (v : V) (m : Map V)
    → lookup k m ≡ none
    → length (values (insert k v m)) ≡ suc (length (values m))
unfolding insert lookup values
length-insert_new k v [] e = refl
length-insert_new k v ((j, w) ∷ m) e = ground (arith, e, length-insert_new k v m)

abbrev HaveNoId : List Record → Type 0
HaveNoId [] = Unit
HaveNoId (r ∷ records) = (r.id ≡ none) × HaveNoId records

upsert-new :
    (new_id : String) (cfg : Config) (r : Record) (j : String)
    → IsIndexed cfg
    → r.id ≡ none
    → lookup j (upsert new_id cfg r).by_id
      ≡ (if new_id == j then some (stored new_id cfg r) else lookup j cfg.by_id)
upsert-new new_id cfg r j h e =
    ground (arith, e, upsert-by_id new_id cfg r (IsIndexed-IsIndexedBut (or_new new_id r.id) h) j)

count-upsert_new :
    (new_id : String) (cfg : Config) (r : Record)
    → r.id ≡ none
    → lookup new_id cfg.by_id ≡ none
    → length (list_all (upsert new_id cfg r)) ≡ suc (length (list_all cfg))
unfolding list_all upsert
count-upsert_new new_id cfg r e gone =
    length-insert_new (or_new new_id r.id) (stored new_id cfg r) cfg.by_id (rw e gone)

Supply-upsert :
    (uuid : ℕ → String) (n : ℕ) (cfg : Config) (r : Record)
    → IsIndexed cfg
    → r.id ≡ none
    → Supply uuid n cfg
    → Supply uuid (suc n) (upsert (uuid n) cfg r)
Supply-upsert uuid n cfg r h e s = record {
  unused = λ k le. ground (
    arith,
    upsert-new (uuid n) cfg r (uuid k) h e,
    eq_iff (uuid n) (uuid k),
    s.distinct n k,
    s.unused k,
  );
  distinct = s.distinct;
}

-- What the loop leaves after records without an id.
record Added (cfg after : Config) (records : List Record) : Type 0 where
  counted : length (list_all after) ≡ length (list_all cfg) + length records
  kept : (id : String) (r : Record) → lookup id cfg.by_id ≡ some r → lookup id after.by_id ≡ some r

upsert_all-new :
    (uuid : ℕ → String) (n : ℕ) (cfg : Config) (r : Record) (records : List Record)
    → r.id ≡ none
    → upsert_all uuid n cfg (r ∷ records) ≡ upsert_all uuid (suc n) (upsert (uuid n) cfg r) records
unfolding upsert_all
upsert_all-new uuid n cfg r records e =
    ap (λ o. upsert_all uuid (taken n o) (upsert (uuid n) cfg r) records) e

upsert_all-Added :
    (uuid : ℕ → String) (n : ℕ) (cfg : Config) (records : List Record)
    → IsIndexed cfg
    → HaveNoId records
    → Supply uuid n cfg
    → Added cfg (upsert_all uuid n cfg records).0 records
upsert_all-Added uuid n cfg [] h f s =
    unfold upsert_all in record { counted = omega arith; kept = λ id r e. e }
upsert_all-Added uuid n cfg (r ∷ records) h f s =
    let next = upsert (uuid n) cfg r in
    let a =
      upsert_all-Added uuid (suc n) next records
        (upsert-IsIndexed (uuid n) cfg r (IsIndexed-IsIndexedBut (or_new (uuid n) r.id) h)) f.1
        (Supply-upsert uuid n cfg r h f.0 s) in
    rw (upsert_all-new uuid n cfg r records f.0) (record {
      counted =
          omega (arith, a.counted, count-upsert_new (uuid n) cfg r f.0 (s.unused n (omega arith)));
      kept = λ id old e.
          a.kept id old
            (ground (arith, upsert-new (uuid n) cfg r id h f.0, eq_iff (uuid n) id, s.unused n, e));
    })

HaveNoId-strip : (remove : Bool) (records : List Record) → HaveNoId (map (strip remove) records)
HaveNoId-strip remove [] = tt
HaveNoId-strip true (r ∷ records) = (refl, HaveNoId-strip true records)
HaveNoId-strip false (r ∷ records) = (refl, HaveNoId-strip false records)

HaveNoId-override :
    (tag : Option String) (records : List Record)
    → HaveNoId records
    → HaveNoId (map (override tag) records)
HaveNoId-override tag [] h = tt
HaveNoId-override none (r ∷ records) h = (h.0, HaveNoId-override none records h.1)
HaveNoId-override (some t) (r ∷ records) h = (h.0, HaveNoId-override (some t) records h.1)

length-map {ℓ} : {A B : Type ℓ} (f : A → B) (xs : List A) → length (map f xs) ≡ length xs
length-map f [] = refl
length-map f (x ∷ xs) = ap suc (length-map f xs)

module _ (c : Codec) (laws : CodecLaws c) where
  import-exported :
      (uuid : ℕ → String) (n : ℕ) (cfg : Config) (tag : Option String) (recs : List Record)
      (remove : Bool) (layout : Layout) (bytes : String)
      → export_records c recs remove layout ≡ ok bytes
      → import_records c uuid n cfg (record { override_tag = tag; contents = bytes })
        ≡ ok (upsert_all uuid n cfg (map (override tag) (map (strip remove) recs)))
  unfolding import_records export_records
  import-exported uuid n cfg tag recs remove layout bytes e =
      let any = c.new_any (map (strip remove) recs) in
      rw (laws.reads_back layout false any bytes e) (rw (laws.unpacks (map (strip remove) recs)))

  -- The import of an export of `recs` meets no error, files a new record for each of `recs` under a
  -- new id, whatever is stored already, and leaves the stored records as they are.
  pub import-adds :
      (uuid : ℕ → String) (n : ℕ) (cfg : Config) (tag : Option String) (recs : List Record)
      (remove : Bool) (layout : Layout) (bytes : String)
      → IsIndexed cfg
      → Supply uuid n cfg
      → export_records c recs remove layout ≡ ok bytes
      → (after : Config × ℕ) × (import_records c uuid n cfg
            (record { override_tag = tag; contents = bytes })
          ≡ ok after)
        × IsIndexed after.0
        × (length (list_all after.0) ≡ length (list_all cfg) + length recs)
        × ((id : String) (r : Record)
            → lookup id cfg.by_id ≡ some r
            → lookup id after.0.by_id ≡ some r)
  import-adds uuid n cfg tag recs remove layout bytes h s e =
      let records = map (override tag) (map (strip remove) recs) in
      let a =
        upsert_all-Added uuid n cfg records h
          (HaveNoId-override tag (map (strip remove) recs) (HaveNoId-strip remove recs)) s in
      (
        upsert_all uuid n cfg records,
        import-exported uuid n cfg tag recs remove layout bytes e,
        upsert_all-IsIndexed uuid n cfg records h,
        omega (
          arith,
          a.counted,
          length-map (override tag) (map (strip remove) recs),
          length-map (strip remove) recs,
        ),
        a.kept,
      )
