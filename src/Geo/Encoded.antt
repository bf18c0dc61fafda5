-- ===== src/Geo/Encoded.antt =====
-- The reader of internal/geodb/v2dat.go on files of the format.
use native.Mathlib.Nat.{mod-eq_of_lt}
use purewrt.Prelude.{
  ℕ, zero, suc, ◌-◌, ◌/◌, ◌%◌, ◌^◌, ◌≤◌, ◌<◌, ◌≡◌, refl, ap, ap₂, ◌∙◌, arith, Bool, true, false,
  ◌&&◌, List, [], ◌∷◌, ◌++◌, All, ltb, leb, if◌then◌else◌, length, length-append, Result, ok,
}
use purewrt.Text.{Text, text_eq}
use purewrt.Text.Space.{trim_space}
use purewrt.Text.Case.{to_lower}
use purewrt.Rules.{Rule}
use purewrt.Mrs.Reader.{Bytes}
use purewrt.Mrs.Words.Value.{power_le}
use purewrt.Mesh.SyncCode.Payload.{take-append, drop-append}
use purewrt.Geo.{
  GeoError, read_varint_from, read_varint, go, stop, pass, Handler, read_bytes_field, skip_field,
  fields, bytes_step, varint_step, scan_entries, record_handler, name_handler, entry_name,
  domain_handler, parse_domain, collect_domain, visit_entry, extract, extract_geo_site_rules,
}
use purewrt.Geo.Varint.{put_varint, read_varint-put_varint}
use purewrt.Geo.Format.{
  GeoDomain, GeoSite, put_field, put_all, encode_domain, encode_site, encode_sites, fold_left,
  take_domain, take_site, rules_of_sites,
}

module _ (width : ℕ) (is_word : width ≤ 64) where
  -- A length that an int holds.
  abbrev pub Fits : Bytes → Type 0
  Fits bytes = length bytes < 2 ^ (width - 1)

  abbrev pub FitsDomain : GeoDomain → Type 0
  FitsDomain d = (d.type < 2 ^ 64) × Fits d.value × Fits (encode_domain d)

  abbrev pub FitsSite : GeoSite → Type 0
  FitsSite s = Fits s.name × Fits (encode_site s) × All FitsDomain s.domains

  read_varint-tag : (tag : ℕ) (r : Bytes) → ltb tag 128 ≡ true → read_varint (tag ∷ r) ≡ ok (tag, r)
  unfolding read_varint read_varint_from
  read_varint-tag tag r h = rw h (ap (λ t. ok (t, r)) (ground (arith, h)))

  small_word : (n : ℕ) → n < 2 ^ (width - 1) → (n < 2 ^ width) × (n < 2 ^ 64)
  small_word n h = (
    omega (arith, h, power_le (width - 1) width (omega arith)),
    omega (arith, h, power_le (width - 1) 64 (omega (arith, is_word))),
  )

  read_bytes_field-put :
      (bytes rest : Bytes)
      → Fits bytes
      → read_bytes_field width (put_varint (length bytes) ++ (bytes ++ rest)) ≡ ok (bytes, rest)
  unfolding read_bytes_field
  read_bytes_field-put bytes rest h =
      let (small, below) = small_word (length bytes) h in
      rw (read_varint-put_varint (length bytes) (bytes ++ rest) below, mod_small small, fits)
        (ap₂ (λ x y. ok (x, y)) (take-append (length bytes) bytes rest refl)
          (drop-append (length bytes) bytes rest refl))
    where
      mod_small : length bytes < 2 ^ width → length bytes % 2 ^ width ≡ length bytes
      mod_small g = mod-eq_of_lt g

      fits :
          (ltb (length bytes) (2 ^ (width - 1)) && leb (length bytes) (length (bytes ++ rest)))
          ≡ true
      fits = ground (arith, h, length-append bytes rest)

  -- One round of a loop.
  module _ {S : Type 0} (handle : Handler S) where
    fields-go :
        (fuel tag : ℕ) (s s' : S) (next rest : Bytes) (out : Result GeoError S)
        → length next < fuel
        → length rest ≤ length next
        → ltb tag 128 ≡ true
        → handle s (tag / 8) (tag % 8) next ≡ ok (go s' rest)
        → ((n : ℕ) → length rest ≤ n → fields width handle n s' rest ≡ out)
        → fields width handle fuel s (tag ∷ next) ≡ out
    unfolding fields
    fields-go zero tag s s' next rest out g le t h on = absurd (omega (arith, g))
    fields-go (suc n) tag s s' next rest out g le t h on =
        rw (read_varint-tag tag next t, h) (on n (omega (arith, g, le)))

    fields-stop :
        (fuel tag : ℕ) (s s' : S) (next : Bytes)
        → length next < fuel
        → ltb tag 128 ≡ true
        → handle s (tag / 8) (tag % 8) next ≡ ok (stop s')
        → fields width handle fuel s (tag ∷ next) ≡ ok s'
    unfolding fields
    fields-stop zero tag s s' next g t h = absurd (omega (arith, g))
    fields-stop (suc n) tag s s' next g t h = rw (read_varint-tag tag next t, h) refl

    fields-pass :
        (fuel tag : ℕ) (s : S) (next rest : Bytes) (out : Result GeoError S)
        → length next < fuel
        → length rest ≤ length next
        → ltb tag 128 ≡ true
        → handle s (tag / 8) (tag % 8) next ≡ ok pass
        → skip_field width (tag % 8) next ≡ ok rest
        → ((n : ℕ) → length rest ≤ n → fields width handle n s rest ≡ out)
        → fields width handle fuel s (tag ∷ next) ≡ out
    unfolding fields
    fields-pass zero tag s next rest out g le t h k on = absurd (omega (arith, g))
    fields-pass (suc n) tag s next rest out g le t h k on =
        rw (read_varint-tag tag next t, h, k) (on n (omega (arith, g, le)))

  put_shorter :
      (bytes rest : Bytes) → length rest ≤ length (put_varint (length bytes) ++ (bytes ++ rest))
  put_shorter bytes rest =
      omega
        (arith, length-append (put_varint (length bytes)) (bytes ++ rest), length-append bytes rest)

  bytes_step-put :
      {S : Type 0} (use_bytes : Bytes → Result GeoError S) (s : S) (bytes rest : Bytes)
      → Fits bytes
      → use_bytes bytes ≡ ok s
      → bytes_step width use_bytes (put_varint (length bytes) ++ (bytes ++ rest)) ≡ ok (go s rest)
  bytes_step-put use_bytes s bytes rest h e = rw (read_bytes_field-put bytes rest h, e) refl

  -- A loop over one kind of records.
  module _ {S A : Type 0} (tag : ℕ) (handle : Handler S) (cb : S → Bytes → Result GeoError S)
      (encode : A → Bytes) (take_item : S → A → S) (Good : A → Type 0) (is_tag : ltb tag 128 ≡ true)
      (reads : (s : S) (next : Bytes)
        → handle s (tag / 8) (tag % 8) next ≡ bytes_step width (cb s) next)
      (fits : (a : A) → Good a → Fits (encode a))
      (taken : (s : S) (a : A) → Good a → cb s (encode a) ≡ ok (take_item s a)) where
    fields-put_all :
        (items : List A) (s : S) (fuel : ℕ)
        → All Good items
        → length (put_all tag encode items) ≤ fuel
        → fields width handle fuel s (put_all tag encode items) ≡ ok (fold_left take_item s items)
    unfolding put_all fold_left
    fields-put_all [] s fuel h le = unfold fields in refl
    fields-put_all (a ∷ items) s fuel (g, h) le =
        fields-go handle fuel tag s (take_item s a) _ (put_all tag encode items) _
          (omega (arith, le)) (put_shorter (encode a) (put_all tag encode items)) is_tag
          (reads s _
            ∙ bytes_step-put (cb s) (take_item s a) (encode a) (put_all tag encode items) (fits a g)
                (taken s a g))
          (λ n le'. fields-put_all items (take_item s a) n h le')

  collect_domain-encode :
      (s : List Rule × ℕ) (d : GeoDomain)
      → FitsDomain d
      → collect_domain width s (encode_domain d) ≡ ok (take_domain s d)
  unfolding parse_domain
  collect_domain-encode s d (t, v, e) = rw read refl
    where
      numbered :
          varint_step width {S = ℕ × Text}
            (λ n. (n, []))
            (put_varint d.type ++ put_field 18 d.value [])
          ≡ ok (go (d.type, []) (put_field 18 d.value []))
      numbered = rw (read_varint-put_varint d.type (put_field 18 d.value []) t) refl

      read :
          fields width (domain_handler width) (length (encode_domain d)) (0, []) (encode_domain d)
          ≡ ok (d.type, d.value)
      read =
          fields-go (domain_handler width) _ 8 (0, []) (d.type, []) _ (put_field 18 d.value []) _
            (omega arith)
            (omega (arith, length-append (put_varint d.type) (put_field 18 d.value []))) refl
            numbered
            (λ n le.
              fields-go (domain_handler width) n 18 (d.type, []) (d.type, d.value) _ [] _
                (omega (arith, le)) (omega arith) refl
                (bytes_step-put (λ b. ok (d.type, b)) (d.type, d.value) d.value [] v refl)
                (λ m le'. unfold fields in refl))

  entry_name-encode :
      (name rest : Bytes) → Fits name → entry_name width (put_field 10 name rest) ≡ ok name
  unfolding entry_name
  entry_name-encode name rest h =
      fields-stop (name_handler width) _ 10 [] name _ (omega arith) refl
        (rw (read_bytes_field-put name rest h) refl)

  skip_field-put :
      (bytes rest : Bytes)
      → Fits bytes
      → skip_field width 2 (put_varint (length bytes) ++ (bytes ++ rest)) ≡ ok rest
  unfolding skip_field
  skip_field-put bytes rest h = rw (read_bytes_field-put bytes rest h) refl

  visit_entry-encode :
      (want : Text) (st : Bool × (List Rule × ℕ)) (site : GeoSite)
      → FitsSite site
      → visit_entry width (collect_domain width) want st (encode_site site)
        ≡ ok (take_site want st site)
  unfolding visit_entry
  visit_entry-encode want (found, s) site (n, e, ds) =
      rw (entry_name-encode site.name (put_all 18 encode_domain site.domains) n, records)
        (matching (text_eq (to_lower site.name) want) (true, fold_left take_domain s site.domains)
          (found, s))
    where
      matching :
          {A : Type 0} (test : Bool) (x y : A)
          → ◌≡◌ {A = Result GeoError A} (if test then ok x else ok y) (ok (if test then x else y))
      matching true x y = refl
      matching false x y = refl

      records :
          fields width
            (record_handler width (collect_domain width))
            (length (encode_site site))
            s
            (encode_site site)
          ≡ ok (fold_left take_domain s site.domains)
      records =
          fields-pass (record_handler width (collect_domain width)) _ 10 s _
            (put_all 18 encode_domain site.domains) _ (omega arith)
            (put_shorter site.name (put_all 18 encode_domain site.domains)) refl refl
            (skip_field-put site.name (put_all 18 encode_domain site.domains) n)
            (λ m le.
              fields-put_all 18 (record_handler width (collect_domain width)) (collect_domain width)
                encode_domain take_domain FitsDomain refl (λ s next. refl) (λ d g. g.2)
                collect_domain-encode site.domains s m ds le)

  -- From a file of entries whose parts have lengths that an int holds, the extraction of a category
  -- returns what the entries say: the rules of the domains of all entries of that name, in order, the
  -- number of the domains that are skipped, or the error for a name that is empty or not there.
  pub extract_geo_site_rules-encode :
      (category : Text) (sites : List GeoSite)
      → All FitsSite sites
      → extract_geo_site_rules width category (encode_sites sites) ≡ rules_of_sites category sites
  unfolding extract_geo_site_rules extract scan_entries
  extract_geo_site_rules-encode category sites h = rw scanned refl
    where
      scanned :
          scan_entries width
            (visit_entry width (collect_domain width) (to_lower (trim_space category)))
            (false, ([], 0))
            (encode_sites sites)
          ≡ ok (fold_left (take_site (to_lower (trim_space category))) (false, ([], 0)) sites)
      scanned =
          fields-put_all 10 _
            (visit_entry width (collect_domain width) (to_lower (trim_space category))) encode_site
            (take_site (to_lower (trim_space category))) FitsSite refl (λ s next. refl) (λ s g. g.1)
            (visit_entry-encode (to_lower (trim_space category))) sites (false, ([], 0)) _ h
            (omega arith)
