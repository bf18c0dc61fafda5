-- ===== src/Geo/Ends.antt =====
-- The loops of internal/geodb/v2dat.go and the bytes that a round takes.
use purewrt.Prelude.{
  ℕ, zero, suc, ◌/◌, ◌%◌, ◌≤◌, ◌<◌, ◌≢◌, subst, arith, Bool, true, false, [], ◌∷◌, ◌==◌, length,
  Result, ok, err, ◌>>=◌, >>=-ok, ok-injective,
}
use purewrt.Text.{Text, text_eq}
use purewrt.Text.Space.{trim_space}
use purewrt.Text.Case.{to_lower}
use purewrt.Config.Model.{is_empty}
use purewrt.Mrs.Reader.{Bytes}
use purewrt.Geo.{
  GeoError, stuck, read_varint, Step, go, stop, pass, Handler, is_field, read_bytes_field,
  skip_field, resume, fields, bytes_step, varint_step, entry_handler, scan_entries, record_handler,
  name_handler, entry_name, see_entry, list_entries, domain_handler, parse_domain, collect_domain,
  visit_entry, extract, extract_geo_site_rules, cidr_handler, cidr_rule, parse_cidr, collect_cidr,
  extract_geo_ip_rules,
}
use purewrt.Geo.Steps.{
  Ends, Within, Steps, ok-Ends, bind-Ends, if-Ends, read_varint_from-Ends, read_varint_from-shorter,
  pass-Steps, if-Steps, read_bytes_field-Ends, read_bytes_field-shorter, skip_field-Ends,
  skip_field-shorter,
}

module _ (width : ℕ) where
  module _ {S : Type 0} where
    bytes_step-Steps :
        (use_bytes : Bytes → Result GeoError S) (next : Bytes)
        → ((b : Bytes) → Ends (use_bytes b))
        → Steps next (bytes_step width use_bytes next)
    unfolding Within
    bytes_step-Steps use_bytes next h = record {
      ends =
          bind-Ends (read_bytes_field width next) _ (read_bytes_field-Ends width next)
            (λ (b, after) e. bind-Ends (use_bytes b) _ (h b) (λ s f. ok-Ends (go s after)));
      within = λ step k.
          let ((b, after), e, k1) = >>=-ok (read_bytes_field width next) _ k in
          let (s, f, k2) = >>=-ok (use_bytes b) _ k1 in
          subst (Within next) (ok-injective k2) (read_bytes_field-shorter width next b after e);
    }

    varint_step-Steps :
        (use_number : ℕ → S) (next : Bytes) → Steps next (varint_step width use_number next)
    unfolding Within read_varint
    varint_step-Steps use_number next = record {
      ends = bind-Ends (read_varint next) _ (read_varint_from-Ends next 0 0) (λ p e. ok-Ends _);
      within = λ step k.
          let ((n, after), e, k1) = >>=-ok (read_varint next) _ k in
          subst (Within next) (ok-injective k1)
            (omega (arith, read_varint_from-shorter next 0 0 n after e));
    }

    -- A loop whose steps are of this kind ends within a round for each byte.
    fields-Ends :
        (handle : Handler S)
        → ((s : S) (field wire : ℕ) (next : Bytes) → Steps next (handle s field wire next))
        → (fuel : ℕ) (s : S) (r : Bytes) → length r ≤ fuel
        → Ends (fields width handle fuel s r)
    unfolding fields
    fields-Ends handle h fuel s [] le = ok-Ends s
    fields-Ends handle h zero s (b ∷ r) le = absurd (omega (arith, le))
    fields-Ends handle h (suc fuel) s (b ∷ r) le =
        bind-Ends (read_varint (b ∷ r)) _ (unfold read_varint in read_varint_from-Ends (b ∷ r) 0 0)
          (λ (tag, next) e.
            let shorter : length next < length (b ∷ r) =
              unfold read_varint in read_varint_from-shorter (b ∷ r) 0 0 tag next e in
            bind-Ends (handle s (tag / 8) (tag % 8) next) _ (h s (tag / 8) (tag % 8) next).ends
              (λ step f.
                resumed s (tag % 8) next step ((h s (tag / 8) (tag % 8) next).within step f)
                  (λ s' rest shorter'.
                    fields-Ends handle h fuel s' rest (omega (arith, le, shorter, shorter')))))
      where
        resumed :
            (s : S) (wire : ℕ) (next : Bytes) (step : Step S)
            → Within next step
            → ((s' : S) (rest : Bytes)
                → length rest ≤ length next
                → Ends (fields width handle fuel s' rest))
            → Ends (resume width s wire next step (λ s' rest. fields width handle fuel s' rest))
        resumed s wire next (go s' rest) w on = on s' rest (unfold Within in w)
        resumed s wire next (stop s') w on = ok-Ends s'
        resumed s wire next pass w on =
            bind-Ends (skip_field width wire next) _ (skip_field-Ends width wire next)
              (λ rest e. on s rest (skip_field-shorter width wire next rest e))

    scan_entries-Ends :
        (cb : S → Bytes → Result GeoError S) (s : S) (buf : Bytes)
        → ((s : S) (b : Bytes) → Ends (cb s b))
        → Ends (scan_entries width cb s buf)
    unfolding scan_entries
    scan_entries-Ends cb s buf h =
        fields-Ends (entry_handler width cb)
          (λ s field wire next.
            if-Steps (is_field 1 2 field wire) next _ _ (bytes_step-Steps (cb s) next (h s))
              (pass-Steps next))
          (length buf) s buf (omega arith)

    records-Ends :
        (cb : S → Bytes → Result GeoError S) (s : S) (r : Bytes)
        → ((s : S) (b : Bytes) → Ends (cb s b))
        → Ends (fields width (record_handler width cb) (length r) s r)
    records-Ends cb s r h =
        fields-Ends (record_handler width cb)
          (λ s field wire next.
            if-Steps (is_field 2 2 field wire) next _ _ (bytes_step-Steps (cb s) next (h s))
              (pass-Steps next))
          (length r) s r (omega arith)

  entry_name-Ends : (payload : Bytes) → Ends (entry_name width payload)
  unfolding entry_name
  entry_name-Ends payload =
      fields-Ends (name_handler width)
        (λ s field wire next.
          if-Steps (is_field 1 2 field wire) next _ _ (named next) (pass-Steps next))
        (length payload) [] payload (omega arith)
    where
      named :
          (next : Bytes)
          → Steps {S = Text} next (read_bytes_field width next >>= λ (name, after). ok (stop name))
      named next = record {
        ends =
            bind-Ends (read_bytes_field width next) _ (read_bytes_field-Ends width next)
              (λ p e. ok-Ends _);
        within = λ step k.
            let ((b, after), e, k1) = >>=-ok (read_bytes_field width next) _ k in
            unfold Within in subst (Within next) (ok-injective k1) tt;
      }

  extract-Ends :
      {S : Type 0} (collect : S → Bytes → Result GeoError S) (start : S) (name : Text) (buf : Bytes)
      → ((s : S) (b : Bytes) → Ends (collect s b))
      → Ends (extract width collect start name buf)
  unfolding extract visit_entry Ends
  extract-Ends {S = S} collect start name buf h =
      if-Ends (is_empty (to_lower (trim_space name))) (err _) _ (λ k. cc)
        (bind-Ends
          (scan_entries width (visit_entry width collect (to_lower (trim_space name)))
            (false, start) buf)
          _
          (scan_entries-Ends (visit_entry width collect (to_lower (trim_space name))) (false, start)
            buf visited)
          (λ (found, s) e. if-Ends found (ok s) (err _) (ok-Ends s) (λ k. cc)))
    where
      visited :
          (s : Bool × S) (b : Bytes)
          → Ends (visit_entry width collect (to_lower (trim_space name)) s b)
      visited (found, s) payload =
          bind-Ends (entry_name width payload) _ (entry_name-Ends payload) (λ entry e.
            if-Ends (text_eq (to_lower entry) (to_lower (trim_space name))) _ (ok (found, s))
              (bind-Ends (fields width (record_handler width collect) (length payload) s payload) _
                (records-Ends collect s payload h) (λ s' f. ok-Ends (true, s')))
              (ok-Ends (found, s)))

  parse_domain-Ends : (payload : Bytes) → Ends (parse_domain width payload)
  unfolding parse_domain
  parse_domain-Ends payload =
      bind-Ends _ _
        (fields-Ends (domain_handler width)
          (λ (t, v) field wire next.
            if-Steps (is_field 1 0 field wire) next _ _ (varint_step-Steps (λ n. (n, v)) next) (
              if-Steps (is_field 2 2 field wire) next _ _
                (bytes_step-Steps (λ b. ok (t, b)) next (λ b. ok-Ends (t, b))) (pass-Steps next)))
          (length payload) (0, []) payload (omega arith))
        (λ r e. ok-Ends _)

  cidr_rule-Ends :
      (ip_text : Bytes → Text) (ip : Bytes) (prefix : ℕ) → Ends (cidr_rule ip_text (ip, prefix))
  unfolding cidr_rule Ends
  cidr_rule-Ends ip_text ip prefix = if-Ends (length ip == 0) (ok _) _ (ok-Ends _) (
      if-Ends (length ip == 4) (ok _) _ (ok-Ends _)
        (if-Ends (length ip == 16) (ok _) (err _) (ok-Ends _) (λ h. cc)))

  parse_cidr-Ends :
      (ip_text : Bytes → Text) (payload : Bytes) → Ends (parse_cidr width ip_text payload)
  unfolding parse_cidr
  parse_cidr-Ends ip_text payload =
      bind-Ends _ _
        (fields-Ends (cidr_handler width)
          (λ (ip, p) field wire next.
            if-Steps (is_field 1 2 field wire) next _ _
              (bytes_step-Steps (λ b. ok (b, p)) next (λ b. ok-Ends (b, p)))
              (if-Steps (is_field 2 0 field wire) next _ _ (varint_step-Steps (λ n. (ip, n)) next)
                (pass-Steps next)))
          (length payload) ([], 0) payload (omega arith))
        (λ (ip, p) e. cidr_rule-Ends ip_text ip p)

-- Whatever bytes the files hold, listing the entries and extracting the rules of a category or of a
-- country end: no loop is cut off, with a round for each byte of the message that it reads.
pub readers_end :
    (width : ℕ) (ip_text : Bytes → Text) (name : Text) (buf : Bytes)
    → (list_entries width buf ≢ err stuck)
      × (extract_geo_site_rules width name buf ≢ err stuck)
      × (extract_geo_ip_rules width ip_text name buf ≢ err stuck)
unfolding list_entries extract_geo_site_rules extract_geo_ip_rules Ends
readers_end width ip_text name buf = (
  bind-Ends (scan_entries width (see_entry width) [] buf) _
      (scan_entries-Ends width (see_entry width) [] buf (λ seen payload.
        bind-Ends (entry_name width payload) _ (entry_name-Ends width payload) (λ n e. ok-Ends _)))
      (λ seen e. ok-Ends _),
  extract-Ends width (collect_domain width) ([], 0) name buf
      (λ s dom.
        bind-Ends (parse_domain width dom) _ (parse_domain-Ends width dom) (λ r e. ok-Ends _)),
  extract-Ends width (collect_cidr width ip_text) [] name buf (λ out cidr.
      bind-Ends (parse_cidr width ip_text cidr) _ (parse_cidr-Ends width ip_text cidr)
        (λ r e. ok-Ends _)),
)
