-- ===== src/Geo/Format.antt =====
-- The format that v2dat.go describes: entries as a file is written from them, and what they say.
use purewrt.Prelude.{ℕ, Bool, true, false, List, [], ◌∷◌, ◌++◌, if◌then◌else◌, length, Result, err}
use purewrt.Text.{Text, text_eq}
use purewrt.Text.Space.{trim_space}
use purewrt.Text.Case.{to_lower}
use purewrt.Config.Model.{is_empty}
use purewrt.Rules.{Rule}
use purewrt.Mrs.Reader.{Bytes}
use purewrt.Geo.{GeoError, empty_name, domain_rule, keep_rule, when_found}
use purewrt.Geo.Varint.{put_varint}

pub record GeoDomain : Type 0 where
  pub type : ℕ
  pub value : Text

pub record GeoSite : Type 0 where
  pub name : Text
  pub domains : List GeoDomain

-- A field of bytes with what follows it; 10 and 18 are the tags of the fields 1 and 2.
abbrev pub put_field : ℕ → Bytes → Bytes → Bytes
put_field tag bytes rest = tag ∷ put_varint (length bytes) ++ (bytes ++ rest)

unfoldable pub put_all : {A : Type 0} → ℕ → (A → Bytes) → List A → Bytes
put_all tag encode [] = []
put_all tag encode (a ∷ rest) = put_field tag (encode a) (put_all tag encode rest)

abbrev pub encode_domain : GeoDomain → Bytes
encode_domain d = 8 ∷ put_varint d.type ++ put_field 18 d.value []

abbrev pub encode_site : GeoSite → Bytes
encode_site s = put_field 10 s.name (put_all 18 encode_domain s.domains)

abbrev pub encode_sites : List GeoSite → Bytes
encode_sites sites = put_all 10 encode_site sites

unfoldable pub fold_left : {S A : Type 0} → (S → A → S) → S → List A → S
fold_left f s [] = s
fold_left f s (a ∷ rest) = fold_left f (f s a) rest

-- What the entries say of a category: the rules of all entries of its name, in order, and the number
-- of their domains that are skipped.
abbrev pub take_domain : List Rule × ℕ → GeoDomain → List Rule × ℕ
take_domain s d = keep_rule s (domain_rule (d.type, d.value))

abbrev pub take_site : Text → Bool × (List Rule × ℕ) → GeoSite → Bool × (List Rule × ℕ)
take_site want (found, s) site =
    if text_eq (to_lower site.name) want
    then (true, fold_left take_domain s site.domains)
    else (found, s)

abbrev pub rules_of_sites : Text → List GeoSite → Result GeoError (List Rule × ℕ)
rules_of_sites category sites =
    let want = to_lower (trim_space category) in
    if is_empty want
    then err empty_name
    else when_found (fold_left (take_site want) (false, ([], 0)) sites)
