-- ===== src/Tests/Geo.antt =====
-- internal/geodb/v2dat.go at a file of one entry.
use purewrt.Prelude.{◌+◌, ◌^◌, ◌≡◌, ◌≢◌, refl, arith, List, [], ◌∷◌, ◌++◌, All, ok, err}
use purewrt.Text.{Text, codes}
use purewrt.Mrs.Reader.{Bytes}
use purewrt.Geo.{
  stuck, read_varint, read_varint_from, read_bytes_field, list_entries, extract_geo_site_rules,
  extract_geo_ip_rules,
}
use purewrt.Geo.Ends.{readers_end}
use purewrt.Geo.Varint.{put_varint, put_digits}
use purewrt.Geo.Format.{GeoSite, encode_sites, rules_of_sites, put_all}
use purewrt.Geo.Encoded.{FitsSite, extract_geo_site_rules-encode}

abbrev sites : List GeoSite
sites =
    record {
      name = codes "YouTube";
      domains =
          record { type = 2; value = codes "youtu.be" }
          ∷ record { type = 1; value = codes "^yt.*" }
          ∷ record { type = 0; value = codes "tube" }
          ∷ [];
    }
    ∷ []

sites_fit : All (FitsSite 32 (omega arith)) sites
unfolding put_all put_digits
sites_fit = (
  (
    omega arith,
    omega arith,
    (
      (omega arith, omega arith, omega arith),
      ((omega arith, omega arith, omega arith), ((omega arith, omega arith, omega arith), tt)),
    ),
  ),
  tt,
)

extract_geo_site_rules-encode_example :
    extract_geo_site_rules 32 (codes "youtube") (encode_sites sites)
    ≡ rules_of_sites (codes "youtube") sites
extract_geo_site_rules-encode_example =
    extract_geo_site_rules-encode 32 (omega arith) (codes "youtube") sites sites_fit

abbrev no_text : Bytes → Text
no_text b = []

-- A file that ends in the middle of a number.
abbrev torn : Bytes
torn = 10 ∷ 200 ∷ 200 ∷ []

readers_end_example :
    (list_entries 64 torn ≢ err stuck)
    × (extract_geo_site_rules 64 (codes "cn") torn ≢ err stuck)
    × (extract_geo_ip_rules 64 no_text (codes "cn") torn ≢ err stuck)
readers_end_example = readers_end 64 no_text (codes "cn") torn

-- On a router of 32 bits a length above 2^32 is taken for a small one.
long_length_cut : read_bytes_field 32 (put_varint (2 ^ 32 + 1) ++ 7 ∷ 8 ∷ []) ≡ ok (7 ∷ [], 8 ∷ [])
unfolding read_bytes_field read_varint read_varint_from put_digits
long_length_cut = refl
