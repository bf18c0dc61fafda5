-- ===== src/Config/Ports/Normal.antt =====
-- `parsePortRanges`, `NormalizeDestinationPorts` and `IntersectDestinationPorts` on texts.
use purewrt.Prelude.{
  ℕ, ◌≡◌, ◌≢◌, subst, ok-injective, >>=-ok, ◌↔◌, ◌⊎◌, inl, inr, refl, sym, ap, ◌∙◌, Bool, true,
  false, ◌&&◌, List, [], ◌∷◌, arith, ok, err, ◌>>=◌, All,
}
use purewrt.Prelude.Sort.{sort_by}
use purewrt.Text.{Text}
use purewrt.Text.Space.{trim_space}
use purewrt.Text.Parts.{split, join}
use purewrt.Config.Ports.{
  PortRange, PortError, parse_parts, parse_token, parse_tokens, parse_port_ranges, merge,
  first_less, format_port_ranges, normalize_destination_ports, intersect_all, intersect_parsed,
  intersect_destination_ports, covers, not_empty,
}
use purewrt.Config.Ports.Cover.{IsRange, covers-merge-sort_by}
use purewrt.Config.Ports.Canonical.{Canonical, Canonical-unique, merge-sort_by-Canonical}
use purewrt.Config.Ports.Intersect.{covers-intersect_all, intersect_all-Canonical}
use purewrt.Config.Ports.Print.{parse-format}

parse_parts-IsRange :
    (t : Text) (ps : List Text) (r : PortRange) → parse_parts t ps ≡ ok r → IsRange r
unfolding parse_parts
parse_parts-IsRange t [] r h = ground arith
parse_parts-IsRange t (p ∷ []) r h = ground arith
parse_parts-IsRange t (p ∷ q ∷ []) r h = ground arith
parse_parts-IsRange t (p ∷ q ∷ s ∷ ps) r h = ground arith

parse_token-IsRange : (t : Text) (r : PortRange) → parse_token t ≡ ok r → IsRange r
unfolding parse_token
parse_token-IsRange t r h = parse_parts-IsRange t (split (trim_space t) b'-') r h

parse_tokens-IsRange :
    (ts : List Text) (rs : List PortRange) → parse_tokens ts ≡ ok rs → All IsRange rs
unfolding parse_tokens
parse_tokens-IsRange [] rs h = subst (All IsRange) (ok-injective h) tt
parse_tokens-IsRange (t ∷ ts) rs h =
    let (r, e, k) = >>=-ok (parse_token t) (λ r. do rs ← parse_tokens ts; ok (r ∷ rs)) h in
    let (rs', e', k') = >>=-ok (parse_tokens ts) (λ rs. ok (r ∷ rs)) k in
    subst (All IsRange) (ok-injective k')
      (parse_token-IsRange t r e, parse_tokens-IsRange ts rs' e')

-- What `parsePortRanges` accepts: a blank text, or tokens whose ranges it sorts and merges.
parse_port_ranges_inv :
    (v : Text) (rs : List PortRange)
    → parse_port_ranges v ≡ ok rs
    → ((trim_space v ≡ []) × (rs ≡ []))
      ⊎ ((raw : List PortRange) × (parse_tokens (split v b',') ≡ ok raw)
          × (rs ≡ merge (sort_by first_less raw)))
unfolding parse_port_ranges
parse_port_ranges_inv v rs h = go (trim_space v) refl h
  where
    go :
        (t : Text)
        → trim_space v ≡ t
        → (elim t [
          | [] ↦ ok []
          | _ ↦ do out ← parse_tokens (split v b','); ok (merge (sort_by first_less out))
        ])
          ≡ ok rs
        → ((trim_space v ≡ []) × (rs ≡ []))
          ⊎ ((raw : List PortRange) × (parse_tokens (split v b',') ≡ ok raw)
              × (rs ≡ merge (sort_by first_less raw)))
    go [] e k = inl (e, sym (ok-injective k))
    go (c ∷ t) e k =
        let (raw, e', k') =
          >>=-ok (parse_tokens (split v b',')) (λ out. ok (merge (sort_by first_less out))) k in
        inr (raw, e', sym (ok-injective k'))

-- Whatever text is accepted, the result is ranges within 1 to 65535, ascending, with at least one
-- port between neighbours.
pub parse_port_ranges-Canonical :
    (v : Text) (rs : List PortRange) → parse_port_ranges v ≡ ok rs → Canonical rs
parse_port_ranges-Canonical v rs h = elim (parse_port_ranges_inv v rs h) [
  | inl blank ↦ rw blank.1 tt
  | inr read ↦
      rw read.2 (merge-sort_by-Canonical read.0 (parse_tokens-IsRange (split v b',') read.0 read.1))
]

-- The ports of an accepted text are those of its tokens: if the tokens of `v` are read as `raw` and
-- `v` is accepted with `rs`, then a port lies in `rs` exactly when it lies in `raw`, unless `v` is
-- blank.
pub covers-parse_port_ranges :
    (v : Text) (raw rs : List PortRange)
    → trim_space v ≢ []
    → parse_tokens (split v b',') ≡ ok raw
    → parse_port_ranges v ≡ ok rs
    → (p : ℕ) → covers rs p ≡ covers raw p
covers-parse_port_ranges v raw rs h e k p = elim (parse_port_ranges_inv v rs k) [
  | inl blank ↦ absurd (h blank.0)
  | inr read ↦
      rw (read.2, ok-injective (sym e ∙ read.1))
        (covers-merge-sort_by p read.0 (parse_tokens-IsRange (split v b',') read.0 read.1))
]

normalize_inv :
    (v w : Text)
    → normalize_destination_ports v ≡ ok w
    → (rs : List PortRange) × (parse_port_ranges v ≡ ok rs) × (w ≡ format_port_ranges rs)
unfolding normalize_destination_ports
normalize_inv v w h =
    let (rs, e, k) = >>=-ok (parse_port_ranges v) (λ rs. ok (format_port_ranges rs)) h in
    (rs, e, sym (ok-injective k))

-- An accepted text and its normal form are read as the same ranges, so normalising again changes
-- nothing.
pub normalize-roundtrip :
    (v w : Text)
    → normalize_destination_ports v ≡ ok w
    → (parse_port_ranges w ≡ parse_port_ranges v) × (normalize_destination_ports w ≡ ok w)
normalize-roundtrip v w h =
    let (rs, e, k) = normalize_inv v w h in
    let back = parse-format rs (parse_port_ranges-Canonical v rs e) in
    (rw (k, e) back, unfold normalize_destination_ports in rw (k, back))

-- Two accepted texts have the same normal form exactly when they name the same ports.
pub normalize_unique :
    (v w : Text) (rs ss : List PortRange)
    → parse_port_ranges v ≡ ok rs
    → parse_port_ranges w ≡ ok ss
    → (normalize_destination_ports v ≡ normalize_destination_ports w)
      ↔ ((p : ℕ) → covers rs p ≡ covers ss p)
normalize_unique v w rs ss e k = (same_ports, same_text)
  where
    canonical : Canonical rs × Canonical ss
    canonical = (parse_port_ranges-Canonical v rs e, parse_port_ranges-Canonical w ss k)

    printed :
        (u : Text) (us : List PortRange)
        → parse_port_ranges u ≡ ok us
        → normalize_destination_ports u ≡ ok (format_port_ranges us)
    printed u us h = unfold normalize_destination_ports in rw h

    same_ports :
        normalize_destination_ports v ≡ normalize_destination_ports w
        → (p : ℕ) → covers rs p ≡ covers ss p
    same_ports h p =
        let texts : format_port_ranges rs ≡ format_port_ranges ss =
          ok-injective (sym (printed v rs e) ∙ h ∙ printed w ss k) in
        ap (λ us. covers us p)
          (ok-injective (
            sym (parse-format rs canonical.0)
            ∙ ap parse_port_ranges texts
            ∙ parse-format ss canonical.1))

    same_text :
        ((p : ℕ) → covers rs p ≡ covers ss p)
        → normalize_destination_ports v ≡ normalize_destination_ports w
    same_text h =
        printed v rs e
        ∙ ap (λ us. ok (format_port_ranges us)) (Canonical-unique rs ss canonical.0 canonical.1 h)
        ∙ sym (printed w ss k)

-- The ports that a list of ranges lets through: an empty list restricts nothing.
abbrev pub allows : List PortRange → ℕ → Bool
allows [] p = true
allows (r ∷ rs) p = covers (r ∷ rs) p

-- The outcome of an intersection: a text for the ports that both lists let through, or no port.
abbrev pub Exact : List PortRange → List PortRange → Text × Bool → Type 0
Exact ar br (text, true) =
    (out : List PortRange) × (parse_port_ranges text ≡ ok out)
    × ((p : ℕ) → allows out p ≡ (allows ar p && allows br p))
Exact ar br (text, false) = (text ≡ []) × ((p : ℕ) → (allows ar p && allows br p) ≡ false)

both-true : (b : Bool) → b ≡ (b && true)
both-true b = ground arith

intersect_parsed-Exact :
    (ar br : List PortRange) → Canonical ar → Canonical br → Exact ar br (intersect_parsed ar br)
unfolding intersect_parsed
intersect_parsed-Exact [] br ca cb = (br, parse-format br cb, λ p. refl)
intersect_parsed-Exact (a ∷ ar) [] ca cb =
    (a ∷ ar, parse-format (a ∷ ar) ca, λ p. both-true (covers (a ∷ ar) p))
intersect_parsed-Exact (a ∷ ar) (b ∷ br) ca cb =
    go (intersect_all (a ∷ ar) (b ∷ br)) (intersect_all-Canonical (a ∷ ar) (b ∷ br) ca cb)
      (λ p. covers-intersect_all p (a ∷ ar) (b ∷ br))
  where
    go :
        (out : List PortRange)
        → Canonical out
        → ((p : ℕ) → covers out p ≡ (covers (a ∷ ar) p && covers (b ∷ br) p))
        → Exact (a ∷ ar) (b ∷ br) (format_port_ranges out, not_empty out)
    go [] c same = (unfold format_port_ranges join in refl, λ p. sym (same p))
    go (r ∷ rs) c same = (r ∷ rs, parse-format (r ∷ rs) c, same)

-- For accepted texts the intersection is exact: it either returns a text that is read as the ports
-- that both operands let through, an empty operand letting every port through, or it returns the
-- empty text and false, and then no port is let through by both.
pub intersect_destination_ports-Exact :
    (a b : Text) (ar br : List PortRange)
    → parse_port_ranges a ≡ ok ar
    → parse_port_ranges b ≡ ok br
    → Exact ar br (intersect_destination_ports a b)
unfolding intersect_destination_ports
intersect_destination_ports-Exact a b ar br e k =
    rw (intersect_destination_ports, e, k)
      (intersect_parsed-Exact ar br (parse_port_ranges-Canonical a ar e)
        (parse_port_ranges-Canonical b br k))

-- A text that is not accepted, on either side, gives no ports and false.
pub intersect_destination_ports-err :
    (a b : Text) (x : PortError)
    → (parse_port_ranges a ≡ err x) ⊎ (parse_port_ranges b ≡ err x)
    → intersect_destination_ports a b ≡ ([], false)
unfolding intersect_destination_ports
intersect_destination_ports-err a b x h = ground arith
