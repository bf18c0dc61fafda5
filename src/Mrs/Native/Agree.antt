-- ===== src/Mrs/Native/Agree.antt =====
-- Streaming and parsing a native list of internal/rules/parse_mrs.go.
use purewrt.Prelude.{
  ℕ, ◌+◌, ◌≡◌, refl, sym, ap, ◌∙◌, false, ◌&&◌, List, [], ◌∷◌, map, Option, none, some, length, ok,
  err, >>=-ok, ok-injective, ◌==◌, if◌then◌else◌, Bool-cases, inl, inr,
}
use mathlib.Core.Path.{fun_ext}
use purewrt.Text.{Text, codes}
use purewrt.Prelude.Int.{ℤ}
use purewrt.Text.Find.{contains}
use purewrt.Rules.{Rule}
use purewrt.Mrs.Words.{MrsPrefix}
use purewrt.Mrs.Reader.{Bytes, Head, read_head, empty_decoded, unsupported_behavior}
use purewrt.Mrs.Stream.{malformed, call, with_read, emit_all, after_call}
use purewrt.Mrs.Cidrs.{read_mrs_cidrs, stream_mrs_cidrs}
use purewrt.Mrs.Cidrs.Streamed.{stream_mrs_cidrs-read}
use purewrt.Mrs.Trie.{read_mrs_domains, stream_mrs_domains, trim_wildcard}
use purewrt.Mrs.Trie.Streamed.{stream_mrs_domains-read}
use purewrt.Mrs.Native.{
  domain_rules, cidr_rules, native_rules, parse_native_mrs, stream_native_mrs, emit_rule, rendered,
  mrs_rule, cidr_type, is_positive,
}

module _ {S E : Type 0} (prefix_text : MrsPrefix → Text)
    (on_domain on_cidr : Option (S → Text → S × Option E)) where
  emit_all-domains :
      (name : Text) (line : ℕ) (s : S) (ds : List Bytes)
      → emit_all (call on_domain) s (map trim_wildcard ds)
        ≡ emit_all (emit_rule prefix_text on_domain on_cidr) s (domain_rules name line ds)
  unfolding emit_all domain_rules
  emit_all-domains name line s [] = refl
  emit_all-domains name line s (d ∷ ds) =
      ap (after_call (call on_domain s (trim_wildcard d)))
        (fun_ext (λ s'. emit_all-domains name (line + 1) s' ds))

  call-rendered :
      (s : S) (p : MrsPrefix)
      → call (rendered prefix_text on_cidr) s p ≡ call on_cidr s (prefix_text p)
  call-rendered s p = by_callback on_cidr
    where
      by_callback :
          (emit : Option (S → Text → S × Option E))
          → call (rendered prefix_text emit) s p ≡ call emit s (prefix_text p)
      by_callback none = refl
      by_callback (some emit) = refl

  emit_rule-cidr :
      (name : Text) (line : ℕ) (s : S) (c : Text)
      → emit_rule prefix_text on_domain on_cidr s (mrs_rule name line (cidr_type prefix_text c) c)
        ≡ call on_cidr s c
  emit_rule-cidr name line s c = elim (Bool-cases (contains (codes ":") c)) [
    | inl e ↦ rw e refl
    | inr e ↦ rw e refl
  ]

  emit_all-cidrs :
      (name : Text) (line : ℕ) (s : S) (ps : List MrsPrefix)
      → emit_all (call (rendered prefix_text on_cidr)) s ps
        ≡ emit_all (emit_rule prefix_text on_domain on_cidr) s (cidr_rules prefix_text name line ps)
  unfolding emit_all cidr_rules
  emit_all-cidrs name line s [] = refl
  emit_all-cidrs name line s (p ∷ ps) =
      ap (λ r. after_call r (λ s'. emit_all (call (rendered prefix_text on_cidr)) s' ps))
        (call-rendered s p ∙ sym (emit_rule-cidr name line s (prefix_text p)))
      ∙ ap
          (after_call (
            emit_rule prefix_text on_domain on_cidr s
              (mrs_rule name line (cidr_type prefix_text (prefix_text p)) (prefix_text p))))
          (fun_ext (λ s'. emit_all-cidrs name (line + 1) s' ps))

  -- The body behind the head.
  body_agrees :
      (name : Text) (s : S) (head : Head) (rules : List Rule)
      → native_rules prefix_text name false head ≡ ok rules
      → (if head.behavior == 0
          then stream_mrs_domains on_domain s head.body
          else if head.behavior == 1
          then stream_mrs_cidrs (rendered prefix_text on_cidr) s head.body
          else (s, some (malformed unsupported_behavior)))
        ≡ emit_all (emit_rule prefix_text on_domain on_cidr) s rules
  unfolding native_rules
  body_agrees name s head rules h = elim (Bool-cases (head.behavior == 0)) [
    | inl e ↦
        let (ds, f, k) = >>=-ok (read_mrs_domains false head.body) _ (rw e at h) in
        rw e (
          stream_mrs_domains-read on_domain s head.body ds f
          ∙ emit_all-domains name 1 s ds
          ∙ ap (emit_all (emit_rule prefix_text on_domain on_cidr) s) (ok-injective k))
    | inr e ↦ elim (Bool-cases (head.behavior == 1)) [
      | inl e1 ↦
          let (ps, f, k) = >>=-ok (read_mrs_cidrs head.body) _ (rw (e, e1) at h) in
          rw (e, e1)
            (stream_mrs_cidrs-read (rendered prefix_text on_cidr) s head.body
              ∙ ap (λ r. with_read r s (λ qs. emit_all (call (rendered prefix_text on_cidr)) s qs))
                  f
              ∙ emit_all-cidrs name 1 s ps
              ∙ ap (emit_all (emit_rule prefix_text on_domain on_cidr) s) (ok-injective k))
      | inr e1 ↦ cc (rw (e, e1) at h)
    ]
  ]

  -- Streaming a native list that parses without sorting gives the callback of its kind exactly the
  -- values of the rules that parsing returns, in their order, up to the first that is refused.
  pub stream_native_mrs-parse :
      (name : Text) (s : S) (payload : Bytes) (rules : List Rule)
      → parse_native_mrs prefix_text name payload false ≡ ok rules
      → stream_native_mrs prefix_text on_domain on_cidr s payload
        ≡ emit_all (emit_rule prefix_text on_domain on_cidr) s rules
  unfolding stream_native_mrs parse_native_mrs
  stream_native_mrs-parse name s payload rules h =
      let (head, e, h1) = >>=-ok (read_head payload) _ h in
      let (found, f, h2) = >>=-ok (native_rules prefix_text name false head) _ h1 in
      let same : found ≡ rules = kept found head.count h2 in
      ap
        (λ r. with_read r s (λ hd.
          if hd.behavior == 0
          then stream_mrs_domains on_domain s hd.body
          else if hd.behavior == 1
          then stream_mrs_cidrs (rendered prefix_text on_cidr) s hd.body
          else (s, some (malformed unsupported_behavior))))
        e
      ∙ body_agrees name s head rules (f ∙ ap ok same)
    where
      kept :
          (found : List Rule) (count : ℤ)
          → (if length found == 0 && is_positive count then err empty_decoded else ok found)
            ≡ ok rules
          → found ≡ rules
      kept found count k = elim (Bool-cases (length found == 0 && is_positive count)) [
        | inl e ↦ cc (rw e at k)
        | inr e ↦ ok-injective (rw e at k)
      ]
