-- ===== src/Tests/Lines.antt =====
-- internal/rules/parse_text.go at a logical rule and at a line with a comment.
use purewrt.Prelude.{◌≡◌, refl, List, [], ◌∷◌, ◌++◌, map, some}
use purewrt.Text.{Text, codes, text_eq}
use purewrt.Text.Space.{trim_space, is_space}
use purewrt.Text.Find.{has_prefix, before, after_first, before_last}
use purewrt.Prelude.Int.{◌+ℤ◌}
use purewrt.Text.Parts.{join}
use purewrt.Rules.ParseText.{
  split_logical_conditions, parse_native_and, clean_line, cut_comment, scan_conditions,
}
use purewrt.Rules.ParseText.Conditions.{in_parens, split_logical_conditions-join}
use purewrt.Rules.ParseText.Comments.{clean_line-comment}

abbrev conditions : List Text
conditions = codes " a,1" ∷ codes "b,2" ∷ []

split_logical_conditions-join_example :
    split_logical_conditions
      (codes "OR," ++ in_parens (join (map in_parens conditions) (b',' ∷ [])))
    ≡ map trim_space conditions
split_logical_conditions-join_example =
    split_logical_conditions-join (codes "OR,") conditions (refl, (refl, (refl, tt)))
      (
        ((refl, (refl, (refl, (refl, tt)))), (refl, (refl, (refl, (refl, tt))))),
        (((refl, (refl, (refl, tt))), (refl, (refl, (refl, tt)))), tt),
      )

clean_line-comment_example :
    clean_line (codes "a.org" ++ 32 ∷ b'#' ∷ codes " of # 2024") ≡ codes "a.org"
unfolding is_space
clean_line-comment_example =
    clean_line-comment (codes "a.org") (codes " of # 2024") refl refl (λ h. cc)
      (refl, (refl, (refl, (refl, (refl, tt))))) (refl, (refl, (refl, (refl, (refl, tt)))))

native_conjunction :
    parse_native_and (codes "AND,((NETWORK,UDP),(DST-PORT,443))")
    ≡ some (codes "meta l4proto udp th dport 443")
unfolding parse_native_and scan_conditions trim_space text_eq after_first before_last ◌+ℤ◌
native_conjunction = refl

-- The comment is cut at its second mark where a blank stands before that one and a tab before the
-- first.
tab_comment_kept : clean_line (codes "x\t# a # b") ≡ codes "x\t# a"
unfolding clean_line trim_space has_prefix cut_comment before
tab_comment_kept = refl
