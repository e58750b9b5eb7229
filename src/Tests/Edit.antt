-- ===== src/Tests/Edit.antt =====
-- The edits of a text at concrete inputs.
use cloud_agent_sandbox.Base.Int.{pos}
use cloud_agent_sandbox.Base.{
  ◌≡◌, ◌≢◌, refl, [], ◌∷◌, ◌++◌, Text, bytes, newline, arith, list_beq, if◌then◌else◌,
}
use cloud_agent_sandbox.Strings.{cut_prefix}
use cloud_agent_sandbox.Session.Model.{ok}
use cloud_agent_sandbox.Edit.{
  cut, count_from, count, replace_first, replace_unique, split_display_lines, ends_in_newline,
}
use cloud_agent_sandbox.Edit.Laws.{
  IsReplacement, Splits, replace_unique-IsReplacement, replace_unique_once,
}
use cloud_agent_sandbox.Edit.Laws.Lines.{Ending, insert_after_line-Ending}
use cloud_agent_sandbox.Edit.Laws.Display.{AllPlain, join, join-split_display_lines}

abbrev content : Text
content = bytes "ab" ++ (newline ∷ bytes "cd")

-- Behind the last line, which has no newline.
insert_after_line-Ending_example : Ending (pos 2) content (bytes "x")
insert_after_line-Ending_example = insert_after_line-Ending (pos 2) content (bytes "x")

b_replaced :
    replace_unique content (bytes "b") (bytes "x") ≡ ok (bytes "ax" ++ (newline ∷ bytes "cd"))
unfolding replace_unique count count_from cut cut_prefix replace_first list_beq
b_replaced = refl

replace_unique-IsReplacement_example :
    (bytes "b" ≢ [])
    × IsReplacement (bytes "b") (bytes "x") content (bytes "ax" ++ (newline ∷ bytes "cd"))
replace_unique-IsReplacement_example =
    replace_unique-IsReplacement content (bytes "b") (bytes "x")
      (bytes "ax" ++ (newline ∷ bytes "cd")) b_replaced

only_there : (a b : Text) → Splits (bytes "b") (bytes "ab") a b → a ≡ bytes "a"
only_there [] b h = ground (arith, h)
only_there (x ∷ []) b h = cc
only_there (x ∷ y ∷ []) b h = cc
only_there (x ∷ y ∷ z ∷ a) b h = cc

replace_unique_once_example :
    replace_unique (bytes "ab") (bytes "b") (bytes "x") ≡ ok (bytes "a" ++ bytes "x" ++ [])
replace_unique_once_example =
    replace_unique_once (bytes "ab") (bytes "b") (bytes "x") (bytes "a") [] (λ h. cc h) refl
      only_there

join-split_display_lines_example :
    AllPlain (split_display_lines content)
    × (join (split_display_lines content) ++ (if ends_in_newline content then newline ∷ [] else [])
        ≡ content)
join-split_display_lines_example = join-split_display_lines content λ h. cc h
