-- ===== src/JavaMain.antt =====
-- `JAVA_MAIN_RE` of src/icpc_verify/solutions.py: the search for a Java `main` method.
use problem_verifier.Prelude.{
  Bool, true, false, ◌||◌, [], ◌∷◌, Option, none, some, Str, codes, if◌then◌else◌, ◌==◌, nat_eq,
  is_space, lstrip,
}

-- `JAVA_MAIN_RE` from one place on: words with white space between them, where a place after which
-- white space must stand is marked.
unfoldable pub skip_space : Str → Str
skip_space text = lstrip is_space text

unfoldable pub after_prefix : Str → Str → Option Str
after_prefix [] text = some text
after_prefix (x ∷ word) [] = none
after_prefix (x ∷ word) (y ∷ text) =
    let rest = after_prefix word text in if x == y then rest else none

abbrev some_space : Option Str → Option Str
some_space none = none
some_space (some []) = none
some_space (some (c ∷ text)) = if is_space c then some (skip_space text) else none

abbrev any_space : Option Str → Option Str
any_space none = none
any_space (some text) = some (skip_space text)

abbrev then_word : Str → Option Str → Option Str
then_word word none = none
then_word word (some text) = after_prefix word text

abbrev is_found : Option Str → Bool
is_found none = false
is_found (some text) = true

unfoldable pub matches_main : Str → Bool
unfolding skip_space after_prefix is_space lstrip
matches_main text = is_found (
    then_word (codes "String") (
      any_space (
        then_word (codes "(") (
          any_space (
            then_word (codes "main") (
              some_space (
                then_word (codes "void") (
                  some_space (
                    then_word (codes "static")
                      (some_space (after_prefix (codes "public") text)))))))))))

unfoldable pub has_main : Str → Bool
unfolding matches_main
has_main [] = matches_main []
has_main (c ∷ text) = matches_main (c ∷ text) || has_main text
