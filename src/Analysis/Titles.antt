-- ===== src/Analysis/Titles.antt =====
-- `categoryTitle`
use flyto_warroom.Prelude.{String, ◌==◌, if◌then◌else◌, to_upper, trim_space}
use Prim.Native.Char.{code}
use Prim.Native.String.{[], ◌∷◌, ◌++◌}

-- `strings.ReplaceAll(category, "_", " ")`
unfoldable pub spaced : String → String
spaced [] = []
spaced (c ∷ s) = (if code c == 95 then " " else c) ∷ spaced s

unfoldable pub capital : String → String
unfolding to_upper
capital [] = "Security"
capital (c ∷ s) = to_upper (c ∷ []) ++ s

unfoldable pub category_title : (category : String) → String
unfolding spaced capital trim_space
category_title category = capital (spaced (trim_space category))

unfoldable pub path_title : (category : String) → String
unfolding category_title
path_title category = category_title category ++ " risk chain hypothesis"
