-- ===== src/Text.antt =====
-- strings.TrimSpace and strings.Join.
use umodel_sre_rca.Common.{List, [], ◌∷◌, ◌==◌, ◌&&◌, if◌then◌else◌}
use Prim.Native.Char.{code}
use Prim.Native.String.{String, ◌++◌}
use umodel_sre_rca.Analysis.{is_space}

unfoldable pub trim_right : String → String
unfolding is_space
trim_right String.[] = ""
trim_right (String.◌∷◌ c s) =
    let rest = trim_right s in if rest == "" && is_space (code c) then "" else String.◌∷◌ c rest

unfoldable pub trim_left : String → String
unfolding is_space
trim_left String.[] = ""
trim_left (String.◌∷◌ c s) =
    let rest = trim_left s in if is_space (code c) then rest else String.◌∷◌ c s

abbrev pub trim_space : String → String
trim_space s = trim_left (trim_right s)

-- strings.Join
unfoldable pub join : List String → String → String
join [] separator = ""
join (s ∷ []) separator = s
join (s ∷ t ∷ rest) separator = s ++ separator ++ join (t ∷ rest) separator
