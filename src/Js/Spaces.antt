-- ===== src/Js/Spaces.antt =====
-- White space in texts: `s.trim()`, and the class \s of a regular expression.
use Prim.Native.Char.{Char, code}
use monad_hackathon.Prelude.{Bool, String, if◌then◌else◌, leb, refl, str_eq, ◌&&◌, ◌==◌, ◌||◌, ◌≡◌}

-- WhiteSpace and LineTerminator.
unfoldable pub is_space : Char → Bool
is_space c =
    let n = code c in
    (leb 9 n && leb n 13)
    || n == 32
    || n == 160
    || n == 5760
    || (leb 8192 n && leb n 8202)
    || n == 8232
    || n == 8233
    || n == 8239
    || n == 8287
    || n == 12288
    || n == 65279

unfoldable pub trim_start : String → String
unfolding is_space
trim_start String.[] = ""
trim_start (String.◌∷◌ c s) = if is_space c then trim_start s else String.◌∷◌ c s

unfoldable pub trim_end : String → String
unfolding is_space
trim_end String.[] = ""
trim_end (String.◌∷◌ c s) =
    let rest = trim_end s in if is_space c && str_eq rest "" then "" else String.◌∷◌ c rest

unfoldable pub trim : String → String
unfolding trim_start trim_end
trim s = trim_end (trim_start s)

trim_runs : (trim "  a b\t " ≡ "a b") × (trim "   " ≡ "")
unfolding trim
trim_runs = (refl, refl)
