-- ===== src/Router/Trim.antt =====
-- src/router.rs, the name that group_create_handler takes: `str::trim`.
use Prim.Native.Char.{Char, code}
use myx_im.Base.{String, Bool, ◌&&◌, ◌||◌, ◌==◌, if◌then◌else◌, leb}

-- `White_Space` of Unicode, which `str::trim` removes.
abbrev pub is_space : Char → Bool
is_space c =
    let n = code c in
    (leb 9 n && leb n 13)
    || n == 0x20
    || n == 0x85
    || n == 0xa0
    || n == 0x1680
    || (leb 0x2000 n && leb n 0x200a)
    || n == 0x2028
    || n == 0x2029
    || n == 0x202f
    || n == 0x205f
    || n == 0x3000

abbrev pub trim_start : String → String
trim_start String.[] = String.[]
trim_start (String.◌∷◌ c s) = let rest = trim_start s in if is_space c then rest else String.◌∷◌ c s

abbrev pub cons_trimmed : Char → String → String
cons_trimmed c String.[] = if is_space c then String.[] else String.◌∷◌ c String.[]
cons_trimmed c (String.◌∷◌ d s) = String.◌∷◌ c (String.◌∷◌ d s)

abbrev pub trim_end : String → String
trim_end String.[] = String.[]
trim_end (String.◌∷◌ c s) = cons_trimmed c (trim_end s)

-- `name.trim()`
abbrev pub trim : String → String
trim s = trim_end (trim_start s)
