-- ===== src/Base/Text.antt =====
-- JavaScript's `trim` on texts.
use Prim.Native.String.{String}
use Prim.Native.Char.{code}
use mazadak_backend.Base.Tests.{leb, ltb, ◌==◌, if◌then◌else◌}
use Prim.Native.Nat.{ℕ, ◌+◌}
use mathlib.Core.Bool.{Bool, true, ◌&&◌, ◌||◌}

-- The code points that `trim` removes.
abbrev pub is_space : ℕ → Bool
is_space c =
    (leb 9 c && leb c 13)
    || (c == 32
        || (c == 160
            || (c == 5760
                || ((leb 8192 c && leb c 8202)
                    || (c == 8232
                        || (c == 8233
                            || (c == 8239 || (c == 8287 || (c == 12288 || c == 65279)))))))))

abbrev pub is_blank : String → Bool
is_blank String.[] = true
is_blank (String.◌∷◌ c s) = is_space (code c) && is_blank s

-- The UTF-16 units of a character.
abbrev pub width : ℕ → ℕ
width c = if ltb 65535 c then 2 else 1

abbrev pub length_before_end : String → ℕ
length_before_end String.[] = 0
length_before_end (String.◌∷◌ c s) =
    let rest = length_before_end s in
    if is_space (code c) && rest == 0 then 0 else width (code c) + rest

-- `text.trim().length`
abbrev pub trimmed_length : String → ℕ
trimmed_length String.[] = 0
trimmed_length (String.◌∷◌ c s) =
    let rest = trimmed_length s in
    if is_space (code c) then rest else length_before_end (String.◌∷◌ c s)
