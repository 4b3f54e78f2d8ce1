-- ===== src/Http/Texts.antt =====
-- The text functions of JavaScript that the utilities call.
use Prim.Native.Char.{Char, code}
use auth_microservice.Prelude.{
  ℕ, zero, suc, ◌+◌, String, Bool, true, false, ◌&&◌, ◌||◌, List, [], ◌∷◌, ◌==◌, leb, eqb,
  if◌then◌else◌,
}

abbrev pub dot : ℕ
dot = 46

abbrev pub comma : ℕ
comma = 44

-- White space as `trim` and `\s` take it.
abbrev pub is_space : ℕ → Bool
is_space c =
    (leb 9 c && leb c 13)
    || (eqb c 32
        || (eqb c 160
            || (eqb c 5760
                || ((leb 8192 c && leb c 8202)
                    || (eqb c 8232
                        || (eqb c 8233
                            || (eqb c 8239 || (eqb c 8287 || (eqb c 12288 || eqb c 65279)))))))))

pub trim_start : String → String
trim_start String.[] = ""
trim_start (String.◌∷◌ c s) =
    let rest = trim_start s in if is_space (code c) then rest else String.◌∷◌ c s

pub trim_end : String → String
trim_end String.[] = ""
trim_end (String.◌∷◌ c s) =
    let rest = trim_end s in if (rest == "") && is_space (code c) then "" else String.◌∷◌ c rest

unfoldable pub trim : String → String
unfolding trim_start trim_end
trim s = trim_end (trim_start s)

abbrev pub head_or : String → List String → String
head_or d [] = d
head_or d (s ∷ ss) = s

-- A character put in front of the first part.
abbrev pub prepend : Char → List String → List String
prepend c [] = String.◌∷◌ c "" ∷ []
prepend c (s ∷ ss) = String.◌∷◌ c s ∷ ss

-- `s.split(sep)` at a separator of one character.
unfoldable pub split_on : (sep : ℕ) → String → List String
split_on sep String.[] = "" ∷ []
split_on sep (String.◌∷◌ c s) =
    let rest = split_on sep s in if eqb (code c) sep then "" ∷ rest else prepend c rest

-- `s.split(/\s+/)`; the flag says that a separator is being read.
pub split_spaces_from : Bool → String → List String
split_spaces_from gap String.[] = "" ∷ []
split_spaces_from false (String.◌∷◌ c s) = elim (is_space (code c)) [
  | true ↦ "" ∷ split_spaces_from true s
  | false ↦ prepend c (split_spaces_from false s)
]
split_spaces_from true (String.◌∷◌ c s) = elim (is_space (code c)) [
  | true ↦ split_spaces_from true s
  | false ↦ prepend c (split_spaces_from false s)
]

unfoldable pub split_spaces : String → List String
unfolding split_spaces_from
split_spaces s = split_spaces_from false s

unfoldable pub drop : ℕ → String → String
drop zero s = s
drop (suc n) String.[] = ""
drop (suc n) (String.◌∷◌ c s) = drop n s

lower_code : ℕ → ℕ
lower_code c = if leb 65 c && leb c 90 then c + 32 else c

-- The same text, whatever the case of its letters; the second text is in lower case.
same_letters : String → String → Bool
unfolding lower_code
same_letters String.[] String.[] = true
same_letters (String.◌∷◌ c s) (String.◌∷◌ d t) =
    let rest = same_letters s t in eqb (lower_code (code c)) (code d) && rest
same_letters _ _ = false

-- `/^Bearer$/i.test(s)`.
unfoldable pub is_bearer : String → Bool
unfolding same_letters
is_bearer s = same_letters s "bearer"
