-- ===== src/Judge/Scanning.antt =====
-- src/memline/judge.py: the regular expressions, as scans of the text.
use Prim.Native.Char.{Char, code}
use Prim.Native.String.{String, [], ◌∷◌}
use memline.Prelude.{
  ℕ, zero, suc, ◌-◌, Bool, true, false, ◌||◌, Option, none, some, List, ◌==◌, if◌then◌else◌,
}
use mathlib.Core.Option
use memline.Prelude.Texts.{between, is_space, append}

abbrev pub is_char : ℕ → Char → Bool
is_char n c = between n (code c) n

abbrev pub same_char : Char → Char → Bool
same_char d c = is_char (code d) c

abbrev pub is_letter : Char → Bool
is_letter c = between 65 (code c) 90 || between 97 (code c) 122

abbrev pub is_present {ℓ} : {A : Type ℓ} → Option A → Bool
is_present none = false
is_present (some a) = true

-- What follows a prefix, if the text has it.
abbrev pub drop_prefix : String → String → Option String
drop_prefix [] s = some s
drop_prefix (d ∷ prefix) [] = none
drop_prefix (d ∷ prefix) (c ∷ s) =
    let rest = drop_prefix prefix s in if same_char d c then rest else none

abbrev pub drop_while : (Char → Bool) → String → String
drop_while p [] = []
drop_while p (c ∷ s) = let rest = drop_while p s in if p c then rest else c ∷ s

abbrev pub take_while : (Char → Bool) → String → String
take_while p [] = []
take_while p (c ∷ s) = let rest = take_while p s in if p c then c ∷ rest else []

-- ^```[a-zA-Z]*\n
abbrev pub drop_line : String → Option String → String
drop_line s none = s
drop_line s (some t) = elim (drop_prefix "\n" (drop_while is_letter t)) [
  | none ↦ s
  | some rest ↦ rest
]

-- ```$
abbrev pub drop_fence : String → String
drop_fence [] = []
drop_fence (c ∷ s) = let rest = drop_fence s in if c ∷ s == "```" then [] else c ∷ rest

abbrev pub unfence : String → String
unfence s = drop_fence (drop_line s (drop_prefix "```" s))

abbrev pub contains : String → String → Bool
contains needle [] = is_present (drop_prefix needle [])
contains needle (c ∷ s) = is_present (drop_prefix needle (c ∷ s)) || contains needle s

-- What stands before the next brace, if that closes.
abbrev pub body : String → Option String
body [] = none
body (c ∷ s) =
    let rest = Option.map (λ b. c ∷ b) (body s) in
    if is_char 125 c then some [] else if is_char 123 c then none else rest

abbrev pub braced : Option String → List String → List String
braced none rest = rest
braced (some b) rest =
    if contains "\"verdict\"" b then List.◌∷◌ (append "{" (append b "}")) rest else rest

-- \{[^{}]*?"verdict"[^{}]*?\}
abbrev pub chunks : String → List String
chunks [] = List.[]
chunks (c ∷ s) = let rest = chunks s in if is_char 123 c then braced (body s) rest else rest

abbrev pub letter_at : String → ℕ → Char → Char
letter_at [] n c = c
letter_at (d ∷ letters) zero c = d
letter_at (d ∷ letters) (suc n) c = letter_at letters n c

abbrev pub capital : Char → Char
capital c = letter_at "ABCDEFGHIJKLMNOPQRSTUVWXYZ" (code c - 97) c

-- The characters beyond ASCII whose capitals are ASCII letters.
abbrev pub folded : List (ℕ × String)
folded =
    List.◌∷◌ (223, "SS")
      (List.◌∷◌ (305, "I")
        (List.◌∷◌ (383, "S")
          (List.◌∷◌ (64256, "FF")
            (List.◌∷◌ (64257, "FI")
              (List.◌∷◌ (64258, "FL")
                (List.◌∷◌ (64259, "FFI")
                  (List.◌∷◌ (64260, "FFL")
                    (List.◌∷◌ (64261, "ST") (List.◌∷◌ (64262, "ST") List.[])))))))))

abbrev pub fold_into : List (ℕ × String) → Char → String → String
fold_into List.[] c rest = c ∷ rest
fold_into (List.◌∷◌ (n, capitals) more) c rest =
    let other = fold_into more c rest in if is_char n c then append capitals rest else other

-- str.upper, as far as the answer may be an ASCII text: the other characters stay as they are, since a
-- text with them is no verdict.
abbrev pub upper : String → String
upper [] = []
upper (c ∷ s) =
    let rest = upper s in
    if between 97 (code c) 122 then capital c ∷ rest else fold_into folded c rest

abbrev pub is_word : Char → Bool
is_word c = is_letter c || is_char 95 c

abbrev pub skip : String → Option String → Option String
skip prefix none = none
skip prefix (some s) = drop_prefix prefix (drop_while is_space s)

-- [A-Za-z_]+"
abbrev pub quoted : Option String → Option String
quoted none = none
quoted (some s) =
    let word = take_while is_word s in
    if word == []
    then none
    else if is_present (drop_prefix "\"" (drop_while is_word s))
    then some word
    else none

abbrev pub verdict_here : String → Option String
verdict_here s = quoted (skip "\"" (skip ":" (drop_prefix "\"verdict\"" s)))

-- The first match of "verdict"\s*:\s*"([A-Za-z_]+)"
abbrev pub verdict_in : String → Option String
verdict_in [] = none
verdict_in (c ∷ s) =
    let rest = verdict_in s in
    if is_present (verdict_here (c ∷ s)) then verdict_here (c ∷ s) else rest
