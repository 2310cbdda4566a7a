-- ===== src/Phases/Words.antt =====
-- HSS_rtc/HSS_rtc: the macros of `RTC_Data`; hss_utils/src/st_command/__init__.py:
-- `get_stFramework_error_message`, over the lines of what a command wrote.
use Prim.Native.Char.{code}
use Prim.Native.String.{◌++◌}
use st_tools.Prelude.{
  ℕ, zero, suc, ◌-◌, String, Bool, Option, none, some, List, [], ◌∷◌, reverse, eqb, if◌then◌else◌,
  is_some,
}
use st_tools.Prelude.Dict.{Dict}

unfoldable pub strip_prefix : String → String → Option String
strip_prefix String.[] s = some s
strip_prefix (String.◌∷◌ c k) String.[] = none
strip_prefix (String.◌∷◌ c k) (String.◌∷◌ d s) =
    let rest = strip_prefix k s in if eqb (code c) (code d) then rest else none

abbrev or_else : Option String → Option String → Option String
or_else none p = p
or_else (some s) p = some s

-- What follows the first place where the text, which is not empty, stands.
unfoldable pub after : String → String → Option String
unfolding strip_prefix
after k String.[] = none
after k (String.◌∷◌ c s) = let rest = after k s in or_else (strip_prefix k (String.◌∷◌ c s)) rest

-- `k in s`
abbrev pub has_text : String → String → Bool
has_text k s = is_some (after k s)

abbrev size : String → ℕ
size String.[] = zero
size (String.◌∷◌ c s) = suc (size s)

-- `s.replace(k, v)` for a `k` that is not empty; so many characters are still part of the last one.
unfoldable pub replace_from : ℕ → String → String → String → String
unfolding strip_prefix
replace_from n k v String.[] = ""
replace_from (suc n) k v (String.◌∷◌ c s) = replace_from n k v s
replace_from zero k v (String.◌∷◌ c s) =
    let found = v ++ replace_from (size k - 1) k v s in
    let rest = String.◌∷◌ c (replace_from zero k v s) in
    if is_some (strip_prefix k (String.◌∷◌ c s)) then found else rest

-- A value that is no text is passed over.
abbrev pub replace : String → Option String → String → String
replace k none s = s
replace k (some v) s = replace_from zero k v s

unfoldable pub macro_translator : Dict (Option String) → String → String
unfolding replace_from
macro_translator [] s = s
macro_translator ((k, v) ∷ macros) s = macro_translator macros (replace k v s)

unfoldable first_of : String → ℕ → List String → Option String
unfolding after
first_of header zero lines = none
first_of header (suc n) [] = none
first_of header (suc n) (line ∷ lines) =
    let rest = first_of header n lines in or_else (after header line) rest

-- The header is looked for in the last lines, from the end.
unfoldable pub get_st_framework_error_message : List String → String → ℕ → Option String
unfolding first_of
get_st_framework_error_message stderr header maxnoflines =
    first_of header maxnoflines (reverse stderr)

abbrev pub or_unknown : Option String → String
or_unknown none = "unknown"
or_unknown (some s) = s

unfoldable pub get_error_info : List String → String
unfolding get_st_framework_error_message
get_error_info stderr = or_unknown (
    or_else (get_st_framework_error_message stderr "stFramework_message " 5)
      (get_st_framework_error_message stderr "stTool_message " 5))
