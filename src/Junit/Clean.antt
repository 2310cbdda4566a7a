-- ===== src/Junit/Clean.antt =====
-- The characters of a message.
use Prim.Native.Char.{Char, code}
use st_tools.Prelude.{
  ◌≡◌, ◌≢◌, ◌⊎◌, ◌∙◌, refl, ap, arith, ℕ, ◌≤◌, ◌<◌, String, Bool, true, false, ◌&&◌, ◌||◌, eqb, leb,
  List, ◌∷◌, if◌then◌else◌,
}
use st_tools.Junit.{clean, is_illegal, illegal_ranges}

-- No character of the text is in a range that XML does not allow.
abbrev pub IsLegal : String → Type 0
IsLegal String.[] = Unit
IsLegal (String.◌∷◌ c s) = (is_illegal illegal_ranges (code c) ≡ false) × IsLegal s

keep_if-IsLegal :
    (b : Bool) (c : Char) (s : String)
    → is_illegal illegal_ranges (code c) ≡ b
    → IsLegal s
    → IsLegal (if b then s else String.◌∷◌ c s)
keep_if-IsLegal true c s e h = h
keep_if-IsLegal false c s e h = (e, h)

pub clean-IsLegal : (s : String) → IsLegal (clean s)
unfolding clean
clean-IsLegal String.[] = tt
clean-IsLegal (String.◌∷◌ c s) =
    keep_if-IsLegal (is_illegal illegal_ranges (code c)) c (clean s) refl (clean-IsLegal s)

drop_if :
    (b : Bool) (c : Char) (s : String)
    → b ≡ false
    → (if b then s else String.◌∷◌ c s) ≡ String.◌∷◌ c s
drop_if false c s e = refl
drop_if true c s e = ground (arith, e)

clean_of_legal : (s : String) → IsLegal s → clean s ≡ s
unfolding clean
clean_of_legal String.[] h = refl
clean_of_legal (String.◌∷◌ c s) h =
    drop_if (is_illegal illegal_ranges (code c)) c (clean s) h.0
    ∙ ap (λ x. String.◌∷◌ c x) (clean_of_legal s h.1)

-- The production Char of XML 1.0, of which a code point is at most 0x10FFFF.
abbrev pub IsXmlChar : ℕ → Type 0
IsXmlChar n =
    (n ≡ 0x9)
    ⊎ ((n ≡ 0xA)
        ⊎ ((n ≡ 0xD)
            ⊎ (((0x20 ≤ n) × (n ≤ 0xD7FF)) ⊎ (((0xE000 ≤ n) × (n ≤ 0xFFFD)) ⊎ (0x10000 ≤ n)))))

-- A character that is printed, of ASCII or of Latin-1, or a line feed or a tab.
abbrev pub is_printed : ℕ → Bool
is_printed n = eqb n 0x9 || eqb n 0xA || (leb 0x20 n && leb n 0x7E) || (leb 0xA0 n && leb n 0xFF)

-- The printed characters of a text.
unfoldable pub printed : String → String
printed String.[] = ""
printed (String.◌∷◌ c s) =
    let rest = printed s in if is_printed (code c) then String.◌∷◌ c rest else rest

abbrev pub AllChars : (ℕ → Type 0) → String → Type 0
AllChars P String.[] = Unit
AllChars P (String.◌∷◌ c s) = P (code c) × AllChars P s

outside :
    (low high n : ℕ) (l : List (ℕ × ℕ))
    → is_illegal ((low, high) ∷ l) n ≡ false
    → ((n < low) ⊎ (high < n)) × (is_illegal l n ≡ false)
unfolding is_illegal
outside low high n l h = ground (arith, h)

pub legal-IsXmlChar : (n : ℕ) → is_illegal illegal_ranges n ≡ false → IsXmlChar n
legal-IsXmlChar n h =
    let (a, h1) = outside 0x00 0x08 n _ h in
    let (b, h2) = outside 0x0B 0x1F n _ h1 in
    let (c, h3) = outside 0x7F 0x84 n _ h2 in
    let (d, h4) = outside 0x86 0x9F n _ h3 in
    let (e, h5) = outside 0xD800 0xDFFF n _ h4 in
    let (f, h6) = outside 0xFDD0 0xFDDF n _ h5 in
    let (g, h7) = outside 0xFFFE 0xFFFF n _ h6 in ground arith

pub legal-return : (n : ℕ) → is_illegal illegal_ranges n ≡ false → n ≢ 0xD
legal-return n h e =
    let (a, h1) = outside 0x00 0x08 n _ h in
    let (b, h2) = outside 0x0B 0x1F n _ h1 in omega (arith, b, e)

illegal_unprinted : (n : ℕ) → is_illegal illegal_ranges n ≡ true → is_printed n ≡ false
unfolding is_illegal
illegal_unprinted n h = ground (arith, h)

clean_char-printed :
    (b : Bool) (c : Char) (s t : String)
    → is_illegal illegal_ranges (code c) ≡ b
    → printed t ≡ printed s
    → printed (if b then t else String.◌∷◌ c t) ≡ printed (String.◌∷◌ c s)
unfolding printed
clean_char-printed true c s t e h = rw (illegal_unprinted (code c) e) h
clean_char-printed false c s t e h = ap (λ x. if is_printed (code c) then String.◌∷◌ c x else x) h

printed-clean : (s : String) → printed (clean s) ≡ printed s
unfolding clean printed
printed-clean String.[] = refl
printed-clean (String.◌∷◌ c s) =
    clean_char-printed (is_illegal illegal_ranges (code c)) c s (clean s) refl (printed-clean s)

IsLegal-AllChars : (s : String) → IsLegal s → AllChars IsXmlChar s
IsLegal-AllChars String.[] h = tt
IsLegal-AllChars (String.◌∷◌ c s) h = (legal-IsXmlChar (code c) h.0, IsLegal-AllChars s h.1)

-- Every character of a cleaned text is one of the production Char of XML 1.0; and cleaning loses no
-- printed character of ASCII or of Latin-1, no line feed and no tab: those of the text are, in their
-- order, those of the cleaned text.
pub clean-AllChars : (s : String) → AllChars IsXmlChar (clean s) × (printed (clean s) ≡ printed s)
clean-AllChars s = (IsLegal-AllChars (clean s) (clean-IsLegal s), printed-clean s)

-- A cleaned text is a text that cleaning leaves alone.
pub clean-clean : (s : String) → clean (clean s) ≡ clean s
clean-clean s = clean_of_legal (clean s) (clean-IsLegal s)
