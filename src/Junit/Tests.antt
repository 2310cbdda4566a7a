-- ===== src/Junit/Tests.antt =====
-- A report of one failed test case, with times that are shown by their length.
use Prim.Native.Char.{code}
use st_tools.Prelude.{
  Option, Bool, true, ◌&&◌, leb, inl, ◌≤◌, ℕ, zero, suc, ◌≡◌, ◌≢◌, inr, refl, arith, String, none,
  some, List, [], ◌∷◌, ◌++◌, map, ap,
}
use st_tools.Prelude.Exec.{ok}
use st_tools.Junit.{TestCase, TestSuite, clean}
use st_tools.Junit.Nodes.{Times, SuiteNode, dump, load, reread}
use st_tools.Junit.Readable.{IsAttribute}
use st_tools.Junit.Reload.{load-dump}
use st_tools.Junit.Clean.{AllChars, IsXmlChar, printed, clean-AllChars}

strokes : ℕ → String
strokes zero = ""
strokes (suc n) = String.◌∷◌ "1" (strokes n)

count_strokes : String → ℕ
count_strokes String.[] = 0
count_strokes (String.◌∷◌ c s) = suc (count_strokes s)

strokes-back : (n : ℕ) → count_strokes (strokes n) ≡ n
unfolding strokes count_strokes
strokes-back zero = refl
strokes-back (suc n) = ap suc (strokes-back n)

abbrev times : Times
times = record { show_time = strokes; read_time = λ s. some (count_strokes s) }

abbrev broken : TestCase
broken = record {
  name = some "load";
  time = some 3;
  class_name = none;
  log = some "log.txt";
  skipped_message = none;
  error_message = none;
  failure_message = some "down";
}

abbrev report : List TestSuite
report = record { name = some "night"; test_cases = some (broken ∷ []) } ∷ []

clean_down : clean "down" ≡ "down"
unfolding clean
clean_down = refl

down_not_empty : ◌≢◌ {A = String} "down" ""
unfolding count_strokes
down_not_empty e = let h : 4 ≡ 0 = ap count_strokes e in absurd (omega (arith, h))

-- The characters of ASCII from the space on.
is_ascii : ℕ → Bool
is_ascii n = leb 0x20 n && leb n 0x7E

all_ascii : String → Bool
all_ascii String.[] = true
all_ascii (String.◌∷◌ c s) = is_ascii (code c) && all_ascii s

both_true : (a b : Bool) → a && b ≡ true → (a ≡ true) × (b ≡ true)
both_true a b e = ground (arith, e)

ascii-IsXmlChar : (n : ℕ) → is_ascii n ≡ true → IsXmlChar n × (0x20 ≤ n)
unfolding is_ascii
ascii-IsXmlChar n e =
    let (a, b) = both_true (leb 0x20 n) (leb n 0x7E) e in
    (inr (inr (inr (inl (ground (arith, a), ground (arith, b))))), ground (arith, a))

ascii-IsAttribute : (s : String) → all_ascii s ≡ true → IsAttribute s
unfolding all_ascii
ascii-IsAttribute String.[] e = tt
ascii-IsAttribute (String.◌∷◌ c s) e =
    let (a, b) = both_true (is_ascii (code c)) (all_ascii s) e in
    (ascii-IsXmlChar (code c) a, ascii-IsAttribute s b)

strokes_ascii : (n : ℕ) → all_ascii (strokes n) ≡ true
unfolding all_ascii strokes is_ascii
strokes_ascii zero = refl
strokes_ascii (suc n) = strokes_ascii n

names_ascii : (all_ascii "night" ≡ true) × (all_ascii "load" ≡ true) × (all_ascii "log.txt" ≡ true)
unfolding all_ascii is_ascii
names_ascii = (refl, refl, refl)

-- A parser that gives back every node, whatever it holds.
abbrev parse : List SuiteNode → Option (List SuiteNode)
parse l = some (map reread l)

load-dump_example :
    (nodes : List SuiteNode) × (read : List SuiteNode) × (dump times report ≡ ok nodes)
    × (parse nodes ≡ some read)
    × (load times read [] ≡ (ok tt, [] ++ report))
load-dump_example =
    load-dump times parse report [] (λ t. ap some (strokes-back t))
      (λ t. ascii-IsAttribute (strokes t) (strokes_ascii t)) (λ written r. refl)
      (
        (
          ("night", refl),
          (
            broken,
            [],
            refl,
            ((("load", refl), (3, refl), (clean_down, down_not_empty), tt, tt, inr refl), tt),
          ),
        ),
        tt,
      )
      (
        (
          ascii-IsAttribute "night" names_ascii.0,
          (
            (ascii-IsAttribute "load" names_ascii.1, tt, ascii-IsAttribute "log.txt" names_ascii.2),
            tt,
          ),
        ),
        tt,
      )

soiled : clean (String.◌∷◌ "\u{1}" "down") ≡ "down"
unfolding clean
soiled = refl

clean-AllChars_example :
    AllChars IsXmlChar (clean "down") × (printed (clean "down") ≡ printed "down")
clean-AllChars_example = clean-AllChars "down"
