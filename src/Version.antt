-- ===== src/Version.antt =====
-- `distutils.version.LooseVersion` of Python 2, which the build handler sorts by: a version is
-- split into numbers and words, and versions compare as the lists of these do.
pub mod Order
pub mod Sort
use Prim.Native.Char.{Char, code}
use st_tools.Prelude.{
  ℕ, ◌+◌, ◌-◌, ◌*◌, String, Bool, true, false, ◌&&◌, List, [], ◌∷◌, ltb, leb, eqb, if◌then◌else◌,
}

-- What the pattern `(\d+ | [a-z]+ | \.)` tells apart.
pub data CharKind : Type 0 where
  digit lower dot other : CharKind

kind : Char → CharKind
kind c =
    if leb b'0' (code c) && leb (code c) b'9'
    then digit
    else if leb b'a' (code c) && leb (code c) b'z'
    then lower
    else if eqb (code c) b'.'
    then dot
    else other

same_kind : CharKind → CharKind → Bool
same_kind digit digit = true
same_kind lower lower = true
same_kind dot dot = true
same_kind other other = true
same_kind _ _ = false

-- A component of a version: a number, or a text by its code points.
pub data Part : Type 0 where
  num : ℕ → Part
  word : List ℕ → Part

-- The pieces between and within the matches, each a run of characters of one kind.
push : CharKind → ℕ → List (CharKind × List ℕ) → List (CharKind × List ℕ)
push k c [] = (k, c ∷ []) ∷ []
push k c ((j, w) ∷ rs) = if same_kind k j then (j, c ∷ w) ∷ rs else (k, c ∷ []) ∷ (j, w) ∷ rs

runs : String → List (CharKind × List ℕ)
runs String.[] = []
runs (String.◌∷◌ c s) = push (kind c) (code c) (runs s)

-- `int` of a run of digits.
decimal : ℕ → List ℕ → ℕ
decimal n [] = n
decimal n (c ∷ w) = decimal (n * 10 + (c - b'0')) w

-- Dots are dropped and runs of digits become numbers.
parts_of : List (CharKind × List ℕ) → List Part
parts_of [] = []
parts_of ((digit, w) ∷ rs) = num (decimal 0 w) ∷ parts_of rs
parts_of ((dot, w) ∷ rs) = parts_of rs
parts_of ((lower, w) ∷ rs) = word w ∷ parts_of rs
parts_of ((other, w) ∷ rs) = word w ∷ parts_of rs

unfoldable pub parse : String → List Part
unfolding kind same_kind push runs decimal parts_of
parse s = parts_of (runs s)

-- Whether one text comes no later than another.
unfoldable pub word_le : List ℕ → List ℕ → Bool
word_le [] w = true
word_le (a ∷ v) [] = false
word_le (a ∷ v) (b ∷ w) =
    let rest = word_le v w in if ltb a b then true else if ltb b a then false else rest

-- Python 2 puts every number before every text.
unfoldable pub part_le : Part → Part → Bool
unfolding word_le
part_le (num a) (num b) = leb a b
part_le (num a) (word w) = true
part_le (word v) (num b) = false
part_le (word v) (word w) = word_le v w

-- Lists compare by their first difference, a proper prefix comes first.
unfoldable pub parts_le : List Part → List Part → Bool
unfolding part_le
parts_le [] q = true
parts_le (a ∷ p) [] = false
parts_le (a ∷ p) (b ∷ q) =
    let rest = parts_le p q in if part_le a b then (if part_le b a then rest else true) else false

-- `not (LooseVersion(t) < LooseVersion(s))`
unfoldable pub version_le : String → String → Bool
unfolding parse parts_le
version_le s t = parts_le (parse s) (parse t)
