-- ===== src/Version/Order.antt =====
-- The order of versions is total and transitive, as a sort needs.
use st_tools.Prelude.{ℕ, String, true, false, List, [], ◌∷◌, ◌≡◌, refl, arith}
use st_tools.Version.{Part, num, word, parse, word_le, part_le, parts_le, version_le}

word_le-total : (v w : List ℕ) → word_le v w ≡ false → word_le w v ≡ true
unfolding word_le
word_le-total [] w h = ground arith
word_le-total (a ∷ v) [] h = refl
word_le-total (a ∷ v) (b ∷ w) h = ground (arith, word_le-total v w)

word_le_trans : (u v w : List ℕ) → word_le u v ≡ true → word_le v w ≡ true → word_le u w ≡ true
unfolding word_le
word_le_trans [] v w h k = refl
word_le_trans (a ∷ u) [] w h k = ground arith
word_le_trans (a ∷ u) (b ∷ v) [] h k = ground arith
word_le_trans (a ∷ u) (b ∷ v) (c ∷ w) h k = ground (arith, word_le_trans u v w)

part_le-total : (a b : Part) → part_le a b ≡ false → part_le b a ≡ true
unfolding part_le
part_le-total (num a) (num b) h = ground arith
part_le-total (num a) (word w) h = ground arith
part_le-total (word v) (num b) h = refl
part_le-total (word v) (word w) h = word_le-total v w h

part_le_trans : (a b c : Part) → part_le a b ≡ true → part_le b c ≡ true → part_le a c ≡ true
unfolding part_le
part_le_trans (num a) (num b) (num c) h k = ground arith
part_le_trans (word u) (word v) (word w) h k = word_le_trans u v w h k
part_le_trans (num a) (num b) (word w) h k = refl
part_le_trans (num a) (word v) (word w) h k = refl
part_le_trans (num a) (word v) (num c) h k = ground arith
part_le_trans (word u) (num b) c h k = ground arith
part_le_trans (word u) (word v) (num c) h k = ground arith

parts_le-total : (p q : List Part) → parts_le p q ≡ false → parts_le q p ≡ true
unfolding parts_le
parts_le-total [] q h = ground arith
parts_le-total (a ∷ p) [] h = refl
parts_le-total (a ∷ p) (b ∷ q) h = ground (arith, part_le-total a b, parts_le-total p q)

parts_le_trans :
    (p q r : List Part) → parts_le p q ≡ true → parts_le q r ≡ true → parts_le p r ≡ true
unfolding parts_le
parts_le_trans [] q r h k = refl
parts_le_trans (a ∷ p) [] r h k = ground arith
parts_le_trans (a ∷ p) (b ∷ q) [] h k = ground arith
parts_le_trans (a ∷ p) (b ∷ q) (c ∷ r) h k =
    ground
      (arith, part_le_trans a b c, part_le_trans b c a, part_le_trans c a b, parts_le_trans p q r)

-- Of two versions one comes no later than the other.
pub version_le-total : (s t : String) → version_le s t ≡ false → version_le t s ≡ true
unfolding version_le
version_le-total s t h = parts_le-total (parse s) (parse t) h

-- The order of versions is transitive.
pub version_le_trans :
    (s t u : String) → version_le s t ≡ true → version_le t u ≡ true → version_le s u ≡ true
unfolding version_le
version_le_trans s t u h k = parts_le_trans (parse s) (parse t) (parse u) h k
