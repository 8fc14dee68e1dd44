-- ===== src/Junit/Text.antt =====
-- Python's operations on bytes and texts. A text is a `String`, or the list of its code points.
use Prim.Native.Char.{code}
use Prim.Native.String.{count, ◌++◌}
use text.Mathlib.TextLemmas.{length-cons, length-nil}
use agent_bench_x.Prelude.{
  ℕ, suc, zero, ◌-◌, ◌+◌, ◌≤◌, String, Bool, true, false, ◌&&◌, ◌||◌, List, [], ◌∷◌, map, leb, ◌==◌,
  if◌then◌else◌, arith,
}

unfoldable pub starts_with : List ℕ → List ℕ → Bool
starts_with [] text = true
starts_with (p ∷ ps) [] = false
starts_with (p ∷ ps) (c ∷ text) = p == c && starts_with ps text

-- `part in text`
unfoldable pub contains : List ℕ → List ℕ → Bool
contains part [] = starts_with part []
contains part (c ∷ text) = starts_with part (c ∷ text) || contains part text

-- `bytes.upper()`
unfoldable pub upper : List ℕ → List ℕ
upper = map λ c. if leb b'a' c && leb c b'z' then c - 32 else c

-- `str.lower` on the ASCII letters.
unfoldable pub lower : List ℕ → List ℕ
lower = map λ c. if leb b'A' c && leb c b'Z' then c + 32 else c

-- The code points of a text.
abbrev pub codes : String → List ℕ
codes String.[] = []
codes (String.◌∷◌ c s) = code c ∷ codes s

abbrev pub append : String → String → String
append s t = s ++ t

unfoldable pub take_chars : ℕ → String → String
take_chars zero s = ""
take_chars (suc n) String.[] = ""
take_chars (suc n) (String.◌∷◌ c s) = String.◌∷◌ c (take_chars n s)

unfoldable pub drop_chars : ℕ → String → String
drop_chars zero s = s
drop_chars (suc n) String.[] = ""
drop_chars (suc n) (String.◌∷◌ c s) = drop_chars n s

-- `text[:n]` and `text[-n:]` for n > 0
unfoldable pub first_chars : ℕ → String → String
first_chars n s = take_chars n s

unfoldable pub last_chars : ℕ → String → String
last_chars n s = drop_chars (count s - n) s

take_chars-count : (n : ℕ) (s : String) → count (take_chars n s) ≤ n
unfolding take_chars
take_chars-count zero s = omega (arith, length-nil)
take_chars-count (suc n) String.[] = omega (arith, length-nil)
take_chars-count (suc n) (String.◌∷◌ c s) =
    omega (arith, length-cons c (take_chars n s), take_chars-count n s)

drop_chars-count : (n : ℕ) (s : String) → count (drop_chars n s) ≤ count s - n
unfolding drop_chars
drop_chars-count zero s = omega arith
drop_chars-count (suc n) String.[] = omega (arith, length-nil)
drop_chars-count (suc n) (String.◌∷◌ c s) = omega (arith, length-cons c s, drop_chars-count n s)

-- A slice is as short as it says.
pub first_chars-count : (n : ℕ) (s : String) → count (first_chars n s) ≤ n
unfolding first_chars
first_chars-count n s = take_chars-count n s

pub last_chars-count : (n : ℕ) (s : String) → count (last_chars n s) ≤ n
unfolding last_chars
last_chars-count n s = omega (arith, drop_chars-count (count s - n) s)
