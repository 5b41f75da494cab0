-- ===== src/Tests/IntentTests.antt =====
-- The intent matcher at concrete inputs.
use neuralgentics_broker.Prelude.{ℕ, ◌+◌, ◌*◌, ◌/◌, List, [], ◌∷◌, arith, ltb, leb, eqb}
use Prim.Native.Char.{code}
use neuralgentics_broker.Types.{ToolSummary}
use neuralgentics_broker.Intent.{Unicode, Floats, match_all}
use neuralgentics_broker.Intent.Sorting.{IsOrder, Falling}
use neuralgentics_broker.Intent.Ranking.{match_all-Falling}

-- texts of small letters; scores in whole percents
abbrev letters : Unicode
letters = record { to_lower = λ s. s; is_word = λ c. leb b'a' (code c) }

abbrev percents : Floats ℕ
percents = record {
  origin = 0;
  one = 100;
  ratio = λ i n. i * 100 / n;
  bonus = λ n. n * 5;
  plus = λ x y. x + y;
  exceeds = λ x y. ltb y x;
  is_origin = λ x. eqb x 0;
}

percents-IsOrder : IsOrder percents
percents-IsOrder = record { asym = λ x y h. ground arith; cotrans = λ x y z h k. ground arith }

abbrev fetch : ToolSummary
fetch = record { server = "web"; name = "fetch"; description = "fetch the page" }

abbrev tools : List ToolSummary
tools = record { server = "git"; name = "clone"; description = "fetch a repository" } ∷ fetch ∷ []

match_all-Falling_example : Falling percents (match_all percents letters tools "fetch page" 0)
match_all-Falling_example = match_all-Falling percents letters tools "fetch page" 0 percents-IsOrder
