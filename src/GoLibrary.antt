-- ===== src/GoLibrary.antt =====
-- What the modelled packages use of Go's `unicode`, `strings`, `strconv`, `math`, `math/big`, `sort`, `time` and
-- of golang.org/x/text, as a parameter: the tables, the floating point and the calendar are theirs.
use bepaylot.Prelude.{ℕ, suc, Text, Bool, false, Option, List, ◌≡◌, length}

-- `Float` stands for `float64`.
pub record Unicode (Float : Type 0) : Type 0 where
  -- unicode.IsSpace, unicode.IsDigit, unicode.IsLetter
  pub is_space : ℕ → Bool
  pub is_digit : ℕ → Bool
  pub is_letter : ℕ → Bool
  -- unicode.Is(unicode.Co, r), unicode.IsControl
  pub is_private : ℕ → Bool
  pub is_control : ℕ → Bool
  -- strings.EqualFold, strings.ToUpper, strings.ToLower
  pub equal_fold : Text → Text → Bool
  pub to_upper : Text → Text
  pub to_lower : Text → Text
  -- transform.String with the chain NFD, removal of unicode.Mn, NFC; `none` on an error
  pub strip_marks : Text → Option Text
  -- strconv.ParseFloat(s, 64), `none` on an error
  pub parse_float : Text → Option Float

-- A signed count of days, months or years: `int(x)`.
pub data ℤ : Type 0 where
  pos : ℕ → ℤ
  negsuc : ℕ → ℤ

-- The result of `time.Time.Compare` and `strings.Compare`: -1, 0 or 1.
pub data Sign : Type 0 where
  below equal above : Sign

-- float64 and package math.
pub record Floats (Float : Type 0) : Type 0 where
  pub from_nat : ℕ → Float
  pub plus : Float → Float → Float
  pub minus : Float → Float → Float
  pub times : Float → Float → Float
  pub over : Float → Float → Float
  pub abs : Float → Float
  pub trunc : Float → Float
  pub round : Float → Float
  -- math.Pow(10, p)
  pub pow_ten : Float → Float
  -- a == b, a < b, a >= b
  pub eq : Float → Float → Bool
  pub lt : Float → Float → Bool
  pub ge : Float → Float → Bool
  -- the constants 0.005, 0.8 and 1e15
  pub half_cent : Float
  pub four_fifths : Float
  pub ten_to_15 : Float
  -- int(x); strconv.FormatInt(int64(x), 10) of an x that is not negative;
  -- strconv.FormatFloat(x, 'f', 2, 64)
  pub to_int : Float → ℤ
  pub format_int : Float → Text
  pub format_fixed2 : Float → Text
  -- sort.Float64s, which keeps the number of its items
  pub sort : List Float → List Float
  pub length-sort : (xs : List Float) → length (sort xs) ≡ length xs

-- Package time.
pub record Calendar (Time : Type 0) : Type 0 where
  -- time.Parse(layout, s), `none` on an error
  pub parse_layout : Text → Text → Option Time
  pub format : Text → Time → Text
  pub compare : Time → Time → Sign
  -- AddDate(years, months, days)
  pub add_date : ℤ → ℤ → ℤ → Time → Time
  -- midnight UTC of the date of time.Now()
  pub today : Time

-- Formatting verbs of package fmt: %q and %d.
pub record Formats : Type 0 where
  pub quote : Text → Text
  pub decimal : ℕ → Text

pub record Library (Float Time : Type 0) : Type 0 where
  pub unicode : Unicode Float
  pub floats : Floats Float
  pub calendar : Calendar Time
  pub formats : Formats

-- math/big: the methods of *big.Int and *big.Rat that the code uses, as functions.
pub record BigNumbers (Int Rat : Type 0) : Type 0 where
  -- x.Sign() == 0, x.Sign() < 0, x.CmpAbs(big.NewInt(n)) > 0
  pub int_is_zero : Int → Bool
  pub int_is_negative : Int → Bool
  pub int_exceeds : Int → ℕ → Bool
  -- the absolute value of x.Int64(), which is read only where int_exceeds says that it fits
  pub magnitude : Int → ℕ
  -- big.NewInt(n), x.Exp(x, n, nil), x.Quo(x, y), x.Div(x, y), x.Mod(x, big.NewInt(n)).Sign() == 0
  pub int_of : ℕ → Int
  pub int_exp : Int → ℕ → Int
  pub int_quo : Int → Int → Int
  pub int_div : Int → Int → Int
  -- x.SetString(s, 10), `none` if it is not ok; x.String()
  pub read_int : Text → Option Int
  pub int_text : Int → Text
  -- the value of an integer that is not negative
  pub to_nat : Int → ℕ
  pub add : Rat → Rat → Rat
  pub sub : Rat → Rat → Rat
  pub mul : Rat → Rat → Rat
  pub quo : Rat → Rat → Rat
  pub neg : Rat → Rat
  pub abs : Rat → Rat
  -- x.Sign() == 0, x.Sign() < 0, x.Cmp(y) < 0
  pub is_zero : Rat → Bool
  pub is_negative : Rat → Bool
  pub less : Rat → Rat → Bool
  pub is_int : Rat → Bool
  pub num : Rat → Int
  pub denom : Rat → Int
  pub of_int : Int → Rat
  pub of_frac : Int → Int → Rat
  -- x.SetString(s), `none` if it is not ok; x.FloatString(n)
  pub read_rat : Text → Option Rat
  pub float_string : Rat → ℕ → Text
  -- A denominator is positive; a power is zero only if its base is; SetInt and SetFrac give zero only for a
  -- zero numerator; a positive number is not zero.
  pub denom-int_is_zero : (r : Rat) → int_is_zero (denom r) ≡ false
  pub exp-int_is_zero :
      (x : Int) (n : ℕ) → int_is_zero x ≡ false → int_is_zero (int_exp x n) ≡ false
  pub of_int-is_zero : (x : Int) → int_is_zero x ≡ false → is_zero (of_int x) ≡ false
  pub of_frac-is_zero : (x y : Int) → int_is_zero x ≡ false → is_zero (of_frac x y) ≡ false
  pub int_of-int_is_zero : (n : ℕ) → int_is_zero (int_of (suc n)) ≡ false
