-- ===== src/Types.antt =====
-- src/include/common/types.hpp: identifiers, sides, algorithm types, and how they print.
-- An unsigned word is its value, a natural number; a price is a signed integer.
use Prim.Native.String.{String}
use text.Mathlib.Text.{◌==◌ as str_eq}
use vots.Base.{ℕ, suc, zero, ◌+◌, ◌-◌, ◌*◌, ◌^◌, ◌≡◌, refl, Bool, true, false, if◌then◌else◌, ◌==◌}
use vots.Base.Int.{ℤ, pos, negsuc}

-- The limits.
abbrev pub me_max_tickers : ℕ
me_max_tickers = 8

abbrev pub me_max_num_clients : ℕ
me_max_num_clients = 256

abbrev pub me_max_order_ids : ℕ
me_max_order_ids = 1024 * 1024

abbrev pub me_max_price_levels : ℕ
me_max_price_levels = 256

-- `std::numeric_limits<...>::max()` of uint64_t, uint32_t and int64_t.
abbrev pub order_id_invalid : ℕ
order_id_invalid = 2 ^ 64 - 1

abbrev pub ticker_id_invalid : ℕ
ticker_id_invalid = 2 ^ 32 - 1

abbrev pub client_id_invalid : ℕ
client_id_invalid = 2 ^ 32 - 1

abbrev pub price_invalid : ℤ
price_invalid = pos (2 ^ 63 - 1)

abbrev pub qty_invalid : ℕ
qty_invalid = 2 ^ 32 - 1

abbrev pub priority_invalid : ℕ
priority_invalid = 2 ^ 64 - 1

pub data Side : Type 0 where
  invalid buy sell max : Side

abbrev pub side_eq : Side → Side → Bool
side_eq Side.invalid Side.invalid = true
side_eq Side.buy Side.buy = true
side_eq Side.sell Side.sell = true
side_eq Side.max Side.max = true
side_eq _ _ = false

-- The enumerators' values: `SideToValue`.
unfoldable pub side_to_value : Side → ℤ
side_to_value Side.invalid = pos 0
side_to_value Side.buy = pos 1
side_to_value Side.sell = negsuc 0
side_to_value Side.max = pos 2

-- `static_cast<size_t>(side) + 1`; that of SELL, -1, wraps round to 0.
unfoldable pub side_to_index : Side → ℕ
side_to_index Side.invalid = 1
side_to_index Side.buy = 2
side_to_index Side.sell = 0
side_to_index Side.max = 3

unfoldable pub side_to_string : Side → String
side_to_string Side.buy = "BUY"
side_to_string Side.sell = "SELL"
side_to_string Side.invalid = "INVALID"
side_to_string Side.max = "MAX"

pub data AlgoType : Type 0 where
  invalid random maker taker max : AlgoType

unfoldable pub algo_type_to_string : AlgoType → String
algo_type_to_string AlgoType.random = "RANDOM"
algo_type_to_string AlgoType.maker = "MAKER"
algo_type_to_string AlgoType.taker = "TAKER"
algo_type_to_string AlgoType.invalid = "INVALID"
algo_type_to_string AlgoType.max = "MAX"

-- `static_cast<AlgoType>(i)` for the values that the loop below takes, 0 to 4.
algo_type_of : ℕ → AlgoType
algo_type_of i =
    if i == 0
    then AlgoType.invalid
    else if i == 1
    then AlgoType.random
    else if i == 2
    then AlgoType.maker
    else if i == 3
    then AlgoType.taker
    else AlgoType.max

-- The loop, with the number of rounds left.
find_algo_type : ℕ → ℕ → String → AlgoType
unfolding algo_type_of algo_type_to_string
find_algo_type zero i str = AlgoType.invalid
find_algo_type (suc rounds) i str =
    let rest = find_algo_type rounds (i + 1) str in
    if str_eq (algo_type_to_string (algo_type_of i)) str then algo_type_of i else rest

unfoldable pub string_to_algo_type : String → AlgoType
unfolding find_algo_type
string_to_algo_type str = find_algo_type 5 0 str

-- Printing an algorithm type and reading it back gives that type, for every type.
pub algo_type-round_trip : (a : AlgoType) → string_to_algo_type (algo_type_to_string a) ≡ a
unfolding string_to_algo_type
algo_type-round_trip AlgoType.invalid = refl
algo_type-round_trip AlgoType.random = refl
algo_type-round_trip AlgoType.maker = refl
algo_type-round_trip AlgoType.taker = refl
algo_type-round_trip AlgoType.max = refl
