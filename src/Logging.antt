-- ===== src/Logging.antt =====
-- src/include/logging/logger.hpp and log_type.hpp: a line is cut into elements on a queue, and a
-- thread of the logger's own writes them to a file.
-- A character is its code; a C string is the list of its characters before the null. What the
-- standard library prints for a number is a parameter. A call of FATAL ends the process and is
-- `none`. Opening and closing the file, the thread and its pauses are left out.
pub mod Formatting
pub mod Flushing
use vots.Base.{
  ℕ, zero, suc, ◌==◌, Bool, true, false, Option, none, some, List, [], ◌∷◌, ◌++◌, if◌then◌else◌,
  ◌>>=◌, take,
}
use vots.Base.Int.{ℤ}
use vots.Runtime.LockFreeQueue.{LockFreeQueue, push, get_next_to_read, update_read_index}

-- The tag and the union of an element in one: a constructor for each value of `LogType`.
pub data Element (Float Double : Type 0) : Type 0 where
  char : ℕ → Element Float Double
  integer : ℤ → Element Float Double
  long_integer : ℤ → Element Float Double
  long_long_integer : ℤ → Element Float Double
  unsigned_integer : ℕ → Element Float Double
  unsigned_long_integer : ℕ → Element Float Double
  unsigned_long_long_integer : ℕ → Element Float Double
  float : Float → Element Float Double
  double : Double → Element Float Double
  string : List ℕ → Element Float Double

-- An argument of Log: what an element holds, a C string, or a std::string.
pub data Value (Float Double : Type 0) : Type 0 where
  plain : Element Float Double → Value Float Double
  c_string : List ℕ → Value Float Double
  std_string : List ℕ → Value Float Double

abbrev pub percent : ℕ
percent = 37

-- The characters that strncpy leaves room for.
abbrev pub max_text : ℕ
max_text = 255

-- `c_str()` as a C string: up to the first null.
unfoldable pub c_str : List ℕ → List ℕ
c_str [] = []
c_str (c ∷ cs) = if c == 0 then [] else c ∷ c_str cs

-- What the standard library prints for the integers and for the two floating-point types.
pub record Printing (Float Double : Type 0) : Type 0 where
  pub print_signed : ℤ → List ℕ
  pub print_unsigned : ℕ → List ℕ
  pub print_float : Float → List ℕ
  pub print_double : Double → List ℕ

pub record Logger (Float Double : Type 0) : Type 0 where
  pub queue : LockFreeQueue (Element Float Double)
  pub file : List ℕ

module _ {Float Double : Type 0} where
  -- The element that the overloads of PushValue make.
  unfoldable pub element_of : Value Float Double → Element Float Double
  unfolding c_str
  element_of (plain e) = e
  element_of (c_string s) = string (take max_text s)
  element_of (std_string s) = string (take max_text (c_str s))

  unfoldable pub push_value : Logger Float Double → Value Float Double → Logger Float Double
  unfolding element_of
  push_value l v = record l { queue = push l.queue (element_of v) }

  -- Log, on its format and the arguments that are left; without arguments it is the second overload.
  -- The last character has a null behind it.
  unfoldable pub log :
      Logger Float Double → List ℕ → List (Value Float Double) → Option (Logger Float Double)
  unfolding push_value
  log l [] [] = some l
  log l [] (v ∷ vs) = none
  log l (c ∷ []) args = elim (c == percent) [
    | true ↦ elim args [ [] ↦ none | v ∷ vs ↦ log (push_value l v) [] vs ]
    | false ↦ log (push_value l (plain (char c))) [] args
  ]
  log l (c ∷ next ∷ s) args = elim (c == percent) [
    | true ↦ elim (next == percent) [
      | true ↦ log (push_value l (plain (char next))) s args
      | false ↦ elim args [ [] ↦ none | v ∷ vs ↦ log (push_value l v) (next ∷ s) vs ]
    ]
    | false ↦ log (push_value l (plain (char c))) (next ∷ s) args
  ]

  module _ (p : Printing Float Double) where
    -- `file_ << ...` of an element.
    unfoldable pub printed : Element Float Double → List ℕ
    printed (char c) = c ∷ []
    printed (integer n) = p.print_signed n
    printed (long_integer n) = p.print_signed n
    printed (long_long_integer n) = p.print_signed n
    printed (unsigned_integer n) = p.print_unsigned n
    printed (unsigned_long_integer n) = p.print_unsigned n
    printed (unsigned_long_long_integer n) = p.print_unsigned n
    printed (float x) = p.print_float x
    printed (double x) = p.print_double x
    printed (string s) = s

    -- The inner loop of FlushQueue, on fuel: until nothing is left to read.
    unfoldable pub flush_queue : ℕ → Logger Float Double → Option (Logger Float Double)
    unfolding printed
    flush_queue zero l = none
    flush_queue (suc fuel) l = elim (get_next_to_read l.queue) [
      | none ↦ some l
      | some e ↦ do
        q ← update_read_index l.queue
        flush_queue fuel (record { queue = q; file = l.file ++ printed e })
    ]
