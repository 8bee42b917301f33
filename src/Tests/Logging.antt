-- ===== src/Tests/Logging.antt =====
-- Lines of src/include/logging/logger.hpp. Numbers print as one character.
use vots.Base.{ℕ, suc, ◌≡◌, refl, arith, none, some, List, [], ◌∷◌, ◌++◌}
use vots.Base.Int.{pos, pos_part}
use vots.Runtime.LockFreeQueue
use vots.Runtime.LockFreeQueue.Refine.{IsValid, unread, make-IsValid}
use vots.Logging.{Value, Logger, Printing, char, plain, c_string, integer, log, flush_queue}
use vots.Logging.Formatting.{parts, log_refuses}
use vots.Logging.Flushing.{shown_elements, filled_in, log_then_flush}

abbrev Float : Type 0
Float = Unit

abbrev printing : Printing Float Float
printing = record {
  print_signed = λ n. pos_part n ∷ [];
  print_unsigned = λ n. n ∷ [];
  print_float = λ x. [];
  print_double = λ x. [];
}

abbrev logger : Logger Float Float
logger = record { queue = LockFreeQueue.make 16 (char 0); file = 64 ∷ [] }

-- "%:% 5%%"
abbrev line : List ℕ
line = 37 ∷ 58 ∷ 37 ∷ 32 ∷ 53 ∷ 37 ∷ 37 ∷ []

abbrev arguments : List (Value Float Float)
arguments = c_string (97 ∷ 98 ∷ []) ∷ plain (integer (pos 7)) ∷ []

log_then_flush_example :
    (l₁ : Logger Float Float) × (log logger line arguments ≡ some l₁)
    × (l₂ : Logger Float Float) × (flush_queue printing (suc l₁.queue.num_elements) l₁ ≡ some l₂)
    × (l₂.file
        ≡ 64 ∷ []
          ++ (shown_elements printing (unread logger.queue)
              ++ filled_in printing (parts line) arguments))
    × (unread l₂.queue ≡ [])
    × IsValid l₂.queue
unfolding parts LockFreeQueue.make
log_then_flush_example =
    log_then_flush printing line logger arguments refl
      (make-IsValid 16 (char 0) (omega arith) (omega arith), omega arith)

log_refuses_example : log logger line (plain (integer (pos 7)) ∷ []) ≡ none
unfolding parts
log_refuses_example = log_refuses line logger (plain (integer (pos 7)) ∷ []) (λ e. omega (arith, e))

-- The line is "ab:7 5%", with the number as one character.
filled_line : filled_in printing (parts line) arguments ≡ 97 ∷ 98 ∷ 58 ∷ 7 ∷ 32 ∷ 53 ∷ 37 ∷ []
unfolding parts
filled_line = refl
