-- ===== src/Logging/Flushing.antt =====
-- What the logger's thread writes to the file.
use vots.Base.{
  ℕ, zero, suc, take, arith, ◌≡◌, refl, sym, ap, subst, ◌∙◌, some, List, [], ◌∷◌, ◌++◌, append-nil,
  append_assoc, length,
}
use vots.Runtime.LockFreeQueue.Refine.{IsValid, unread, unread-read, unread-nil, length-unread}
use vots.Runtime.LockFreeQueue.Room.{HasRoom}
use vots.Logging.{
  Element, Value, Logger, Printing, log, printed, flush_queue, char, integer, long_integer,
  long_long_integer, unsigned_integer, unsigned_long_integer, unsigned_long_long_integer, float,
  double, string, plain, c_string, std_string, c_str, element_of,
}
use vots.Logging.Formatting.{Part, literal, hole, parts, holes, entries, log-Logs}

-- The characters of a std::string before its first null.
abbrev pub before_null : List ℕ → List ℕ
before_null [] = []
before_null (zero ∷ cs) = []
before_null (suc c ∷ cs) = suc c ∷ before_null cs

c_str-before_null : (s : List ℕ) → c_str s ≡ before_null s
unfolding c_str
c_str-before_null [] = refl
c_str-before_null (zero ∷ cs) = refl
c_str-before_null (suc c ∷ cs) = rw (c_str-before_null cs) (ground arith)

module _ {Float Double : Type 0} (p : Printing Float Double) where
  -- The text of some elements.
  abbrev pub text : List (Element Float Double) → List ℕ
  text [] = []
  text (e ∷ es) = printed p e ++ text es

  -- The queue has been written to the file, and is empty.
  abbrev pub Flushed :
      Logger Float Double → List (Element Float Double) → Logger Float Double → Type 0
  Flushed l es l' = (l'.file ≡ l.file ++ text es) × (unread l'.queue ≡ []) × IsValid l'.queue

  flush_queue-Flushed :
      (es : List (Element Float Double)) (l : Logger Float Double)
      → IsValid l.queue
      → unread l.queue ≡ es
      → (l' : Logger Float Double) × (flush_queue p (suc (length es)) l ≡ some l') × Flushed l es l'
  unfolding flush_queue
  flush_queue-Flushed [] l v u =
      (l, rw (unread-nil l.queue u, flush_queue) refl, (sym (append-nil l.file), u, v))
  flush_queue-Flushed (e ∷ es) l v u =
      let (read, q, moved, u', v') = unread-read l.queue e es v u in
      let (l', done, (written, empty, valid)) =
        flush_queue-Flushed es (record { queue = q; file = l.file ++ printed p e }) v' u' in
      (
        l',
        rw (read, moved, flush_queue) done,
        (written ∙ append_assoc l.file (printed p e) (text es), empty, valid),
      )

  -- What stands in the file for an argument: for a string at most 255 characters, up to the first
  -- null of a std::string.
  abbrev pub shown_element : Element Float Double → List ℕ
  shown_element (char c) = c ∷ []
  shown_element (integer n) = p.print_signed n
  shown_element (long_integer n) = p.print_signed n
  shown_element (long_long_integer n) = p.print_signed n
  shown_element (unsigned_integer n) = p.print_unsigned n
  shown_element (unsigned_long_integer n) = p.print_unsigned n
  shown_element (unsigned_long_long_integer n) = p.print_unsigned n
  shown_element (float x) = p.print_float x
  shown_element (double x) = p.print_double x
  shown_element (string s) = s

  abbrev pub shown : Value Float Double → List ℕ
  shown (plain e) = shown_element e
  shown (c_string s) = take 255 s
  shown (std_string s) = take 255 (before_null s)

  -- The format with its places filled.
  abbrev pub filled_in : List Part → List (Value Float Double) → List ℕ
  filled_in [] vs = []
  filled_in (literal c ∷ ps) vs = c ∷ filled_in ps vs
  filled_in (hole ∷ ps) [] = filled_in ps []
  filled_in (hole ∷ ps) (v ∷ vs) = shown v ++ filled_in ps vs

  -- The text of elements that are already queued.
  abbrev pub shown_elements : List (Element Float Double) → List ℕ
  shown_elements [] = []
  shown_elements (e ∷ es) = shown_element e ++ shown_elements es

  printed-shown : (e : Element Float Double) → printed p e ≡ shown_element e
  unfolding printed
  printed-shown (char c) = refl
  printed-shown (integer n) = refl
  printed-shown (long_integer n) = refl
  printed-shown (long_long_integer n) = refl
  printed-shown (unsigned_integer n) = refl
  printed-shown (unsigned_long_integer n) = refl
  printed-shown (unsigned_long_long_integer n) = refl
  printed-shown (float x) = refl
  printed-shown (double x) = refl
  printed-shown (string s) = refl

  element_of-shown : (v : Value Float Double) → printed p (element_of v) ≡ shown v
  unfolding element_of printed
  element_of-shown (plain e) = printed-shown e
  element_of-shown (c_string s) = refl
  element_of-shown (std_string s) = ap (take 255) (c_str-before_null s)

  text-shown : (es : List (Element Float Double)) → text es ≡ shown_elements es
  text-shown [] = refl
  text-shown (e ∷ es) = rw (printed-shown e, text-shown es) refl

  text-append : (xs ys : List (Element Float Double)) → text (xs ++ ys) ≡ text xs ++ text ys
  text-append [] ys = refl
  text-append (x ∷ xs) ys =
      ap (λ t. printed p x ++ t) (text-append xs ys)
      ∙ sym (append_assoc (printed p x) (text xs) (text ys))

  text-filled_in :
      (ps : List Part) (vs : List (Value Float Double)) → text (entries ps vs) ≡ filled_in ps vs
  text-filled_in [] vs = refl
  text-filled_in (literal c ∷ ps) vs =
      ap (λ t. printed p (char c) ++ t) (text-filled_in ps vs)
      ∙ ap (λ t. t ++ filled_in ps vs) (printed-shown (char c))
  text-filled_in (hole ∷ ps) [] = text-filled_in ps []
  text-filled_in (hole ∷ ps) (v ∷ vs) =
      ap (λ t. printed p (element_of v) ++ t) (text-filled_in ps vs)
      ∙ ap (λ t. t ++ filled_in ps vs) (element_of-shown v)

  -- A line that is logged and then flushed stands in the file, behind what the file held and what
  -- was queued: the format with each place filled by its argument, of a string at most the first 255
  -- characters; and the queue is empty. The format has as many places as there are arguments, and
  -- the queue has room for its elements.
  pub log_then_flush :
      (s : List ℕ) (l : Logger Float Double) (args : List (Value Float Double))
      → holes (parts s) ≡ length args
      → HasRoom l.queue (length (entries (parts s) args))
      → (l₁ : Logger Float Double) × (log l s args ≡ some l₁)
        × (l₂ : Logger Float Double) × (flush_queue p (suc l₁.queue.num_elements) l₁ ≡ some l₂)
        × (l₂.file ≡ l.file ++ (shown_elements (unread l.queue) ++ filled_in (parts s) args))
        × (unread l₂.queue ≡ [])
        × IsValid l₂.queue
  log_then_flush s l args h room =
      let (l₁, logged, (received, same_file)) = log-Logs Float Double s l args h room in
      let (l₂, done, (written, empty, valid)) =
        flush_queue-Flushed (unread l.queue ++ entries (parts s) args) l₁ received.1 received.0 in
      let line =
        text-append (unread l.queue) (entries (parts s) args)
        ∙ (ap (λ t. t ++ text (entries (parts s) args)) (text-shown (unread l.queue))
            ∙ ap (λ t. shown_elements (unread l.queue) ++ t) (text-filled_in (parts s) args)) in
      (
        l₁,
        logged,
        l₂,
        subst (λ n. flush_queue p (suc n) l₁ ≡ some l₂)
            (ap length (sym received.0) ∙ length-unread l₁.queue) done,
        written
            ∙ (ap (λ f. f ++ text (unread l.queue ++ entries (parts s) args)) same_file
                ∙ ap (λ t. l.file ++ t) line),
        empty,
        valid,
      )
